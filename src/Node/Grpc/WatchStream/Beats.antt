-- ===== src/Node/Grpc/WatchStream/Beats.antt =====
-- grpc.rs: when the next heartbeat of a stream is due.
use ferriskv.Prelude.{
  ℕ, ◌+◌, ◌≡◌, refl, inl, inr, Option, none, some, List, [], ◌∷◌, if◌then◌else◌, Bool-cases, arith,
}
use ferriskv.Prelude.Bytes.{Bytes, starts_with}
use ferriskv.Node.Grpc.WatchStream.{
  WatchState, Wake, idle, received, change, lagged, closed, round, on_change, after_round,
  defer_heartbeat,
}

-- The state behind the wakes, `none` if the stream has ended.
unfoldable pub state_after : List Wake → Option WatchState → Option WatchState
state_after [] state = state
state_after (w ∷ ws) none = none
state_after (w ∷ ws) (some s) = state_after ws (after_round (round s w))

-- When the client last got an event: at an idle wake, or at a change under its prefix.
unfoldable pub last_event : Bytes → ℕ → List Wake → ℕ
last_event prefix t [] = t
last_event prefix t (idle now ∷ ws) = last_event prefix now ws
last_event prefix t (received now (change c) ∷ ws) =
    last_event prefix (if starts_with c.key prefix then now else t) ws
last_event prefix t (received now (lagged n) ∷ ws) = last_event prefix t ws
last_event prefix t (received now closed ∷ ws) = last_event prefix t ws

ended : {s' : WatchState} (ws : List Wake) → ¬ (state_after ws none ≡ some s')
unfolding state_after
ended [] h = cc
ended (w ∷ ws) h = cc

-- As long as a stream goes on, its next heartbeat is due one period after the last event that the
-- client got, or after the start: no number of changes outside the prefix puts it off.
pub next_beat_lem :
    (ws : List Wake) (s s' : WatchState) (t : ℕ)
    → s.next_beat ≡ t + s.heartbeat
    → state_after ws (some s) ≡ some s'
    → s'.next_beat ≡ last_event s.prefix t ws + s.heartbeat
unfolding state_after last_event round on_change
next_beat_lem [] s s' t due h = ground arith
next_beat_lem (idle now ∷ ws) s s' t due h = next_beat_lem ws (defer_heartbeat now s) s' now refl h
next_beat_lem (received now (change c) ∷ ws) s s' t due h =
    elim (Bool-cases (starts_with c.key s.prefix)) [
      | inl m ↦ rw m (next_beat_lem ws (defer_heartbeat now s) s' now refl (rw m at h))
      | inr m ↦ rw m (next_beat_lem ws s s' t due (rw m at h))
    ]
next_beat_lem (received now (lagged n) ∷ ws) s s' t due h = absurd (ended ws h)
next_beat_lem (received now closed ∷ ws) s s' t due h = absurd (ended ws h)
