-- ===== src/Node/Grpc/WatchStream/Examples.antt =====
-- grpc.rs: a stream on the prefix "c" that sees an idle time, two changes and a loss.
use ferriskv.Prelude.{ℕ, ◌+◌, ◌≡◌, refl, some, List, [], ◌∷◌}
use ferriskv.Prelude.Bytes.{Bytes, starts_with}
use ferriskv.Node.Watch.{KeyChange}
use ferriskv.Node.Watch as Watch
use ferriskv.Node.Grpc.WatchStream.{
  WatchState, Wake, idle, received, change, lagged, round, on_change, watch_stream,
}
use ferriskv.Node.Grpc.WatchStream.Beats.{state_after, last_event, next_beat_lem}
use ferriskv.Node.Grpc.WatchStream.Stopped.{seen, watch_stream-eq-seen}

abbrev state : WatchState
state = record { prefix = b'c' ∷ []; heartbeat = 40; next_beat = 40; tenant = b'a' ∷ [] }

abbrev put : Bytes → KeyChange
put key = record { kind = Watch.put; key = key; value = [] }

abbrev wakes : List Wake
wakes =
    received 10 (change (put (b'c' ∷ b'd' ∷ [])))
    ∷ received 30 (change (put (b'd' ∷ [])))
    ∷ received 45 (change (put (b'e' ∷ [])))
    ∷ []

watch_stream-eq-seen_example :
    watch_stream (some state) (idle 40 ∷ received 50 (lagged 3) ∷ wakes)
    ≡ seen (b'c' ∷ []) (idle 40 ∷ received 50 (lagged 3) ∷ wakes)
watch_stream-eq-seen_example = watch_stream-eq-seen state (idle 40 ∷ received 50 (lagged 3) ∷ wakes)

going_on : state_after wakes (some state) ≡ some (record state { next_beat = 50 })
unfolding state_after round on_change starts_with
going_on = refl

next_beat_lem_example : ◌≡◌ {A = ℕ} 50 (last_event (b'c' ∷ []) 0 wakes + 40)
next_beat_lem_example = next_beat_lem wakes state (record state { next_beat = 50 }) 0 refl going_on
