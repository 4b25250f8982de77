-- ===== src/Node/Grpc/WatchStream/Stopped.antt =====
-- grpc.rs: what the client of `watch_stream` gets to see.
use ferriskv.Prelude.{
  ◌≡◌, refl, ap, inl, inr, none, some, List, [], ◌∷◌, ◌++◌, if◌then◌else◌, Bool-cases,
}
use ferriskv.Prelude.Bytes.{Bytes, starts_with}
use ferriskv.Node.Status.{Reply, reply, deny, data_loss, fell_behind}
use ferriskv.Node.Grpc.WatchStream.{
  WatchEvent, WatchState, Wake, idle, received, change, lagged, closed, to_watch_event,
  heartbeat_event, defer_heartbeat, watch_stream,
}

-- What a client that asks for `prefix` is to see of the wakes: a heartbeat at each idle one, each
-- change under the prefix in order, and nothing behind the first loss but its report.
unfoldable pub seen : Bytes → List Wake → List (Reply WatchEvent)
seen prefix [] = []
seen prefix (idle now ∷ ws) = reply heartbeat_event ∷ seen prefix ws
seen prefix (received now (change c) ∷ ws) =
    (if starts_with c.key prefix then reply (to_watch_event c) ∷ [] else []) ++ seen prefix ws
seen prefix (received now (lagged missed) ∷ ws) = deny data_loss (fell_behind missed) ∷ []
seen prefix (received now closed ∷ ws) = []

ended : (ws : List Wake) → watch_stream none ws ≡ []
unfolding watch_stream
ended [] = refl
ended (w ∷ ws) = refl

-- A stream yields a heartbeat whenever it was idle and every change under its prefix in the order
-- that they arrive, and no other change; at the first loss it yields how much it lost and then ends,
-- and it ends where the feed does.
pub watch_stream-eq-seen :
    (s : WatchState) (ws : List Wake) → watch_stream (some s) ws ≡ seen s.prefix ws
unfolding watch_stream seen
watch_stream-eq-seen s [] = refl
watch_stream-eq-seen s (idle now ∷ ws) =
    ap (λ (l : List (Reply WatchEvent)). reply heartbeat_event ∷ l)
      (watch_stream-eq-seen (defer_heartbeat now s) ws)
watch_stream-eq-seen s (received now (change c) ∷ ws) =
    let kept = watch_stream-eq-seen s ws in
    let deferred = watch_stream-eq-seen (defer_heartbeat now s) ws in
    elim (Bool-cases (starts_with c.key s.prefix)) [
      | inl h ↦ rw h (ap (λ (l : List (Reply WatchEvent)). reply (to_watch_event c) ∷ l) deferred)
      | inr h ↦ rw h kept
    ]
watch_stream-eq-seen s (received now (lagged missed) ∷ ws) =
    ap (λ (l : List (Reply WatchEvent)). deny data_loss (fell_behind missed) ∷ l) (ended ws)
watch_stream-eq-seen s (received now closed ∷ ws) = ended ws
