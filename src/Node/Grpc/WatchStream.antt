-- ===== src/Node/Grpc/WatchStream.antt =====
-- grpc.rs: `watch_impl` and `watch_stream`. The runtime picks a branch of each `select!`: which one,
-- when, and what the receiver answers is the argument `Wake`. Metrics and the gauge are left out.
pub mod Beats
pub mod Stopped
mod Examples
use ferriskv.Prelude.{ℕ, ◌+◌, ◌*◌, Option, none, some, List, [], ◌∷◌, ◌++◌, if◌then◌else◌}
use ferriskv.Prelude.Bytes.{Bytes, starts_with}
use ferriskv.Core.Storage.FjallStorage.{Fjall}
use ferriskv.Node.Watch
use ferriskv.Node.Watch.{Broadcast, KeyChange, ChangeKind}
use ferriskv.Node.Throttle.{Governor}
use ferriskv.Node.Status.{Reply, reply, Rpc, ◌>>=◌, ◌>>◌, check, give, deny, data_loss, fell_behind}
use ferriskv.Node.Grpc.Checks.{perm_watch, enforce_key_size}
use ferriskv.Node.Grpc.Handlers.{Request, GrpcApi, allowed, admit}

pub data WatchEventKind : Type 0 where
  put delete heartbeat : WatchEventKind

pub record WatchEvent : Type 0 where
  pub kind : WatchEventKind
  pub key : Bytes
  pub value : Bytes

abbrev pub event_kind : ChangeKind → WatchEventKind
event_kind Watch.put = put
event_kind Watch.delete = delete

abbrev pub to_watch_event : KeyChange → WatchEvent
to_watch_event change = record {
  kind = event_kind change.kind;
  key = change.key;
  value = change.value;
}

abbrev pub heartbeat_event : WatchEvent
heartbeat_event = record { kind = heartbeat; key = []; value = [] }

-- Times in milliseconds.
pub record WatchState : Type 0 where
  pub prefix : Bytes
  pub heartbeat : ℕ
  pub next_beat : ℕ
  pub tenant : Bytes

abbrev pub defer_heartbeat : ℕ → WatchState → WatchState
defer_heartbeat now s = record s { next_beat = now + s.heartbeat }

-- What `rx.recv()` answers.
pub data Received : Type 0 where
  change : KeyChange → Received
  lagged : ℕ → Received
  closed : Received

-- The branch that is taken, and when; `idle` is ready once `next_beat` has come.
pub data Wake : Type 0 where
  idle : ℕ → Wake
  received : ℕ → Received → Wake

-- One round of the loop: `continue`, or what the closure returns.
pub data Round : Type 0 where
  continues : WatchState → Round
  yields : Reply WatchEvent → Option WatchState → Round
  ends : Round

unfoldable pub on_change : WatchState → ℕ → KeyChange → Round
on_change s now c =
    if starts_with c.key s.prefix
    then yields (reply (to_watch_event c)) (some (defer_heartbeat now s))
    else continues s

unfoldable pub round : WatchState → Wake → Round
unfolding on_change
round s (idle now) = yields (reply heartbeat_event) (some (defer_heartbeat now s))
round s (received now (change c)) = on_change s now c
round s (received now (lagged missed)) = yields (deny data_loss (fell_behind missed)) none
round s (received now closed) = ends

-- What a round leaves: what it yields, and the state if the stream goes on.
abbrev pub output : Round → List (Reply WatchEvent)
output (continues s) = []
output (yields r next) = r ∷ []
output ends = []

abbrev pub after_round : Round → Option WatchState
after_round (continues s) = some s
after_round (yields r next) = next
after_round ends = none

-- `futures::stream::unfold`, over the wakes that there are: what the client is given.
unfoldable pub watch_stream : Option WatchState → List Wake → List (Reply WatchEvent)
unfolding round
watch_stream state [] = []
watch_stream none (w ∷ ws) = []
watch_stream (some s) (w ∷ ws) = output (round s w) ++ watch_stream (after_round (round s w)) ws

pub record WatchRequest : Type 0 where
  pub tenant : Bytes
  pub prefix : Bytes

module _ {F : Fjall} {B : Broadcast} {G : Governor} where
  subscribed : GrpcApi F B G → B.Receiver × Watch.WatchHub B → Reply B.Receiver × GrpcApi F B G
  subscribed api (rx, hub) = (reply rx, record api { inner = record (api.inner) { watch = hub } })

  -- The receiver and the state that the stream starts with.
  unfoldable pub watch_impl :
      ℕ → ℕ → Request WatchRequest → Rpc (GrpcApi F B G) (B.Receiver × WatchState)
  unfolding admit subscribed
  watch_impl at now req =
      let r = req.body in
      do
        allowed req.principal r.tenant perm_watch
        admit at r.tenant 1
        check (λ api. enforce_key_size api.limits r.prefix)
        rx ← (λ api. subscribed api (Watch.subscribe api.inner.watch r.tenant))
        check (λ api. reply (
          rx,
          record {
            prefix = r.prefix;
            heartbeat = api.watch_heartbeat_secs * 1000;
            next_beat = now + api.watch_heartbeat_secs * 1000;
            tenant = r.tenant;
          },
        ))
