-- ===== src/Node/Watch.antt =====
-- crates/ferriskv-node/src/watch.rs: `WatchHub`. The channels of `tokio::sync::broadcast` are a
-- parameter.
pub mod Channel
pub mod Delivery
mod Examples
use ferriskv.Prelude.{ℕ, Bool, false, Option, none, some, [], ltb, ◌==◌, if◌then◌else◌}
use ferriskv.Prelude.Bytes.{Bytes}
use ferriskv.Prelude.Assoc.{Map, lookup, insert, remove}

pub data ChangeKind : Type 0 where
  put delete : ChangeKind

pub record KeyChange : Type 0 where
  pub kind : ChangeKind
  pub key : Bytes
  pub value : Bytes

-- What the code calls of a broadcast channel.
pub record Broadcast : Type 1 where
  pub Sender : Type 0
  pub Receiver : Type 0
  pub channel : ℕ → Sender
  pub subscribe : Sender → Receiver × Sender
  pub receiver_count : Sender → ℕ
  pub send : Sender → KeyChange → Sender

module _ (B : Broadcast) where
  pub record WatchHub : Type 0 where
    pub capacity : ℕ
    pub channels : Map B.Sender

module _ {B : Broadcast} where
  abbrev pub new : ℕ → WatchHub B
  new capacity = record { capacity = capacity; channels = [] }

  with_receiver : WatchHub B → Bytes → B.Receiver × B.Sender → B.Receiver × WatchHub B
  with_receiver hub tenant (rx, tx) = (rx, record hub { channels = insert tenant tx hub.channels })

  subscribe_at : WatchHub B → Bytes → Option B.Sender → B.Receiver × WatchHub B
  subscribe_at hub tenant (some tx) = with_receiver hub tenant (B.subscribe tx)
  subscribe_at hub tenant none = with_receiver hub tenant (B.subscribe (B.channel hub.capacity))

  unfoldable pub subscribe : WatchHub B → Bytes → B.Receiver × WatchHub B
  unfolding with_receiver subscribe_at
  subscribe hub tenant = subscribe_at hub tenant (lookup tenant hub.channels)

  unfoldable pub is_watched : WatchHub B → Bytes → Bool
  is_watched hub tenant = elim (lookup tenant hub.channels) [
    | none ↦ false
    | some tx ↦ ltb 0 (B.receiver_count tx)
  ]

  publish_at : WatchHub B → Bytes → KeyChange → Option B.Sender → WatchHub B
  publish_at hub tenant change none = hub
  publish_at hub tenant change (some tx) =
      if B.receiver_count tx == 0
      then record hub { channels = remove tenant hub.channels }
      else record hub { channels = insert tenant (B.send tx change) hub.channels }

  unfoldable pub publish : WatchHub B → Bytes → KeyChange → WatchHub B
  unfolding publish_at
  publish hub tenant change = publish_at hub tenant change (lookup tenant hub.channels)

  unfoldable pub subscriber_count : WatchHub B → Bytes → ℕ
  subscriber_count hub tenant = elim (lookup tenant hub.channels) [
    | none ↦ 0
    | some tx ↦ B.receiver_count tx
  ]
