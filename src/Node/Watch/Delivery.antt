-- ===== src/Node/Watch/Delivery.antt =====
-- watch.rs: the channel of a tenant over a sequence of calls.
use ferriskv.Prelude.{
  ◌≡◌, refl, sym, subst, ◌∙◌, ap, true, Option, none, some, List, [], ◌∷◌, if◌then◌else◌, inl, inr,
  Bool-cases, ◌==◌,
}
use ferriskv.Prelude.Bytes.{Bytes, bytes_eq, bytes_eq_iff}
use ferriskv.Prelude.Assoc.{
  lookup, Distinct, lookup-insert, lookup-remove, insert-Distinct, remove-Distinct,
}
use ferriskv.Node.Watch.{
  Broadcast, WatchHub, KeyChange, subscribe, publish, with_receiver, subscribe_at, publish_at,
}

-- A call that changes the hub.
pub data Call : Type 0 where
  subscribed : Bytes → Call
  published : Bytes → KeyChange → Call

abbrev pub tenant_of : Call → Bytes
tenant_of (subscribed t) = t
tenant_of (published t change) = t

-- The calls for one tenant.
abbrev pub only : Bytes → List Call → List Call
only t [] = []
only t (c ∷ calls) = if bytes_eq (tenant_of c) t then c ∷ only t calls else only t calls

module _ {B : Broadcast} where
  unfoldable pub step : Call → WatchHub B → WatchHub B
  step (subscribed t) hub = (subscribe hub t).1
  step (published t change) hub = publish hub t change

  unfoldable pub run : List Call → WatchHub B → WatchHub B
  unfolding step
  run [] hub = hub
  run (c ∷ calls) hub = run calls (step c hub)

  -- What a call makes of the channel of its tenant.
  next_channel : WatchHub B → Call → Option B.Sender → Option B.Sender
  next_channel hub (subscribed t) none = some (B.subscribe (B.channel hub.capacity)).1
  next_channel hub (subscribed t) (some tx) = some (B.subscribe tx).1
  next_channel hub (published t change) none = none
  next_channel hub (published t change) (some tx) =
      if B.receiver_count tx == 0 then none else some (B.send tx change)

  subscribe_at_lem :
      (hub : WatchHub B) (t u : Bytes) (o : Option B.Sender)
      → lookup u (subscribe_at hub t o).1.channels
        ≡ (if bytes_eq t u then next_channel hub (subscribed t) o else lookup u hub.channels)
  unfolding subscribe_at with_receiver next_channel
  subscribe_at_lem hub t u none = lookup-insert t u _ hub.channels
  subscribe_at_lem hub t u (some tx) = lookup-insert t u _ hub.channels

  publish_at_lem :
      (hub : WatchHub B) (t u : Bytes) (change : KeyChange) (o : Option B.Sender)
      → Distinct hub.channels
      → lookup t hub.channels ≡ o
      → lookup u (publish_at hub t change o).channels
        ≡ (if bytes_eq t u then next_channel hub (published t change) o else lookup u hub.channels)
  unfolding publish_at next_channel
  publish_at_lem hub t u change none d h = elim (Bool-cases (bytes_eq t u)) [
    | inl same ↦
        rw same (ap (λ (k : Bytes). lookup k hub.channels) (sym ((bytes_eq_iff t u).0 same)) ∙ h)
    | inr other ↦ rw other refl
  ]
  publish_at_lem hub t u change (some tx) d h = elim (Bool-cases (B.receiver_count tx == 0)) [
    | inl k ↦ rw k (lookup-remove t u hub.channels d)
    | inr k ↦ rw k (lookup-insert t u _ hub.channels)
  ]

  step_lem :
      (c : Call) (hub : WatchHub B) (u : Bytes)
      → Distinct hub.channels
      → lookup u (step c hub).channels ≡ (
          if bytes_eq (tenant_of c) u
          then next_channel hub c (lookup (tenant_of c) hub.channels)
          else lookup u hub.channels)
  unfolding step subscribe publish
  step_lem (subscribed t) hub u d = subscribe_at_lem hub t u (lookup t hub.channels)
  step_lem (published t change) hub u d =
      publish_at_lem hub t u change (lookup t hub.channels) d refl

  subscribe_at_keeps :
      (hub : WatchHub B) (t : Bytes) (o : Option B.Sender)
      → Distinct hub.channels
      → Distinct (subscribe_at hub t o).1.channels
        × ((subscribe_at hub t o).1.capacity ≡ hub.capacity)
  unfolding subscribe_at with_receiver
  subscribe_at_keeps hub t none d = (insert-Distinct t _ hub.channels d, refl)
  subscribe_at_keeps hub t (some tx) d = (insert-Distinct t _ hub.channels d, refl)

  publish_at_keeps :
      (hub : WatchHub B) (t : Bytes) (change : KeyChange) (o : Option B.Sender)
      → Distinct hub.channels
      → Distinct (publish_at hub t change o).channels
        × ((publish_at hub t change o).capacity ≡ hub.capacity)
  unfolding publish_at
  publish_at_keeps hub t change none d = (d, refl)
  publish_at_keeps hub t change (some tx) d = elim (Bool-cases (B.receiver_count tx == 0)) [
    | inl k ↦ rw k (remove-Distinct t hub.channels d, refl)
    | inr k ↦ rw k (insert-Distinct t _ hub.channels d, refl)
  ]

  step_keeps :
      (c : Call) (hub : WatchHub B)
      → Distinct hub.channels
      → Distinct (step c hub).channels × ((step c hub).capacity ≡ hub.capacity)
  unfolding step subscribe publish
  step_keeps (subscribed t) hub d = subscribe_at_keeps hub t (lookup t hub.channels) d
  step_keeps (published t change) hub d = publish_at_keeps hub t change (lookup t hub.channels) d

  next_channel_agrees :
      (c : Call) (a b : WatchHub B) (o : Option B.Sender)
      → a.capacity ≡ b.capacity
      → next_channel a c o ≡ next_channel b c o
  unfolding next_channel
  next_channel_agrees (subscribed t) a b none h = rw h refl
  next_channel_agrees (subscribed t) a b (some tx) h = refl
  next_channel_agrees (published t change) a b none h = refl
  next_channel_agrees (published t change) a b (some tx) h = refl

  -- Two hubs that a tenant cannot tell apart.
  abbrev Alike : Bytes → WatchHub B → WatchHub B → Type 0
  Alike t a b = (a.capacity ≡ b.capacity) × (lookup t a.channels ≡ lookup t b.channels)

  same_channel :
      (t : Bytes) (c : Call) (a b : WatchHub B)
      → Distinct a.channels
      → Distinct b.channels
      → Alike t a b
      → bytes_eq (tenant_of c) t ≡ true
      → lookup t (step c a).channels ≡ lookup t (step c b).channels
  same_channel t c a b d e h same =
      let here = (bytes_eq_iff (tenant_of c) t).0 same in
      let found = subst (λ (u : Bytes). lookup u a.channels ≡ lookup u b.channels) (sym here) h.1 in
      rw same at (step_lem c a t d)
      ∙ next_channel_agrees c a b (lookup (tenant_of c) a.channels) h.0
      ∙ ap (next_channel b c) found
      ∙ sym (rw same at (step_lem c b t e))

  alike :
      (t : Bytes) (calls : List Call) (a b : WatchHub B)
      → Distinct a.channels
      → Distinct b.channels
      → Alike t a b
      → Alike t (run calls a) (run (only t calls) b)
  unfolding run
  alike t [] a b d e h = h
  alike t (c ∷ calls) a b d e h =
      let (d', cap) = step_keeps c a d in
      let (e', cap') = step_keeps c b e in
      elim (Bool-cases (bytes_eq (tenant_of c) t)) [
        | inr other ↦
            rw other
              (alike t calls (step c a) b d' e (cap ∙ h.0, rw other at (step_lem c a t d) ∙ h.1))
        | inl same ↦ rw same (
            alike t calls (step c a) (step c b) d' e'
              (cap ∙ h.0 ∙ sym cap', same_channel t c a b d e h same))
      ]

  -- In a hub with one channel per tenant, the channel of a tenant after any sequence of subscriptions
  -- and published changes is the one after the calls for this tenant alone: no call for another
  -- tenant creates, feeds or drops it.
  pub run_isolated :
      (t : Bytes) (calls : List Call) (hub : WatchHub B)
      → Distinct hub.channels
      → lookup t (run calls hub).channels ≡ lookup t (run (only t calls) hub).channels
  run_isolated t calls hub d = (alike t calls hub hub d d (refl, refl)).1
