-- ===== src/Node/Sweeper/Running.antt =====
-- ttl.rs: `run_sweeper`. Which branch of its `select!` is taken, what the clock then reads, what
-- other tasks did to the service in the meantime and what the disk accepts is the argument `Wake`.
use ferriskv.Prelude.{
  ℕ, ◌≡◌, false, List, [], ◌∷◌, ◌==◌, if◌then◌else◌, All, Bool-cases, inl, inr, some,
}
use ferriskv.Prelude.Bytes.{Bytes}
use ferriskv.Prelude.Assoc.{Map, lookup, Distinct}
use ferriskv.Core.Error.{ok}
use ferriskv.Core.Key.{data_space, decode}
use ferriskv.Core.Value as Value
use ferriskv.Core.Storage.FjallStorage.{Fjall}
use ferriskv.Core.Storage.Laws.{FjallLaws, entries}
use ferriskv.Node.Ttl.{TtlIndex}
use ferriskv.Node.Watch.{Broadcast}
use ferriskv.Node.Throttle.{Governor}
use ferriskv.Node.Service.{NodeService, Disk}
use ferriskv.Node.Sweeper.{sweep_once}
use ferriskv.Node.Sweeper.Live.{sweep_once-Holds}

-- A notification takes the permit that a new earlier expiry left.
pub data Branch : Type 0 where
  slept notified : Branch

abbrev pub take_permit : Branch → TtlIndex → TtlIndex
take_permit slept idx = idx
take_permit notified idx = record idx { permit = false }

module _ (F : Fjall) (B : Broadcast) (G : Governor) where
  pub record Wake : Type 0 where
    pub branch : Branch
    pub clock_now : ℕ
    pub disk : ℕ → Disk
    pub others : NodeService F B G → NodeService F B G

module _ {F : Fjall} {B : Broadcast} {G : Governor} (crc32 : Bytes → ℕ) where
  unfoldable pub woken : Wake F B G → NodeService F B G → NodeService F B G
  woken w svc =
      let svc' = w.others svc in
      (sweep_once crc32 w.clock_now w.disk
        (record svc' { ttl_index = take_permit w.branch svc'.ttl_index })).1

  -- The rounds until the shutdown.
  unfoldable pub rounds : List (Wake F B G) → NodeService F B G → NodeService F B G
  unfolding woken
  rounds [] svc = svc
  rounds (w ∷ wakes) svc = rounds wakes (woken w svc)

  unfoldable pub run_sweeper : ℕ → List (Wake F B G) → NodeService F B G → NodeService F B G
  unfolding rounds
  run_sweeper fallback_interval wakes svc = if fallback_interval == 0 then svc else rounds wakes svc

module _ {F : Fjall} {B : Broadcast} {G : Governor} (view : F.Keyspace → Map Bytes)
    (laws : FjallLaws F view) (crc32 : Bytes → ℕ) (j t p raw : Bytes)
    (held : decode j ≡ ok (t, data_space, p)) where
  abbrev Stored : NodeService F B G → Type 0
  Stored svc =
      Distinct (entries view svc.storage) × (lookup j (entries view svc.storage) ≡ some raw)

  -- Other tasks leave the value where it is, and at each round's clock it has not expired.
  abbrev pub KeptBy : Wake F B G → Type 0
  KeptBy w =
      (Value.is_expired raw w.clock_now ≡ ok false)
      × ((svc : NodeService F B G) → Stored svc → Stored (w.others svc))

  rounds-Stored :
      (wakes : List (Wake F B G)) (svc : NodeService F B G)
      → All KeptBy wakes
      → Stored svc
      → Stored (rounds crc32 wakes svc)
  unfolding rounds woken
  rounds-Stored [] svc kept h = h
  rounds-Stored (w ∷ wakes) svc kept h = rounds-Stored wakes (woken crc32 w svc) kept.1 (
      sweep_once-Holds view laws crc32 w.clock_now j t p raw held kept.0.0 w.disk _
        (kept.0.1 svc h))

  -- A sweeper that runs to the node's shutdown leaves in storage a value of tenant data that other
  -- tasks leave there and that has not expired at any of its rounds, whichever branches its rounds
  -- take, whatever the index holds and whichever deletions fail.
  pub run_sweeper_keeps_live :
      (fallback_interval : ℕ) (wakes : List (Wake F B G)) (svc : NodeService F B G)
      → Distinct (entries view svc.storage)
      → lookup j (entries view svc.storage) ≡ some raw
      → All KeptBy wakes
      → lookup j (entries view (run_sweeper crc32 fallback_interval wakes svc).storage) ≡ some raw
  unfolding run_sweeper
  run_sweeper_keeps_live fallback_interval wakes svc distinct found kept =
      elim (Bool-cases (fallback_interval == 0)) [
        | inl off ↦ rw off found
        | inr on ↦ rw on (rounds-Stored wakes svc kept (distinct, found)).1
      ]
