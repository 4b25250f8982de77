-- ===== src/Node/Service/Steps.antt =====
-- State with errors: what was changed before an early return stays changed.
use ferriskv.Core.Error.{Result, ok, err}

abbrev pub Exec {ℓ κ} : Type ℓ → Type κ → Type (ℓ ⊔ κ)
Exec S A = S → Result A × S

module _ {ℓ} {S : Type ℓ} where
  abbrev pub continue {κ} : {A B : Type κ} → Result A × S → (A → Exec S B) → Result B × S
  continue (ok a, s) f = f a s
  continue (err e, s) f = (err e, s)

  infixl 5 ◌>>=◌ ◌>>◌
  abbrev pub ◌>>=◌ {κ} : {A B : Type κ} → Exec S A → (A → Exec S B) → Exec S B
  ◌>>=◌ m f s = continue (m s) f

  abbrev pub ◌>>◌ {κ} : {A B : Type κ} → Exec S A → Exec S B → Exec S B
  m >> n = m >>= λ _. n

  -- A check that reads the state.
  abbrev pub ask {κ} : {A : Type κ} → (S → Result A) → Exec S A
  ask f s = (f s, s)

  -- A step that cannot fail.
  abbrev pub modify : (S → S) → Exec S (Unit {0})
  modify f s = (ok tt, f s)
