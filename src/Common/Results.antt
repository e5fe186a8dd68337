-- ===== src/Common/Results.antt =====
-- Rust's `Result`, with `?` as the bind of a do block.
use mathlib.Core.Path.{◌≡◌, refl}
use mathlib.Core.Logic.{◌⊎◌, inl, inr}
use mathlib.Core.Option.{Option, none, some}

pub data Result {ℓ κ} (Failure : Type ℓ) (A : Type κ) : Type (ℓ ⊔ κ) where
  ok : A → Result Failure A
  err : Failure → Result Failure A

module _ {ℓ κ} {Failure : Type ℓ} {A : Type κ} where
  infixl 5 ◌>>=◌
  abbrev pub ◌>>=◌ {μ} :
      {Next : Type μ} → Result Failure A → (A → Result Failure Next) → Result Failure Next
  ok found >>= next = next found
  err failure >>= next = err failure

  -- `Option::ok_or`.
  abbrev pub ok_or : Option A → Failure → Result Failure A
  ok_or (some found) failure = ok found
  ok_or none failure = err failure

  pub Result-cases :
      (r : Result Failure A)
      → ((found : A) × (r ≡ ok found)) ⊎ ((failure : Failure) × (r ≡ err failure))
  Result-cases (err failure) = inr (failure, refl)
  Result-cases (ok found) = inl (found, refl)

  pub err≢ok : {failure : Failure} {found : A} → err failure ≡ ok found → ⊥
  err≢ok h = cc

  pub ok_inj : {a b : A} → ◌≡◌ {A = Result Failure A} (ok a) (ok b) → a ≡ b
  ok_inj h = cc

module _ {ℓ κ} {Failure : Type ℓ} {A : Type κ} where
  -- A chain that succeeds comes from a step that does.
  pub bind_ok {μ} :
      {Next : Type μ} (r : Result Failure A) (next : A → Result Failure Next) {found : Next}
      → (r >>= next) ≡ ok found
      → (a : A) × (r ≡ ok a) × (next a ≡ ok found)
  bind_ok (ok a) next h = (a, refl, h)
  bind_ok (err failure) next h = absurd (err≢ok h)
