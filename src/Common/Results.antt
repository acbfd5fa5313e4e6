-- ===== src/Common/Results.antt =====
-- A chain of steps that can fail with an error of one type.
use mathlib.Core.Path.{◌≡◌, refl}
use mathlib.Core.Bool.{Bool, true, false}
use mathlib.Core.Option.{Option, none, some}

pub data Result {ℓ} (E : Type 0) (A : Type ℓ) : Type ℓ where
  ok : A → Result E A
  err : E → Result E A

-- The error where there is no value, and where a test fails.
abbrev pub or_fail {ℓ} : {E : Type 0} {A : Type ℓ} → Option A → E → Result E A
or_fail (some x) fault = ok x
or_fail none fault = err fault

abbrev pub guard : {E : Type 0} → Bool → E → Result E (Unit {0})
guard false fault = err fault
guard true fault = ok tt

infixl 5 ◌>>=◌ ◌>>◌
abbrev pub ◌>>=◌ {ℓ κ} :
    {E : Type 0} {X : Type ℓ} {Y : Type κ} → Result E X → (X → Result E Y) → Result E Y
err fault >>= next = err fault
ok x >>= next = next x

abbrev pub ◌>>◌ {ℓ} : {E : Type 0} {Y : Type ℓ} → Result E (Unit {0}) → Result E Y → Result E Y
first >> second = first >>= λ done. second

module _ {κ} {E : Type 0} {Y : Type κ} where
  -- What a chain that ends well went through.
  pub >>=-eq-ok {ℓ} :
      {X : Type ℓ} (first : Result E X) (next : X → Result E Y) {y : Y}
      → (first >>= next) ≡ ok y
      → (x : X) × (first ≡ ok x) × (next x ≡ ok y)
  >>=-eq-ok (err fault) next is = cc
  >>=-eq-ok (ok x) next is = (x, refl, is)

  pub guard-eq-ok :
      (test : Bool) (fault : E) (second : Result E Y) {y : Y}
      → (guard test fault >> second) ≡ ok y
      → (test ≡ true) × (second ≡ ok y)
  guard-eq-ok false fault second is = cc
  guard-eq-ok true fault second is = (refl, is)

  pub or_fail-eq-ok : (o : Option Y) (fault : E) {y : Y} → or_fail o fault ≡ ok y → o ≡ some y
  or_fail-eq-ok none fault is = cc
  or_fail-eq-ok (some x) fault is = cc
