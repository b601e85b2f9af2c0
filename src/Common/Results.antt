-- ===== src/Common/Results.antt =====
-- What a Go function with an error result returns.
use mathlib.Core.Path.{◌≡◌, refl}
use mathlib.Core.Bool.{Bool, true, false}

-- The type of the errors comes first: the domain has its own.
pub data Result {ℓ} (Failure : Type 0) (Value : Type ℓ) : Type ℓ where
  err : Failure → Result Failure Value
  ok : Value → Result Failure Value

module _ {Failure : Type 0} where
  -- `if bad { return failure }`
  abbrev pub fail_if : Bool → Failure → Result Failure (Unit {0})
  fail_if false failure = ok tt
  fail_if true failure = err failure

  infixl 5 ◌>>=◌ ◌>>◌
  abbrev pub ◌>>=◌ : {V W : Type 0} → Result Failure V → (V → Result Failure W) → Result Failure W
  err failure >>= then_do = err failure
  ok value >>= then_do = then_do value

  abbrev pub ◌>>◌ : {W : Type 0} → Result Failure (Unit {0}) → Result Failure W → Result Failure W
  check >> after = check >>= λ _. after

  -- A chain that succeeds has a first part that does.
  pub >>=-eq-ok :
      {V W : Type 0} (first : Result Failure V) (then_do : V → Result Failure W) {last : W}
      → (first >>= then_do) ≡ ok last
      → (value : V) × (first ≡ ok value) × (then_do value ≡ ok last)
  >>=-eq-ok (err failure) then_do h = cc
  >>=-eq-ok (ok value) then_do h = (value, refl, h)
