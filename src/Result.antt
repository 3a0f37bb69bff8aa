-- ===== src/Result.antt =====
-- What a C++ function gives back: a value, or the exception it throws. `undefined` stands for
-- behaviour that the C++ standard leaves undefined, such as the front of an empty queue.
use distributed_replicated_c.Prelude.{◌≡◌, refl, ap, String, Option, none, some}

pub data Exception : Type 0 where
  overflow_error out_of_range length_error bad_cast undefined : Exception
  runtime_error : String → Exception
  invalid_argument : String → Exception

pub data Result {ℓ} (Value : Type ℓ) : Type ℓ where
  throws : Exception → Result Value
  ok : Value → Result Value

-- What a start ends with: the object, or the end of the process by exit().
pub data Start (A : Type 0) : Type 0 where
  ready : A → Start A
  exits : Start A

-- A call that throws `e` where the library signals a failure.
abbrev pub or_throw {ℓ} : {Value : Type ℓ} → Exception → Option Value → Result Value
or_throw e none = throws e
or_throw e (some v) = ok v

pub ok-injective {ℓ} : {Value : Type ℓ} {x y : Value} → ◌≡◌ {A = Result Value} (ok x) (ok y) → x ≡ y
ok-injective {Value = Value} {x} h = ap (λ r. ok_or x r) h
  where
    ok_or : Value → Result Value → Value
    ok_or x (ok y) = y
    ok_or x (throws e) = x

pub or_throw-eq-ok {ℓ} :
    {Value : Type ℓ} (e : Exception) (found : Option Value) (v : Value)
    → or_throw e found ≡ ok v
    → found ≡ some v
or_throw-eq-ok e none v h = cc
or_throw-eq-ok e (some x) v h = ap some (ok-injective h)

module _ {ℓ κ} {Value : Type ℓ} {Next : Type κ} where
  infixl 5 ◌>>=◌
  abbrev pub ◌>>=◌ : Result Value → (Value → Result Next) → Result Next
  ◌>>=◌ (throws e) next = throws e
  ◌>>=◌ (ok v) next = next v

  -- A successful chain had a successful first step.
  pub >>=-eq-ok :
      (m : Result Value) (next : Value → Result Next) {w : Next}
      → (m >>= next) ≡ ok w
      → (v : Value) × (m ≡ ok v) × (next v ≡ ok w)
  >>=-eq-ok (throws e) next h = cc
  >>=-eq-ok (ok v) next h = (v, refl, h)
