-- ===== src/Base/Outcome.antt =====
-- How a call ends: it returns, `HELOG(kFatal, …)` or `exit` ends the process, a C++ exception leaves
-- it, its behaviour is undefined, or the fuel of a loop of the model ran out.
use mathlib.Core.Path.{◌≡◌, refl}

-- The exceptions that the handlers tell apart. All of them are `std::exception`s.
pub data Exception : Type 0 where
  runtime_error margo_exception other_exception : Exception

pub data Outcome {ℓ} (A : Type ℓ) : Type ℓ where
  ok : A → Outcome A
  fatal : Outcome A
  throws : Exception → Outcome A
  undefined : Outcome A
  out_of_fuel : Outcome A

infixl 5 ◌>>=◌ ◌>>◌
abbrev pub ◌>>=◌ {ℓ κ} : {T : Type ℓ} {U : Type κ} → Outcome T → (T → Outcome U) → Outcome U
fatal >>= next = fatal
undefined >>= next = undefined
out_of_fuel >>= next = out_of_fuel
throws x >>= next = throws x
ok t >>= next = next t

abbrev pub ◌>>◌ {ℓ} : {U : Type ℓ} → Outcome (Unit {0}) → Outcome U → Outcome U
first >> next = first >>= λ u. next

-- Where a chain of calls returns, its first call did, and the rest returns on that result.
pub >>=-eq-ok {ℓ κ} :
    {T : Type ℓ} {U : Type κ} (first : Outcome T) (next : T → Outcome U) {u : U}
    → (first >>= next) ≡ ok u
    → (t : T) × (first ≡ ok t) × (next t ≡ ok u)
>>=-eq-ok fatal next e = cc
>>=-eq-ok undefined next e = cc
>>=-eq-ok out_of_fuel next e = cc
>>=-eq-ok (throws x) next e = cc
>>=-eq-ok (ok t) next e = (t, refl, e)

pub ok-injective {ℓ} : {A : Type ℓ} {a b : A} → ok a ≡ ok b → a ≡ b
ok-injective e = cc
