-- ===== src/Thallium/Action.antt =====
-- Methods as actions on the log of attempted remote calls. The log comes back also when the method
-- does not return.
use ppi_chi_nettest.Base.{ℕ, ◌≡◌, refl, ap, Option, List}
use ppi_chi_nettest.Base.Text.{Text}
use ppi_chi_nettest.Base.Outcome.{
  Outcome, ok, fatal, throws, undefined, out_of_fuel, runtime_error, margo_exception,
  other_exception,
}
use ppi_chi_nettest.Transfer.{SegmentedTransfer}

pub data BulkMode : Type 0 where
  read_only write_only : BulkMode

-- A `tl::bulk` as it was exposed: addresses and sizes of the segments, and the mode.
pub record Bulk : Type 0 where
  pub segments : List (ℕ × ℕ)
  pub mode : BulkMode

-- The arguments of a remote call.
pub data Payload : Type 0 where
  nothing : Payload
  metadata : Text → Payload
  transfer : Option Bulk → SegmentedTransfer → Payload

pub record Request : Type 0 where
  pub server : Text
  pub func : Text
  pub payload : Payload

-- The attempted calls, in order.
abbrev pub Log : Type 0
Log = List Request

-- How an attempt fares: the endpoint is not found or the call is not sent (an exception of the
-- library), it is sent and waiting for it raises that exception, or it is answered by a number.
pub data Attempt : Type 0 where
  unreachable : Attempt
  lost : Attempt
  answered : ℕ → Attempt

-- The library: the fate of the n-th attempt, and whether an engine can be made for an address or
-- a protocol.
pub record Net : Type 0 where
  pub attempt : ℕ → Attempt
  pub can_serve : Text → Outcome (Unit {0})
  pub can_connect : Text → Outcome (Unit {0})

abbrev pub Action : Type 0 → Type 0
Action A = Log → Outcome A × Log

module _ {A : Type 0} where
  abbrev pub pure : A → Action A
  pure a log = (ok a, log)

  abbrev pub lift : Outcome A → Action A
  lift o log = (o, log)

infixl 5 ◌>>=◌ ◌>>◌
abbrev pub ◌>>=◌ : {A B : Type 0} → Action A → (A → Action B) → Action B
◌>>=◌ m f log =
    let (o, log') = m log in
    elim o [
      | ok a ↦ f a log'
      | fatal ↦ (fatal, log')
      | throws e ↦ (throws e, log')
      | undefined ↦ (undefined, log')
      | out_of_fuel ↦ (out_of_fuel, log')
    ]

abbrev pub ◌>>◌ : {A B : Type 0} → Action A → Action B → Action B
m >> k = m >>= λ _. k

-- `try { m } catch (tl::margo_exception &) { k }`
abbrev pub catch_margo : {A : Type 0} → Action A → Action A → Action A
catch_margo m k log =
    let (o, log') = m log in
    elim o [
      | ok a ↦ (ok a, log')
      | fatal ↦ (fatal, log')
      | throws e ↦ elim e [
        | margo_exception ↦ k log'
        | runtime_error ↦ (throws runtime_error, log')
        | other_exception ↦ (throws other_exception, log')
      ]
      | undefined ↦ (undefined, log')
      | out_of_fuel ↦ (out_of_fuel, log')
    ]

-- `try { m } catch (...) { k }`
abbrev pub catch_all : {A : Type 0} → Action A → Action A → Action A
catch_all m k log =
    let (o, log') = m log in
    elim o [
      | ok a ↦ (ok a, log')
      | fatal ↦ (fatal, log')
      | throws e ↦ k log'
      | undefined ↦ (undefined, log')
      | out_of_fuel ↦ (out_of_fuel, log')
    ]

-- What a bind does after its first action, by how that ended.
abbrev pub after : {A B : Type 0} → (A → Action B) → Outcome A × Log → Outcome B × Log
after f (o, log) = elim o [
  | ok a ↦ f a log
  | fatal ↦ (fatal, log)
  | throws e ↦ (throws e, log)
  | undefined ↦ (undefined, log)
  | out_of_fuel ↦ (out_of_fuel, log)
]

-- A bind whose first action is known to end so.
pub >>=-run :
    {A B : Type 0} (m : Action A) (f : A → Action B) (log : Log) {r : Outcome A × Log}
    → m log ≡ r
    → (m >>= f) log ≡ after f r
>>=-run m f log e = ap (after f) e

-- A bind that returns: its first action returned, and the rest returns on that result.
pub >>=-run_ok :
    {A B : Type 0} (m : Action A) (f : A → Action B) (log : Log) {b : B} {end : Log}
    → (m >>= f) log ≡ (ok b, end)
    → (a : A) × (middle : Log) × (m log ≡ (ok a, middle)) × (f a middle ≡ (ok b, end))
>>=-run_ok {A = A} {B = B} m f log {b} {end} e = go (m log).0 (m log).1 refl e
  where
    go :
        (o : Outcome A) (l : Log)
        → m log ≡ (o, l)
        → after f (o, l) ≡ (ok b, end)
        → (a : A) × (middle : Log) × (m log ≡ (ok a, middle)) × (f a middle ≡ (ok b, end))
    go (ok a) l h e = (a, l, h, e)
    go fatal l h e = cc e
    go (throws x) l h e = cc e
    go undefined l h e = cc e
    go out_of_fuel l h e = cc e

-- The same where the first action only lifts an outcome.
pub lift-run_ok :
    {A B : Type 0} (o : Outcome A) (f : A → Action B) (log : Log) {b : B} {end : Log}
    → (lift o >>= f) log ≡ (ok b, end)
    → (a : A) × (o ≡ ok a) × (f a log ≡ (ok b, end))
lift-run_ok (ok a) f log e = (a, refl, e)
lift-run_ok fatal f log e = cc e
lift-run_ok (throws x) f log e = cc e
lift-run_ok undefined f log e = cc e
lift-run_ok out_of_fuel f log e = cc e
