-- ===== src/Base/Bits.antt =====
-- Laws of `bit_and` and `bit_or` at variables, by the recursion over binary digits.
use Prim.Native.Nat.{
  ℕ, zero, suc, ◌+◌, ◌*◌, ◌/◌, ◌%◌, ◌≤◌, min, max, bit_and, bit_or, digits, bit_and-bitwise,
  bit_or-bitwise,
}
use mathlib.Core.Path.{◌≡◌, refl, sym, ◌∙◌}
use native.Mathlib.Omega.{arith}

-- What the bitwise recursion computes does not depend on its fuel, once that bounds the number.
module _ (rest : ℕ → ℕ) (op : ℕ → ℕ → ℕ) where
  digits_enough : (x y f k : ℕ) → x ≤ f → x ≤ k → digits rest op f x y ≡ digits rest op k x y
  digits_enough zero y zero zero hf hk = refl
  digits_enough zero y zero (suc k) hf hk = refl
  digits_enough zero y (suc f) zero hf hk = refl
  digits_enough zero y (suc f) (suc k) hf hk = refl
  digits_enough (suc x) y zero k hf hk = absurd (omega arith)
  digits_enough (suc x) y (suc f) zero hf hk = absurd (omega arith)
  digits_enough (suc x) y (suc f) (suc k) hf hk =
      omega (arith, digits_enough (suc x / 2) (y / 2) f k (omega arith) (omega arith))

pub zero-bit_and : (y : ℕ) → bit_and 0 y ≡ 0
zero-bit_and = bit_and-bitwise 0

pub zero-bit_or : (y : ℕ) → bit_or 0 y ≡ y
zero-bit_or = bit_or-bitwise 0

-- The lowest digit, and the digits above it.
pub bit_and_step : (x y : ℕ) → bit_and x y ≡ min (x % 2) (y % 2) + 2 * bit_and (x / 2) (y / 2)
bit_and_step zero y = omega (arith, zero-bit_and (y / 2), zero-bit_and y)
bit_and_step (suc x) y =
    let half = suc x / 2 in
    let above = digits_enough (λ k. 0) min half (y / 2) x half (omega arith) (omega arith) in
    omega (arith, bit_and-bitwise half (y / 2), above, bit_and-bitwise (suc x) y)

pub bit_or_step : (x y : ℕ) → bit_or x y ≡ max (x % 2) (y % 2) + 2 * bit_or (x / 2) (y / 2)
bit_or_step zero y = omega (arith, zero-bit_or (y / 2), zero-bit_or y)
bit_or_step (suc x) y =
    let half = suc x / 2 in
    let above = digits_enough (λ k. k) max half (y / 2) x half (omega arith) (omega arith) in
    omega (arith, bit_or-bitwise half (y / 2), above, bit_or-bitwise (suc x) y)

pub bit_or-half : (a b : ℕ) → bit_or a b / 2 ≡ bit_or (a / 2) (b / 2)
bit_or-half a b = omega (arith, bit_or_step a b)

pub bit_or-bit : (a b : ℕ) → bit_or a b % 2 ≡ max (a % 2) (b % 2)
bit_or-bit a b = omega (arith, bit_or_step a b)

pub bit_and-half : (a b : ℕ) → bit_and a b / 2 ≡ bit_and (a / 2) (b / 2)
bit_and-half a b = omega (arith, bit_and_step a b)

pub bit_and-bit : (a b : ℕ) → bit_and a b % 2 ≡ min (a % 2) (b % 2)
bit_and-bit a b = omega (arith, bit_and_step a b)

eq_of_halves : (a b : ℕ) → a / 2 ≡ b / 2 → a % 2 ≡ b % 2 → a ≡ b
eq_of_halves a b h k = omega arith

-- The laws below go from the halves to the numbers; the fuel bounds what is halved.
bit_and-or_fuel :
    (n a b m : ℕ) → m ≤ n → bit_and m (bit_or a b) ≡ bit_or (bit_and m a) (bit_and m b)
bit_and-or_fuel n a b zero h =
    rw (zero-bit_and (bit_or a b), zero-bit_and a, zero-bit_and b) (sym (zero-bit_or 0))
bit_and-or_fuel zero a b (suc m) h = absurd (omega arith)
bit_and-or_fuel (suc n) a b (suc m) h =
    eq_of_halves _ _
      (rw
        (
          bit_and-half (suc m) (bit_or a b),
          bit_or-half a b,
          bit_or-half (bit_and (suc m) a) (bit_and (suc m) b),
          bit_and-half (suc m) a,
          bit_and-half (suc m) b,
        )
        (bit_and-or_fuel n (a / 2) (b / 2) (suc m / 2) (omega arith)))
      (rw
        (
          bit_and-bit (suc m) (bit_or a b),
          bit_or-bit a b,
          bit_or-bit (bit_and (suc m) a) (bit_and (suc m) b),
          bit_and-bit (suc m) a,
          bit_and-bit (suc m) b,
        )
        (omega arith))

-- A mask distributes over `|`.
pub bit_and-or : (m a b : ℕ) → bit_and m (bit_or a b) ≡ bit_or (bit_and m a) (bit_and m b)
bit_and-or m a b = bit_and-or_fuel m a b m (omega arith)

and_nothing : (f x : ℕ) → x ≤ f → bit_and x 0 ≡ 0
and_nothing zero zero h = zero-bit_and 0
and_nothing zero (suc x) h = absurd (omega arith)
and_nothing (suc f) x h = omega (arith, and_nothing f (x / 2) (omega arith), bit_and_step x 0)

pub bit_and-zero : (x : ℕ) → bit_and x 0 ≡ 0
bit_and-zero x = and_nothing x x (omega arith)

or_nothing : (f x : ℕ) → x ≤ f → bit_or x 0 ≡ x
or_nothing zero zero h = zero-bit_or 0
or_nothing zero (suc x) h = absurd (omega arith)
or_nothing (suc f) x h = omega (arith, or_nothing f (x / 2) (omega arith), bit_or_step x 0)

pub bit_or-zero : (x : ℕ) → bit_or x 0 ≡ x
bit_or-zero x = or_nothing x x (omega arith)

bit_and_comm_fuel : (n a b : ℕ) → a ≤ n → bit_and a b ≡ bit_and b a
bit_and_comm_fuel n zero b h = zero-bit_and b ∙ sym (bit_and-zero b)
bit_and_comm_fuel zero (suc a) b h = absurd (omega arith)
bit_and_comm_fuel (suc n) (suc a) b h = omega (
  arith,
  bit_and_step (suc a) b,
  bit_and_step b (suc a),
  bit_and_comm_fuel n (suc a / 2) (b / 2) (omega arith),
)

pub bit_and_comm : (a b : ℕ) → bit_and a b ≡ bit_and b a
bit_and_comm a b = bit_and_comm_fuel a a b (omega arith)

bit_and_assoc_fuel : (n a b c : ℕ) → a ≤ n → bit_and (bit_and a b) c ≡ bit_and a (bit_and b c)
bit_and_assoc_fuel n zero b c h =
    rw (zero-bit_and b, zero-bit_and c, zero-bit_and (bit_and b c)) refl
bit_and_assoc_fuel zero (suc a) b c h = absurd (omega arith)
bit_and_assoc_fuel (suc n) (suc a) b c h =
    eq_of_halves _ _
      (rw
        (
          bit_and-half (bit_and (suc a) b) c,
          bit_and-half (suc a) b,
          bit_and-half (suc a) (bit_and b c),
          bit_and-half b c,
        )
        (bit_and_assoc_fuel n (suc a / 2) (b / 2) (c / 2) (omega arith)))
      (rw
        (
          bit_and-bit (bit_and (suc a) b) c,
          bit_and-bit (suc a) b,
          bit_and-bit (suc a) (bit_and b c),
          bit_and-bit b c,
        )
        (omega arith))

pub bit_and_assoc : (a b c : ℕ) → bit_and (bit_and a b) c ≡ bit_and a (bit_and b c)
bit_and_assoc a b c = bit_and_assoc_fuel a a b c (omega arith)

bit_or-eq_zero_fuel : (n a b : ℕ) → a ≤ n → b ≤ n → bit_or a b ≡ 0 → (a ≡ 0) × (b ≡ 0)
bit_or-eq_zero_fuel zero a b ha hb e = omega arith
bit_or-eq_zero_fuel (suc n) a b ha hb e =
    let halves =
      bit_or-eq_zero_fuel n (a / 2) (b / 2) (omega arith) (omega arith)
        (omega (arith, bit_or_step a b)) in
    omega (arith, bit_or_step a b, halves.0, halves.1)

pub bit_or-eq_zero : (a b : ℕ) → bit_or a b ≡ 0 → (a ≡ 0) × (b ≡ 0)
bit_or-eq_zero a b = bit_or-eq_zero_fuel (a + b) a b (omega arith) (omega arith)
