-- ===== src/Bitfield/Laws.antt =====
-- Tests of a flag after flags were set.
use ppi_chi_nettest.Base.{
  ℕ, zero, suc, ◌^◌, ◌<◌, ◌≡◌, Bool, false, not, ◌||◌, ◌==◌, bit_and, bit_or, arith,
}
use ppi_chi_nettest.Base.Bits.{
  zero-bit_or, bit_or-eq_zero, bit_and-or, bit_and_comm, bit_and_assoc, bit_and-zero,
}
use ppi_chi_nettest.Bitfield.{Bitfield}

-- Flag number `n` is among `bits`.
abbrev pub has : ℕ → ℕ → Bool
has n bits = not (bit_and (2 ^ n) bits == 0)

-- The library's test of one flag.
pub any-bit_opt : (b : Bitfield) (n bits : ℕ) → n < 32 → b.any bits (b.bit_opt n) ≡ has n bits
any-bit_opt b n bits h = rw (b.any_lem, b.bit_opt_lem n h, bit_and_comm bits (2 ^ n))

zero_test : (x y : ℕ) → not (bit_or x y == 0) ≡ (not (x == 0) || not (y == 0))
zero_test zero y = rw (zero-bit_or y)
zero_test (suc x) y = ground (arith, bit_or-eq_zero (suc x) y)

-- A flag is among the bits of two masks when it is in one of them.
pub has-or : (n x y : ℕ) → has n (bit_or x y) ≡ (has n x || has n y)
has-or n x y = rw (bit_and-or (2 ^ n) x y) (zero_test (bit_and (2 ^ n) x) (bit_and (2 ^ n) y))

-- A flag of a mask that shares no bit with `bits` is not among them.
pub has_of_disjoint :
    (n mask bits : ℕ) → bit_and (2 ^ n) mask ≡ 2 ^ n → bit_and mask bits ≡ 0 → has n bits ≡ false
has_of_disjoint n mask bits inside apart =
    let none_left : bit_and (2 ^ n) bits ≡ 0 =
      cc (inside, bit_and_assoc (2 ^ n) mask bits, apart, bit_and-zero (2 ^ n)) in
    rw none_left
