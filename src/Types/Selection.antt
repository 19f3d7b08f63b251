-- ===== src/Types/Selection.antt =====
-- `union DomainSelection` of include/test_networks/chimaera_types.h (lines 421 to 441): one 64-bit
-- word. The 32-bit members lie in its low half, `count_` in its high half, as on a machine that
-- stores the low byte first.
use ppi_chi_nettest.Base.{
  ℕ, ◌+◌, ◌*◌, ◌/◌, ◌%◌, ◌<◌, ◌≡◌, Bool, true, ◌↔◌, ◌==◌, arith, u32_mod, u64_mod,
}
use ppi_chi_nettest.Archive.{Codec, Archive, RoundTrips, member}

pub record DomainSelection : Type 0 where
  pub int : ℕ

abbrev pub hash : DomainSelection → ℕ
hash sel = sel.int % u32_mod

abbrev pub id : DomainSelection → ℕ
id sel = sel.int % u32_mod

abbrev pub off : DomainSelection → ℕ
off sel = sel.int % u32_mod

abbrev pub count : DomainSelection → ℕ
count sel = sel.int / u32_mod % u32_mod

-- A write to a member of the low half keeps the high half.
abbrev pub set_low : DomainSelection → ℕ → DomainSelection
set_low sel v = record { int = sel.int / u32_mod * u32_mod + v }

abbrev pub set_count : DomainSelection → ℕ → DomainSelection
set_count sel v = record { int = v * u32_mod + sel.int % u32_mod }

unfoldable pub serialize : Archive → Codec DomainSelection
serialize ar = member (λ sel. sel.int) (λ sel v. record sel { int = v }) ar.u64

unfoldable pub eq : DomainSelection → DomainSelection → Bool
eq a b = a.int == b.int

pub serialize-RoundTrips : (ar : Archive) → RoundTrips (serialize ar) (λ sel. sel.int < u64_mod)
unfolding serialize
serialize-RoundTrips ar sel old rest w = rw (ar.u64_lem sel.int _ _ w)

-- After the low half was written, two selections compare equal exactly when the high halves that
-- were there before agree.
pub eq-set_low_iff :
    (a b : DomainSelection) (v : ℕ)
    → v < u32_mod
    → (eq (set_low a v) (set_low b v) ≡ true) ↔ (a.int / u32_mod ≡ b.int / u32_mod)
unfolding eq
eq-set_low_iff a b v h = (λ e. ground arith, λ e. ground arith)
