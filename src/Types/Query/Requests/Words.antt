-- ===== src/Types/Query/Requests/Words.antt =====
-- A query that is built from C integers holds C integers.
use ppi_chi_nettest.Base.{ℕ, zero, suc, ◌/◌, ◌^◌, ◌<◌, ◌≡◌, arith, bit_or, some, u32_mod, u64_mod}
use ppi_chi_nettest.Base.Bits.{bit_or_step, zero-bit_or}
use ppi_chi_nettest.Base.Text.{Text}
use ppi_chi_nettest.Bitfield.{Bitfield}
use ppi_chi_nettest.Archive.{Archive}
use ppi_chi_nettest.Types.Query.{
  DomainQuery, serialize, get_local_id, get_global, get_range, get_global_bcast, get_direct_id,
  get_direct_hash,
}
use ppi_chi_nettest.Types.Query.Laws.{IsWords, query-RoundTrips}
use ppi_chi_nettest.Types.Query.Requests.{
  Request, local_id, global, range, global_bcast, direct_id, direct_hash, build, iter_arg,
}
use ppi_chi_nettest.Types.Query.Requests.Flags.{fixed_bits, flags-build}

bit_or-lt_pow : (w a b : ℕ) → a < 2 ^ w → b < 2 ^ w → bit_or a b < 2 ^ w
bit_or-lt_pow zero a b ha hb = let none_set : a ≡ 0 = omega arith in rw (none_set, zero-bit_or b) hb
bit_or-lt_pow (suc w) a b ha hb =
    omega (arith, bit_or_step a b, bit_or-lt_pow w (a / 2) (b / 2) (omega arith) (omega arith))

-- The arguments of a constructor are values of their C types.
abbrev pub AreWords : Request → Type 0
AreWords (local_id s i) = (s < u32_mod) × (i < u32_mod)
AreWords (global s f) = (s < u32_mod) × (f < u32_mod)
AreWords (range s o c f) = (s < u32_mod) × (o < u32_mod) × (c < u32_mod) × (f < u32_mod)
AreWords global_bcast = Unit
AreWords (direct_id s i f) = (s < u32_mod) × (i < u32_mod) × (f < u32_mod)
AreWords (direct_hash s h f) = (s < u32_mod) × (h < u32_mod) × (f < u32_mod)

fixed-lt : (r : Request) → AreWords r → (fixed_bits r < 2 ^ 32) × (iter_arg r < 2 ^ 32)
fixed-lt (local_id s i) w = (omega arith, omega arith)
fixed-lt (global s f) w = (omega arith, w.1)
fixed-lt (range s o c f) w = (omega arith, w.3)
fixed-lt global_bcast w = (omega arith, omega arith)
fixed-lt (direct_id s i f) w = (omega arith, w.2)
fixed-lt (direct_hash s h f) w = (omega arith, w.2)

module _ (b : Bitfield) (mem : DomainQuery) where
  sub_id-build :
      (r : Request)
      → AreWords r
      → IsWords mem
      → ((build b mem r).sub_id < u32_mod) × ((build b mem r).sel.int < u64_mod)
  unfolding build get_local_id get_global get_range get_global_bcast get_direct_id get_direct_hash
  sub_id-build (local_id s i) w m = omega (arith, m)
  sub_id-build (global s f) w m = omega (arith, m)
  sub_id-build (range s o c f) w m = omega (arith, m)
  sub_id-build global_bcast w m = omega (arith, m)
  sub_id-build (direct_id s i f) w m = omega (arith, m)
  sub_id-build (direct_hash s h f) w m = omega (arith, m)

  -- Every query that is built from values of the C types, in memory that holds such values, stays
  -- within the widths of its members, and so it is read back whole by every archive that wrote it.
  pub build-IsWords :
      (r : Request) (ar : Archive) (old : DomainQuery) (rest : Text)
      → AreWords r
      → IsWords mem
      → let q = build b mem r in
        IsWords q × ((serialize ar).load old ((serialize ar).save q rest) ≡ some (q, rest))
  build-IsWords r ar old rest w m =
      let (few, iter) = fixed-lt r w in
      let flags : (build b mem r).flags < u32_mod =
        rw (flags-build b mem r) (bit_or-lt_pow 32 (fixed_bits r) (iter_arg r) few iter) in
      let (sub_id, sel) = sub_id-build r w m in
      let words : IsWords (build b mem r) = record { flags = flags; sub_id = sub_id; sel = sel } in
      (words, query-RoundTrips ar (build b mem r) old rest words)
