-- ===== src/Types/Query/Requests/Flags.antt =====
-- The flags that each constructor sets: a constant in front of the iteration flags.
use ppi_chi_nettest.Base.{ℕ, ◌<◌, ◌≡◌, refl, ◌||◌, arith, bit_and, bit_or}
use ppi_chi_nettest.Base.Bits.{zero-bit_or}
use ppi_chi_nettest.Bitfield.{Bitfield}
use ppi_chi_nettest.Bitfield.Laws.{has, has-or, any-bit_opt}
use ppi_chi_nettest.Types.Query.{
  DomainQuery, get_local_id, get_global, get_range, get_global_bcast, get_direct_id,
  get_direct_hash,
}
use ppi_chi_nettest.Types.Query.Requests.{
  Request, local_id, global, range, global_bcast, direct_id, direct_hash, build, iter_arg,
  IsRequest,
}

-- The scope and selection flags of a request.
abbrev pub fixed_bits : Request → ℕ
fixed_bits (local_id s i) = 18
fixed_bits (global s f) = 8
fixed_bits (range s o c f) = 72
fixed_bits global_bcast = 8
fixed_bits (direct_id s i f) = 20
fixed_bits (direct_hash s h f) = 36

module _ (b : Bitfield) (mem : DomainQuery) where
  pub flags-build : (r : Request) → (build b mem r).flags ≡ bit_or (fixed_bits r) (iter_arg r)
  unfolding build get_local_id get_global get_range get_global_bcast get_direct_id get_direct_hash
  flags-build (local_id s i) =
      rw (b.set_bits_lem, b.empty_lem, b.bit_opt_lem 1 (omega arith), b.bit_opt_lem 4 (omega arith))
  flags-build (global s f) =
      rw (b.set_bits_lem, b.empty_lem, b.bit_opt_lem 3 (omega arith)) (zero-bit_or _)
  flags-build (range s o c f) =
      rw (b.set_bits_lem, b.empty_lem, b.bit_opt_lem 3 (omega arith), b.bit_opt_lem 6 (omega arith))
        (zero-bit_or _)
  flags-build global_bcast =
      rw
        (b.set_bits_lem, b.empty_lem, b.bit_opt_lem 3 (omega arith), b.bit_opt_lem 15 (omega arith))
  flags-build (direct_id s i f) =
      rw (b.set_bits_lem, b.empty_lem, b.bit_opt_lem 2 (omega arith), b.bit_opt_lem 4 (omega arith))
        (zero-bit_or _)
  flags-build (direct_hash s h f) =
      rw (b.set_bits_lem, b.empty_lem, b.bit_opt_lem 2 (omega arith), b.bit_opt_lem 5 (omega arith))
        (zero-bit_or _)

  -- A test of the library on a built query, by its two masks.
  pub any-build :
      (r : Request) (n : ℕ)
      → n < 32
      → b.any (build b mem r).flags (b.bit_opt n) ≡ (has n (fixed_bits r) || has n (iter_arg r))
  any-build r n h = rw (any-bit_opt b n _ h, flags-build r) (has-or n (fixed_bits r) (iter_arg r))

-- None of the scope and selection flags is among the iteration flags of a request.
pub iter_apart : (r : Request) → IsRequest r → bit_and 126 (iter_arg r) ≡ 0
iter_apart (local_id s i) h = refl
iter_apart (global s f) h = h
iter_apart (range s o c f) h = h.2
iter_apart global_bcast h = refl
iter_apart (direct_id s i f) h = h.1
iter_apart (direct_hash s h f) k = k.1
