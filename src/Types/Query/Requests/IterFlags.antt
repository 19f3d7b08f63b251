-- ===== src/Types/Query/Requests/IterFlags.antt =====
-- What `GetIterFlags` gives of a built query.
use ppi_chi_nettest.Base.{◌≡◌, refl, arith, bit_and, bit_or}
use ppi_chi_nettest.Base.Bits.{bit_and-or, bit_and_comm, zero-bit_or}
use ppi_chi_nettest.Bitfield.{Bitfield}
use ppi_chi_nettest.Types.Query.{DomainQuery, get_iter_flags}
use ppi_chi_nettest.Types.Query.Requests.{
  Request, local_id, global, range, global_bcast, direct_id, direct_hash, build, iter_arg,
  iter_mask,
}
use ppi_chi_nettest.Types.Query.Requests.Flags.{fixed_bits, flags-build}

module _ (b : Bitfield) (mem : DomainQuery) where
  iter_mask-opt :
      bit_or (bit_or (bit_or (b.bit_opt 15) (b.bit_opt 18)) (b.bit_opt 19)) (b.bit_opt 17)
      ≡ iter_mask
  iter_mask-opt = rw (
    b.bit_opt_lem 15 (omega arith),
    b.bit_opt_lem 18 (omega arith),
    b.bit_opt_lem 19 (omega arith),
    b.bit_opt_lem 17 (omega arith),
  )

  fixed_masked : (r : Request) → bit_and iter_mask (fixed_bits r) ≡ 0
  fixed_masked (local_id s i) = refl
  fixed_masked (global s f) = refl
  fixed_masked (range s o c f) = refl
  fixed_masked global_bcast = refl
  fixed_masked (direct_id s i f) = refl
  fixed_masked (direct_hash s h f) = refl

  -- `GetIterFlags` gives the iteration bits that the request carried, and no other bit.
  pub get_iter_flags-build :
      (r : Request) → get_iter_flags b (build b mem r) ≡ bit_and iter_mask (iter_arg r)
  unfolding get_iter_flags
  get_iter_flags-build r =
      rw
        (
          iter_mask-opt,
          flags-build b mem r,
          bit_and_comm (bit_or (fixed_bits r) (iter_arg r)) iter_mask,
          bit_and-or iter_mask (fixed_bits r) (iter_arg r),
          fixed_masked r,
        )
        (zero-bit_or _)
