-- ===== src/Bitfield.antt =====
-- `hshm::bitfield` and the macro `BIT_OPT`, which are not in the repository: an interface with
-- their documented behaviour on 32-bit fields.
pub mod Laws
use ppi_chi_nettest.Base.{ℕ, ◌^◌, ◌<◌, ◌≡◌, refl, Bool, not, ◌==◌, bit_and, bit_or}

pub record Bitfield : Type 0 where
  pub bit_opt : ℕ → ℕ  -- BIT_OPT(u32, n)
  pub empty : ℕ  -- the bits of a field that its default constructor made
  pub init : ℕ → ℕ  -- the bits of a field that was made from a mask
  pub set_bits : ℕ → ℕ → ℕ  -- the bits after SetBits(mask)
  pub any : ℕ → ℕ → Bool  -- Any(mask)
  pub bit_opt_lem : (n : ℕ) → n < 32 → bit_opt n ≡ 2 ^ n
  pub empty_lem : empty ≡ 0
  pub init_lem : (mask : ℕ) → init mask ≡ mask
  pub set_bits_lem : (bits mask : ℕ) → set_bits bits mask ≡ bit_or bits mask
  pub any_lem : (bits mask : ℕ) → any bits mask ≡ not (bit_and bits mask == 0)

-- The library's own definitions meet the interface.
abbrev pub hshm_bits : Bitfield
hshm_bits = record {
  bit_opt = λ n. 2 ^ n;
  empty = 0;
  init = λ mask. mask;
  set_bits = bit_or;
  any = λ bits mask. not (bit_and bits mask == 0);
  bit_opt_lem = λ n h. refl;
  empty_lem = refl;
  init_lem = λ mask. refl;
  set_bits_lem = λ bits mask. refl;
  any_lem = λ bits mask. refl;
}
