-- ===== src/Base/Int.antt =====
-- Signed integers over the native numbers: the C type `int`, its text and its conversions.
use Prim.Native.Nat.{ℕ, ◌+◌, ◌-◌, ◌%◌, ◌<◌}
use mathlib.Core.List.{◌∷◌}
use ppi_chi_nettest.Base.Tests.{u32_mod}
use ppi_chi_nettest.Base.Text.{Text, to_string}

-- `negsuc n` is -(n + 1).
pub data ℤ : Type 0 where
  pos : ℕ → ℤ
  negsuc : ℕ → ℤ

-- 2 ^ 31
abbrev pub int_bound : ℕ
int_bound = 2147483648

abbrev pub IsInt : ℤ → Type 0
IsInt (pos n) = n < int_bound
IsInt (negsuc n) = n < int_bound

-- The conversion to u32.
abbrev pub to_u32 : ℤ → ℕ
to_u32 (pos n) = n % u32_mod
to_u32 (negsuc n) = u32_mod - 1 - n % u32_mod

-- `std::to_string(int)`
unfoldable pub int_to_string : ℤ → Text
int_to_string (pos n) = to_string n
int_to_string (negsuc n) = b'-' ∷ to_string (n + 1)
