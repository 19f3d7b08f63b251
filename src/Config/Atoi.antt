-- ===== src/Config/Atoi.antt =====
-- `atoi`, as include/test_networks/config_server.h uses it: spaces, a sign, decimal digits. The C
-- standard leaves a value outside `int` undefined.
use ppi_chi_nettest.Base.{
  ℕ, ◌+◌, ◌-◌, ◌≡◌, refl, Bool, true, ◌||◌, ◌&&◌, [], ◌∷◌, ◌==◌, ltb, leb, if◌then◌else◌, arith,
  Bool-cases, inl, inr,
}
use ppi_chi_nettest.Base.Text.{
  Text, codes, read_digits, to_string, is_digit, to_string_head, read_digits-to_string_all,
}
use ppi_chi_nettest.Base.Int.{ℤ, pos, negsuc, int_bound, IsInt, int_to_string}
use ppi_chi_nettest.Base.Outcome.{Outcome, ok, undefined}

-- `isspace` in the C locale.
abbrev is_space : ℕ → Bool
is_space c = c == 32 || leb 9 c && leb c 13

skip_spaces : Text → Text
skip_spaces [] = []
skip_spaces (c ∷ s) = if is_space c then skip_spaces s else c ∷ s

positive : ℕ → Outcome ℤ
positive n = if ltb n int_bound then ok (pos n) else undefined

negative : ℕ → Outcome ℤ
negative n =
    if n == 0 then ok (pos 0) else if leb n int_bound then ok (negsuc (n - 1)) else undefined

signed : Text → Outcome ℤ
unfolding positive negative read_digits
signed [] = ok (pos 0)
signed (c ∷ s) =
    if c == b'-'
    then negative (read_digits 0 s)
    else if c == b'+'
    then positive (read_digits 0 s)
    else positive (read_digits 0 (c ∷ s))

unfoldable pub atoi : Text → Outcome ℤ
unfolding skip_spaces signed
atoi s = signed (skip_spaces s)

atoi_examples :
    (atoi (codes "8080") ≡ ok (pos 8080))
    × (atoi (codes "  -12x") ≡ ok (negsuc 11))
    × (atoi (codes "tcp") ≡ ok (pos 0))
    × (atoi (codes "2147483648") ≡ undefined)
unfolding atoi
atoi_examples = (refl, refl, refl, refl)

positive-IsInt : (n : ℕ) {z : ℤ} → positive n ≡ ok z → IsInt z
unfolding positive
positive-IsInt n {z = pos m} h = ground arith
positive-IsInt n {z = negsuc m} h = ground arith

negative-IsInt : (n : ℕ) {z : ℤ} → negative n ≡ ok z → IsInt z
unfolding negative
negative-IsInt n {z = pos m} h = ground arith
negative-IsInt n {z = negsuc m} h = ground arith

signed-IsInt : (s : Text) {z : ℤ} → signed s ≡ ok z → IsInt z
unfolding signed
signed-IsInt [] {z = pos m} h = ground arith
signed-IsInt [] {z = negsuc m} h = ground arith
signed-IsInt (c ∷ s) h = elim (Bool-cases (c == b'-')) [
  | inl e ↦ negative-IsInt (read_digits 0 s) (rw e at h)
  | inr e ↦ elim (Bool-cases (c == b'+')) [
    | inl p ↦ positive-IsInt (read_digits 0 s) (rw (e, p) at h)
    | inr p ↦ positive-IsInt (read_digits 0 (c ∷ s)) (rw (e, p) at h)
  ]
]

-- What `atoi` returns fits an `int`.
pub atoi-IsInt : (s : Text) {z : ℤ} → atoi s ≡ ok z → IsInt z
unfolding atoi
atoi-IsInt s h = signed-IsInt (skip_spaces s) h

digit_first :
    (c : ℕ) (s : Text) → is_digit c ≡ true → atoi (c ∷ s) ≡ positive (read_digits 0 (c ∷ s))
unfolding atoi
digit_first c s h = ground arith

-- `atoi` reads back every `int` that `std::to_string` printed.
pub atoi-int_to_string : (z : ℤ) → IsInt z → atoi (int_to_string z) ≡ ok z
unfolding int_to_string positive
atoi-int_to_string (pos n) h =
    let (c, s, shape, digit) = to_string_head n in
    rw (shape, digit_first c s digit, ← shape, read_digits-to_string_all n) (ground arith)
atoi-int_to_string (negsuc n) h = minus
  where
    minus : atoi (b'-' ∷ to_string (n + 1)) ≡ ok (negsuc n)
    minus = unfold atoi in rw (read_digits-to_string_all (n + 1)) (ground arith)
