-- ===== src/Base/Text.antt =====
-- std::string as a list of bytes: equality, and `std::to_string` of an unsigned number.
use Prim.Native.Nat.{ℕ, zero, suc, ◌+◌, ◌-◌, ◌*◌, ◌/◌, ◌%◌, ◌<◌}
use Prim.Native.Char.{code}
use Prim.Native.String.{String}
use mathlib.Core.Path.{◌≡◌, refl, ap}
use mathlib.Core.Logic.{inl, inr}
use mathlib.Core.Bool.{Bool, true, false, ◌&&◌}
use mathlib.Core.List.{List, [], ◌∷◌, ◌++◌, append-nil}
use native.Mathlib.Omega.{arith}
use ppi_chi_nettest.Base.Tests.{◌==◌, leb, if◌then◌else◌, Bool-cases}

abbrev pub Text : Type 0
Text = List ℕ

-- The bytes of an ASCII literal.
abbrev pub codes : String → Text
codes String.[] = []
codes (String.◌∷◌ c s) = code c ∷ codes s

-- `std::string::operator==`
abbrev pub text_eq : Text → Text → Bool
text_eq [] [] = true
text_eq [] (y ∷ ys) = false
text_eq (x ∷ xs) [] = false
text_eq (x ∷ xs) (y ∷ ys) = x == y && text_eq xs ys

pub text_eq_sound : (s t : Text) → text_eq s t ≡ true → s ≡ t
text_eq_sound [] [] h = refl
text_eq_sound [] (y ∷ ys) h = cc
text_eq_sound (x ∷ xs) [] h = cc
text_eq_sound (x ∷ xs) (y ∷ ys) h = ground (arith, text_eq_sound xs ys)

pub text_eq_refl : (s : Text) → text_eq s s ≡ true
text_eq_refl [] = refl
text_eq_refl (x ∷ xs) = ground (arith, text_eq_refl xs)

unfoldable pub is_empty : Text → Bool
is_empty [] = true
is_empty (x ∷ xs) = false

abbrev pub is_digit : ℕ → Bool
is_digit c = leb b'0' c && leb c b'9'

-- The decimal digits of `n` in front of `out`; the fuel bounds the number of digits.
digits : ℕ → ℕ → Text → Text
digits zero n out = out
digits (suc f) n out =
    let more = digits f (n / 10) ((48 + n % 10) ∷ out) in
    if n / 10 == 0 then (48 + n % 10) ∷ out else more

-- `std::to_string`
unfoldable pub to_string : ℕ → Text
unfolding digits
to_string n = digits (suc n) n []

-- The number that a text begins with, on top of the digits read so far.
unfoldable pub read_digits : ℕ → Text → ℕ
read_digits acc [] = acc
read_digits acc (c ∷ s) = if is_digit c then read_digits (acc * 10 + (c - 48)) s else acc

-- What follows those digits.
pub skip_digits : Text → Text
skip_digits [] = []
skip_digits (c ∷ s) = if is_digit c then skip_digits s else c ∷ s

digits-append :
    (f n : ℕ) (out rest : Text) → n < f → digits f n out ++ rest ≡ digits f n (out ++ rest)
unfolding digits
digits-append zero n out rest h = absurd (omega arith)
digits-append (suc f) n out rest h =
    ground (arith, digits-append f (n / 10) ((48 + n % 10) ∷ out) rest)

digit_read :
    (n acc : ℕ) (s : Text) → read_digits acc ((48 + n % 10) ∷ s) ≡ read_digits (acc * 10 + n % 10) s
unfolding read_digits
digit_read n acc s = ground arith

digit_skip : (n : ℕ) (s : Text) → skip_digits ((48 + n % 10) ∷ s) ≡ skip_digits s
unfolding skip_digits
digit_skip n s = ground arith

read_digits-digits :
    (f n : ℕ) (out : Text) → n < f → read_digits 0 (digits f n out) ≡ read_digits n out
unfolding digits
read_digits-digits zero n out h = absurd (omega arith)
read_digits-digits (suc f) n out h = elim (Bool-cases (n / 10 == 0)) [
  | inl e ↦ rw (e, digit_read n 0 out) (ap (λ k. read_digits k out) (ground arith))
  | inr e ↦
      rw
        (
          e,
          read_digits-digits f (n / 10) ((48 + n % 10) ∷ out) (ground arith),
          digit_read n (n / 10) out,
        )
        (ap (λ k. read_digits k out) (omega arith))
]

skip_digits-digits : (f n : ℕ) (out : Text) → n < f → skip_digits (digits f n out) ≡ skip_digits out
unfolding digits
skip_digits-digits zero n out h = absurd (omega arith)
skip_digits-digits (suc f) n out h = elim (Bool-cases (n / 10 == 0)) [
  | inl e ↦ rw (e, digit_skip n out)
  | inr e ↦
      rw (e, skip_digits-digits f (n / 10) ((48 + n % 10) ∷ out) (ground arith), digit_skip n out)
]

-- A number is read back from its decimal digits, and reading stops behind them.
pub read_digits-to_string : (n : ℕ) (s : Text) → read_digits 0 (to_string n ++ s) ≡ read_digits n s
unfolding to_string
read_digits-to_string n s =
    rw (digits-append (suc n) n [] s (omega arith)) (read_digits-digits (suc n) n s (omega arith))

pub skip_digits-to_string : (n : ℕ) (s : Text) → skip_digits (to_string n ++ s) ≡ skip_digits s
unfolding to_string
skip_digits-to_string n s =
    rw (digits-append (suc n) n [] s (omega arith)) (skip_digits-digits (suc n) n s (omega arith))

-- A text that does not begin with a digit.
abbrev pub NoDigit : Text → Type 0
NoDigit [] = Unit
NoDigit (c ∷ s) = is_digit c ≡ false

pub read_digits-stop : (n : ℕ) (s : Text) → NoDigit s → read_digits n s ≡ n
unfolding read_digits
read_digits-stop n [] h = refl
read_digits-stop n (c ∷ s) h = rw h

pub skip_digits-stop : (s : Text) → NoDigit s → skip_digits s ≡ s
unfolding skip_digits
skip_digits-stop [] h = refl
skip_digits-stop (c ∷ s) h = rw h

-- Decimal fields that end where no digit follows are told apart.
pub to_string_split :
    (m n : ℕ) (s t : Text)
    → NoDigit s
    → NoDigit t
    → to_string m ++ s ≡ to_string n ++ t
    → (m ≡ n) × (s ≡ t)
to_string_split m n s t hs ht e = (
  cc (
    ap (read_digits 0) e,
    read_digits-to_string m s,
    read_digits-to_string n t,
    read_digits-stop m s hs,
    read_digits-stop n t ht,
  ),
  cc (
    ap skip_digits e,
    skip_digits-to_string m s,
    skip_digits-to_string n t,
    skip_digits-stop s hs,
    skip_digits-stop t ht,
  ),
)

pub to_string-injective : (m n : ℕ) → to_string m ≡ to_string n → m ≡ n
to_string-injective m n e =
    (to_string_split m n [] [] tt tt (cc (e, append-nil (to_string m), append-nil (to_string n)))).0

digits_head :
    (f n : ℕ) (out : Text)
    → n < f
    → (c : ℕ) × (s : Text) × (digits f n out ≡ c ∷ s) × (is_digit c ≡ true)
unfolding digits
digits_head zero n out h = absurd (omega arith)
digits_head (suc f) n out h = elim (Bool-cases (n / 10 == 0)) [
  | inl e ↦ (48 + n % 10, out, rw e, ground arith)
  | inr e ↦
      let (c, s, shape, digit) = digits_head f (n / 10) ((48 + n % 10) ∷ out) (ground arith) in
      (c, s, rw e shape, digit)
]

-- The first character is a digit.
pub to_string_head : (n : ℕ) → (c : ℕ) × (s : Text) × (to_string n ≡ c ∷ s) × (is_digit c ≡ true)
unfolding to_string
to_string_head n = digits_head (suc n) n [] (omega arith)

-- The whole text of a number is read as that number.
pub read_digits-to_string_all : (n : ℕ) → read_digits 0 (to_string n) ≡ n
read_digits-to_string_all n = cc (
  ap (read_digits 0) (append-nil (to_string n)),
  read_digits-to_string n [],
  read_digits-stop n [] tt,
)

to_string_zero : to_string 0 ≡ codes "0"
unfolding to_string
to_string_zero = refl

to_string_max : to_string 18446744073709551615 ≡ codes "18446744073709551615"
unfolding to_string
to_string_max = refl
