-- ===== src/Archive/LittleEndian.antt =====
-- A concrete archive: numbers in little-endian bytes, sequences behind their length in unary.
use ppi_chi_nettest.Base.{
  ℕ, zero, suc, ◌+◌, ◌*◌, ◌/◌, ◌%◌, ◌^◌, ◌<◌, ◌≡◌, refl, ap, Option, none, some, List, [], ◌∷◌, map,
  arith, length, All,
}
use ppi_chi_nettest.Base.Text.{Text}
use ppi_chi_nettest.Archive.Defs.{Codec, RoundTrips, IsU32, IsU64, Archive}

-- What a reader found, with a function on it.
abbrev pub found {ℓ κ} : {A : Type ℓ} {B : Type κ} → (A → B) → Option (A × Text) → Option (B × Text)
found f o = elim o [ none ↦ none | some (a, rest) ↦ some (f a, rest) ]

unfoldable put_bytes : (w x : ℕ) → Text → Text
put_bytes zero x rest = rest
put_bytes (suc w) x rest = (x % 256) ∷ put_bytes w (x / 256) rest

unfoldable get_bytes : ℕ → Text → Option (ℕ × Text)
get_bytes zero bytes = some (0, bytes)
get_bytes (suc w) [] = none
get_bytes (suc w) (c ∷ bytes) = found (λ v. c + 256 * v) (get_bytes w bytes)

get_bytes-put_bytes :
    (w x : ℕ) (rest : Text) → x < 256 ^ w → get_bytes w (put_bytes w x rest) ≡ some (x, rest)
unfolding get_bytes put_bytes
get_bytes-put_bytes zero x rest h = ap (λ (n : ℕ). some (n, rest)) (omega (arith, h))
get_bytes-put_bytes (suc w) x rest h =
    let high : x / 256 < 256 ^ w = omega (arith, h) in
    let more = get_bytes-put_bytes w (x / 256) rest high in
    rw more (ap (λ (n : ℕ). some (n, rest)) (omega arith))

abbrev number : ℕ → Codec ℕ
number w = record { save = put_bytes w; load = λ old bytes. get_bytes w bytes }

unfoldable put_count : ℕ → Text → Text
put_count zero rest = 0 ∷ rest
put_count (suc n) rest = 1 ∷ put_count n rest

unfoldable get_count : Text → Option (ℕ × Text)
get_count [] = none
get_count (zero ∷ bytes) = some (0, bytes)
get_count (suc c ∷ bytes) = found suc (get_count bytes)

get_count-put_count : (n : ℕ) (rest : Text) → get_count (put_count n rest) ≡ some (n, rest)
unfolding get_count put_count
get_count-put_count zero rest = refl
get_count-put_count (suc n) rest = rw (get_count-put_count n rest)

module _ {T : Type 0} (fresh : T) (c : Codec T) where
  unfoldable put_all : List T → Text → Text
  put_all [] rest = rest
  put_all (x ∷ xs) rest = c.save x (put_all xs rest)

  unfoldable get_all : ℕ → Text → Option (List T × Text)
  get_all zero bytes = some ([], bytes)
  get_all (suc n) bytes = elim (c.load fresh bytes) [
    | none ↦ none
    | some (x, rest) ↦ found (λ xs. x ∷ xs) (get_all n rest)
  ]

  abbrev sequence : Codec (List T)
  sequence = record {
    save = λ xs rest. put_count (length xs) (put_all xs rest);
    load = λ old bytes. elim (get_count bytes) [ none ↦ none | some (n, rest) ↦ get_all n rest ];
  }

  get_all-put_all :
      (view : T → T) (P : T → Type 0)
      → ((x : T) (rest : Text) → P x → c.load fresh (c.save x rest) ≡ some (view x, rest))
      → (xs : List T) (rest : Text) → All P xs
      → get_all (length xs) (put_all xs rest) ≡ some (map view xs, rest)
  unfolding get_all put_all
  get_all-put_all view P one [] rest all = refl
  get_all-put_all view P one (x ∷ xs) rest (h, hs) =
      rw (one x (put_all xs rest) h, get_all-put_all view P one xs rest hs)

  sequence_lem :
      (view : T → T) (P : T → Type 0)
      → ((x : T) (rest : Text) → P x → c.load fresh (c.save x rest) ≡ some (view x, rest))
      → (xs : List T) (rest : Text) → All P xs
      → sequence.load [] (sequence.save xs rest) ≡ some (map view xs, rest)
  sequence_lem view P one xs rest all =
      rw (sequence, get_count-put_count (length xs) (put_all xs rest))
        (get_all-put_all view P one xs rest all)

map-id : (s : Text) → map (λ x. x) s ≡ s
map-id [] = refl
map-id (c ∷ s) = ap (λ t. c ∷ t) (map-id s)

abbrev byte : Codec ℕ
byte = record {
  save = λ c rest. c ∷ rest;
  load = λ old bytes. elim bytes [ [] ↦ none | c ∷ rest ↦ some (c, rest) ];
}

text_lem :
    (s old rest : Text)
    → All (λ c. c < 256) s
    → (sequence 0 byte).load old ((sequence 0 byte).save s rest) ≡ some (s, rest)
text_lem s old rest all =
    let back = sequence_lem 0 byte (λ x. x) (λ c. c < 256) (λ x r h. refl) s rest all in
    rw (map-id s) at back

number-IsU32 : RoundTrips (number 4) IsU32
number-IsU32 x old rest h = get_bytes-put_bytes 4 x rest h

number-IsU64 : RoundTrips (number 8) IsU64
number-IsU64 x old rest h = get_bytes-put_bytes 8 x rest h

pub little_endian : Archive
little_endian = record {
  u32 = number 4;
  u64 = number 8;
  enum = number 4;
  bits32 = number 4;
  text = sequence 0 byte;
  vector = sequence;
  u32_lem = number-IsU32;
  u64_lem = number-IsU64;
  enum_lem = number-IsU32;
  bits32_lem = number-IsU32;
  text_lem = text_lem;
  vector_lem = sequence_lem;
}
