-- ===== src/Archive/Defs.antt =====
-- Codecs, the interface of an archive, and the members of a structure in order.
use ppi_chi_nettest.Base.{ℕ, ◌<◌, ◌≡◌, Option, none, some, List, [], map, u32_mod, u64_mod, All}
use ppi_chi_nettest.Base.Text.{Text}

-- An output archive puts the bytes of a value in front of what is written after it; an input
-- archive overwrites the value that it is given, and leaves the bytes that it did not read.
pub record Codec (T : Type 0) : Type 0 where
  pub save : T → Text → Text
  pub load : T → Text → Option (T × Text)

-- The values of `P` come back whole, whatever the object held that they are loaded into.
abbrev pub RoundTrips : {T : Type 0} → Codec T → (T → Type 0) → Type 0
RoundTrips {T} c P = (x old : T) (rest : Text) → P x → c.load old (c.save x rest) ≡ some (x, rest)

abbrev pub IsU32 : ℕ → Type 0
IsU32 x = x < u32_mod

abbrev pub IsU64 : ℕ → Type 0
IsU64 x = x < u64_mod

-- An archive, and its serialization of `bitfield<u32>` and of an `enum class` (by its number).
-- A vector is loaded into an empty one by loading each element into a fresh element; `view` is
-- what one element comes back as.
pub record Archive : Type 1 where
  pub u32 : Codec ℕ
  pub u64 : Codec ℕ
  pub enum : Codec ℕ
  pub bits32 : Codec ℕ
  pub text : Codec Text
  pub vector : {T : Type 0} → T → Codec T → Codec (List T)
  pub u32_lem : RoundTrips u32 IsU32
  pub u64_lem : RoundTrips u64 IsU64
  pub enum_lem : RoundTrips enum IsU32
  pub bits32_lem : RoundTrips bits32 IsU32
  pub text_lem : RoundTrips text (All (λ c. c < 256))
  pub vector_lem :
      {T : Type 0} (fresh : T) (c : Codec T) (view : T → T) (P : T → Type 0)
      → ((x : T) (rest : Text) → P x → c.load fresh (c.save x rest) ≡ some (view x, rest))
      → (xs : List T) (rest : Text) → All P xs
      → (vector fresh c).load [] ((vector fresh c).save xs rest) ≡ some (map view xs, rest)

-- `ar & s.member`
abbrev pub member : {S A : Type 0} → (S → A) → (S → A → S) → Codec A → Codec S
member get put c = record {
  save = λ s rest. c.save (get s) rest;
  load = λ s bytes. elim (c.load (get s) bytes) [
    | none ↦ none
    | some (a, rest) ↦ some (put s a, rest)
  ];
}

-- One member after another.
infixl 20 ◌&◌
abbrev pub ◌&◌ : {S : Type 0} → Codec S → Codec S → Codec S
p & q = record {
  save = λ s rest. p.save s (q.save s rest);
  load = λ s bytes. elim (p.load s bytes) [ none ↦ none | some (s', rest) ↦ q.load s' rest ];
}
