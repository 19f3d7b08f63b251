-- ===== src/Types/UniqueId/Key.antt =====
-- What an id is where only `operator==` looks at it, as in a container that is keyed by ids: the
-- ids of one kind up to that operator.
use mathlib.Core.Quot
use mathlib.Core.Quot.{Quot, Quot-set}
use native.Mathlib.Nat.{ℕ_set}
use ppi_chi_nettest.Base.{ℕ, ◌+◌, ◌%◌, ◌≡◌, refl, ap, ◌↔◌, true, u64_mod}
use ppi_chi_nettest.Base.Text.{Text}
use ppi_chi_nettest.Types.UniqueId.{UniqueId, StdHash, emplace, eq, print, hash_key}
use ppi_chi_nettest.Types.UniqueId.Laws.{
  unique_id_hash_key-eq, unique_id_print_iff, unique_id_eq_iff,
}

abbrev pub Key : ℕ → Type 0
Key kind = Quot (λ (a b : UniqueId kind). eq a b ≡ true)

pub Text_set : IsSet Text
Text_set = hlevel

pub pair_set : IsSet (ℕ × ℕ)
pair_set = hlevel ℕ_set

module _ {kind : ℕ} where
  pub same_parts :
      (a b : UniqueId kind)
      → eq a b ≡ true
      → ◌≡◌ {A = ℕ × ℕ} (a.node_id, a.unique) (b.node_id, b.unique)
  same_parts a b h = let (n, u) = (unique_id_eq_iff a b).0 h in rw (n, u) refl

  abbrev pub key : UniqueId kind → Key kind
  key a = Quot.mk a

  -- `std::hash` and `operator<<` on keys.
  unfoldable pub key_hash : StdHash → Key kind → ℕ
  key_hash std = Quot.lift ℕ_set (hash_key std) (λ a b h. unique_id_hash_key-eq std a b h)

  unfoldable pub key_print : Key kind → Text
  key_print = Quot.lift Text_set print (λ a b h. (unique_id_print_iff a b).1 h)

  -- The node and the number of a key.
  unfoldable pub parts : Key kind → ℕ × ℕ
  parts = Quot.lift pair_set (λ id. (id.node_id, id.unique)) (λ a b h. same_parts a b h)

  unfoldable pub of_parts : ℕ × ℕ → Key kind
  of_parts p = Quot.mk (emplace p.0 p.1)

  of_parts-parts : (x : Key kind) → of_parts (parts x) ≡ x
  unfolding parts of_parts emplace
  of_parts-parts =
      Quot.ind (λ x. Quot-set _ _) (λ id. Quot.sound ((unique_id_eq_iff _ id).1 (refl, refl)))

  -- Ids of one key have the same parts, and so they compare equal.
  key-eq : (a b : UniqueId kind) → (key a ≡ key b) ↔ (eq a b ≡ true)
  unfolding parts
  key-eq a b = (
    λ same.
        let told = ap parts same in
        (unique_id_eq_iff a b).1 (ap (λ (q : ℕ × ℕ). q.0) told, ap (λ (q : ℕ × ℕ). q.1) told),
    λ h. Quot.sound h,
  )

  key_print-injective : (x y : Key kind) → key_print x ≡ key_print y → x ≡ y
  unfolding key_print
  key_print-injective =
      Quot.ind (λ x. hlevel Quot-set)
        (λ a. Quot.ind (λ y. hlevel Quot-set) (λ b e. Quot.sound ((unique_id_print_iff a b).0 e)))

  key_hash-parts :
      (std : StdHash) (x : Key kind)
      → key_hash std x ≡ (std.u64 (parts x).1 + std.u32 (parts x).0) % u64_mod
  unfolding key_hash parts hash_key
  key_hash-parts std = Quot.ind (λ x. ℕ_set _ _) (λ id. refl)

  -- A key is a node and a number, and nothing else: each pair of them is one key. Two ids are the
  -- same key exactly if they compare equal, and exactly if their keys print alike; the hash of a
  -- key is the sum of those of its parts.
  pub key_lem :
      (std : StdHash) (x y : Key kind) (p : ℕ × ℕ) (a b : UniqueId kind)
      → (of_parts (parts x) ≡ x)
        × (parts (of_parts p) ≡ p)
        × ((key a ≡ key b) ↔ (eq a b ≡ true))
        × ((key_print x ≡ key_print y) ↔ (x ≡ y))
        × (key_hash std x ≡ (std.u64 (parts x).1 + std.u32 (parts x).0) % u64_mod)
  unfolding of_parts parts emplace
  key_lem std x y p a b = (
    of_parts-parts x,
    refl,
    key-eq a b,
    (key_print-injective x y, λ same. ap key_print same),
    key_hash-parts std x,
  )
