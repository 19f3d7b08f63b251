-- ===== src/Types/UniqueId/Laws.antt =====
-- Equality, hashing, printing and serialization of `UniqueId`, against one another.
use ppi_chi_nettest.Base.{ℕ, ◌≡◌, refl, ◌↔◌, Bool, true, false, not, ◌<◌, arith, u32_mod, u64_mod}
use ppi_chi_nettest.Base.Text.{to_string_split, to_string-injective}
use ppi_chi_nettest.Archive.{Archive, RoundTrips}
use ppi_chi_nettest.Types.UniqueId.{
  UniqueId, StdHash, serialize, copy, convert, assign, move, move_assign, prio, emplace,
  emplace_hash, get_node_id, is_null, get_null, set_null, eq, ne, print, hash_key,
}

-- Every field fits its C type.
pub record IsWords {kind : ℕ} (id : UniqueId kind) : Type 0 where
  pub node_id : id.node_id < u32_mod
  pub hash : id.hash < u32_mod
  pub unique : id.unique < u64_mod

module _ {kind : ℕ} where
  pub unique_id_eq_iff :
      (a b : UniqueId kind) → (eq a b ≡ true) ↔ ((a.node_id ≡ b.node_id) × (a.unique ≡ b.unique))
  unfolding eq
  unique_id_eq_iff a b = ground arith

  -- `operator==` is an equivalence relation, and `operator!=` is its negation.
  pub eq_equivalence :
      (a b c : UniqueId kind)
      → (eq a a ≡ true)
        × (eq a b ≡ eq b a)
        × (eq a b ≡ true → eq b c ≡ true → eq a c ≡ true)
        × (ne a b ≡ not (eq a b))
  unfolding eq ne
  eq_equivalence a b c = (ground arith, ground arith, ground arith, ground arith)

  -- Ids that compare equal have one hash, so that they find one another in an unordered map,
  -- although `operator==` ignores the field `hash_`.
  pub unique_id_hash_key-eq :
      (std : StdHash) (a b : UniqueId kind) → eq a b ≡ true → hash_key std a ≡ hash_key std b
  unfolding eq hash_key
  unique_id_hash_key-eq std a b h = ground arith

  -- Two ids are printed alike exactly when they compare equal.
  pub unique_id_print_iff : (a b : UniqueId kind) → (print a ≡ print b) ↔ (eq a b ≡ true)
  unfolding print
  unique_id_print_iff a b = (same, λ h. printed ((unique_id_eq_iff a b).0 h))
    where
      same : print a ≡ print b → eq a b ≡ true
      same e =
          let parts = to_string_split a.node_id b.node_id _ _ refl refl e in
          (unique_id_eq_iff a b).1 (parts.0, to_string-injective a.unique b.unique (cc (parts.1)))

      printed : (a.node_id ≡ b.node_id) × (a.unique ≡ b.unique) → print a ≡ print b
      printed p = rw (p.0, p.1)

  -- `SetNull` gives an id that is null and equal to `GetNull()`; an id that `IsNull` accepts
  -- equals `GetNull()` only if its number is 0 too.
  pub null_lem :
      (id : UniqueId kind)
      → (is_null (set_null id) ≡ true)
        × (set_null id ≡ get_null)
        × (is_null id ≡ true → (eq id get_null ≡ true) ↔ (id.unique ≡ 0))
  unfolding is_null set_null get_null eq
  null_lem id = (refl, refl, λ h. ground arith)

  -- A copy, a move and an assignment give an id with all three fields of the other, also when
  -- an id is assigned to itself; a conversion between kinds keeps comparison and hash.
  pub unique_id_copy_lem :
      (to : ℕ) (std : StdHash) (same : Bool) (self a b : UniqueId kind)
      → (same ≡ true → self ≡ a)
      → (copy a ≡ a)
        × (move a ≡ a)
        × (assign same self a ≡ a)
        × (move_assign same self a ≡ a)
        × (convert {kind = kind} (convert {kind = to} a) ≡ a)
        × (eq (convert {kind = to} a) (convert b) ≡ eq a b)
        × (hash_key std (convert {kind = to} a) ≡ hash_key std a)
  unfolding copy move assign move_assign convert eq hash_key
  unique_id_copy_lem to std true self a b h = (refl, refl, h refl, h refl, refl, refl, refl)
  unique_id_copy_lem to std false self a b h = (refl, refl, refl, refl, refl, refl, refl)

  -- What is read back is what was written, whatever the target held.
  pub unique_id-RoundTrips : (ar : Archive) → RoundTrips (serialize {kind = kind} ar) IsWords
  unfolding serialize
  unique_id-RoundTrips ar id old rest w = rw (
    ar.u32_lem id.node_id _ _ w.node_id,
    ar.u32_lem id.hash _ _ w.hash,
    ar.u64_lem id.unique _ _ w.unique,
  )

-- The constructors store their arguments, and the union makes `prio_` the node.
emplace_fields :
    (kind n h u : ℕ)
    → let id : UniqueId kind = emplace_hash n h u in
      (get_node_id id ≡ n) × (prio id ≡ n) × (eq id (emplace n u) ≡ true)
unfolding emplace emplace_hash get_node_id prio eq
emplace_fields kind n h u = (refl, refl, ground arith)
