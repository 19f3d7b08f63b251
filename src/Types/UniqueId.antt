-- ===== src/Types/UniqueId.antt =====
-- `struct UniqueId<TYPE>` of include/test_networks/chimaera_types.h (lines 93 to 228, and its
-- `std::hash` at line 850). `kind` is the template argument.
pub mod Laws
pub mod Key
use ppi_chi_nettest.Base.{ℕ, ◌+◌, ◌%◌, Bool, not, ◌&&◌, ◌||◌, ◌++◌, ◌==◌, if◌then◌else◌, u64_mod}
use ppi_chi_nettest.Base.Text.{Text, codes, to_string}
use ppi_chi_nettest.Archive.{Codec, Archive, member, ◌&◌}

-- The anonymous union of `node_id_` and `prio_` is one 32-bit word.
pub record UniqueId (kind : ℕ) : Type 0 where
  pub node_id : ℕ
  pub hash : ℕ
  pub unique : ℕ

-- `std::hash` on u32 and on u64, which the standard leaves open.
pub record StdHash : Type 0 where
  pub u32 : ℕ → ℕ
  pub u64 : ℕ → ℕ

module _ {kind : ℕ} where
  pub prio : UniqueId kind → ℕ
  prio id = id.node_id

  unfoldable pub serialize : Archive → Codec (UniqueId kind)
  serialize ar =
      member (λ id. id.node_id) (λ id v. record id { node_id = v }) ar.u32
      & member (λ id. id.hash) (λ id v. record id { hash = v }) ar.u32
      & member (λ id. id.unique) (λ id v. record id { unique = v }) ar.u64

  pub emplace : ℕ → ℕ → UniqueId kind
  emplace node_id unique = record { node_id = node_id; hash = 0; unique = unique }

  pub emplace_hash : ℕ → ℕ → ℕ → UniqueId kind
  emplace_hash node_id hash unique = record { node_id = node_id; hash = hash; unique = unique }

  pub copy : UniqueId kind → UniqueId kind
  copy other = record { node_id = other.node_id; hash = other.hash; unique = other.unique }

  -- Copy construction from an id of another kind.
  pub convert : {other_kind : ℕ} → UniqueId other_kind → UniqueId kind
  convert other = record { node_id = other.node_id; hash = other.hash; unique = other.unique }

  -- The flag says whether `this` and `&other` are the same address.
  unfoldable pub assign : Bool → UniqueId kind → UniqueId kind → UniqueId kind
  assign same self other =
      if not same
      then record self { node_id = other.node_id; hash = other.hash; unique = other.unique }
      else self

  pub move : UniqueId kind → UniqueId kind
  move other = record { node_id = other.node_id; hash = other.hash; unique = other.unique }

  pub move_assign : Bool → UniqueId kind → UniqueId kind → UniqueId kind
  move_assign same self other =
      if not same
      then record self { node_id = other.node_id; hash = other.hash; unique = other.unique }
      else self

  unfoldable pub is_null : UniqueId kind → Bool
  is_null id = id.node_id == 0

  unfoldable pub get_null : UniqueId kind
  unfolding emplace
  get_null = emplace 0 0

  pub set_null : UniqueId kind → UniqueId kind
  set_null id = record id { node_id = 0; hash = 0; unique = 0 }

  pub get_node_id : UniqueId kind → ℕ
  get_node_id id = id.node_id

  -- `operator==` and `operator!=` do not look at `hash_`.
  unfoldable pub eq : UniqueId kind → UniqueId kind → Bool
  eq a b = a.unique == b.unique && a.node_id == b.node_id

  pub ne : UniqueId kind → UniqueId kind → Bool
  ne a b = not (a.unique == b.unique) || not (a.node_id == b.node_id)

  -- `operator<<`
  unfoldable pub print : UniqueId kind → Text
  print id = to_string id.node_id ++ (codes "." ++ to_string id.unique)

  -- `UniqueId::Hash`, a sum of two `size_t`.
  unfoldable pub hash_value : StdHash → UniqueId kind → ℕ
  hash_value std id = (std.u64 id.unique + std.u32 id.node_id) % u64_mod

  -- `std::hash<UniqueId>::operator()`
  pub hash_key : StdHash → UniqueId kind → ℕ
  unfolding hash_value
  hash_key std key = hash_value std key

abbrev pub PoolId : Type 0
PoolId = UniqueId 1

abbrev pub QueueId : Type 0
QueueId = UniqueId 2

abbrev pub TaskId : Type 0
TaskId = UniqueId 3
