-- ===== src/Types/Query.antt =====
-- `struct DomainQuery` of include/test_networks/chimaera_types.h (lines 514 to 737, and its
-- `std::hash` at line 875). A query is built in memory `mem` whose contents the constructor does
-- not set, but for the flags.
pub mod Laws
pub mod Requests
use ppi_chi_nettest.Base.{
  ℕ, ◌+◌, ◌%◌, Bool, true, false, not, ◌&&◌, ◌++◌, List, [], ◌∷◌, ◌==◌, if◌then◌else◌, u64_mod,
  bit_and, bit_or,
}
use ppi_chi_nettest.Base.Text.{Text, codes, to_string}
use ppi_chi_nettest.Archive.{Codec, Archive, member, ◌&◌}
use ppi_chi_nettest.Bitfield.{Bitfield}
use ppi_chi_nettest.Types.UniqueId.{StdHash}
use ppi_chi_nettest.Types.SubDomain
use ppi_chi_nettest.Types.Selection
use ppi_chi_nettest.Types.Selection.{DomainSelection, set_low, set_count}

pub record DomainQuery : Type 0 where
  pub flags : ℕ
  pub sub_id : ℕ
  pub sel : DomainSelection

unfoldable pub serialize : Archive → Codec DomainQuery
serialize ar =
    member (λ q. q.flags) (λ q v. record q { flags = v }) ar.bits32
    & member (λ q. q.sub_id) (λ q v. record q { sub_id = v }) ar.u32
    & member (λ q. q.sel) (λ q v. record q { sel = v }) (Selection.serialize ar)

pub copy : DomainQuery → DomainQuery
copy other = record { flags = other.flags; sub_id = other.sub_id; sel = other.sel }

-- The flag says whether `this` and `&other` are the same address.
unfoldable pub assign : Bool → DomainQuery → DomainQuery → DomainQuery
assign same self other =
    if not same
    then record self { flags = other.flags; sub_id = other.sub_id; sel = other.sel }
    else self

pub move : DomainQuery → DomainQuery
move other = record { flags = other.flags; sub_id = other.sub_id; sel = other.sel }

pub move_assign : Bool → DomainQuery → DomainQuery → DomainQuery
move_assign same self other =
    if not same
    then record self { flags = other.flags; sub_id = other.sub_id; sel = other.sel }
    else self

unfoldable pub eq : DomainQuery → DomainQuery → Bool
eq a b = a.flags == b.flags && a.sub_id == b.sub_id && Selection.eq a.sel b.sel

unfoldable pub hash_value : StdHash → DomainQuery → ℕ
hash_value std q = (std.u32 q.flags + std.u32 q.sub_id + std.u64 q.sel.int) % u64_mod

-- `std::hash<DomainQuery>::operator()`
pub hash_key : StdHash → DomainQuery → ℕ
unfolding hash_value
hash_key std key = hash_value std key

module _ (b : Bitfield) where
  abbrev pub k_local : ℕ
  k_local = b.bit_opt 1

  abbrev pub k_direct : ℕ
  k_direct = b.bit_opt 2

  abbrev pub k_global : ℕ
  k_global = b.bit_opt 3

  abbrev pub k_id : ℕ
  k_id = b.bit_opt 4

  abbrev pub k_hash : ℕ
  k_hash = b.bit_opt 5

  abbrev pub k_range : ℕ
  k_range = b.bit_opt 6

  abbrev pub k_broadcast : ℕ
  k_broadcast = b.bit_opt 15

  abbrev pub k_rep_until_success : ℕ
  k_rep_until_success = b.bit_opt 18

  abbrev pub k_choose_one : ℕ
  k_choose_one = b.bit_opt 19

  abbrev pub k_forward_to_leader : ℕ
  k_forward_to_leader = b.bit_opt 17

  pub get_iter_flags : DomainQuery → ℕ
  get_iter_flags q =
      bit_and q.flags
        (bit_or (bit_or (bit_or k_broadcast k_rep_until_success) k_choose_one) k_forward_to_leader)

  -- `DomainQuery()`
  pub new_query : DomainQuery → DomainQuery
  new_query mem = record mem { flags = b.empty }

  unfoldable pub get_local_id : DomainQuery → (sub_id id : ℕ) → DomainQuery
  unfolding new_query
  get_local_id mem sub_id id =
      let query = new_query mem in
      record {
        flags = b.set_bits query.flags (bit_or k_local k_id);
        sub_id = sub_id;
        sel = set_low query.sel id;
      }

  unfoldable pub get_global : DomainQuery → (sub_id iter_flags : ℕ) → DomainQuery
  unfolding new_query
  get_global mem sub_id iter_flags =
      let query = new_query mem in
      record query { flags = b.set_bits query.flags (bit_or k_global iter_flags); sub_id = sub_id }

  unfoldable pub get_range : DomainQuery → (sub_id off count iter_flags : ℕ) → DomainQuery
  unfolding new_query
  get_range mem sub_id off count iter_flags =
      let query = new_query mem in
      record {
        flags = b.set_bits query.flags (bit_or (bit_or k_global k_range) iter_flags);
        sub_id = sub_id;
        sel = set_count (set_low query.sel off) count;
      }

  unfoldable pub get_global_bcast : DomainQuery → DomainQuery
  unfolding new_query
  get_global_bcast mem =
      let query = new_query mem in
      record query {
        flags = b.set_bits query.flags (bit_or k_global k_broadcast);
        sub_id = SubDomain.k_global_containers;
      }

  unfoldable pub get_direct_id : DomainQuery → (sub_id id iter_flags : ℕ) → DomainQuery
  unfolding new_query
  get_direct_id mem sub_id id iter_flags =
      let query = new_query mem in
      record {
        flags = b.set_bits query.flags (bit_or (bit_or k_direct k_id) iter_flags);
        sub_id = sub_id;
        sel = set_low query.sel id;
      }

  unfoldable pub get_direct_hash : DomainQuery → (sub_id hash iter_flags : ℕ) → DomainQuery
  unfolding new_query
  get_direct_hash mem sub_id hash iter_flags =
      let query = new_query mem in
      record {
        flags = b.set_bits query.flags (bit_or (bit_or k_direct k_hash) iter_flags);
        sub_id = sub_id;
        sel = set_low query.sel hash;
      }

  -- The four texts that `operator<<` computes before it formats them; an empty text where no
  -- test passes.
  unfoldable pub scope_text : DomainQuery → Text
  scope_text q =
      if b.any q.flags k_local
      then codes "local"
      else if b.any q.flags k_global
      then codes "global"
      else if b.any q.flags k_direct
      then codes "direct"
      else []

  unfoldable pub iter_text : DomainQuery → Text
  iter_text q =
      if b.any q.flags k_broadcast
      then codes "broadcast"
      else if b.any q.flags k_rep_until_success
      then codes "rep_until_success"
      else if b.any q.flags k_choose_one
      then codes "choose_one"
      else if b.any q.flags k_forward_to_leader
      then codes "forward_to_leader"
      else []

  unfoldable pub sel_text : DomainQuery → Text
  sel_text q =
      if b.any q.flags k_id
      then codes "id"
      else if b.any q.flags k_hash
      then codes "hash"
      else if b.any q.flags k_range
      then codes "range"
      else []

  unfoldable pub range_text : DomainQuery → Text
  range_text q =
      if b.any q.flags k_range
      then to_string (Selection.off q.sel) ++ (codes ":" ++ to_string (Selection.count q.sel))
      else if b.any q.flags k_id
      then to_string (Selection.id q.sel)
      else if b.any q.flags k_hash
      then to_string (Selection.hash q.sel)
      else []

  -- `operator<<`; `format` is `hshm::Formatter::format` at the query's format string.
  unfoldable pub print : (List Text → Text) → DomainQuery → Text
  unfolding scope_text iter_text sel_text range_text
  print format q =
      format (iter_text q ∷ scope_text q ∷ sel_text q ∷ range_text q ∷ to_string q.sub_id ∷ [])
