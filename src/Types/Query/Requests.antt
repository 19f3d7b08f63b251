-- ===== src/Types/Query/Requests.antt =====
-- The static constructors of `DomainQuery` against what they are asked for: a request, the four
-- texts and the iteration flags that it stands for, and the memory that it leaves unset.
mod Flags
pub mod Describe
pub mod IterFlags
pub mod Memory
pub mod Words
use ppi_chi_nettest.Base.{ℕ, ◌/◌, ◌<◌, ◌≡◌, ◌++◌, [], if◌then◌else◌, u32_mod, bit_and}
use ppi_chi_nettest.Base.Text.{Text, codes, to_string}
use ppi_chi_nettest.Bitfield.{Bitfield}
use ppi_chi_nettest.Bitfield.Laws.{has}
use ppi_chi_nettest.Types.Selection.{DomainSelection}
use ppi_chi_nettest.Types.SubDomain
use ppi_chi_nettest.Types.Query.{
  DomainQuery, get_local_id, get_global, get_range, get_global_bcast, get_direct_id,
  get_direct_hash,
}

-- A call of one of the constructors.
pub data Request : Type 0 where
  local_id : (sub_id id : ℕ) → Request
  global : (sub_id iter_flags : ℕ) → Request
  range : (sub_id off count iter_flags : ℕ) → Request
  global_bcast : Request
  direct_id : (sub_id id iter_flags : ℕ) → Request
  direct_hash : (sub_id hash iter_flags : ℕ) → Request

unfoldable pub build : Bitfield → DomainQuery → Request → DomainQuery
build b mem (local_id s i) = get_local_id b mem s i
build b mem (global s f) = get_global b mem s f
build b mem (range s o c f) = get_range b mem s o c f
build b mem global_bcast = get_global_bcast b mem
build b mem (direct_id s i f) = get_direct_id b mem s i f
build b mem (direct_hash s h f) = get_direct_hash b mem s h f

-- The iteration flags that a request carries.
abbrev pub iter_arg : Request → ℕ
iter_arg (local_id s i) = 0
iter_arg (global s f) = f
iter_arg (range s o c f) = f
iter_arg global_bcast = 0x8000
iter_arg (direct_id s i f) = f
iter_arg (direct_hash s h f) = f

-- The sub-domain that a request names.
abbrev pub sub_id_arg : Request → ℕ
sub_id_arg (local_id s i) = s
sub_id_arg (global s f) = s
sub_id_arg (range s o c f) = s
sub_id_arg global_bcast = SubDomain.k_global_containers
sub_id_arg (direct_id s i f) = s
sub_id_arg (direct_hash s h f) = s

-- Bits 15, 17, 18 and 19.
abbrev pub iter_mask : ℕ
iter_mask = 0xe8000

-- The iteration flags of a request share no bit with the scope and selection flags, bits 1 to 6,
-- and its numbers fit 32 bits.
abbrev pub IsRequest : Request → Type 0
IsRequest (local_id s i) = i < u32_mod
IsRequest (global s f) = bit_and 126 f ≡ 0
IsRequest (range s o c f) = (o < u32_mod) × (c < u32_mod) × (bit_and 126 f ≡ 0)
IsRequest global_bcast = Unit
IsRequest (direct_id s i f) = (i < u32_mod) × (bit_and 126 f ≡ 0)
IsRequest (direct_hash s h f) = (h < u32_mod) × (bit_and 126 f ≡ 0)

abbrev pub scope_name : Request → Text
scope_name (local_id s i) = codes "local"
scope_name (global s f) = codes "global"
scope_name (range s o c f) = codes "global"
scope_name global_bcast = codes "global"
scope_name (direct_id s i f) = codes "direct"
scope_name (direct_hash s h f) = codes "direct"

abbrev pub sel_name : Request → Text
sel_name (local_id s i) = codes "id"
sel_name (global s f) = []
sel_name (range s o c f) = codes "range"
sel_name global_bcast = []
sel_name (direct_id s i f) = codes "id"
sel_name (direct_hash s h f) = codes "hash"

abbrev pub range_name : Request → Text
range_name (local_id s i) = to_string i
range_name (global s f) = []
range_name (range s o c f) = to_string o ++ (codes ":" ++ to_string c)
range_name global_bcast = []
range_name (direct_id s i f) = to_string i
range_name (direct_hash s h f) = to_string h

-- The first of the four algorithms whose bit is set.
abbrev pub iter_name : ℕ → Text
iter_name f =
    if has 15 f
    then codes "broadcast"
    else if has 18 f
    then codes "rep_until_success"
    else if has 19 f
    then codes "choose_one"
    else if has 17 f
    then codes "forward_to_leader"
    else []

-- The part of the selection that a request does not write.
abbrev pub unset_part : Request → DomainSelection → ℕ
unset_part (local_id s i) sel = sel.int / u32_mod
unset_part (global s f) sel = sel.int
unset_part (range s o c f) sel = 0
unset_part global_bcast sel = sel.int
unset_part (direct_id s i f) sel = sel.int / u32_mod
unset_part (direct_hash s h f) sel = sel.int / u32_mod
