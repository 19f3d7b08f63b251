-- ===== src/Types/Range/Laws.antt =====
-- Serialization and copies of the update records.
use ppi_chi_nettest.Base.{◌≡◌, refl, ◌<◌, Bool, true, false, arith, u32_mod}
use ppi_chi_nettest.Archive.{Archive, RoundTrips}
use ppi_chi_nettest.Types.UniqueId
use ppi_chi_nettest.Types.Domain
use ppi_chi_nettest.Types.Range.{
  CreateContext, new_context, serialize_context, UpdateDomainOp, contract, expand, op_number,
  op_of_number, SubDomainIdRange, emplace_range, copy_range, assign_range, move_range,
  move_assign_range, serialize_range, UpdateDomainInfo, serialize_info,
}

pub record IsWords (r : SubDomainIdRange) : Type 0 where
  pub group : r.group < u32_mod
  pub off : r.off < u32_mod
  pub count : r.count < u32_mod

pub record IsInfo (i : UpdateDomainInfo) : Type 0 where
  pub domain_id : Domain.Laws.IsWords i.domain_id
  pub range : IsWords i.range

pub record IsContext (c : CreateContext) : Type 0 where
  pub id : UniqueId.Laws.IsWords c.id
  pub global_containers : c.global_containers < u32_mod
  pub local_containers_pn : c.local_containers_pn < u32_mod
  pub lanes_per_container : c.lanes_per_container < u32_mod

op_number-lt : (op : UpdateDomainOp) → op_number op < u32_mod
unfolding op_number
op_number-lt contract = omega arith
op_number-lt expand = omega arith

op_of_number-op_number : (op : UpdateDomainOp) → op_of_number (op_number op) ≡ op
unfolding op_number op_of_number
op_of_number-op_number contract = refl
op_of_number-op_number expand = refl

serialize_range-RoundTrips : (ar : Archive) → RoundTrips (serialize_range ar) IsWords
unfolding serialize_range
serialize_range-RoundTrips ar r old rest w =
    rw (ar.u32_lem r.group _ _ w.group, ar.u32_lem r.off _ _ w.off, ar.u32_lem r.count _ _ w.count)

-- An update of a domain whose fields fit their types is read back whole, domain, operation and
-- range, whatever the target held.
pub serialize_info-RoundTrips : (ar : Archive) → RoundTrips (serialize_info ar) IsInfo
unfolding serialize_info Domain.serialize UniqueId.serialize
serialize_info-RoundTrips ar i old rest w = rw (
  Domain.Laws.domain-RoundTrips ar i.domain_id _ _ w.domain_id,
  ar.enum_lem (op_number i.op) _ _ (op_number-lt i.op),
  serialize_range-RoundTrips ar i.range _ _ w.range,
  op_of_number-op_number i.op,
)

pub serialize_context-RoundTrips : (ar : Archive) → RoundTrips (serialize_context ar) IsContext
unfolding serialize_context UniqueId.serialize
serialize_context-RoundTrips ar c old rest w = rw (
  UniqueId.Laws.unique_id-RoundTrips ar c.id _ _ w.id,
  ar.u32_lem c.global_containers _ _ w.global_containers,
  ar.u32_lem c.local_containers_pn _ _ w.local_containers_pn,
  ar.u32_lem c.lanes_per_container _ _ w.lanes_per_container,
)

range_copy_lem :
    (same : Bool) (self a : SubDomainIdRange)
    → (same ≡ true → self ≡ a)
    → (copy_range a ≡ a)
      × (move_range a ≡ a)
      × (assign_range same self a ≡ a)
      × (move_assign_range same self a ≡ a)
      × (emplace_range a.group a.off a.count ≡ a)
unfolding copy_range move_range assign_range move_assign_range emplace_range
range_copy_lem true self a h = (refl, refl, h refl, h refl, refl)
range_copy_lem false self a h = (refl, refl, refl, refl, refl)

-- A context that nobody filled in names the null pool.
new_context_null : UniqueId.is_null new_context.id ≡ true
unfolding new_context UniqueId.is_null UniqueId.get_null
new_context_null = refl
