-- ===== src/Types/Range.antt =====
-- `enum class IoType` and `TaskRouteMode`, `struct CreateContext`, `UpdateDomainOp`,
-- `SubDomainIdRange` and `UpdateDomainInfo` of include/test_networks/chimaera_types.h
-- (lines 227 to 245 and 443 to 512).
pub mod Laws
use ppi_chi_nettest.Base.{ℕ, zero, suc, Bool, not, if◌then◌else◌}
use ppi_chi_nettest.Archive.{Codec, Archive, member, ◌&◌}
use ppi_chi_nettest.Types.UniqueId
use ppi_chi_nettest.Types.UniqueId.{PoolId}
use ppi_chi_nettest.Types.Domain
use ppi_chi_nettest.Types.Domain.{DomainId}

pub data IoType : Type 0 where
  read write none : IoType

pub data TaskRouteMode : Type 0 where
  this_worker local_worker remote_worker : TaskRouteMode

pub record CreateContext : Type 0 where
  pub id : PoolId
  pub global_containers : ℕ
  pub local_containers_pn : ℕ
  pub lanes_per_container : ℕ

-- The default member initializers.
pub new_context : CreateContext
new_context = record {
  id = UniqueId.get_null;
  global_containers = 0;
  local_containers_pn = 0;
  lanes_per_container = 0;
}

pub serialize_context : Archive → Codec CreateContext
serialize_context ar =
    member (λ c. c.id) (λ c v. record c { id = v }) (UniqueId.serialize ar)
    & member (λ c. c.global_containers) (λ c v. record c { global_containers = v }) ar.u32
    & member (λ c. c.local_containers_pn) (λ c v. record c { local_containers_pn = v }) ar.u32
    & member (λ c. c.lanes_per_container) (λ c v. record c { lanes_per_container = v }) ar.u32

pub data UpdateDomainOp : Type 0 where
  contract expand : UpdateDomainOp

-- The number of an enumerator, and the enumerator that a number stands for.
pub op_number : UpdateDomainOp → ℕ
op_number contract = 0
op_number expand = 1

pub op_of_number : ℕ → UpdateDomainOp
op_of_number zero = contract
op_of_number (suc n) = expand

pub record SubDomainIdRange : Type 0 where
  pub group : ℕ
  pub off : ℕ
  pub count : ℕ

pub emplace_range : ℕ → ℕ → ℕ → SubDomainIdRange
emplace_range group off count = record { group = group; off = off; count = count }

pub copy_range : SubDomainIdRange → SubDomainIdRange
copy_range other = record { group = other.group; off = other.off; count = other.count }

-- The flag says whether `this` and `&other` are the same address.
pub assign_range : Bool → SubDomainIdRange → SubDomainIdRange → SubDomainIdRange
assign_range same self other =
    if not same
    then record self { group = other.group; off = other.off; count = other.count }
    else self

pub move_range : SubDomainIdRange → SubDomainIdRange
move_range other = record { group = other.group; off = other.off; count = other.count }

pub move_assign_range : Bool → SubDomainIdRange → SubDomainIdRange → SubDomainIdRange
move_assign_range same self other =
    if not same
    then record self { group = other.group; off = other.off; count = other.count }
    else self

pub serialize_range : Archive → Codec SubDomainIdRange
serialize_range ar =
    member (λ r. r.group) (λ r v. record r { group = v }) ar.u32
    & member (λ r. r.off) (λ r v. record r { off = v }) ar.u32
    & member (λ r. r.count) (λ r v. record r { count = v }) ar.u32

pub record UpdateDomainInfo : Type 0 where
  pub domain_id : DomainId
  pub op : UpdateDomainOp
  pub range : SubDomainIdRange

pub serialize_info : Archive → Codec UpdateDomainInfo
unfolding serialize_range
serialize_info ar =
    member (λ i. i.domain_id) (λ i v. record i { domain_id = v }) (Domain.serialize ar)
    & member (λ i. op_number i.op) (λ i n. record i { op = op_of_number n }) ar.enum
    & member (λ i. i.range) (λ i v. record i { range = v }) (serialize_range ar)
