-- ===== src/Types/Domain.antt =====
-- `struct DomainId` of include/test_networks/chimaera_types.h (lines 348 to 419, and its
-- `std::hash` at line 868).
pub mod Laws
use ppi_chi_nettest.Base.{ℕ, ◌+◌, ◌%◌, Bool, true, false, ◌&&◌, ◌++◌, u64_mod}
use ppi_chi_nettest.Base.Text.{Text, codes}
use ppi_chi_nettest.Archive.{Codec, Archive, member, ◌&◌}
use ppi_chi_nettest.Types.UniqueId
use ppi_chi_nettest.Types.UniqueId.{PoolId, StdHash}
use ppi_chi_nettest.Types.SubDomain
use ppi_chi_nettest.Types.SubDomain.{SubDomainId}

pub record DomainId : Type 0 where
  pub scope : PoolId
  pub sub_id : SubDomainId

-- The constructors assign to members that hold `old` until then.
pub emplace : DomainId → PoolId → SubDomainId → DomainId
emplace old scope sub_id = record {
  scope = UniqueId.assign false old.scope scope;
  sub_id = SubDomain.assign false old.sub_id sub_id;
}

pub emplace_group : DomainId → PoolId → ℕ → DomainId
emplace_group old scope group = record {
  scope = UniqueId.assign false old.scope scope;
  sub_id = SubDomain.move_assign false old.sub_id (SubDomain.emplace_major group);
}

pub emplace_minor : DomainId → PoolId → ℕ → ℕ → DomainId
emplace_minor old scope group minor = record {
  scope = UniqueId.assign false old.scope scope;
  sub_id = SubDomain.move_assign false old.sub_id (SubDomain.emplace group minor);
}

pub copy : DomainId → DomainId → DomainId
copy old other = record {
  scope = UniqueId.assign false old.scope other.scope;
  sub_id = SubDomain.assign false old.sub_id other.sub_id;
}

-- There is no test for self-assignment here: the members make it.
pub assign : Bool → DomainId → DomainId → DomainId
assign same self other = record {
  scope = UniqueId.assign same self.scope other.scope;
  sub_id = SubDomain.assign same self.sub_id other.sub_id;
}

-- The members of a named rvalue reference are lvalues: they are copied.
pub move : DomainId → DomainId → DomainId
move old other = record {
  scope = UniqueId.assign false old.scope other.scope;
  sub_id = SubDomain.assign false old.sub_id other.sub_id;
}

pub move_assign : Bool → DomainId → DomainId → DomainId
move_assign same self other = record {
  scope = UniqueId.assign same self.scope other.scope;
  sub_id = SubDomain.assign same self.sub_id other.sub_id;
}

unfoldable pub serialize : Archive → Codec DomainId
serialize ar =
    member (λ id. id.scope) (λ id v. record id { scope = v }) (UniqueId.serialize ar)
    & member (λ id. id.sub_id) (λ id v. record id { sub_id = v }) (SubDomain.serialize ar)

unfoldable pub eq : DomainId → DomainId → Bool
eq a b = UniqueId.eq a.scope b.scope && SubDomain.eq a.sub_id b.sub_id

unfoldable pub hash_value : StdHash → DomainId → ℕ
hash_value std id =
    (UniqueId.hash_value std id.scope + SubDomain.hash_value std id.sub_id) % u64_mod

-- `operator<<`
pub print : DomainId → Text
print id = UniqueId.print id.scope ++ (codes "." ++ SubDomain.print id.sub_id)

-- `std::hash<DomainId>::operator()`
pub hash_key : StdHash → DomainId → ℕ
unfolding hash_value
hash_key std key = hash_value std key
