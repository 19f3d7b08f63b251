-- ===== src/Types/SubDomain.antt =====
-- `struct SubDomainId` of include/test_networks/chimaera_types.h (lines 247 to 346, and its
-- `std::hash` at line 859).
pub mod Laws
use ppi_chi_nettest.Base.{ℕ, ◌+◌, ◌%◌, Bool, not, ◌&&◌, ◌++◌, ◌==◌, ltb, if◌then◌else◌, u64_mod}
use ppi_chi_nettest.Base.Text.{Text, codes, to_string}
use ppi_chi_nettest.Archive.{Codec, Archive, member, ◌&◌}
use ppi_chi_nettest.Types.UniqueId.{StdHash}

pub record SubDomainId : Type 0 where
  pub major : ℕ
  pub minor : ℕ

abbrev pub k_physical_node : ℕ
k_physical_node = 0

abbrev pub k_container_set : ℕ
k_container_set = 1

abbrev pub k_global_containers : ℕ
k_global_containers = 1

abbrev pub k_local_containers : ℕ
k_local_containers = 3

abbrev pub k_container_cache : ℕ
k_container_cache = 4

abbrev pub k_last : ℕ
k_last = 5

unfoldable pub emplace : ℕ → ℕ → SubDomainId
emplace major minor = record { major = major; minor = minor }

unfoldable pub emplace_major : ℕ → SubDomainId
emplace_major major = record { major = major; minor = 0 }

pub copy : SubDomainId → SubDomainId
copy other = record { major = other.major; minor = other.minor }

-- The flag says whether `this` and `&other` are the same address.
unfoldable pub assign : Bool → SubDomainId → SubDomainId → SubDomainId
assign same self other =
    if not same then record self { major = other.major; minor = other.minor } else self

pub move : SubDomainId → SubDomainId
move other = record { major = other.major; minor = other.minor }

unfoldable pub move_assign : Bool → SubDomainId → SubDomainId → SubDomainId
move_assign same self other =
    if not same then record self { major = other.major; minor = other.minor } else self

pub is_physical : SubDomainId → Bool
is_physical id = id.major == k_physical_node

pub is_major : SubDomainId → Bool
is_major id = id.minor == 0

pub is_minor : SubDomainId → Bool
is_minor id = ltb 0 id.minor

pub create_physical : ℕ → SubDomainId
unfolding emplace
create_physical minor = emplace k_physical_node minor

unfoldable pub serialize : Archive → Codec SubDomainId
serialize ar =
    member (λ id. id.major) (λ id v. record id { major = v }) ar.u32
    & member (λ id. id.minor) (λ id v. record id { minor = v }) ar.u32

unfoldable pub eq : SubDomainId → SubDomainId → Bool
eq a b = a.major == b.major && a.minor == b.minor

unfoldable pub hash_value : StdHash → SubDomainId → ℕ
hash_value std id = (std.u32 id.major + std.u32 id.minor) % u64_mod

-- `operator<<`
unfoldable pub print : SubDomainId → Text
print id = to_string id.major ++ (codes "." ++ to_string id.minor)

-- `std::hash<SubDomainId>::operator()`
pub hash_key : StdHash → SubDomainId → ℕ
unfolding hash_value
hash_key std key = hash_value std key
