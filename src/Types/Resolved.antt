-- ===== src/Types/Resolved.antt =====
-- `struct ResolvedDomainQuery` of include/test_networks/chimaera_types.h (lines 739 to 804).
use ppi_chi_nettest.Base.{
  ℕ, ◌<◌, ◌≡◌, refl, Bool, true, false, not, ◌++◌, List, if◌then◌else◌, u32_mod,
}
use ppi_chi_nettest.Base.Text.{Text, codes, to_string}
use ppi_chi_nettest.Archive.{Codec, Archive, RoundTrips, member, ◌&◌}
use ppi_chi_nettest.Bitfield.{Bitfield}
use ppi_chi_nettest.Types.Selection
use ppi_chi_nettest.Types.Query
use ppi_chi_nettest.Types.Query.{DomainQuery}

pub record ResolvedDomainQuery : Type 0 where
  pub node : ℕ
  pub dom : DomainQuery

emplace : ℕ → DomainQuery → ResolvedDomainQuery
emplace node dom = record { node = node; dom = dom }

-- `dom_` is default-constructed in the memory `mem`.
emplace_node : Bitfield → DomainQuery → ℕ → ResolvedDomainQuery
emplace_node b mem node = record { node = node; dom = Query.new_query b mem }

copy : ResolvedDomainQuery → ResolvedDomainQuery → ResolvedDomainQuery
copy old other = record { node = other.node; dom = Query.assign false old.dom other.dom }

-- The flag says whether `this` and `&other` are the same address.
assign : Bool → ResolvedDomainQuery → ResolvedDomainQuery → ResolvedDomainQuery
assign same self other =
    if not same
    then record { node = other.node; dom = Query.assign same self.dom other.dom }
    else self

move : ResolvedDomainQuery → ResolvedDomainQuery → ResolvedDomainQuery
move old other = record { node = other.node; dom = Query.assign false old.dom other.dom }

move_assign : Bool → ResolvedDomainQuery → ResolvedDomainQuery → ResolvedDomainQuery
move_assign same self other =
    if not same
    then record { node = other.node; dom = Query.assign same self.dom other.dom }
    else self

-- `operator<<`
print : Bitfield → (List Text → Text) → ResolvedDomainQuery → Text
print b format id = to_string id.node ++ (codes " / " ++ Query.print b format id.dom)

pub serialize : Archive → Codec ResolvedDomainQuery
serialize ar =
    member (λ r. r.node) (λ r v. record r { node = v }) ar.u32
    & member (λ r. r.dom) (λ r v. record r { dom = v }) (Query.serialize ar)

pub record IsWords (r : ResolvedDomainQuery) : Type 0 where
  pub node : r.node < u32_mod
  pub dom : Query.Laws.IsWords r.dom

-- A resolved query whose fields fit their types is read back whole, whatever the target held.
pub resolved-RoundTrips : (ar : Archive) → RoundTrips (serialize ar) IsWords
unfolding serialize Query.serialize Selection.serialize
resolved-RoundTrips ar r old rest w =
    rw (ar.u32_lem r.node _ _ w.node, Query.Laws.query-RoundTrips ar r.dom _ _ w.dom)

resolved_copy_lem :
    (same : Bool) (self a : ResolvedDomainQuery)
    → (same ≡ true → self ≡ a)
    → (copy self a ≡ a)
      × (move self a ≡ a)
      × (assign same self a ≡ a)
      × (move_assign same self a ≡ a)
      × (emplace a.node a.dom ≡ a)
unfolding copy move assign move_assign emplace Query.assign
resolved_copy_lem true self a h = (refl, refl, h refl, h refl, refl)
resolved_copy_lem false self a h = (refl, refl, refl, refl, refl)

-- A node alone is resolved to a query with no flag, which prints as four empty texts.
print-emplace_node :
    (b : Bitfield) (format : List Text → Text) (mem : DomainQuery) (node : ℕ)
    → print b format (emplace_node b mem node)
      ≡ to_string node ++ (codes " / " ++ Query.print b format (Query.new_query b mem))
unfolding print emplace_node
print-emplace_node b format mem node = refl
