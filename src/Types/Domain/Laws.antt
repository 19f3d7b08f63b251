-- ===== src/Types/Domain/Laws.antt =====
-- Equality, hashing, printing and serialization of `DomainId`, from those of its parts.
use ppi_chi_nettest.Base.{ℕ, ◌≡◌, refl, sym, ◌↔◌, ◌∙◌, Bool, true, false, ◌++◌, arith, list_laws}
use ppi_chi_nettest.Base.Text.{to_string_split, codes, to_string}
use ppi_chi_nettest.Archive.{Archive, RoundTrips}
use ppi_chi_nettest.Types.UniqueId
use ppi_chi_nettest.Types.UniqueId.{StdHash, UniqueId, PoolId}
use ppi_chi_nettest.Types.SubDomain
use ppi_chi_nettest.Types.SubDomain.{SubDomainId}
use ppi_chi_nettest.Types.Domain.{
  DomainId, emplace, emplace_group, emplace_minor, copy, assign, move, move_assign, serialize, eq,
  print, hash_key,
}

pub record IsWords (id : DomainId) : Type 0 where
  pub scope : UniqueId.Laws.IsWords id.scope
  pub sub_id : SubDomain.Laws.IsWords id.sub_id

-- Domains are equal when their scopes compare equal and their subdomains are the same.
pub domain_eq_iff :
    (a b : DomainId)
    → (eq a b ≡ true) ↔ ((UniqueId.eq a.scope b.scope ≡ true) × (a.sub_id ≡ b.sub_id))
unfolding eq
domain_eq_iff a b = (
  λ h. ground (arith, SubDomain.Laws.sub_domain_eq_iff a.sub_id b.sub_id),
  λ h. ground (arith, SubDomain.Laws.sub_domain_eq_iff a.sub_id b.sub_id),
)

-- Domains that compare equal have one hash.
pub domain_hash_key-eq :
    (std : StdHash) (a b : DomainId) → eq a b ≡ true → hash_key std a ≡ hash_key std b
unfolding hash_key UniqueId.hash_value UniqueId.eq
domain_hash_key-eq std a b h = ground (arith, domain_eq_iff a b)

-- What a domain prints, grouped to the right.
print_flat :
    (a : DomainId)
    → print a
      ≡ to_string a.scope.node_id
        ++ (codes "." ++ (to_string a.scope.unique ++ (codes "." ++ SubDomain.print a.sub_id)))
unfolding print UniqueId.print
print_flat a = simp list_laws

-- Two domains are printed alike exactly when they compare equal.
pub domain_print_iff : (a b : DomainId) → (print a ≡ print b) ↔ (eq a b ≡ true)
domain_print_iff a b = (same, λ h. printed ((domain_eq_iff a b).0 h))
  where
    same : print a ≡ print b → eq a b ≡ true
    same e =
        let flat = sym (print_flat a) ∙ e ∙ print_flat b in
        let node = to_string_split a.scope.node_id b.scope.node_id _ _ refl refl flat in
        let unique =
          to_string_split a.scope.unique b.scope.unique (codes "." ++ SubDomain.print a.sub_id)
            (codes "." ++ SubDomain.print b.sub_id) refl refl (cc (node.1)) in
        let subs : SubDomain.print a.sub_id ≡ SubDomain.print b.sub_id = cc (unique.1) in
        (domain_eq_iff a b).1 (
          (UniqueId.Laws.unique_id_eq_iff a.scope b.scope).1 (node.0, unique.0),
          (SubDomain.Laws.sub_domain_eq_iff _ _).0
              ((SubDomain.Laws.sub_domain_print_iff _ _).0 subs),
        )

    printed : (UniqueId.eq a.scope b.scope ≡ true) × (a.sub_id ≡ b.sub_id) → print a ≡ print b
    printed p =
        let ids = (UniqueId.Laws.unique_id_eq_iff a.scope b.scope).0 p.0 in
        cc (print_flat a, print_flat b, ids.0, ids.1, p.1)

-- Copies, moves and assignments give the other domain, also when a domain is assigned to itself.
pub domain_copy_lem :
    (same : Bool) (self a : DomainId)
    → (same ≡ true → self ≡ a)
    → (copy self a ≡ a)
      × (move self a ≡ a)
      × (assign same self a ≡ a)
      × (move_assign same self a ≡ a)
unfolding copy move assign move_assign UniqueId.assign SubDomain.assign
domain_copy_lem true self a h = (refl, refl, h refl, h refl)
domain_copy_lem false self a h = (refl, refl, refl, refl)

-- The three constructors agree: a group alone is the group with minor number 0.
pub emplace_lem :
    (old : DomainId) (scope : PoolId) (group minor : ℕ)
    → (emplace_group old scope group ≡ emplace_minor old scope group 0)
      × (emplace_minor old scope group minor ≡ emplace old scope (SubDomain.emplace group minor))
unfolding emplace emplace_group emplace_minor UniqueId.assign SubDomain.assign SubDomain.move_assign
    SubDomain.emplace SubDomain.emplace_major
emplace_lem old scope group minor = (refl, refl)

pub domain-RoundTrips : (ar : Archive) → RoundTrips (serialize ar) IsWords
unfolding serialize UniqueId.serialize SubDomain.serialize
domain-RoundTrips ar id old rest w = rw (
  UniqueId.Laws.unique_id-RoundTrips ar id.scope _ _ w.scope,
  SubDomain.Laws.sub_domain-RoundTrips ar id.sub_id _ _ w.sub_id,
)
