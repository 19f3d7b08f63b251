-- ===== src/Types/SubDomain/Laws.antt =====
-- Equality, hashing, printing and serialization of `SubDomainId`.
use ppi_chi_nettest.Base.{ℕ, ◌≡◌, refl, ◌↔◌, Bool, true, false, not, ◌<◌, arith, u32_mod}
use ppi_chi_nettest.Base.Text.{to_string_split, to_string-injective}
use ppi_chi_nettest.Archive.{Archive, RoundTrips}
use ppi_chi_nettest.Types.UniqueId.{StdHash}
use ppi_chi_nettest.Types.SubDomain.{
  SubDomainId, emplace, emplace_major, copy, assign, move, move_assign, is_physical, is_major,
  is_minor, create_physical, serialize, eq, print, hash_key,
}

pub record IsWords (id : SubDomainId) : Type 0 where
  pub major : id.major < u32_mod
  pub minor : id.minor < u32_mod

pub sub_domain_eq_iff : (a b : SubDomainId) → (eq a b ≡ true) ↔ (a ≡ b)
unfolding eq
sub_domain_eq_iff a b = (λ h. ground arith, λ h. ground arith)

-- The hash does not depend on which of the two numbers is the major one, whatever `std::hash`
-- is: every pair with different numbers collides with its mirror image.
pub hash_key_swap :
    (std : StdHash) (m n : ℕ) → hash_key std (emplace m n) ≡ hash_key std (emplace n m)
unfolding hash_key emplace
hash_key_swap std m n = ground arith

pub sub_domain_print_iff : (a b : SubDomainId) → (print a ≡ print b) ↔ (eq a b ≡ true)
unfolding print
sub_domain_print_iff a b = (same, λ h. printed ((sub_domain_eq_iff a b).0 h))
  where
    same : print a ≡ print b → eq a b ≡ true
    same e =
        let parts = to_string_split a.major b.major _ _ refl refl e in
        let minors : a.minor ≡ b.minor = to_string-injective a.minor b.minor (cc (parts.1)) in
        (sub_domain_eq_iff a b).1 (cc (parts.0, minors))

    printed : a ≡ b → print a ≡ print b
    printed p = cc

-- An id is major or minor, never both; what `CreatePhysical` makes is physical, and it is minor
-- exactly when it names a node other than 0.
pub kinds_lem :
    (id : SubDomainId) (n : ℕ)
    → (is_minor id ≡ not (is_major id))
      × (is_physical (create_physical n) ≡ true)
      × ((is_minor (create_physical n) ≡ true) ↔ (0 < n))
      × ((g : ℕ) → is_major (emplace_major g) ≡ true)
unfolding is_major is_minor is_physical create_physical emplace_major
kinds_lem id n = (ground arith, refl, (λ h. ground arith, λ h. ground arith), λ g. refl)

pub sub_domain_copy_lem :
    (same : Bool) (self a : SubDomainId)
    → (same ≡ true → self ≡ a)
    → (copy a ≡ a) × (move a ≡ a) × (assign same self a ≡ a) × (move_assign same self a ≡ a)
unfolding copy move assign move_assign
sub_domain_copy_lem true self a h = (refl, refl, h refl, h refl)
sub_domain_copy_lem false self a h = (refl, refl, refl, refl)

pub sub_domain-RoundTrips : (ar : Archive) → RoundTrips (serialize ar) IsWords
unfolding serialize
sub_domain-RoundTrips ar id old rest w =
    rw (ar.u32_lem id.major _ _ w.major, ar.u32_lem id.minor _ _ w.minor)
