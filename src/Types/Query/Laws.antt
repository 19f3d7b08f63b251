-- ===== src/Types/Query/Laws.antt =====
-- Equality, hashing, copies and serialization of `DomainQuery`.
use ppi_chi_nettest.Base.{◌≡◌, refl, ◌↔◌, Bool, true, false, ◌<◌, arith, u32_mod, u64_mod}
use ppi_chi_nettest.Archive.{Archive, RoundTrips}
use ppi_chi_nettest.Types.UniqueId.{StdHash}
use ppi_chi_nettest.Types.Selection
use ppi_chi_nettest.Types.Query.{
  DomainQuery, serialize, copy, assign, move, move_assign, eq, hash_key,
}

pub record IsWords (q : DomainQuery) : Type 0 where
  pub flags : q.flags < u32_mod
  pub sub_id : q.sub_id < u32_mod
  pub sel : q.sel.int < u64_mod

pub query_eq_iff : (a b : DomainQuery) → (eq a b ≡ true) ↔ (a ≡ b)
unfolding eq Selection.eq
query_eq_iff a b = (λ h. ground arith, λ h. ground arith)

-- Queries that compare equal have one hash.
pub query_hash_key-eq :
    (std : StdHash) (a b : DomainQuery) → eq a b ≡ true → hash_key std a ≡ hash_key std b
unfolding hash_key
query_hash_key-eq std a b h = cc ((query_eq_iff a b).0 h)

pub query_copy_lem :
    (same : Bool) (self a : DomainQuery)
    → (same ≡ true → self ≡ a)
    → (copy a ≡ a) × (move a ≡ a) × (assign same self a ≡ a) × (move_assign same self a ≡ a)
unfolding copy move assign move_assign
query_copy_lem true self a h = (refl, refl, h refl, h refl)
query_copy_lem false self a h = (refl, refl, refl, refl)

pub query-RoundTrips : (ar : Archive) → RoundTrips (serialize ar) IsWords
unfolding serialize Selection.serialize
query-RoundTrips ar q old rest w = rw (
  ar.bits32_lem q.flags _ _ w.flags,
  ar.u32_lem q.sub_id _ _ w.sub_id,
  Selection.serialize-RoundTrips ar q.sel _ _ w.sel,
)
