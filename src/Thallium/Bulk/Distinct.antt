-- ===== src/Thallium/Bulk/Distinct.antt =====
-- The sizes and addresses of what `MakeBulk` exposes, and that no address occurs twice.
use ppi_chi_nettest.Base.{
  ◌<◌, ◌==◌, ℕ, suc, ◌%◌, ◌≡◌, ◌≢◌, refl, List, [], ◌∷◌, map, Option, none, some, arith, u64_mod,
  Bool-cases, inl, inr,
}
use ppi_chi_nettest.Bitfield.{Bitfield}
use ppi_chi_nettest.Transfer.{DataTransfer}
use ppi_chi_nettest.Transfer.Laws.{total}
use ppi_chi_nettest.Transfer.Allocate.{placed}
use ppi_chi_nettest.Thallium.Action.{Bulk, BulkMode}
use ppi_chi_nettest.Thallium.Bulk.{make_bulk}
use ppi_chi_nettest.Thallium.Bulk.Laws.{flagged, segment, make_bulk-flagged}

-- The sizes of the segments of a bulk.
abbrev pub sizes : Option Bulk → List ℕ
sizes none = []
sizes (some bulk) = map (λ (s : ℕ × ℕ). s.1) bulk.segments

-- The addresses of the segments of a bulk.
abbrev pub addresses : Option Bulk → List ℕ
addresses none = []
addresses (some bulk) = map (λ (s : ℕ × ℕ). s.0) bulk.segments

abbrev pub Apart : ℕ → List ℕ → Type 0
Apart p [] = Unit
Apart p (q ∷ qs) = (p ≢ q) × Apart p qs

-- No address occurs twice.
abbrev pub Distinct : List ℕ → Type 0
Distinct [] = Unit
Distinct (p ∷ ps) = Apart p ps × Distinct ps

-- A bulk without sizes has no addresses.
pub addresses_of_none : (bulk : Option Bulk) → sizes bulk ≡ [] → addresses bulk ≡ []
addresses_of_none none e = refl
addresses_of_none (some bulk) e = go bulk.segments e
  where
    go : (l : List (ℕ × ℕ)) → map (λ (s : ℕ × ℕ). s.1) l ≡ [] → map (λ (s : ℕ × ℕ). s.0) l ≡ []
    go [] e = refl
    go (s ∷ l) e = cc e

-- `malloc` gives each block an address of its own.
module _ (b : Bitfield) (f : ℕ) (address : ℕ → ℕ)
    (own : (i j : ℕ) → address i ≡ address j → i ≡ j) where
  pointers : List DataTransfer → List ℕ
  pointers xs = map (λ (s : ℕ × ℕ). s.0) (map segment (flagged b f xs))

  placed-Apart :
      (k n : ℕ) (xs : List DataTransfer)
      → k < n
      → Apart (address k) (pointers (placed address n xs))
  unfolding pointers
  placed-Apart k n [] h = tt
  placed-Apart k n (x ∷ xs) h = elim (Bool-cases (b.any x.flags f)) [
    | inl hit ↦ rw hit (λ e. omega (arith, own k n e), placed-Apart k (suc n) xs (omega arith))
    | inr miss ↦ rw miss (placed-Apart k (suc n) xs (omega arith))
  ]

  placed-Distinct : (n : ℕ) (xs : List DataTransfer) → Distinct (pointers (placed address n xs))
  unfolding pointers
  placed-Distinct n [] = tt
  placed-Distinct n (x ∷ xs) = elim (Bool-cases (b.any x.flags f)) [
    | inl hit ↦ rw hit (placed-Apart n (suc n) xs (omega arith), placed-Distinct (suc n) xs)
    | inr miss ↦ rw miss (placed-Distinct (suc n) xs)
  ]

  pub make_bulk-Distinct :
      (n : ℕ) (xs : List DataTransfer) (mode : BulkMode)
      → Distinct (addresses (make_bulk b (placed address n xs) f mode).0)
  unfolding pointers
  make_bulk-Distinct n xs mode =
      let ys = placed address n xs in
      let exposed = (make_bulk-flagged b ys f mode).1 in
      elim (Bool-cases (total (flagged b f ys) % u64_mod == 0)) [
        | inl zero_bytes ↦ rw (exposed, zero_bytes) tt
        | inr some_bytes ↦ rw (exposed, some_bytes) (placed-Distinct n xs)
      ]
