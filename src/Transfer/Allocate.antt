-- ===== src/Transfer/Allocate.antt =====
-- `AllocateBulksServer`: a buffer for each segment, in order.
use ppi_chi_nettest.Base.{ℕ, suc, ◌≡◌, ◌≢◌, refl, ap, ◌∙◌, List, [], ◌∷◌, arith}
use ppi_chi_nettest.Transfer.{
  DataTransfer, SegmentedTransfer, Memory, malloc, allocate_loop, allocate_bulks_server,
}

-- The segments with the addresses that the allocator returns from its n-th call on.
abbrev pub placed : (ℕ → ℕ) → ℕ → List DataTransfer → List DataTransfer
placed address n [] = []
placed address n (x ∷ xs) = record x { data_ptr = address n } ∷ placed address (suc n) xs

-- The blocks of such segments, the last one first.
abbrev pub blocks : List DataTransfer → List (ℕ × ℕ) → List (ℕ × ℕ)
blocks [] live = live
blocks (x ∷ xs) live = blocks xs ((x.data_ptr, x.data_size) ∷ live)

allocate_loop-placed :
    (bulk : List DataTransfer) (m : Memory)
    → (allocate_loop bulk m).0 ≡ placed m.address m.calls bulk
unfolding allocate_loop
allocate_loop-placed [] m = refl
allocate_loop-placed (x ∷ bulk) m =
    ap (λ (t : List DataTransfer). record x { data_ptr = m.address m.calls } ∷ t)
      (allocate_loop-placed bulk (malloc x.data_size m).1)

allocate_loop-live :
    (bulk : List DataTransfer) (m : Memory)
    → ((n : ℕ) → m.address n ≢ 0)
    → (allocate_loop bulk m).1.live ≡ blocks (placed m.address m.calls bulk) m.live
unfolding allocate_loop
allocate_loop-live [] m never = refl
allocate_loop-live (x ∷ bulk) m never =
    allocate_loop-live bulk (malloc x.data_size m).1 never
    ∙ ap (blocks (placed m.address (suc m.calls) bulk)) (ground (arith, never m.calls))

-- Every segment gets the address of its own call of `malloc`, in order; node, metadata, flags and
-- sizes stay.
pub allocate-placed :
    (x : SegmentedTransfer) (m : Memory)
    → (allocate_bulks_server x m).0 ≡ record x { bulk = placed m.address m.calls x.bulk }
unfolding allocate_bulks_server
allocate-placed x m =
    ap (λ (l : List DataTransfer). record x { bulk = l }) (allocate_loop-placed x.bulk m)

-- If `malloc` never fails, one block for each segment is live afterwards, of the segment's size.
pub allocate-live :
    (x : SegmentedTransfer) (m : Memory)
    → ((n : ℕ) → m.address n ≢ 0)
    → (allocate_bulks_server x m).1.live ≡ blocks (placed m.address m.calls x.bulk) m.live
unfolding allocate_bulks_server
allocate-live x m never = allocate_loop-live x.bulk m never
