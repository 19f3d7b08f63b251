-- ===== src/Thallium/Bulk/Laws.antt =====
-- What `MakeBulk` exposes, on the two sides of a transfer.
use ppi_chi_nettest.Base.{
  ℕ, suc, ◌+◌, ◌%◌, ◌<◌, ◌≡◌, ◌≢◌, refl, ap, sym, ◌∙◌, true, false, List, [], ◌∷◌, ◌++◌, map, none,
  some, ◌==◌, if◌then◌else◌, arith, u64_mod, Bool-cases, inl, inr,
}
use mathlib.Core.List.{append-nil, append_assoc}
use ppi_chi_nettest.Bitfield.{Bitfield}
use ppi_chi_nettest.Transfer.{DataTransfer, SegmentedTransfer, Memory, allocate_bulks_server}
use ppi_chi_nettest.Transfer.Laws.{total, without_pointer}
use ppi_chi_nettest.Transfer.Allocate.{placed, allocate-placed}
use ppi_chi_nettest.Thallium.Action.{BulkMode}
use ppi_chi_nettest.Thallium.Bulk.{
  bulk_loop, make_bulk, client_mode, make_bulk_client, server_mode, make_bulk_server,
}

-- The transfers that carry a flag of the mask.
abbrev pub flagged : Bitfield → ℕ → List DataTransfer → List DataTransfer
flagged b f [] = []
flagged b f (x ∷ xs) = if b.any x.flags f then x ∷ flagged b f xs else flagged b f xs

abbrev pub segment : DataTransfer → ℕ × ℕ
segment x = (x.data_ptr, x.data_size)

-- One round of the loop on a transfer that carries the flag, and on one that does not.
loop_hit :
    (b : Bitfield) (f : ℕ) (x : DataTransfer) (xs : List DataTransfer) (segments : List (ℕ × ℕ))
    (size : ℕ)
    → b.any x.flags f ≡ true
    → bulk_loop b f (x ∷ xs) segments size
      ≡ bulk_loop b f xs (segments ++ segment x ∷ []) ((size + x.data_size) % u64_mod)
unfolding bulk_loop
loop_hit b f x xs segments size hit = simp hit

loop_miss :
    (b : Bitfield) (f : ℕ) (x : DataTransfer) (xs : List DataTransfer) (segments : List (ℕ × ℕ))
    (size : ℕ)
    → b.any x.flags f ≡ false
    → bulk_loop b f (x ∷ xs) segments size ≡ bulk_loop b f xs segments size
unfolding bulk_loop
loop_miss b f x xs segments size miss = simp miss

bulk_loop-segments :
    (b : Bitfield) (f : ℕ) (xs : List DataTransfer) (segments : List (ℕ × ℕ)) (size : ℕ)
    → (bulk_loop b f xs segments size).0 ≡ segments ++ map segment (flagged b f xs)
bulk_loop-segments b f [] segments size = unfold bulk_loop in sym (append-nil segments)
bulk_loop-segments b f (x ∷ xs) segments size = elim (Bool-cases (b.any x.flags f)) [
  | inl hit ↦
      rw
        (
          loop_hit b f x xs segments size hit,
          hit,
          bulk_loop-segments b f xs (segments ++ segment x ∷ []) ((size + x.data_size) % u64_mod),
        )
        (append_assoc segments (segment x ∷ []) (map segment (flagged b f xs)))
  | inr miss ↦
      rw (loop_miss b f x xs segments size miss, miss) (bulk_loop-segments b f xs segments size)
]

bulk_loop-size :
    (b : Bitfield) (f : ℕ) (xs : List DataTransfer) (segments : List (ℕ × ℕ)) (size : ℕ)
    → size < u64_mod
    → (bulk_loop b f xs segments size).1 ≡ (size + total (flagged b f xs)) % u64_mod
unfolding total
bulk_loop-size b f [] segments size h = unfold bulk_loop in omega arith
bulk_loop-size b f (x ∷ xs) segments size h = elim (Bool-cases (b.any x.flags f)) [
  | inl hit ↦
      rw
        (
          loop_hit b f x xs segments size hit,
          hit,
          bulk_loop-size b f xs (segments ++ segment x ∷ []) ((size + x.data_size) % u64_mod)
              (omega arith),
        )
        (omega arith)
  | inr miss ↦
      rw (loop_miss b f x xs segments size miss, miss) (bulk_loop-size b f xs segments size h)
]

-- `MakeBulk` counts the bytes of the flagged transfers modulo 2^64, and exposes the segments of
-- exactly these, in order, unless that count is 0.
pub make_bulk-flagged :
    (b : Bitfield) (xs : List DataTransfer) (f : ℕ) (mode : BulkMode)
    → let planned = total (flagged b f xs) % u64_mod in
      ((make_bulk b xs f mode).1 ≡ planned)
      × ((make_bulk b xs f mode).0 ≡ (
          if planned == 0
          then none
          else some (record { segments = map segment (flagged b f xs); mode = mode })))
unfolding make_bulk
make_bulk-flagged b xs f mode =
    let size : (bulk_loop b f xs [] 0).1 ≡ total (flagged b f xs) % u64_mod =
      bulk_loop-size b f xs [] 0 (omega arith) ∙ ap (λ n. n % u64_mod) (omega arith) in
    (size, rw (size, bulk_loop-segments b f xs [] 0) (ground arith))

-- Client and server expose their ends of one transfer in opposite modes, for every flag.
pub modes_opposite : (b : Bitfield) (f : ℕ) → client_mode b f ≢ server_mode b f
unfolding client_mode server_mode
modes_opposite b f = ground arith

flagged-placed :
    (b : Bitfield) (f : ℕ) (address : ℕ → ℕ) (n : ℕ) (xs : List DataTransfer)
    → total (flagged b f (placed address n (map (without_pointer 0) xs))) ≡ total (flagged b f xs)
unfolding total
flagged-placed b f address n [] = refl
flagged-placed b f address n (x ∷ xs) = elim (Bool-cases (b.any x.flags f)) [
  | inl hit ↦ rw hit (ap (λ t. x.data_size + t) (flagged-placed b f address (suc n) xs))
  | inr miss ↦ rw miss (flagged-placed b f address (suc n) xs)
]

-- The server, which received the transfer without addresses and allocated its own buffers, plans
-- exactly as many bytes as the client that sent it.
pub planned_bytes_agree :
    (b : Bitfield) (x : SegmentedTransfer) (m : Memory) (f : ℕ)
    → let received = record x { bulk = map (without_pointer 0) x.bulk } in
      (make_bulk_server b (allocate_bulks_server received m).0.bulk f).1
      ≡ (make_bulk_client b x.bulk f).1
unfolding make_bulk_server make_bulk_client
planned_bytes_agree b x m f =
    let received : SegmentedTransfer = record x { bulk = map (without_pointer 0) x.bulk } in
    let here : (allocate_bulks_server received m).0.bulk
        ≡ placed m.address m.calls (map (without_pointer 0) x.bulk) =
      ap (λ (y : SegmentedTransfer). y.bulk) (allocate-placed received m) in
    rw here (
      cc (
        (make_bulk-flagged b (placed m.address m.calls (map (without_pointer 0) x.bulk)) f
            (server_mode b f)).0,
        (make_bulk-flagged b x.bulk f (client_mode b f)).0,
        flagged-placed b f m.address m.calls x.bulk,
      ))
