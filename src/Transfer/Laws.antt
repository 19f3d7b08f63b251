-- ===== src/Transfer/Laws.antt =====
-- What a transfer is after it was sent, and the size of a segmented one.
use ppi_chi_nettest.Base.{
  ℕ, ◌+◌, ◌%◌, ◌<◌, ◌≡◌, refl, ap, ◌↔◌, Bool, true, List, [], ◌∷◌, map, some, arith, All, u32_mod,
  u64_mod,
}
use ppi_chi_nettest.Base.Text.{Text}
use ppi_chi_nettest.Archive.{Archive}
use ppi_chi_nettest.Bitfield.{Bitfield}
use ppi_chi_nettest.Transfer.{
  DataTransferBase, DataTransfer, serialize, emplace, copy, assign, move, eq, SegmentedTransfer,
  size_loop, size, blank, serialize_segments,
}

pub record IsWords {no_xfer : Bool} (x : DataTransferBase no_xfer) : Type 0 where
  pub flags : x.flags < u32_mod
  pub data_ptr : x.data_ptr < u64_mod
  pub data_size : x.data_size < u64_mod

pub record IsSegments (x : SegmentedTransfer) : Type 0 where
  pub ret_node : x.ret_node < u32_mod
  pub md : All (λ c. c < 256) x.md
  pub bulk : All IsWords x.bulk

-- A transfer without the sender's address.
abbrev pub without_pointer :
    {no_xfer : Bool} → ℕ → DataTransferBase no_xfer → DataTransferBase no_xfer
without_pointer p x = record x { data_ptr = p }

-- A transfer comes back with its flags and its size, and with the address that the target held:
-- the sender's address never reaches the receiver.
pub serialize-load :
    {no_xfer : Bool} (ar : Archive) (x old : DataTransferBase no_xfer) (rest : Text)
    → IsWords x
    → (serialize ar).load old ((serialize ar).save x rest)
      ≡ some (without_pointer old.data_ptr x, rest)
unfolding serialize
serialize-load ar x old rest w = rw (
  ar.bits32_lem x.flags _ _ w.flags,
  ar.u64_lem x.data_ptr _ _ w.data_ptr,
  ar.u64_lem x.data_size _ _ w.data_size,
)

-- A segmented transfer whose fields fit their types is read back into one that has no segments:
-- return node, metadata and every segment in order, each segment with a null address.
pub serialize_segments-load :
    (ar : Archive) (x old : SegmentedTransfer) (rest : Text)
    → IsSegments x
    → old.bulk ≡ []
    → (serialize_segments ar).load old ((serialize_segments ar).save x rest)
      ≡ some (record x { bulk = map (without_pointer 0) x.bulk }, rest)
unfolding serialize_segments
serialize_segments-load ar x old rest w empty = rw (
  ar.u32_lem x.ret_node _ _ w.ret_node,
  ar.text_lem x.md _ _ w.md,
  empty,
  ar.vector_lem blank (serialize ar) (without_pointer 0) IsWords
      (λ y r h. serialize-load ar y blank r h) x.bulk rest w.bulk,
)

unfoldable pub total : List DataTransfer → ℕ
total [] = 0
total (x ∷ xs) = x.data_size + total xs

size_loop-total :
    (bulk : List DataTransfer) (acc : ℕ)
    → acc < u64_mod
    → size_loop bulk acc ≡ (acc + total bulk) % u64_mod
unfolding size_loop total
size_loop-total [] acc h = omega arith
size_loop-total (x ∷ bulk) acc h =
    omega (arith, size_loop-total bulk ((acc + x.data_size) % u64_mod) (omega arith))

-- `size()` is the sum of the segments' sizes, modulo the width of `size_t`.
pub size-total : (x : SegmentedTransfer) → size x ≡ total x.bulk % u64_mod
unfolding size
size-total x = omega (arith, size_loop-total x.bulk 0 (omega arith))

total-without_pointer :
    (p : ℕ) (bulk : List DataTransfer) → total (map (without_pointer p) bulk) ≡ total bulk
unfolding total
total-without_pointer p [] = refl
total-without_pointer p (x ∷ bulk) = ap (λ n. x.data_size + n) (total-without_pointer p bulk)

pub transfer_eq_iff : {no_xfer : Bool} (a b : DataTransferBase no_xfer) → (eq a b ≡ true) ↔ (a ≡ b)
unfolding eq
transfer_eq_iff a b = (λ h. ground arith, λ h. ground arith)

transfer_copy_lem :
    {no_xfer : Bool} (b : Bitfield) (self a : DataTransferBase no_xfer)
    → (copy a ≡ a)
      × (move a ≡ a)
      × (assign self a ≡ a)
      × (emplace b a.flags a.data_ptr a.data_size ≡ a)
unfolding copy move assign emplace
transfer_copy_lem b self a = (refl, refl, refl, rw (b.init_lem a.flags))
