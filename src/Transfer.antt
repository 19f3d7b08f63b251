-- ===== src/Transfer.antt =====
-- include/test_networks/serialize_defn.h: data transfers and their serialization. An address is a
-- number, and 0 is NULL. The index of `DataTransferBase` is the template argument NO_XFER.
pub mod Laws
pub mod Allocate
mod Tests
use ppi_chi_nettest.Base.{
  ℕ, suc, ◌+◌, ◌%◌, Bool, true, false, ◌&&◌, List, [], ◌∷◌, ◌==◌, if◌then◌else◌, u64_mod, bit_or,
}
use ppi_chi_nettest.Base.Text.{Text}
use ppi_chi_nettest.Archive.{Codec, Archive, member, ◌&◌}
use ppi_chi_nettest.Bitfield.{Bitfield}

abbrev pub dt_expose : Bitfield → ℕ
dt_expose b = b.bit_opt 0

abbrev pub dt_write : Bitfield → ℕ
dt_write b = bit_or (b.bit_opt 1) (dt_expose b)

abbrev pub dt_free_data : Bitfield → ℕ
dt_free_data b = b.bit_opt 2

pub record DataTransferBase (no_xfer : Bool) : Type 0 where
  pub flags : ℕ
  pub data_ptr : ℕ
  pub data_size : ℕ

abbrev pub DataTransfer : Type 0
DataTransfer = DataTransferBase true

abbrev pub PassDataTransfer : Type 0
PassDataTransfer = DataTransferBase false

module _ {no_xfer : Bool} where
  -- The pointer is cast to a temporary: it is written, and what is read for it is dropped.
  unfoldable pub serialize : Archive → Codec (DataTransferBase no_xfer)
  serialize ar =
      member (λ x. x.flags) (λ x v. record x { flags = v }) ar.bits32
      & member (λ x. x.data_ptr) (λ x v. x) ar.u64
      & member (λ x. x.data_size) (λ x v. record x { data_size = v }) ar.u64

  unfoldable pub emplace : Bitfield → (flags data_ptr data_size : ℕ) → DataTransferBase no_xfer
  emplace b flags data_ptr data_size = record {
    flags = b.init flags;
    data_ptr = data_ptr;
    data_size = data_size;
  }

  pub copy : DataTransferBase no_xfer → DataTransferBase no_xfer
  copy xfer = record { flags = xfer.flags; data_ptr = xfer.data_ptr; data_size = xfer.data_size }

  pub assign : DataTransferBase no_xfer → DataTransferBase no_xfer → DataTransferBase no_xfer
  assign self xfer = record self {
    flags = xfer.flags;
    data_ptr = xfer.data_ptr;
    data_size = xfer.data_size;
  }

  pub move : DataTransferBase no_xfer → DataTransferBase no_xfer
  move xfer = record { flags = xfer.flags; data_ptr = xfer.data_ptr; data_size = xfer.data_size }

  pub eq : DataTransferBase no_xfer → DataTransferBase no_xfer → Bool
  eq a b = a.flags == b.flags && a.data_ptr == b.data_ptr && a.data_size == b.data_size

pub record SegmentedTransfer : Type 0 where
  pub ret_node : ℕ
  pub bulk : List DataTransfer
  pub md : Text

-- The allocator: the address that its n-th call returns (NULL if it fails), the calls so far, the
-- blocks that are not freed, the latest first, with their sizes, and what the block at an address
-- holds.
pub record Memory : Type 0 where
  pub address : ℕ → ℕ
  pub calls : ℕ
  pub live : List (ℕ × ℕ)
  pub bytes : ℕ → Text

unfoldable pub malloc : ℕ → Memory → ℕ × Memory
malloc size m =
    let p = m.address m.calls in
    (p, record m { calls = suc m.calls; live = if p == 0 then m.live else (p, size) ∷ m.live })

-- The loop of `AllocateBulksServer`.
unfoldable pub allocate_loop : List DataTransfer → Memory → List DataTransfer × Memory
unfolding malloc
allocate_loop [] m = ([], m)
allocate_loop (xfer ∷ bulk) m =
    let (p, m') = malloc xfer.data_size m in
    let (bulk', m'') = allocate_loop bulk m' in (record xfer { data_ptr = p } ∷ bulk', m'')

unfoldable pub allocate_bulks_server : SegmentedTransfer → Memory → SegmentedTransfer × Memory
unfolding allocate_loop
allocate_bulks_server xfer m =
    let (bulk, m') = allocate_loop xfer.bulk m in (record xfer { bulk = bulk }, m')

-- The loop of `size()`.
size_loop : List DataTransfer → ℕ → ℕ
size_loop [] size = size
size_loop (xfer ∷ bulk) size = size_loop bulk ((size + xfer.data_size) % u64_mod)

pub size : SegmentedTransfer → ℕ
unfolding size_loop
size xfer = size_loop xfer.bulk 0

-- What `std::vector::resize` puts into a slot before it is read: the value-initialized element.
abbrev pub blank : DataTransfer
blank = record { flags = 0; data_ptr = 0; data_size = 0 }

unfoldable pub serialize_segments : Archive → Codec SegmentedTransfer
unfolding serialize
serialize_segments ar =
    member (λ x. x.ret_node) (λ x v. record x { ret_node = v }) ar.u32
    & member (λ x. x.md) (λ x v. record x { md = v }) ar.text
    & member (λ x. x.bulk) (λ x v. record x { bulk = v }) (ar.vector blank (serialize ar))
