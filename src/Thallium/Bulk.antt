-- ===== src/Thallium/Bulk.antt =====
-- `MakeBulk` and its two callers in include/test_networks/rpc_thallium.h (lines 162 to 203).
pub mod Laws
pub mod Distinct
use ppi_chi_nettest.Base.{
  ℕ, ◌+◌, ◌%◌, Bool, not, List, [], ◌∷◌, ◌++◌, Option, none, some, ◌==◌, if◌then◌else◌, u64_mod,
  bit_and,
}
use ppi_chi_nettest.Bitfield.{Bitfield}
use ppi_chi_nettest.Transfer.{DataTransfer, dt_write}
use ppi_chi_nettest.Thallium.Action.{BulkMode, read_only, write_only, Bulk}

-- The loop over the transfers, with the segments and `size_bytes` so far.
bulk_loop : Bitfield → ℕ → List DataTransfer → List (ℕ × ℕ) → ℕ → List (ℕ × ℕ) × ℕ
bulk_loop b chi_flag [] segments size_bytes = (segments, size_bytes)
bulk_loop b chi_flag (xfer ∷ xfers) segments size_bytes =
    let hit = b.any xfer.flags chi_flag in
    bulk_loop b chi_flag xfers
      (if hit then segments ++ (xfer.data_ptr, xfer.data_size) ∷ [] else segments)
      (if hit then (size_bytes + xfer.data_size) % u64_mod else size_bytes)

-- The bulk, null unless something was exposed, and the output `size_bytes`.
unfoldable pub make_bulk : Bitfield → List DataTransfer → ℕ → BulkMode → Option Bulk × ℕ
unfolding bulk_loop
make_bulk b xfers chi_flag tl_flag =
    let (segments, size_bytes) = bulk_loop b chi_flag xfers [] 0 in
    (
      if not (size_bytes == 0) then some (record { segments = segments; mode = tl_flag }) else none,
      size_bytes,
    )

unfoldable pub client_mode : Bitfield → ℕ → BulkMode
client_mode b chi_flag = if not (bit_and chi_flag (dt_write b) == 0) then read_only else write_only

unfoldable pub make_bulk_client : Bitfield → List DataTransfer → ℕ → Option Bulk × ℕ
unfolding make_bulk client_mode
make_bulk_client b xfer chi_flag = make_bulk b xfer chi_flag (client_mode b chi_flag)

unfoldable pub server_mode : Bitfield → ℕ → BulkMode
server_mode b chi_flag = if not (bit_and chi_flag (dt_write b) == 0) then write_only else read_only

unfoldable pub make_bulk_server : Bitfield → List DataTransfer → ℕ → Option Bulk × ℕ
unfolding make_bulk server_mode
make_bulk_server b xfer chi_flag = make_bulk b xfer chi_flag (server_mode b chi_flag)
