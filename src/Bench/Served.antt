-- ===== src/Bench/Served.antt =====
-- An I/O request from the client to the handler of the server: what `IoCall` exposes and sends, what
-- the archive brings over, the buffers of `RpcTaskSubmit`, and the pull between the two bulks.
use ppi_chi_nettest.Base.{ℕ, ◌≡◌, map, Option}
use ppi_chi_nettest.Base.Text.{Text}
use ppi_chi_nettest.Base.Outcome.{Outcome, ok}
use ppi_chi_nettest.Archive.{Archive}
use ppi_chi_nettest.Bitfield.{Bitfield}
use ppi_chi_nettest.Transfer.{SegmentedTransfer, Memory}
use ppi_chi_nettest.Transfer.Laws.{without_pointer}
use ppi_chi_nettest.Thallium.Action.{Bulk}
use ppi_chi_nettest.Thallium.Bulk.Distinct.{sizes, addresses, Distinct}

-- The pull of the library from the remote bulk, whose blocks hold `source`, into a bulk of segments
-- of the same sizes at distinct addresses: it returns, no block is freed, and each segment of the
-- local bulk then holds what its segment of the remote one does.
abbrev pub Pulls : Option Bulk → (ℕ → Text) → (Option Bulk → Memory → Outcome (ℕ × Memory)) → Type 0
Pulls remote source pull =
    (local_wbulk : Option Bulk) (m : Memory)
    → sizes local_wbulk ≡ sizes remote
    → Distinct (addresses local_wbulk)
    → (n : ℕ) × (after : Memory) × (pull local_wbulk m ≡ ok (n, after))
      × (after.live ≡ m.live)
      × (map after.bytes (addresses local_wbulk) ≡ map source (addresses remote))

module _ (b : Bitfield) (x : SegmentedTransfer) (m : Memory) where
  abbrev received : SegmentedTransfer
  received = record x { bulk = map (without_pointer 0) x.bulk }
