-- ===== src/Bench/Handlers.antt =====
-- What `TestRunner` registers, and what serving `RpcTaskSubmit` does to the memory of the server.
use ppi_chi_nettest.Base.{Bool-cases, inl, inr, ◌==◌, ◌∙◌, ℕ, ◌≡◌, ◌≢◌, [], ◌∷◌, arith, Option}
use ppi_chi_nettest.Base.Text.{codes}
use ppi_chi_nettest.Base.Outcome.{Outcome, ok, fatal, throws, Exception}
use ppi_chi_nettest.Bitfield.{Bitfield}
use ppi_chi_nettest.Transfer.{SegmentedTransfer, Memory, dt_write, allocate_bulks_server}
use ppi_chi_nettest.Transfer.Allocate.{placed, blocks, allocate-live}
use ppi_chi_nettest.RpcContext.{RpcContext}
use ppi_chi_nettest.Thallium.Action.{Bulk}
use ppi_chi_nettest.Thallium.Bulk.{make_bulk_server}
use ppi_chi_nettest.Thallium.Rpc.{ThalliumRpc, io_call_server_write}
use ppi_chi_nettest.Thallium.Init.{register_rpc}
use ppi_chi_nettest.Thallium.Init.Laws.{IsServing}
use ppi_chi_nettest.Bench.{test_runner, rpc_task_submit}

-- On a server that `ServerInit` started, `TestRunner` registers its two names behind
-- `RpcStopDaemon` and changes nothing else.
pub test_runner-IsServing :
    (rpc : RpcContext) (before self : ThalliumRpc)
    → IsServing rpc before self
    → test_runner self
      ≡ ok (record self {
        defined = codes "RpcStopDaemon" ∷ codes "RpcPing" ∷ codes "RpcTaskSubmit" ∷ [];
      })
unfolding test_runner register_rpc
test_runner-IsServing rpc before self serving =
    let (addr, own, server) = serving.server in rw (server, serving.registered)

module _ (b : Bitfield) (pull : Option Bulk → Memory → Outcome (ℕ × Memory))
    (xfer : SegmentedTransfer) (m : Memory) where
  -- If the transfer of the data returns, without freeing a block, and `malloc` never fails, serving
  -- a request answers 0, and the block of every segment is still live afterwards: none is freed.
  pub rpc_task_submit-live :
      ((local_wbulk : Option Bulk) (m : Memory)
        → (n : ℕ) × (after : Memory) × (pull local_wbulk m ≡ ok (n, after)) × (after.live ≡ m.live))
      → ((n : ℕ) → m.address n ≢ 0)
      → (after : Memory) × (rpc_task_submit b pull xfer m ≡ ok (0, after))
        × (after.live ≡ blocks (placed m.address m.calls xfer.bulk) m.live)
  unfolding rpc_task_submit io_call_server_write
  rpc_task_submit-live pulls never =
      let placed_xfer = (allocate_bulks_server xfer m).0 in
      let m' = (allocate_bulks_server xfer m).1 in
      let planned = make_bulk_server b placed_xfer.bulk (dt_write b) in
      let (n, after, pulled, kept) = pulls planned.0 m' in
      elim (Bool-cases (planned.1 == 0)) [
        | inl none_planned ↦ (m', rw none_planned, allocate-live xfer m never)
        | inr some_planned ↦
            (after, ground (arith, some_planned, pulled), kept ∙ allocate-live xfer m never)
      ]

  -- If there are bytes to transfer and the transfer raises an exception, the server ends.
  pub rpc_task_submit-fatal :
      (e : Exception)
      → (make_bulk_server b (allocate_bulks_server xfer m).0.bulk (dt_write b)).1 ≢ 0
      → ((local_wbulk : Option Bulk) (m : Memory) → pull local_wbulk m ≡ throws e)
      → rpc_task_submit b pull xfer m ≡ fatal
  unfolding rpc_task_submit io_call_server_write
  rpc_task_submit-fatal e some_bytes raises =
      let raised =
        raises (make_bulk_server b (allocate_bulks_server xfer m).0.bulk (dt_write b)).0
          (allocate_bulks_server xfer m).1 in
      ground (arith, raised)
