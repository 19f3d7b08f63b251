-- ===== src/Bench.antt =====
-- `TestRunner` of src/chi_net_bench.cc: what it registers, the two handlers, and `PingAll`.
pub mod Handlers
pub mod Served
mod CopyPull
pub mod Rounds
pub mod Ping
pub mod Runs
pub mod Main
mod Tests
use ppi_chi_nettest.Base.{
  ℕ, zero, suc, ◌+◌, ◌%◌, Bool, true, false, List, [], ◌∷◌, ◌++◌, if◌then◌else◌, u64_mod, Option,
}
use ppi_chi_nettest.Base.Text.{Text, codes}
use ppi_chi_nettest.Base.Outcome.{Outcome, ok}
use ppi_chi_nettest.Base.Outcome
use ppi_chi_nettest.Bitfield.{Bitfield}
use ppi_chi_nettest.Transfer.{SegmentedTransfer, Memory, allocate_bulks_server}
use ppi_chi_nettest.RpcContext.{RpcContext, num_hosts}
use ppi_chi_nettest.Thallium.Action.{Bulk, metadata, Net, Action, pure, ◌>>=◌, ◌>>◌, catch_margo}
use ppi_chi_nettest.Thallium.Rpc.{ThalliumRpc, wait, async_call, sync_call, io_call_server_write}
use ppi_chi_nettest.Thallium.Init.{register_rpc}
use ppi_chi_nettest.Thallium.Nodes.{for_nodes}

-- `TestRunner()`
unfoldable pub test_runner : ThalliumRpc → Outcome ThalliumRpc
unfolding register_rpc
test_runner thallium =
    Outcome.◌>>=◌ (register_rpc thallium (codes "RpcPing"))
      λ pinging. register_rpc pinging (codes "RpcTaskSubmit")

-- `RpcTaskSubmit`: the response, and the allocator after it.
unfoldable pub rpc_task_submit :
    Bitfield
    → (Option Bulk → Memory → Outcome (ℕ × Memory))
    → SegmentedTransfer
    → Memory
    → Outcome (ℕ × Memory)
unfolding allocate_bulks_server io_call_server_write
rpc_task_submit b pull xfer m =
    let (placed, m') = allocate_bulks_server xfer m in
    Outcome.◌>>=◌ (io_call_server_write b pull placed m') λ (real_bytes, m''). ok (0, m'')

-- `RpcPing`
unfoldable pub rpc_ping : Text → ℕ
rpc_ping md = 0

-- One round of `PingAll<false>` with the count so far, and the whole of it.
unfoldable pub ping_sync_body : Net → ThalliumRpc → ℕ → ℕ → Action ℕ
unfolding sync_call
ping_sync_body net thallium node_id count =
    catch_margo
      (do
        sync_call net thallium node_id (codes "RpcPing") (metadata [])
        pure ((count + 1) % u64_mod))
      (pure count)

unfoldable pub ping_all_sync : Net → ThalliumRpc → RpcContext → Action ℕ
unfolding ping_sync_body
ping_all_sync net thallium rpc =
    for_nodes (num_hosts rpc) (ping_sync_body net thallium) (suc (num_hosts rpc)) 1 0

-- One round of `PingAll<true>` with the responses so far.
unfoldable pub ping_async_body : Net → ThalliumRpc → ℕ → List ℕ → Action (List ℕ)
unfolding async_call
ping_async_body net thallium node_id responses =
    catch_margo
      (do
        ret ← async_call net thallium node_id (codes "RpcPing") (metadata [])
        pure (responses ++ ret ∷ []))
      (pure responses)

-- The loop that waits for the responses; an exception leaves it with the count so far.
unfoldable pub count_responses : Net → List ℕ → ℕ → Action ℕ
unfolding wait
count_responses net [] count = pure count
count_responses net (resp ∷ responses) count = do
  received ← catch_margo (do wait net resp; pure true) (pure false)
  let more = count_responses net responses ((count + 1) % u64_mod)
  if received then more else pure count

unfoldable pub ping_all_async : Net → ThalliumRpc → RpcContext → Action ℕ
unfolding ping_async_body
ping_all_async net thallium rpc = do
  responses ← for_nodes (num_hosts rpc) (ping_async_body net thallium) (suc (num_hosts rpc)) 1 []
  count_responses net responses 0
