-- ===== src/Bench/Runs.antt =====
-- `IoCalls` and `MetadataCalls` of src/chi_net_bench.cc: `rep` calls to each node.
pub mod Complete
pub mod Loops
pub mod Sent
use ppi_chi_nettest.Base.{
  ℕ, zero, suc, ◌+◌, ◌*◌, ◌-◌, ◌%◌, ◌^◌, Bool, List, [], ◌∷◌, ◌++◌, ltb, ◌==◌, if◌then◌else◌,
  u32_mod, u64_mod, replicate,
}
use ppi_chi_nettest.Base.Text.{Text, codes}
use ppi_chi_nettest.Base.Int.{int_bound}
use ppi_chi_nettest.Base.Outcome.{Outcome, ok, throws, other_exception, undefined}
use ppi_chi_nettest.Bitfield.{Bitfield}
use ppi_chi_nettest.Transfer.{SegmentedTransfer, dt_write, emplace}
use ppi_chi_nettest.RpcContext.{RpcContext, num_hosts}
use ppi_chi_nettest.Thallium.Action.{metadata, Net, Log, Action, pure, lift, ◌>>=◌, ◌>>◌}
use ppi_chi_nettest.Thallium.Rpc.{ThalliumRpc, async_call, sync_call, async_io_call, sync_io_call}
use ppi_chi_nettest.Thallium.Nodes.{for_nodes}
use ppi_chi_nettest.Thallium.Calls.{wait_all}

-- The inner loop, with its `int` counter at `i` and so many rounds left.
unfoldable pub repeat : {S : Type 0} → (S → Action S) → (rounds i : ℕ) → S → Action S
repeat body zero i s = pure s
repeat body (suc rounds) i s = do
  s' ← body s
  let more = repeat body rounds (suc i) s'
  if suc i == int_bound then lift undefined else more

-- `responses.reserve(n)`: `std::length_error`, where no vector can hold so many elements.
unfoldable pub reserve : ℕ → Outcome (Unit {0})
reserve n = if ltb n (2 ^ 63) then ok tt else throws other_exception

-- The transfer that `IoCalls` sends: `ret_node` is what its memory held, `data_ptr` what `malloc` gave.
unfoldable pub io_transfer : Bitfield → (ret_node data_ptr md_size io_size : ℕ) → SegmentedTransfer
unfolding emplace
io_transfer b ret_node data_ptr md_size io_size = record {
  ret_node = ret_node;
  bulk = emplace b (dt_write b) data_ptr io_size ∷ [];
  md = replicate md_size 1;
}

module _ (b : Bitfield) (net : Net) (thallium : ThalliumRpc) where
  unfoldable pub io_sync_body : SegmentedTransfer → ℕ → Unit {0} → Action (Unit {0})
  unfolding sync_io_call
  io_sync_body xfer node_id done = do
    sync_io_call b net thallium node_id (codes "RpcTaskSubmit") xfer (dt_write b)
    pure tt

  unfoldable pub io_async_body : SegmentedTransfer → ℕ → List ℕ → Action (List ℕ)
  unfolding async_io_call
  io_async_body xfer node_id responses = do
    ret ← async_io_call b net thallium node_id (codes "RpcTaskSubmit") xfer (dt_write b)
    pure (responses ++ ret ∷ [])

unfoldable pub metadata_sync_body : Net → ThalliumRpc → Text → ℕ → Unit {0} → Action (Unit {0})
unfolding sync_call
metadata_sync_body net thallium md node_id done = do
  sync_call net thallium node_id (codes "RpcPing") (metadata md)
  pure tt

unfoldable pub metadata_async_body : Net → ThalliumRpc → Text → ℕ → List ℕ → Action (List ℕ)
unfolding async_call
metadata_async_body net thallium md node_id responses = do
  ret ← async_call net thallium node_id (codes "RpcPing") (metadata md)
  pure (responses ++ ret ∷ [])

-- The two nested loops.
unfoldable pub nested : {S : Type 0} → RpcContext → (ℕ → S → Action S) → ℕ → S → Action S
unfolding repeat
nested rpc body rep s =
    for_nodes (num_hosts rpc) (λ node_id. repeat (body node_id) rep 0) (suc (num_hosts rpc)) 1 s

-- `IoCalls<false>` and `IoCalls<true>`; they return the number `ops`.
unfoldable pub io_calls_sync :
    Bitfield
    → Net
    → ThalliumRpc
    → RpcContext
    → (ret_node data_ptr md_size io_size rep : ℕ) → Action ℕ
unfolding nested io_sync_body io_transfer reserve
io_calls_sync b net thallium rpc ret_node data_ptr md_size io_size rep = do
  lift (reserve (num_hosts rpc * rep % u64_mod))
  nested rpc (io_sync_body b net thallium (io_transfer b ret_node data_ptr md_size io_size)) rep tt
  pure (num_hosts rpc * rep * (io_size + md_size) % u64_mod)

unfoldable pub io_calls_async :
    Bitfield
    → Net
    → ThalliumRpc
    → RpcContext
    → (ret_node data_ptr md_size io_size rep : ℕ) → Action ℕ
unfolding nested io_async_body io_transfer wait_all reserve
io_calls_async b net thallium rpc ret_node data_ptr md_size io_size rep = do
  lift (reserve (num_hosts rpc * rep % u64_mod))
  responses ←
      nested rpc (io_async_body b net thallium (io_transfer b ret_node data_ptr md_size io_size))
        rep []
  wait_all net responses
  pure (num_hosts rpc * rep * (io_size + md_size) % u64_mod)

-- The parameter `rep` of `MetadataCalls` is an `int`: the rounds of `i < rep`, and `rep` as a `size_t`.
abbrev pub int_rounds : ℕ → ℕ
int_rounds rep = if ltb (rep % u32_mod) int_bound then rep % u32_mod else 0

abbrev pub int_as_u64 : ℕ → ℕ
int_as_u64 rep =
    if ltb (rep % u32_mod) int_bound then rep % u32_mod else u64_mod - u32_mod + rep % u32_mod

unfoldable pub metadata_calls_sync : Net → ThalliumRpc → RpcContext → (md_size rep : ℕ) → Action ℕ
unfolding nested metadata_sync_body reserve
metadata_calls_sync net thallium rpc md_size rep = do
  lift (reserve (num_hosts rpc * int_as_u64 rep % u64_mod))
  nested rpc (metadata_sync_body net thallium (replicate md_size 1)) (int_rounds rep) tt
  pure (num_hosts rpc * int_as_u64 rep % u64_mod)

unfoldable pub metadata_calls_async : Net → ThalliumRpc → RpcContext → (md_size rep : ℕ) → Action ℕ
unfolding nested metadata_async_body wait_all reserve
metadata_calls_async net thallium rpc md_size rep = do
  lift (reserve (num_hosts rpc * int_as_u64 rep % u64_mod))
  responses ←
      nested rpc (metadata_async_body net thallium (replicate md_size 1)) (int_rounds rep) []
  wait_all net responses
  pure (num_hosts rpc * int_as_u64 rep % u64_mod)
