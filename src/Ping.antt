-- ===== src/Ping.antt =====
-- src/chi_net_ping.cc: the ping test whose servers mark themselves by a block of shared memory.
pub mod Laws
pub mod Async
pub mod Whole
pub mod Start
mod Tests
use ppi_chi_nettest.Base.{
  ℕ, suc, ◌+◌, ◌%◌, Bool, true, false, ◌&&◌, ◌||◌, List, [], ◌∷◌, ◌++◌, Option, ◌==◌, if◌then◌else◌,
  u64_mod,
}
use ppi_chi_nettest.Base.Text.{Text, codes, text_eq}
use ppi_chi_nettest.Base.Outcome.{Outcome, ok, fatal}
use ppi_chi_nettest.Base.Outcome
use ppi_chi_nettest.Bitfield.{Bitfield}
use ppi_chi_nettest.Transfer.{SegmentedTransfer, Memory, allocate_bulks_server}
use ppi_chi_nettest.Config.{ServerConfig, ConfigParse, ping_init}
use ppi_chi_nettest.RpcContext
use ppi_chi_nettest.RpcContext.{HostEnv, RpcContext, num_hosts, get_rpc_address}
use ppi_chi_nettest.Thallium.Action.{
  Bulk, metadata, Net, Action, pure, lift, ◌>>=◌, ◌>>◌, catch_margo, catch_all,
}
use ppi_chi_nettest.Thallium.Rpc.{ThalliumRpc, wait, async_call, sync_call, io_call_server_write}
use ppi_chi_nettest.Thallium.Init.{register_rpc, client_init, server_init}
use ppi_chi_nettest.Thallium.Nodes.{for_nodes}
use ppi_chi_nettest.Thallium.Calls.{wait_all, stop_all_daemons}

-- `TestRunner::ServerInit`
unfoldable pub runner_server_init : ThalliumRpc → Outcome ThalliumRpc
unfolding register_rpc
runner_server_init thallium = register_rpc thallium (codes "RpcPing")

-- One round of `PingAll<false>`: both handlers end the program.
unfoldable pub ping_body : Net → ThalliumRpc → ℕ → ℕ → Action ℕ
unfolding sync_call
ping_body net thallium node_id count =
    catch_all
      (do
        sync_call net thallium node_id (codes "RpcPing") (metadata [])
        pure ((count + 1) % u64_mod))
      (lift fatal)

-- `PingAll<false>`, the variant that `main` uses; the value is its count.
unfoldable pub ping_all : Net → ThalliumRpc → RpcContext → Action ℕ
unfolding ping_body
ping_all net thallium rpc =
    for_nodes (num_hosts rpc) (ping_body net thallium) (suc (num_hosts rpc)) 1 0

-- One round of `PingAll<true>` with the responses so far: both handlers end the program.
unfoldable pub ping_async_body : Net → ThalliumRpc → ℕ → List ℕ → Action (List ℕ)
unfolding async_call
ping_async_body net thallium node_id responses =
    catch_all
      (do
        ret ← async_call net thallium node_id (codes "RpcPing") (metadata [])
        pure (responses ++ ret ∷ []))
      (lift fatal)

-- The loop that waits for the responses, inside its handler, which ends the program.
unfoldable pub count_responses : Net → List ℕ → ℕ → Action ℕ
unfolding wait
count_responses net [] count = pure count
count_responses net (resp ∷ responses) count = do
  catch_margo (do wait net resp; pure tt) (lift fatal)
  count_responses net responses ((count + 1) % u64_mod)

-- `PingAll<true>`
unfoldable pub ping_all_async : Net → ThalliumRpc → RpcContext → Action ℕ
unfolding ping_async_body
ping_all_async net thallium rpc = do
  responses ← for_nodes (num_hosts rpc) (ping_async_body net thallium) (suc (num_hosts rpc)) 1 []
  count_responses net responses 0

-- `RpcPing`
unfoldable pub rpc_ping : Text → ℕ
rpc_ping md = 0

-- `RpcTaskSubmit`, which this program does not register: the response, and the allocator after it.
unfoldable pub rpc_task_submit :
    Bitfield
    → (Option Bulk → Memory → Outcome (ℕ × Memory))
    → SegmentedTransfer
    → Memory
    → Outcome (ℕ × Memory)
unfolding allocate_bulks_server io_call_server_write
rpc_task_submit b pull xfer m =
    let (placed, m') = allocate_bulks_server xfer m in
    Outcome.◌>>=◌ (io_call_server_write b pull placed m') λ (real_bytes, m''). ok (0, m'')

-- How `main` goes on: it returns, it calls `exit`, or it waits in `RunDaemon`. The flag says
-- whether the block of shared memory is there.
pub data End : Type 0 where
  returns : Bool → End
  exits : ℕ → Bool → End
  serves : ThalliumRpc → Bool → End

-- The server part; `made` says whether the shared memory could be created.
unfoldable pub start_server : Net → RpcContext → ThalliumRpc → Bool → Outcome (ThalliumRpc × Bool)
unfolding server_init runner_server_init
start_server net rpc thallium made =
    Outcome.◌>>=◌ (server_init net rpc thallium)
      λ serving. Outcome.◌>>=◌ (runner_server_init serving) λ ready. ok (ready, made)

-- The client part on the first node, behind `OpenSharedMemory`: an exception of `StopAllDaemons`
-- leaves the block, everything else destroys it.
unfoldable pub client : Net → ThalliumRpc → RpcContext → Action End
unfolding client_init ping_all stop_all_daemons
client net thallium rpc = do
  connected ← lift (client_init net rpc thallium)
  ping_all net connected rpc
  let stop = stop_all_daemons net connected >> pure true
  stopped ← catch_all stop (pure false)
  let finish = lift (get_rpc_address rpc 1 rpc.port) >>= λ address. pure (exits 0 false)
  if stopped then finish else pure (exits 0 true)

-- The body of the outer `try` of `main` with its handler, by the test name; `there` and `made` say whether the
-- shared memory exists, and whether it can be created. An exception makes the program exit with 1;
-- the server part has destroyed an old block by then.
unfoldable pub run : Net → ThalliumRpc → RpcContext → Text → (there made : Bool) → Action End
unfolding start_server client
run net thallium rpc test there made =
    let server = lift (start_server net rpc thallium made) in
    let serve =
      catch_all (server >>= λ (ready, shm). pure (serves ready shm)) (pure (exits 1 false)) in
    let touch = catch_all (server >>= λ (ready, shm). pure (returns shm)) (pure (exits 1 false)) in
    let opened = if there then client net thallium rpc else lift fatal in
    let drive = catch_all opened (pure (exits 1 there)) in
    if text_eq test (codes "server")
    then serve
    else if text_eq test (codes "touchserver")
    then touch
    else if text_eq test (codes "client") && rpc.node_id == 1
    then drive
    else pure (returns there)

unfoldable pub main :
    HostEnv
    → ConfigParse
    → Net
    → List Text
    → ServerConfig
    → RpcContext
    → ThalliumRpc
    → (there made : Bool) → Action End
unfolding ping_init RpcContext.server_init run
main env cp net argv info rpc thallium there made = do
  info ← lift (ping_init cp argv info)
  rpc ← lift (RpcContext.server_init env info rpc)
  run net thallium rpc info.test there made
