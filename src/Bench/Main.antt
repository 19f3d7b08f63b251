-- ===== src/Bench/Main.antt =====
-- `main` of src/chi_net_bench.cc.
pub mod Start
pub mod Whole
mod Tests
use ppi_chi_nettest.Base.{ℕ, Bool, List, Option, none, some, ◌==◌, if◌then◌else◌}
use ppi_chi_nettest.Base.Text.{Text, codes, text_eq}
use ppi_chi_nettest.Base.Outcome.{Outcome, ok}
use ppi_chi_nettest.Bitfield.{Bitfield}
use ppi_chi_nettest.Config.{ServerConfig, ConfigParse, benchmark_init}
use ppi_chi_nettest.RpcContext.{HostEnv, RpcContext}
use ppi_chi_nettest.RpcContext
use ppi_chi_nettest.Thallium.Action.{Net, Action, pure, lift, ◌>>=◌, ◌>>◌}
use ppi_chi_nettest.Thallium.Rpc.{ThalliumRpc}
use ppi_chi_nettest.Thallium.Init
use ppi_chi_nettest.Thallium.Calls.{stop_all_daemons}
use ppi_chi_nettest.Bench.{test_runner, ping_all_sync, ping_all_async}
use ppi_chi_nettest.Bench.Runs.{
  io_calls_sync, io_calls_async, metadata_calls_sync, metadata_calls_async,
}

-- What the memory of an `io` test holds: the unset return node, and what `malloc` gave.
pub record IoMemory : Type 0 where
  pub ret_node : ℕ
  pub data_ptr : ℕ

-- The chain of tests on `info.test_`; the value is the number that the test logs, if it is known.
unfoldable pub run_test :
    Bitfield → Net → ThalliumRpc → RpcContext → ServerConfig → IoMemory → Action (Option ℕ)
unfolding ping_all_sync ping_all_async io_calls_sync io_calls_async metadata_calls_sync
    metadata_calls_async
run_test b net thallium rpc info mem =
    let ping = ping_all_sync net thallium rpc >>= λ n. pure (some n) in
    let ping_async = ping_all_async net thallium rpc >>= λ n. pure (some n) in
    let io =
      io_calls_sync b net thallium rpc mem.ret_node mem.data_ptr info.md_size info.io_size info.rep
      >>= λ n. pure (some n) in
    let io_async =
      io_calls_async b net thallium rpc mem.ret_node mem.data_ptr info.md_size info.io_size info.rep
      >>= λ n. pure (some n) in
    let md = metadata_calls_sync net thallium rpc info.md_size info.rep >>= λ n. pure (some n) in
    let md_async =
      metadata_calls_async net thallium rpc info.md_size info.rep >>= λ n. pure (some n) in
    if text_eq info.test (codes "ping")
    then ping
    else if text_eq info.test (codes "ping_async")
    then ping_async
    else if text_eq info.test (codes "io")
    then io
    else if text_eq info.test (codes "io_async")
    then io_async
    else if text_eq info.test (codes "metadata")
    then md
    else if text_eq info.test (codes "metadata_async")
    then md_async
    else pure none

-- How `main` goes on: node 1 ran a test, another node serves until its engine is finalized.
pub data Run : Type 0 where
  tested : Option ℕ → Run
  serves : ThalliumRpc → Run

-- What follows the initialization.
unfoldable pub drive :
    Bitfield → Net → ThalliumRpc → RpcContext → ServerConfig → IoMemory → Action Run
unfolding run_test stop_all_daemons
drive b net thallium rpc info mem =
    let test = run_test b net thallium rpc info mem >>= λ n.
    stop_all_daemons net thallium >> pure (tested n) in
    if rpc.node_id == 1 then test else pure (serves thallium)

unfoldable pub main :
    Bitfield
    → HostEnv
    → ConfigParse
    → Net
    → List Text
    → ServerConfig
    → RpcContext
    → ThalliumRpc
    → IoMemory
    → Action Run
unfolding benchmark_init RpcContext.server_init Init.server_init test_runner drive
main b env cp net argv info rpc thallium mem = do
  info ← lift (benchmark_init cp argv info)
  rpc ← lift (RpcContext.server_init env info rpc)
  thallium ← lift (Init.server_init net rpc thallium)
  thallium ← lift (test_runner thallium)
  drive b net thallium rpc info mem
