-- ===== src/Bench/Main/Whole.antt =====
-- A whole run of the benchmark on node 1.
use ppi_chi_nettest.Base.{◌≡◌, ◌∙◌, false, [], ◌++◌, some, arith, length, if◌then◌else◌, ◌==◌}
use ppi_chi_nettest.Base.Text.{codes}
use ppi_chi_nettest.Base.Outcome.{ok, throws, margo_exception}
use ppi_chi_nettest.Bitfield.{Bitfield}
use ppi_chi_nettest.Config.{ServerConfig}
use ppi_chi_nettest.RpcContext.{RpcContext, num_hosts}
use ppi_chi_nettest.Thallium.Action.{nothing, metadata, Log, Net, pure, ◌>>=◌, ◌>>◌, >>=-run}
use ppi_chi_nettest.Thallium.Rpc.{ThalliumRpc}
use ppi_chi_nettest.Thallium.Calls.{
  IsConnected, request_to, requests, length-requests, AllReach, stop_all_daemons,
}
use ppi_chi_nettest.Thallium.Calls.Stop.{all_answered, stop_all_daemons-Reaches}
use ppi_chi_nettest.Bench.{ping_all_sync}
use ppi_chi_nettest.Bench.Ping.{count_answered, ping_all_sync-count}
use ppi_chi_nettest.Bench.Main.{IoMemory, run_test, tested, serves, drive}

module _ (b : Bitfield) (net : Net) {self : ThalliumRpc} {rpc : RpcContext}
    (c : IsConnected self rpc) (info : ServerConfig) (mem : IoMemory) where
  -- The test `ping` on node 1 of a connected program, if no request to stop is refused at once:
  -- every node is pinged once, in order, and then asked to stop, in order; the program reports
  -- how many pings were answered if all daemons answered the request to stop, and is left by an
  -- exception otherwise.
  pub drive-ping :
      rpc.node_id ≡ 1
      → info.test ≡ codes "ping"
      → AllReach net (num_hosts rpc) (num_hosts rpc)
      → drive b net self rpc info mem [] ≡ (
        if all_answered net (num_hosts rpc) (num_hosts rpc)
            then ok (tested (some (count_answered net 0 (num_hosts rpc))))
            else throws margo_exception,
        requests (request_to self (codes "RpcPing") (metadata [])) (num_hosts rpc) 1
            ++ requests (request_to self (codes "RpcStopDaemon") nothing) (num_hosts rpc) 1,
      )
  unfolding drive run_test
  drive-ping first named reach =
      let N = num_hosts rpc in
      let pings = requests (request_to self (codes "RpcPing") (metadata [])) N 1 in
      let many : length pings ≡ N =
        length-requests (request_to self (codes "RpcPing") (metadata [])) N 1 in
      let ping : (ping_all_sync net self rpc >>= λ n. pure (some n)) []
          ≡ (ok (some (count_answered net 0 N)), pings) =
        >>=-run (ping_all_sync net self rpc) (λ n. pure (some n)) []
          (ping_all_sync-count net c []) in
      let stop = stop_all_daemons-Reaches net c pings (rw many reach) in
      let stop_at : stop_all_daemons net self pings ≡ (
        if all_answered net N N then ok tt else throws margo_exception,
        pings ++ requests (request_to self (codes "RpcStopDaemon") nothing) N 1,
      ) =
        rw many at stop in
      let n = some (count_answered net 0 N) in
      let ran : run_test b net self rpc info mem [] ≡ (ok n, pings) = rw named ping in
      rw first (
        >>=-run (run_test b net self rpc info mem)
          (λ n. stop_all_daemons net self >> pure (tested n)) [] ran
        ∙ >>=-run (stop_all_daemons net self) (λ u. pure (tested n)) pings stop_at
        ∙ ground arith)

  -- Every other node serves: it sends nothing.
  pub drive_elsewhere :
      (log : Log)
      → (rpc.node_id == 1) ≡ false
      → drive b net self rpc info mem log ≡ (ok (serves self), log)
  unfolding drive
  drive_elsewhere log other = rw other
