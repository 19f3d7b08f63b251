-- ===== src/Ping/Start.antt =====
-- From the arguments of the ping test to the run of its client.
use ppi_chi_nettest.Base.{◌-◌, ◌<◌, ◌≡◌, refl, Bool, true, not, List, [], if◌then◌else◌, length}
use ppi_chi_nettest.Base.Text.{Text, codes}
use ppi_chi_nettest.Base.Int.{int_bound}
use ppi_chi_nettest.Base.Outcome.{ok, fatal}
use ppi_chi_nettest.Config.{ServerConfig, ConfigParse, ping_init}
use ppi_chi_nettest.RpcContext
use ppi_chi_nettest.RpcContext.{HostEnv, RpcContext, num_hosts}
use ppi_chi_nettest.RpcContext.Ready.{server_init-IsReady}
use ppi_chi_nettest.Thallium.Action.{Log, Net}
use ppi_chi_nettest.Thallium.Rpc.{ThalliumRpc}
use ppi_chi_nettest.Thallium.Init.{client_init}
use ppi_chi_nettest.Thallium.Calls.{AllReach}
use ppi_chi_nettest.Thallium.Calls.Stop.{all_answered}
use ppi_chi_nettest.Ping.{exits, run, main}
use ppi_chi_nettest.Ping.Whole.{run-client}

module _ (env : HostEnv) (cp : ConfigParse) (net : Net) (argv : List Text)
    (info0 info : ServerConfig) (rpc0 rpc : RpcContext) (before : ThalliumRpc)
    (parsed : ping_init cp argv info0 ≡ ok info)
    (found : RpcContext.server_init env info rpc0 ≡ ok rpc) where
  main-run :
      (there made : Bool) (log : Log)
      → main env cp net argv info0 rpc0 before there made log
        ≡ run net before rpc info.test there made log
  unfolding main
  main-run there made log = rw (parsed, found) refl

  -- If the arguments are accepted and name the test `client`, this host is found as the first of
  -- fewer than 2^31 - 1 names on a fresh context, its client engine starts, the block of a server
  -- is there and no request to stop is refused at once, then the fatal log of `PingAll` ends
  -- the program where some host does not answer its ping, and it exits with 0 otherwise; the
  -- block is gone exactly if all daemons answered the request to stop.
  pub main-run_client :
      (connected : ThalliumRpc) (made : Bool)
      → rpc0.hosts ≡ []
      → length info.rpc.host_names < int_bound - 1
      → info.test ≡ codes "client"
      → rpc.node_id ≡ 1
      → client_init net rpc before ≡ ok connected
      → AllReach net (num_hosts rpc) (num_hosts rpc)
      → (main env cp net argv info0 rpc0 before true made []).0 ≡ (
          if all_answered net 0 (num_hosts rpc)
          then ok (exits 0 (not (all_answered net (num_hosts rpc) (num_hosts rpc))))
          else fatal)
  main-run_client connected made fresh few named first started reach =
      let ready = server_init-IsReady env info rpc0 few (λ h. absurd (h fresh)) found in
      rw (main-run true made [], named)
        (run-client net rpc before connected ready.listed started made first reach)
