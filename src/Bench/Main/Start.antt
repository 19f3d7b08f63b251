-- ===== src/Bench/Main/Start.antt =====
-- From the arguments of the benchmark to a program that is connected to every host.
use ppi_chi_nettest.Base.{refl, ◌-◌, ◌<◌, ◌≡◌, List, [], ◌∷◌, length}
use ppi_chi_nettest.Base.Text.{Text, codes}
use ppi_chi_nettest.Base.Int.{int_bound}
use ppi_chi_nettest.Base.Outcome.{ok}
use ppi_chi_nettest.Bitfield.{Bitfield}
use ppi_chi_nettest.Config.{ServerConfig, ConfigParse, benchmark_init}
use ppi_chi_nettest.RpcContext
use ppi_chi_nettest.RpcContext.{HostEnv, RpcContext}
use ppi_chi_nettest.RpcContext.Ready.{server_init-IsReady}
use ppi_chi_nettest.Thallium.Action.{Log, Net}
use ppi_chi_nettest.Thallium.Rpc.{ThalliumRpc}
use ppi_chi_nettest.Thallium.Init
use ppi_chi_nettest.Thallium.Init.Laws.{server_init-IsServing, IsServing-IsConnected}
use ppi_chi_nettest.Thallium.Calls.{IsConnected}
use ppi_chi_nettest.Bench.Handlers.{test_runner-IsServing}
use ppi_chi_nettest.Bench.Main.{IoMemory, drive, main}

-- If the arguments are accepted, the context holds no host yet, this host is found among fewer
-- than 2^31 - 1 names and the engines start, then `main` goes on with a client that is connected
-- to every listed host and a server that answers the three names.
pub main-drive :
    (b : Bitfield) (env : HostEnv) (cp : ConfigParse) (net : Net) (argv : List Text)
    (info0 info : ServerConfig) (rpc0 rpc : RpcContext) (before serving : ThalliumRpc)
    (mem : IoMemory) (log : Log)
    → rpc0.hosts ≡ []
    → benchmark_init cp argv info0 ≡ ok info
    → length info.rpc.host_names < int_bound - 1
    → RpcContext.server_init env info rpc0 ≡ ok rpc
    → Init.server_init net rpc before ≡ ok serving
    → (self : ThalliumRpc) × IsConnected self rpc
      × (self.defined ≡ codes "RpcStopDaemon" ∷ codes "RpcPing" ∷ codes "RpcTaskSubmit" ∷ [])
      × (main b env cp net argv info0 rpc0 before mem log ≡ drive b net self rpc info mem log)
unfolding main
main-drive b env cp net argv info0 info rpc0 rpc before serving mem log fresh parsed few listed
      served =
    let ready = server_init-IsReady env info rpc0 few (λ h. absurd (h fresh)) listed in
    let is_serving = server_init-IsServing net rpc before served in
    let connected = IsServing-IsConnected rpc before serving is_serving ready.listed in
    let run = test_runner-IsServing rpc before serving is_serving in
    let self = record serving {
      defined = codes "RpcStopDaemon" ∷ codes "RpcPing" ∷ codes "RpcTaskSubmit" ∷ [];
    } in
    (
      self,
      record { context = connected.context; client = connected.client; listed = ready.listed },
      refl,
      rw (parsed, listed, served, run),
    )
