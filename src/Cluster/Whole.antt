-- ===== src/Cluster/Whole.antt =====
-- The benchmark on all its nodes, from their `main` to the end of their daemons.
use native.Mathlib.Decide.{dec_lt}
use ppi_chi_nettest.Base.{ℕ, ◌≤◌, ◌≡◌, subst, List, arith}
use ppi_chi_nettest.Base.Text.{Text}
use ppi_chi_nettest.Base.Outcome.{ok}
use ppi_chi_nettest.Bitfield.{Bitfield}
use ppi_chi_nettest.Config.{ServerConfig, ConfigParse}
use ppi_chi_nettest.RpcContext.{HostEnv, RpcContext}
use ppi_chi_nettest.Thallium.Action.{Log, Net}
use ppi_chi_nettest.Thallium.Rpc.{ThalliumRpc}
use ppi_chi_nettest.Bench.Main.{IoMemory, serves, main}
use ppi_chi_nettest.Cluster.{Cluster, returned, HasResponded, Reach}
use ppi_chi_nettest.Cluster.Invariant.{Serves, AllServe}
use ppi_chi_nettest.Cluster.Safety.{IsStopping, returned-IsStopping}
use ppi_chi_nettest.Cluster.Started.{Started, Started-Serves, bench_main-Started}

-- `main` of the benchmark came to serve with this state.
pub data CameToServe : ThalliumRpc → Type 0 where
  by :
      (b : Bitfield) (env : HostEnv) (cp : ConfigParse) (net : Net) (argv : List Text)
      (info : ServerConfig) (rpc : RpcContext) (before : ThalliumRpc) (mem : IoMemory) (log : Log)
      {end : Log} {self : ThalliumRpc}
      → main b env cp net argv info rpc before mem log ≡ (ok (serves self), end)
      → CameToServe self

CameToServe-Serves : {self : ThalliumRpc} → CameToServe self → Serves self
CameToServe-Serves (by b env cp net argv info rpc before mem log ran) =
    Started-Serves (bench_main-Started b env cp net argv info rpc before mem log ran)

-- If `main` of each node from 2 on came to serve, and the process of node 1 was started, then
-- once `StopAllDaemons` in the process of node 1 has returned, in whatever order the handlers
-- ran, each of these nodes has responded, and its daemon returns or only the last step of its
-- handler is left, which makes it return.
pub benchmark-IsStopping :
    {num_hosts : ℕ} {procs : ℕ → ThalliumRpc} {s : Cluster}
    → Started (procs 1)
    → ((n : ℕ) → 2 ≤ n → n ≤ num_hosts → CameToServe (procs n))
    → Reach num_hosts 1 procs s
    → s.phase ≡ returned
    → (n : ℕ) → 2 ≤ n
    → n ≤ num_hosts
    → HasResponded (s.handler n) × IsStopping s n
benchmark-IsStopping {num_hosts} {procs} first others r at n low high =
    returned-IsStopping all_serve r at n (omega arith) high
  where
    all_serve : AllServe num_hosts procs
    all_serve m low high = elim (dec_lt 1 m) [
      | yes above ↦ CameToServe-Serves (others m (omega arith) high)
      | no below ↦
          let here : 1 ≡ m = omega arith in
          subst (λ i. Serves (procs i)) here (Started-Serves first)
    ]
