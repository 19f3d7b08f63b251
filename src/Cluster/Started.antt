-- ===== src/Cluster/Started.antt =====
-- The processes of the programs, as their initialization leaves them, can be stopped.
use ppi_chi_nettest.Base.{
  Bool, ℕ, ◌≤◌, ◌≡◌, refl, sym, ◌∙◌, subst, List, [], ◌∷◌, Option, Bool-cases, inl, inr, false,
  ◌==◌, ap,
}
use ppi_chi_nettest.Base.Text.{Text, codes}
use ppi_chi_nettest.Base.Outcome.{
  ok, ok-injective, Outcome, fatal, throws, undefined, out_of_fuel, >>=-eq-ok,
}
use ppi_chi_nettest.Bitfield.{Bitfield}
use ppi_chi_nettest.Config.{ServerConfig, ConfigParse, benchmark_init}
use ppi_chi_nettest.RpcContext
use ppi_chi_nettest.RpcContext.{HostEnv, RpcContext}
use ppi_chi_nettest.Bench.Main
use ppi_chi_nettest.Bench.Main.{IoMemory}
use ppi_chi_nettest.Ping
use ppi_chi_nettest.Thallium.Action.{
  Log, Net, lift-run_ok, >>=-run_ok, Action, pure, lift, ◌>>=◌, ◌>>◌, catch_all,
}
use ppi_chi_nettest.Thallium.Rpc.{ThalliumRpc}
use ppi_chi_nettest.Thallium.Init.{server_init}
use ppi_chi_nettest.Thallium.Init.Laws.{IsServing, server_init-IsServing}
use ppi_chi_nettest.Bench.{test_runner}
use ppi_chi_nettest.Bench.Handlers.{test_runner-IsServing}
use ppi_chi_nettest.Ping.{runner_server_init}
use ppi_chi_nettest.Ping.Whole.{runner_server_init-IsServing}
use ppi_chi_nettest.Cluster.Invariant.{Serves, AllServe}
use ppi_chi_nettest.Thallium.Calls.{stop_all_daemons}

-- A process that was started for the benchmark, or as a server of the ping test.
pub data Started : ThalliumRpc → Type 0 where
  bench :
      (net : Net) (rpc : RpcContext) (before : ThalliumRpc) {serving self : ThalliumRpc}
      → server_init net rpc before ≡ ok serving
      → test_runner serving ≡ ok self
      → Started self
  ping :
      (net : Net) (rpc : RpcContext) (before : ThalliumRpc) {serving self : ThalliumRpc}
      → server_init net rpc before ≡ ok serving
      → runner_server_init serving ≡ ok self
      → Started self

registered-Serves :
    {rpc : RpcContext} {before serving : ThalliumRpc} (names : List Text)
    → IsServing rpc before serving
    → Serves (record serving { defined = codes "RpcStopDaemon" ∷ names })
registered-Serves {before} names s =
    let (protocol, named, client) = s.client in
    let (addr, own, server) = s.server in
    record { client = (protocol, client); server = (addr, server); answers = ([], names, refl) }

-- Both engines of a started process run, and it answers the request to stop.
pub Started-Serves : {self : ThalliumRpc} → Started self → Serves self
Started-Serves (bench net rpc before {serving} started registered) =
    let s = server_init-IsServing net rpc before started in
    let same = ok-injective (sym (test_runner-IsServing rpc before serving s) ∙ registered) in
    subst Serves same (registered-Serves (codes "RpcPing" ∷ codes "RpcTaskSubmit" ∷ []) s)
Started-Serves (ping net rpc before {serving} started registered) =
    let s = server_init-IsServing net rpc before started in
    let same =
      ok-injective (sym (runner_server_init-IsServing rpc before serving s) ∙ registered) in
    subst Serves same (registered-Serves (codes "RpcPing" ∷ []) s)

pub Started-AllServe :
    {num_hosts : ℕ} {procs : ℕ → ThalliumRpc}
    → ((n : ℕ) → 1 ≤ n → n ≤ num_hosts → Started (procs n))
    → AllServe num_hosts procs
Started-AllServe started n low high = Started-Serves (started n low high)

-- Only a node other than the first comes to serve, and then it has run no test.
drive-serves :
    (b : Bitfield) (net : Net) (thallium : ThalliumRpc) (rpc : RpcContext) (info : ServerConfig)
    (mem : IoMemory) (log : Log) {end : Log} {self : ThalliumRpc}
    → Main.drive b net thallium rpc info mem log ≡ (ok (Main.serves self), end)
    → thallium ≡ self
unfolding Main.drive
drive-serves b net thallium rpc info mem log e = elim (Bool-cases (rpc.node_id == 1)) [
  | inl first ↦
      let tested = rw first at e in
      let stop : Option ℕ → Action Main.Run =
        λ n. stop_all_daemons net thallium >> pure (Main.tested n) in
      let (n, middle, ran, rest) =
        >>=-run_ok (Main.run_test b net thallium rpc info mem) stop log tested in
      let (u, last, stopped, ended) =
        >>=-run_ok (stop_all_daemons net thallium) (λ u. pure (Main.tested n)) middle rest in
      cc ended
  | inr other ↦ cc (rw other at e)
]

-- A node of the benchmark whose `main` comes to serve was started.
pub bench_main-Started :
    (b : Bitfield) (env : HostEnv) (cp : ConfigParse) (net : Net) (argv : List Text)
    (info : ServerConfig) (rpc : RpcContext) (before : ThalliumRpc) (mem : IoMemory) (log : Log)
    {end : Log} {self : ThalliumRpc}
    → Main.main b env cp net argv info rpc before mem log ≡ (ok (Main.serves self), end)
    → Started self
unfolding Main.main
bench_main-Started b env cp net argv info rpc before mem log e =
    let drive : ServerConfig → RpcContext → ThalliumRpc → Action Main.Run =
      λ i r t. Main.drive b net t r i mem in
    let register : ServerConfig → RpcContext → ThalliumRpc → Action Main.Run =
      λ i r t. lift (test_runner t) >>= drive i r in
    let serve : ServerConfig → RpcContext → Action Main.Run =
      λ i r. lift (server_init net r before) >>= register i r in
    let find : ServerConfig → Action Main.Run =
      λ i. lift (RpcContext.server_init env i rpc) >>= serve i in
    let (i, parsed, e1) = lift-run_ok (benchmark_init cp argv info) find log e in
    let (r, found, e2) = lift-run_ok (RpcContext.server_init env i rpc) (serve i) log e1 in
    let (serving, started, e3) = lift-run_ok (server_init net r before) (register i r) log e2 in
    let (t, registered, e4) = lift-run_ok (test_runner serving) (drive i r) log e3 in
    subst Started (drive-serves b net t r i mem log e4) (bench net r before started registered)

caught :
    (o : Outcome (ThalliumRpc × Bool)) (log : Log) {end : Log} {self : ThalliumRpc} {shm : Bool}
    → catch_all
        (lift o >>= λ (ready, made). pure (Ping.serves ready made))
        (pure (Ping.exits 1 false))
        log
      ≡ (ok (Ping.serves self shm), end)
    → o ≡ ok (self, shm)
caught (ok (ready, made)) log e = cc e
caught fatal log e = cc e
caught (throws x) log e = cc e
caught undefined log e = cc e
caught out_of_fuel log e = cc e

-- A server of the ping test that comes to serve was started.
pub ping_run-Started :
    (net : Net) (before : ThalliumRpc) (rpc : RpcContext) (there made shm : Bool) (log : Log)
    {end : Log} {self : ThalliumRpc}
    → Ping.run net before rpc (codes "server") there made log ≡ (ok (Ping.serves self shm), end)
    → Started self
unfolding Ping.run Ping.start_server
ping_run-Started net before rpc there made shm log e =
    let start = caught (Ping.start_server net rpc before made) log e in
    let (serving, started, e1) = >>=-eq-ok (server_init net rpc before) _ start in
    let (ready, registered, e2) = >>=-eq-ok (runner_server_init serving) _ e1 in
    let same : ready ≡ _ = ap (λ (p : ThalliumRpc × Bool). p.0) (ok-injective e2) in
    subst Started same (ping net rpc before started registered)
