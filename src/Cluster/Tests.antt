-- ===== src/Cluster/Tests.antt =====
-- Runs of `StopAllDaemons` over daemons that were started for the benchmark.
use ppi_chi_nettest.Base.{ap, ◌⊎◌, ℕ, ◌≤◌, ◌≡◌, refl, [], ◌∷◌, arith}
use ppi_chi_nettest.Base.Text.{Text, codes}
use ppi_chi_nettest.Base.Outcome.{ok, throws, margo_exception}
use ppi_chi_nettest.RpcContext.Tests.{ready, ready-IsReady}
use ppi_chi_nettest.Thallium.Action.{nothing, Net}
use ppi_chi_nettest.Thallium.Rpc.{IsRunning, ThalliumRpc, finalized}
use ppi_chi_nettest.Thallium.Init.{register_rpc, stop_this_daemon, rpc_stop_daemon}
use ppi_chi_nettest.Thallium.Calls.{IsConnected, request_to, stop_all_daemons}
use ppi_chi_nettest.Thallium.Tests.{losing, new_rpc, serving, served}
use ppi_chi_nettest.Bench.{test_runner}
use ppi_chi_nettest.Cluster.Family.{update, update-eq}
use ppi_chi_nettest.Cluster.{
  Cluster, Handler, idle, asked, responded, stopped, sending, waiting, returned, raised,
  HasResponded, new_cluster, called, send, refuse, all_sent, receive, receive_earlier, lose,
  all_received, respond, stop, Reach, start, later,
}
use ppi_chi_nettest.Cluster.Invariant.{AllServe}
use ppi_chi_nettest.Cluster.Progress.{steps, steps-bounded}
use ppi_chi_nettest.Cluster.Rest.{OnlyUnsure, IsOver, IsStranded, OnlyUnsure-IsOver}
use ppi_chi_nettest.Cluster.Safety.{
  IsStopping, returned-IsStopping, returned-early, own_engine-finalized,
}
use ppi_chi_nettest.Cluster.Started.{Started, bench, Started-Serves, Started-AllServe}
use ppi_chi_nettest.Cluster.Sequential.{ended-stop_all_daemons}

abbrev daemon : ThalliumRpc
daemon = record serving {
  defined = codes "RpcStopDaemon" ∷ codes "RpcPing" ∷ codes "RpcTaskSubmit" ∷ [];
}

abbrev daemons : ℕ → ThalliumRpc
daemons node_id = daemon

registered : test_runner serving ≡ ok daemon
unfolding test_runner register_rpc
registered = refl

started : Started daemon
started = bench losing ready new_rpc served registered

serve : AllServe 2 daemons
serve = Started-AllServe (λ n low high. started)

running_client : IsRunning daemon.client_engine
running_client = (codes "tcp", refl)

-- The first call is refused.
abbrev alone : Cluster
alone = record (new_cluster daemons) { phase = raised; log = called 3 (new_cluster daemons) 1 }

reach_alone : Reach 2 3 daemons alone
reach_alone = later start (refuse 1 (refl, omega arith))

steps-bounded_example : steps reach_alone ≤ 12
steps-bounded_example = steps-bounded serve reach_alone

connected : IsConnected daemon ready
connected = record { context = refl; client = refl; listed = ready-IsReady.listed }

ended-stop_all_daemons_example :
    (net : Net) × (stop_all_daemons net daemon [] ≡ (throws margo_exception, alone.log))
ended-stop_all_daemons_example = ended-stop_all_daemons connected reach_alone refl

returned-early_example :
    (s : Cluster) × Reach 2 3 daemons s × (s.phase ≡ returned) × (s.procs ≡ daemons)
returned-early_example = returned-early serve running_client

own_engine-finalized_example :
    (s : Cluster) × Reach 2 1 daemons s
    × (s.phase ≡ sending 2)
    × (protocol : Text) × ((s.procs 1).client_engine ≡ finalized protocol)
own_engine-finalized_example = own_engine-finalized (omega arith) (Started-Serves started)

abbrev early : (s : Cluster) × Reach 2 3 daemons s × (s.phase ≡ returned) × (s.procs ≡ daemons)
early = returned-early serve running_client

returned-IsStopping_example : HasResponded (early.0.handler 2) × IsStopping early.0 2
returned-IsStopping_example =
    returned-IsStopping serve early.1 early.2 2 (omega arith) (omega arith)

-- One daemon, asked by a process of its own, up to the end of both.
abbrev silent : ThalliumRpc
silent = record daemon {
  client_engine = finalized (codes "tcp");
  server_engine = finalized (codes "tcp://d/10.0.0.2:8080");
}

answering : rpc_stop_daemon daemon ≡ ok (0, silent)
unfolding rpc_stop_daemon stop_this_daemon
answering = refl

abbrev handlers : ℕ → Handler
handlers = update (update (update (λ n. idle) 1 asked) 1 responded) 1 stopped

abbrev over : Cluster
over = record {
  phase = returned;
  handler = handlers;
  procs = update daemons 1 silent;
  log = request_to daemon (codes "RpcStopDaemon") nothing 1 ∷ [];
}

reach_over : Reach 1 2 daemons over
reach_over =
    let answers = (Started-Serves started).answers in
    let sent = later start (send 1 (refl, omega arith) running_client) in
    let answered = later sent (respond 1 (update-eq (λ n. idle) 1 1 asked refl) answers) in
    let heard =
      later (later answered (all_sent refl))
        (receive 1 refl (omega arith) (ground arith) running_client) in
    let last = update-eq (update (λ n. idle) 1 asked) 1 1 responded refl in
    later (later heard (stop 1 last answering)) (all_received refl)

over-OnlyUnsure : OnlyUnsure 1 2 over
over-OnlyUnsure t (send k (at, le) there) = cc
over-OnlyUnsure t (refuse k (at, le)) = cc
over-OnlyUnsure t (all_sent at) = cc
over-OnlyUnsure t (receive k at le h there) = cc
over-OnlyUnsure t (receive_earlier k at le h gone) = cc
over-OnlyUnsure t (lose k at le) = cc
over-OnlyUnsure t (all_received at) = cc
over-OnlyUnsure t (respond k at answers) = ground (arith, at)
over-OnlyUnsure t (stop k at run) = ground (arith, at)

OnlyUnsure-IsOver_example : IsOver 1 over ⊎ IsStranded 1 2 over
OnlyUnsure-IsOver_example =
    OnlyUnsure-IsOver (Started-AllServe (λ n low high. started)) running_client reach_over
      over-OnlyUnsure

-- One daemon that asks itself: its handler finalizes the client engine before the wait for its
-- answer, which only a response that came in before, or a failure, can end.
abbrev stuck : Cluster
stuck = record {
  phase = waiting 1;
  handler = handlers;
  procs = update daemons 1 silent;
  log = request_to daemon (codes "RpcStopDaemon") nothing 1 ∷ [];
}

reach_stuck : Reach 1 1 daemons stuck
reach_stuck =
    let answers = (Started-Serves started).answers in
    let sent = later start (send 1 (refl, omega arith) running_client) in
    let answered = later sent (respond 1 (update-eq (λ n. idle) 1 1 asked refl) answers) in
    let last = update-eq (update (λ n. idle) 1 asked) 1 1 responded refl in
    later (later answered (stop 1 last answering)) (all_sent refl)

stuck-OnlyUnsure : OnlyUnsure 1 1 stuck
stuck-OnlyUnsure t (send k (at, le) there) = cc
stuck-OnlyUnsure t (refuse k (at, le)) = tt
stuck-OnlyUnsure t (all_sent at) = cc
stuck-OnlyUnsure t (receive k at le h (made_with, runs)) =
    let gone = ap (λ (t : ThalliumRpc). t.client_engine) (update-eq daemons 1 1 silent refl) in
    cc (gone, runs)
stuck-OnlyUnsure t (receive_earlier k at le h gone) = tt
stuck-OnlyUnsure t (lose k at le) = tt
stuck-OnlyUnsure t (all_received at) = ground (arith, at)
stuck-OnlyUnsure t (respond k at answers) = ground (arith, at)
stuck-OnlyUnsure t (stop k at run) = ground (arith, at)
