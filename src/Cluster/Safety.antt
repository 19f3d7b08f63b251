-- ===== src/Cluster/Safety.antt =====
-- What `StopAllDaemons` guarantees when it returns, and what it does not.
use ppi_chi_nettest.Base.{ℕ, zero, suc, ◌≤◌, ◌<◌, ◌≡◌, refl, ap, ◌⊎◌, inl, inr, arith}
use ppi_chi_nettest.Base.Text.{Text, codes}
use ppi_chi_nettest.Base.Outcome.{ok}
use ppi_chi_nettest.Thallium.Rpc.{ThalliumRpc, finalized, IsRunning}
use ppi_chi_nettest.Thallium.Init.{stop_this_daemon, rpc_stop_daemon, DaemonReturns}
use ppi_chi_nettest.Cluster.Family.{update, update-eq}
use ppi_chi_nettest.Cluster.{
  sending, waiting, returned, Handler, idle, asked, responded, stopped, rank, HasResponded, Cluster,
  send, all_sent, receive, all_received, respond, stop, Reach, start, later, Defines,
}
use ppi_chi_nettest.Cluster.Invariant.{Serves, AllServe, Inv, Reach-Inv}
use ppi_chi_nettest.Cluster.Rest.{can_stop}

-- The daemon returns, or its handler is about to make it return.
abbrev pub IsStopping : Cluster → ℕ → Type 0
IsStopping s n =
    DaemonReturns (s.procs n)
    ⊎ ((s.handler n ≡ responded)
        × (after : ThalliumRpc) × (rpc_stop_daemon (s.procs n) ≡ ok (0, after))
        × DaemonReturns after)

module _ {num_hosts caller : ℕ} {procs : ℕ → ThalliumRpc} (serve : AllServe num_hosts procs) where
  -- On nodes whose engines run and which answer the request to stop, when `StopAllDaemons` has
  -- returned, in whatever order the handlers ran, each node has responded: its daemon returns, or
  -- only its handler's own step is left, which succeeds and makes the daemon return.
  pub returned-IsStopping :
      {s : Cluster}
      → Reach num_hosts caller procs s
      → s.phase ≡ returned
      → (n : ℕ) → 1 ≤ n
      → n ≤ num_hosts
      → HasResponded (s.handler n) × IsStopping s n
  returned-IsStopping {s} r at n low high = (heard, go (s.handler n) refl)
    where
      inv : Inv num_hosts procs s
      inv = Reach-Inv serve r

      heard : HasResponded (s.handler n)
      heard = inv.was_heard n low (rw at (omega arith))

      go : (h : Handler) → s.handler n ≡ h → IsStopping s n
      go idle off = absurd (omega (arith, heard, ap rank off))
      go asked off = absurd (omega (arith, heard, ap rank off))
      go responded out =
          let (after, run, returns) = can_stop serve inv n out in inr (out, after, run, returns.0)
      go stopped off = inl (inv.done n (ap rank off)).0

  -- A process that runs no daemon of these nodes keeps its engines while it stops the others.
  pub outside-kept :
      {s : Cluster}
      → Reach num_hosts caller procs s
      → num_hosts < caller
      → s.procs caller ≡ procs caller
  outside-kept {s} r out =
      let inv = Reach-Inv serve r in inv.kept caller (ground (arith, inv.only caller))

-- The caller has asked the nodes up to m, and no handler has run.
record HasAsked (num_hosts caller : ℕ) (procs : ℕ → ThalliumRpc) (m : ℕ) : Type 0 where
  state : Cluster
  reach : Reach num_hosts caller procs state
  phase_is : state.phase ≡ sending (suc m)
  unchanged : state.procs ≡ procs
  all_asked : (n : ℕ) → 1 ≤ n → n ≤ m → state.handler n ≡ asked

-- The caller has the answers of the nodes up to m, and no engine was stopped.
record HasHeard (num_hosts caller : ℕ) (procs : ℕ → ThalliumRpc) (m : ℕ) : Type 0 where
  state : Cluster
  reach : Reach num_hosts caller procs state
  phase_is : state.phase ≡ waiting (suc m)
  unchanged : state.procs ≡ procs
  not_heard : (n : ℕ) → m < n → n ≤ num_hosts → state.handler n ≡ asked

module _ {num_hosts caller : ℕ} {procs : ℕ → ThalliumRpc} (serve : AllServe num_hosts procs)
    (there : IsRunning (procs caller).client_engine) where
  asks : (m : ℕ) → m ≤ num_hosts → HasAsked num_hosts caller procs m
  asks zero h = record {
    state = _;
    reach = start;
    phase_is = refl;
    unchanged = refl;
    all_asked = λ n low high. absurd (omega arith);
  }
  asks (suc m) h =
      let before = asks m (omega arith) in
      record {
        state = _;
        reach = later before.reach (send (suc m) (before.phase_is, h) (rw before.unchanged there));
        phase_is = refl;
        unchanged = before.unchanged;
        all_asked = λ n low high. ground (arith, before.all_asked n);
      }

  hears : (m : ℕ) → m ≤ num_hosts → HasHeard num_hosts caller procs m
  hears zero h =
      let before = asks num_hosts (omega arith) in
      record {
        state = _;
        reach = later before.reach (all_sent before.phase_is);
        phase_is = refl;
        unchanged = before.unchanged;
        not_heard = λ n low high. before.all_asked n (omega arith) high;
      }
  hears (suc m) h =
      let before = hears m (omega arith) in
      let answers : Defines (before.state.procs (suc m)) (codes "RpcStopDaemon") =
        rw before.unchanged (serve (suc m) (omega arith) h).answers in
      record {
        state = _;
        reach =
            later
              (later before.reach
                (respond (suc m) (before.not_heard (suc m) (omega arith) h) answers))
              (receive (suc m) before.phase_is h (ground arith) (rw before.unchanged there));
        phase_is = refl;
        unchanged = before.unchanged;
        not_heard = λ n low high. ground (arith, before.not_heard n);
      }

  -- On nodes whose engines run and which answer the request to stop, and with a running client
  -- engine in the caller, `StopAllDaemons` can return while no engine of any process has been stopped: the
  -- handlers respond before they stop theirs.
  pub returned-early :
      (s : Cluster) × Reach num_hosts caller procs s × (s.phase ≡ returned) × (s.procs ≡ procs)
  returned-early =
      let before = hears num_hosts (omega arith) in
      (_, later before.reach (all_received before.phase_is), refl, before.unchanged)

-- If `StopAllDaemons` is called for at least two hosts in the process of node 1, whose engines run
-- and which answers the request to stop, the handler of that node can finalize the client engine
-- while the call still has the other nodes to ask.
pub own_engine-finalized :
    {num_hosts : ℕ} {procs : ℕ → ThalliumRpc}
    → 2 ≤ num_hosts
    → Serves (procs 1)
    → (s : Cluster) × Reach num_hosts 1 procs s
      × (s.phase ≡ sending 2)
      × (protocol : Text) × ((s.procs 1).client_engine ≡ finalized protocol)
unfolding rpc_stop_daemon stop_this_daemon
own_engine-finalized {procs} many serves =
    let (protocol, client) = serves.client in
    let (addr, server) = serves.server in
    let after : ThalliumRpc = record (procs 1) {
      client_engine = finalized protocol;
      server_engine = finalized addr;
    } in
    let run : rpc_stop_daemon (procs 1) ≡ ok (0, after) = rw (client, server) in
    (
      _,
      later
          (later (later start (send 1 (refl, omega arith) serves.client))
            (respond 1 (update-eq (λ n. idle) 1 1 asked refl) serves.answers))
          (stop 1 (update-eq (update (λ n. idle) 1 asked) 1 1 responded refl) run),
      refl,
      protocol,
      ap (λ (t : ThalliumRpc). t.client_engine) (update-eq procs 1 1 after refl),
    )
