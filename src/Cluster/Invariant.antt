-- ===== src/Cluster/Invariant.antt =====
-- What the caller may rely on in every reachable state of `StopAllDaemons`.
use native.Mathlib.Decide.{ℕ_discrete}
use ppi_chi_nettest.Base.{ℕ, suc, ◌≤◌, ◌<◌, ◌≡◌, ◌≢◌, sym, ap, subst, ◌∙◌, refl, arith}
use ppi_chi_nettest.Base.Outcome.{ok, ok-injective}
use ppi_chi_nettest.Base.Text.{codes}
use ppi_chi_nettest.Thallium.Action.{Log}
use ppi_chi_nettest.Thallium.Rpc.{IsRunning, IsFinalized, finalized, ThalliumRpc}
use ppi_chi_nettest.Thallium.Init.{stop_this_daemon, rpc_stop_daemon, DaemonReturns}
use ppi_chi_nettest.Cluster.Family.{update-eq, update-other}
use ppi_chi_nettest.Cluster.{
  Phase, sending, waiting, returned, raised, stopped, rank, Cluster, Defines, new_cluster, Step,
  HasResponded, send, refuse, all_sent, receive, receive_earlier, lose, all_received, respond, stop,
  Reach, start, later,
}

-- The daemon returns, and the client engine is finalized with it.
abbrev pub HasStopped : ThalliumRpc → Type 0
HasStopped self = DaemonReturns self × IsFinalized self.client_engine

-- Both engines run, and the process answers the request to stop.
pub record Serves (self : ThalliumRpc) : Type 0 where
  pub client : IsRunning self.client_engine
  pub server : IsRunning self.server_engine
  pub answers : Defines self (codes "RpcStopDaemon")

abbrev pub AllServe : ℕ → (ℕ → ThalliumRpc) → Type 0
AllServe num_hosts procs =
    (node_id : ℕ) → 1 ≤ node_id → node_id ≤ num_hosts → Serves (procs node_id)

-- The nodes below this one have been asked, as far as the position of the caller shows.
abbrev pub asked_below : ℕ → Phase → ℕ
asked_below num_hosts (sending node_id) = node_id
asked_below num_hosts (waiting node_id) = suc num_hosts
asked_below num_hosts returned = suc num_hosts
asked_below num_hosts raised = 0

-- The nodes below this one have responded.
abbrev pub heard_below : ℕ → Phase → ℕ
heard_below num_hosts (sending node_id) = 0
heard_below num_hosts (waiting node_id) = node_id
heard_below num_hosts returned = suc num_hosts
heard_below num_hosts raised = 0

-- The node that the caller is at.
abbrev pub position : Phase → ℕ
position (sending node_id) = node_id
position (waiting node_id) = node_id
position returned = 1
position raised = 1

pub record Inv (num_hosts : ℕ) (procs : ℕ → ThalliumRpc) (s : Cluster) : Type 0 where
  pub within : (1 ≤ position s.phase) × (position s.phase ≤ suc num_hosts)
  pub was_asked : (n : ℕ) → 1 ≤ n → n < asked_below num_hosts s.phase → 1 ≤ rank (s.handler n)
  pub was_heard : (n : ℕ) → 1 ≤ n → n < heard_below num_hosts s.phase → 2 ≤ rank (s.handler n)
  pub fresh : (k : ℕ) → s.phase ≡ sending k → (n : ℕ) → k ≤ n → rank (s.handler n) ≡ 0
  pub only : (n : ℕ) → 1 ≤ rank (s.handler n) → (1 ≤ n) × (n ≤ num_hosts)
  pub kept : (n : ℕ) → rank (s.handler n) ≤ 2 → s.procs n ≡ procs n
  pub done : (n : ℕ) → rank (s.handler n) ≡ 3 → HasStopped (s.procs n)

new_cluster-Inv :
    (num_hosts : ℕ) (procs : ℕ → ThalliumRpc) → Inv num_hosts procs (new_cluster procs)
new_cluster-Inv num_hosts procs = record {
  within = (omega arith, omega arith);
  was_asked = λ n low high. omega arith;
  was_heard = λ n low high. omega arith;
  fresh = λ k e n le. refl;
  only = λ n h. omega arith;
  kept = λ n h. refl;
  done = λ n h. absurd (omega arith);
}

-- The handler of a process that serves responds by 0 and finalizes both engines.
pub Serves-stops :
    {self : ThalliumRpc}
    → Serves self
    → (after : ThalliumRpc) × (rpc_stop_daemon self ≡ ok (0, after)) × HasStopped after
unfolding rpc_stop_daemon stop_this_daemon
Serves-stops {self} serves =
    let (protocol, client) = serves.client in
    let (addr, server) = serves.server in
    (
      record self { client_engine = finalized protocol; server_engine = finalized addr },
      rw (client, server),
      (tt, (protocol, refl)),
    )

stops :
    {self after : ThalliumRpc}
    → Serves self
    → rpc_stop_daemon self ≡ ok (0, after)
    → HasStopped after
stops serves e =
    let (there, run, returns) = Serves-stops serves in
    subst HasStopped (ap (λ (r : ℕ × ThalliumRpc). r.1) (ok-injective (sym run ∙ e))) returns

-- A new position that claims no more than is known of the handlers.
moved :
    {num_hosts : ℕ} {procs : ℕ → ThalliumRpc} {s : Cluster} {log : Log} (p : Phase)
    → Inv num_hosts procs s
    → (1 ≤ position p) × (position p ≤ suc num_hosts)
    → asked_below num_hosts p ≤ asked_below num_hosts s.phase
    → ((n : ℕ) → 1 ≤ n → n < heard_below num_hosts p → 2 ≤ rank (s.handler n))
    → ((k : ℕ) → p ≢ sending k)
    → Inv num_hosts procs (record s { phase = p; log = log })
moved p inv within asks heard ended = record {
  within = within;
  was_asked = λ n low high. inv.was_asked n low (omega (arith, asks));
  was_heard = heard;
  fresh = λ k e. absurd (ended k e);
  only = inv.only;
  kept = inv.kept;
  done = inv.done;
}

-- The answer of node k is in.
heard_next :
    {num_hosts : ℕ} {procs : ℕ → ThalliumRpc} {s : Cluster} (k : ℕ)
    → s.phase ≡ waiting k
    → k ≤ num_hosts
    → HasResponded (s.handler k)
    → Inv num_hosts procs s
    → Inv num_hosts procs (record s { phase = waiting (suc k) })
heard_next k at le h inv =
    moved (waiting (suc k)) inv (omega arith, omega arith) (rw at (omega arith))
      (λ n low high. ground (arith, inv.was_heard n)) (λ k' e. cc)

module _ {num_hosts caller : ℕ} {procs : ℕ → ThalliumRpc} (serve : AllServe num_hosts procs) where
  pub Step-Inv :
      {s t : Cluster} → Step num_hosts caller s t → Inv num_hosts procs s → Inv num_hosts procs t
  Step-Inv {s} (send k (at, le) there) inv = record {
    within = ground (arith, inv.within);
    was_asked = λ n low high. ground (arith, inv.was_asked n);
    was_heard = λ n low high. omega arith;
    fresh = λ k' e n h. ground (arith, inv.fresh k at n);
    only = λ n h. ground (arith, inv.within, inv.only n);
    kept = λ n h. ground (arith, inv.kept n, inv.fresh k at n);
    done = λ n h. ground (arith, inv.done n);
  }
  Step-Inv (refuse k (at, le)) inv =
      moved raised inv (omega arith, omega arith) (omega arith) (λ n low high. omega arith)
        (λ k' e. cc)
  Step-Inv (all_sent at) inv =
      moved (waiting 1) inv (omega arith, omega arith) (rw at (omega arith))
        (λ n low high. omega arith) (λ k' e. cc)
  Step-Inv (receive k at le h there) inv = heard_next k at le h inv
  Step-Inv (receive_earlier k at le h gone) inv = heard_next k at le h inv
  Step-Inv (lose k at le) inv =
      moved raised inv (omega arith, omega arith) (omega arith) (λ n low high. omega arith)
        (λ k' e. cc)
  Step-Inv (all_received at) inv =
      moved returned inv (omega arith, omega arith) (rw at (omega arith))
        (λ n low high. inv.was_heard n low (rw at high)) (λ k' e. cc)
  Step-Inv {s} (respond k at answers) inv = record {
    within = inv.within;
    was_asked = λ n low high. ground (arith, inv.was_asked n);
    was_heard = λ n low high. ground (arith, inv.was_heard n);
    fresh = λ k' e n h. ground (arith, inv.fresh k' e n);
    only = λ n h. ground (arith, inv.only n);
    kept = λ n h. ground (arith, inv.kept n);
    done = λ n h. ground (arith, inv.done n);
  }
  Step-Inv {s} (stop k {after} at run) inv = record {
    within = inv.within;
    was_asked = λ n low high. ground (arith, inv.was_asked n);
    was_heard = λ n low high. ground (arith, inv.was_heard n);
    fresh = λ k' e n h. ground (arith, inv.fresh k' e n);
    only = λ n h. ground (arith, inv.only n);
    kept = λ n h. ground (arith, inv.kept n);
    done = λ n h. elim (ℕ_discrete k n) [
      | yes same ↦
          let served = inv.only k (ground (arith, at)) in
          let running : s.procs k ≡ procs k = inv.kept k (ground (arith, at)) in
          let returns = stops (serve k served.0 served.1) (rw running at run) in
          rw (update-eq s.procs k n after same) returns
      | no other ↦
          rw (update-other s.procs k n after other)
            (inv.done n (rw (update-other s.handler k n stopped other) at h))
    ];
  }

  -- Every reachable state keeps it.
  pub Reach-Inv : {s : Cluster} → Reach num_hosts caller procs s → Inv num_hosts procs s
  Reach-Inv start = new_cluster-Inv num_hosts procs
  Reach-Inv (later r step) = Step-Inv step (Reach-Inv r)
