-- ===== src/Cluster/Progress.antt =====
-- How long `StopAllDaemons` and the handlers run.
use ppi_chi_nettest.Base.{ℕ, suc, ◌+◌, ◌-◌, ◌*◌, ◌≤◌, ◌<◌, refl, arith}
use ppi_chi_nettest.Thallium.Rpc.{ThalliumRpc}
use ppi_chi_nettest.Cluster.Family.{total, total-update, total-const}
use ppi_chi_nettest.Cluster.{
  Phase, sending, waiting, returned, raised, Handler, idle, asked, responded, stopped, rank,
  Cluster, new_cluster, Step, send, refuse, all_sent, receive, receive_earlier, lose, all_received,
  respond, stop, Reach, start, later,
}
use ppi_chi_nettest.Cluster.Invariant.{AllServe, Inv, Reach-Inv}

-- The changes that a request still has before it.
abbrev remaining : Handler → ℕ
remaining h = 3 - rank h

-- The steps that the caller still has before it, at most.
abbrev remaining_calls : ℕ → Phase → ℕ
remaining_calls num_hosts (sending node_id) = (suc num_hosts - node_id) + (num_hosts + 2)
remaining_calls num_hosts (waiting node_id) = (suc num_hosts - node_id) + 1
remaining_calls num_hosts returned = 0
remaining_calls num_hosts raised = 0

abbrev measure : ℕ → Cluster → ℕ
measure num_hosts s = remaining_calls num_hosts s.phase + total remaining num_hosts s.handler

module _ {num_hosts caller : ℕ} {procs : ℕ → ThalliumRpc} where
  Step-measure :
      {s t : Cluster}
      → Step num_hosts caller s t
      → Inv num_hosts procs s
      → measure num_hosts t < measure num_hosts s
  Step-measure {s} (send k (at, le) there) inv =
      ground
        (arith, inv.within, inv.fresh k at k, total-update remaining num_hosts s.handler k asked)
  Step-measure (refuse k (at, le)) inv = ground arith
  Step-measure (all_sent at) inv = ground arith
  Step-measure (receive k at le h there) inv = ground arith
  Step-measure (receive_earlier k at le h gone) inv = ground arith
  Step-measure (lose k at le) inv = ground arith
  Step-measure (all_received at) inv = ground arith
  Step-measure {s} (respond k at answers) inv =
      ground (arith, inv.only k, total-update remaining num_hosts s.handler k responded)
  Step-measure {s} (stop k at run) inv =
      ground (arith, inv.only k, total-update remaining num_hosts s.handler k stopped)

-- The number of steps of a run.
abbrev pub steps :
    {num_hosts caller : ℕ} {procs : ℕ → ThalliumRpc} {s : Cluster}
    → Reach num_hosts caller procs s
    → ℕ
steps start = 0
steps (later r step) = suc (steps r)

module _ {num_hosts caller : ℕ} {procs : ℕ → ThalliumRpc} (serve : AllServe num_hosts procs) where
  steps-measure :
      {s : Cluster} (r : Reach num_hosts caller procs s)
      → steps r + measure num_hosts s ≤ measure num_hosts (new_cluster procs)
  steps-measure start = omega arith
  steps-measure (later r step) =
      omega (arith, steps-measure r, Step-measure step (Reach-Inv serve r))

  -- On nodes whose engines run and which answer the request to stop, `StopAllDaemons` over N nodes and their
  -- handlers make at most 5 N + 2 steps together, in whatever order these interleave.
  pub steps-bounded :
      {s : Cluster} (r : Reach num_hosts caller procs s) → steps r ≤ 5 * num_hosts + 2
  steps-bounded r = omega (arith, steps-measure r, total-const remaining num_hosts 3 idle refl)
