-- ===== src/Cluster/Rest.antt =====
-- Where `StopAllDaemons` and the handlers come to rest.
use native.Mathlib.Decide.{dec_lt}
use ppi_chi_nettest.Base.{ℕ, suc, ◌≤◌, ◌≡◌, ◌≢◌, refl, ap, ◌∙◌, ◌⊎◌, inl, inr, arith}
use ppi_chi_nettest.Base.Text.{codes}
use ppi_chi_nettest.Base.Outcome.{ok}
use ppi_chi_nettest.Thallium.Rpc.{IsRunning, IsFinalized, ThalliumRpc}
use ppi_chi_nettest.Thallium.Init.{rpc_stop_daemon, DaemonReturns}
use ppi_chi_nettest.Cluster.{
  Phase, sending, waiting, returned, raised, Handler, idle, asked, responded, stopped, rank,
  Cluster, Defines, Step, send, refuse, all_sent, receive, receive_earlier, lose, all_received,
  respond, stop, Reach,
}
use ppi_chi_nettest.Cluster.Invariant.{HasStopped, AllServe, Serves-stops, Inv, Reach-Inv}

-- A process that still serves can stop its engines.
pub can_stop :
    {num_hosts : ℕ} {procs : ℕ → ThalliumRpc} {s : Cluster}
    → AllServe num_hosts procs
    → Inv num_hosts procs s
    → (n : ℕ) → s.handler n ≡ responded
    → (after : ThalliumRpc) × (rpc_stop_daemon (s.procs n) ≡ ok (0, after)) × HasStopped after
can_stop {procs} serve inv n at =
    let (low, high) = inv.only n (ground (arith, at)) in
    rw (inv.kept n (ground (arith, at))) (Serves-stops (serve n low high))

-- A process that was asked can respond.
can_respond :
    {num_hosts : ℕ} {procs : ℕ → ThalliumRpc} {s : Cluster}
    → AllServe num_hosts procs
    → Inv num_hosts procs s
    → (n : ℕ) → s.handler n ≡ asked
    → Defines (s.procs n) (codes "RpcStopDaemon")
can_respond serve inv n at =
    let (low, high) = inv.only n (ground (arith, at)) in
    rw (inv.kept n (ground (arith, at))) (serve n low high).answers

-- The step need not come: a call that fails in the caller, or a response that is there although
-- the client engine is finalized.
abbrev pub IsUnsure : {num_hosts caller : ℕ} {s t : Cluster} → Step num_hosts caller s t → Type 0
IsUnsure (refuse k at) = Unit
IsUnsure (lose k at le) = Unit
IsUnsure (receive_earlier k at le h gone) = Unit
IsUnsure _ = ⊥

abbrev pub OnlyUnsure : ℕ → ℕ → Cluster → Type 0
OnlyUnsure num_hosts caller s = (t : Cluster) (step : Step num_hosts caller s t) → IsUnsure step

-- The call has returned and all daemons return, or it raised an exception and the daemons of the
-- nodes that were asked return.
abbrev pub IsOver : ℕ → Cluster → Type 0
IsOver num_hosts s =
    ((s.phase ≡ returned) × ((n : ℕ) → 1 ≤ n → n ≤ num_hosts → DaemonReturns (s.procs n)))
    ⊎ ((s.phase ≡ raised) × ((n : ℕ) → s.handler n ≢ idle → DaemonReturns (s.procs n)))

-- The caller is the process of a node whose handler finalized its client engine, with calls or
-- waits still to come, and the daemons of the nodes that were asked return.
pub record IsStranded (num_hosts caller : ℕ) (s : Cluster) : Type 0 where
  pub own_node : (1 ≤ caller) × (caller ≤ num_hosts)
  pub own_handler : s.handler caller ≡ stopped
  pub own_engine : IsFinalized (s.procs caller).client_engine
  pub left : (k : ℕ) × (k ≤ num_hosts) × ((s.phase ≡ sending k) ⊎ (s.phase ≡ waiting k))
  pub others : (n : ℕ) → s.handler n ≢ idle → DaemonReturns (s.procs n)

module _ {num_hosts caller : ℕ} {procs : ℕ → ThalliumRpc} (serve : AllServe num_hosts procs)
    (there : IsRunning (procs caller).client_engine) where
  -- The client engine of the caller runs until the handler of its own process has stopped it.
  own_engine :
      {s : Cluster}
      → Inv num_hosts procs s
      → IsRunning (s.procs caller).client_engine
        ⊎ ((1 ≤ caller)
            × (caller ≤ num_hosts)
            × (s.handler caller ≡ stopped)
            × IsFinalized (s.procs caller).client_engine)
  own_engine {s} inv = go (s.handler caller) refl
    where
      go :
          (h : Handler)
          → s.handler caller ≡ h
          → IsRunning (s.procs caller).client_engine
            ⊎ ((1 ≤ caller)
                × (caller ≤ num_hosts)
                × (s.handler caller ≡ stopped)
                × IsFinalized (s.procs caller).client_engine)
      go idle at = inl (rw (inv.kept caller (ground (arith, at))) there)
      go asked at = inl (rw (inv.kept caller (ground (arith, at))) there)
      go responded at = inl (rw (inv.kept caller (ground (arith, at))) there)
      go stopped at =
          let (low, high) = inv.only caller (ground (arith, at)) in
          inr (low, high, at, (inv.done caller (ground (arith, at))).1)

  handler_over :
      {s : Cluster}
      → Inv num_hosts procs s
      → OnlyUnsure num_hosts caller s
      → (n : ℕ) → s.handler n ≢ idle
      → DaemonReturns (s.procs n)
  handler_over {s} inv stuck n on = go (s.handler n) refl
    where
      go : (h : Handler) → s.handler n ≡ h → DaemonReturns (s.procs n)
      go idle at = absurd (on at)
      go asked at = absurd (stuck _ (respond n at (can_respond serve inv n at)))
      go responded at =
          let (after, run, returns) = can_stop serve inv n at in absurd (stuck _ (stop n at run))
      go stopped at = (inv.done n (ground (arith, at))).0

  -- The node that the caller waits for has responded.
  heard :
      {s : Cluster}
      → Inv num_hosts procs s
      → OnlyUnsure num_hosts caller s
      → (n : ℕ) → 1 ≤ rank (s.handler n)
      → 2 ≤ rank (s.handler n)
  heard {s} inv stuck n h = go (s.handler n) refl
    where
      go : (h' : Handler) → s.handler n ≡ h' → 2 ≤ rank (s.handler n)
      go idle at = ground (arith, at, h)
      go asked at = absurd (stuck _ (respond n at (can_respond serve inv n at)))
      go responded at = ground (arith, at)
      go stopped at = ground (arith, at)

  stranded :
      {s : Cluster}
      → Inv num_hosts procs s
      → OnlyUnsure num_hosts caller s
      → (k : ℕ) → k ≤ num_hosts
      → (s.phase ≡ sending k) ⊎ (s.phase ≡ waiting k)
      → ¬ IsRunning (s.procs caller).client_engine
      → IsStranded num_hosts caller s
  stranded {s} inv stuck k le at off = elim (own_engine inv) [
    | inl runs ↦ absurd (off runs)
    | inr (low, high, done, gone) ↦ record {
      own_node = (low, high);
      own_handler = done;
      own_engine = gone;
      left = (k, le, at);
      others = handler_over inv stuck;
    }
  ]

  -- On nodes whose engines run and which answer the request to stop, with a caller whose client
  -- engine runs, a reachable state that only a failing call can leave, or a response that came in
  -- before the caller's client engine was finalized, is one of three: `StopAllDaemons` has
  -- returned and each daemon returns; or it raised an exception and the daemon of each node that
  -- was asked returns; or it has a node left to ask or to wait for while the handler of the
  -- caller's own process, itself one of the nodes, has finalized the client engine, and the
  -- daemon of each node that was asked returns.
  pub OnlyUnsure-IsOver :
      {s : Cluster}
      → Reach num_hosts caller procs s
      → OnlyUnsure num_hosts caller s
      → IsOver num_hosts s ⊎ IsStranded num_hosts caller s
  OnlyUnsure-IsOver {s} r stuck = go s.phase refl
    where
      inv : Inv num_hosts procs s
      inv = Reach-Inv serve r

      go : (p : Phase) → s.phase ≡ p → IsOver num_hosts s ⊎ IsStranded num_hosts caller s
      go (sending k) at = elim (dec_lt num_hosts k) [
        | yes past ↦
            let last : k ≡ suc num_hosts = ground (arith, inv.within, at) in
            absurd (stuck _ (all_sent (at ∙ ap sending last)))
        | no within ↦ inr (
            stranded inv stuck k (omega arith) (inl at)
              (λ runs. stuck _ (send k (at, omega arith) runs)))
      ]
      go (waiting k) at = elim (dec_lt num_hosts k) [
        | yes past ↦
            let last : k ≡ suc num_hosts = ground (arith, inv.within, at) in
            absurd (stuck _ (all_received (at ∙ ap waiting last)))
        | no within ↦
            let was = inv.was_asked k (ground (arith, inv.within, at)) (rw at (omega arith)) in
            inr (
              stranded inv stuck k (omega arith) (inr at)
                (λ runs. stuck _ (receive k at (omega arith) (heard inv stuck k was) runs)))
      ]
      go returned at = inl (
          inl (
            at,
            λ n low high.
                handler_over inv stuck n
                  (λ off. omega (arith, inv.was_heard n low (rw at (omega arith)), ap rank off)),
          ))
      go raised at = inl (inr (at, handler_over inv stuck))
