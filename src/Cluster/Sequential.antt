-- ===== src/Cluster/Sequential.antt =====
-- The interleaved `StopAllDaemons` against the one that runs in one go.
use native.Mathlib.Decide.{ℕ_discrete}
use ppi_chi_nettest.Base.{
  ℕ, zero, suc, ◌+◌, ◌-◌, ◌≤◌, ◌<◌, ◌≡◌, refl, ap, ◌∙◌, true, false, [], ◌∷◌, ◌++◌, Option, none,
  some, arith, ◌==◌, if◌then◌else◌, Bool-cases, inl, inr,
}
use ppi_chi_nettest.Base.Text.{codes}
use ppi_chi_nettest.Base.Outcome.{Outcome, ok, throws, margo_exception}
use ppi_chi_nettest.RpcContext.{RpcContext, num_hosts}
use ppi_chi_nettest.Thallium.Action.{
  nothing, Request, Log, Attempt, unreachable, lost, answered, Net,
}
use ppi_chi_nettest.Thallium.Rpc.{ThalliumRpc, get_server_name}
use ppi_chi_nettest.Thallium.Init.{stop_this_daemon, rpc_stop_daemon}
use ppi_chi_nettest.Thallium.Calls.{IsConnected, request_to, requests, AllReach, stop_all_daemons}
use ppi_chi_nettest.Thallium.Calls.Stop.{
  all_answered, stop_all_daemons-Reaches, stop_all_daemons-unreachable,
}
use ppi_chi_nettest.Cluster.Family.{update-eq, update-other}
use ppi_chi_nettest.Cluster.{
  Phase, sending, waiting, returned, raised, Cluster, called, send, refuse, all_sent, receive,
  receive_earlier, lose, all_received, respond, stop, Reach, start, later,
}

-- A network that answers every attempt but one.
abbrev failing : Attempt → ℕ → Net
failing fate k = record {
  attempt = λ n. if n == k then fate else answered 0;
  can_serve = λ addr. ok tt;
  can_connect = λ protocol. ok tt;
}

AllReach-lost : (k n rounds : ℕ) → AllReach (failing lost k) n rounds
AllReach-lost k n zero = tt
AllReach-lost k n (suc rounds) = (λ e. ground (arith, e), AllReach-lost k (suc n) rounds)

AllReach-before : (k n rounds : ℕ) → n + rounds ≤ k → AllReach (failing unreachable k) n rounds
AllReach-before k n zero h = tt
AllReach-before k n (suc rounds) h =
    (λ e. ground (arith, e), AllReach-before k (suc n) rounds (omega arith))

all_answered-lost :
    (k n rounds : ℕ) → n ≤ k → k < n + rounds → all_answered (failing lost k) n rounds ≡ false
all_answered-lost k n zero low high = absurd (omega arith)
all_answered-lost k n (suc rounds) low high = elim (Bool-cases (n == k)) [
  | inl hit ↦ rw hit refl
  | inr miss ↦ rw miss (all_answered-lost k (suc n) rounds (ground (arith, miss)) (omega arith))
]

all_answered-before :
    (k n rounds : ℕ) → n + rounds ≤ k → all_answered (failing lost k) n rounds ≡ true
all_answered-before k n zero h = refl
all_answered-before k n (suc rounds) h =
    let other : (n == k) ≡ false = ground arith in
    rw other (all_answered-before k (suc n) rounds (omega arith))

requests-snoc :
    (to : ℕ → Request) (rounds n : ℕ)
    → requests to rounds n ++ to (n + rounds) ∷ [] ≡ requests to (suc rounds) n
requests-snoc to zero n = ap (λ (k : ℕ). to k ∷ []) (omega arith)
requests-snoc to (suc rounds) n =
    let next : n + suc rounds ≡ suc n + rounds = omega arith in
    rw next (ap (λ l. to n ∷ l) (requests-snoc to rounds (suc n)))

get_server_name-rpc :
    (a b : ThalliumRpc) (node_id : ℕ)
    → a.rpc ≡ b.rpc
    → get_server_name a node_id ≡ get_server_name b node_id
unfolding get_server_name
get_server_name-rpc a b node_id same = rw same refl

-- The context of a process survives its handler.
stop-rpc :
    (self : ThalliumRpc) {after : ThalliumRpc}
    → rpc_stop_daemon self ≡ ok (0, after)
    → after.rpc ≡ self.rpc
unfolding rpc_stop_daemon stop_this_daemon
stop-rpc self run = ground (arith, run)

-- How `StopAllDaemons` ended.
abbrev pub end_of : Phase → Option (Outcome (Unit {0}))
end_of (sending node_id) = none
end_of (waiting node_id) = none
end_of returned = some (ok tt)
end_of raised = some (throws margo_exception)

abbrev ask : ThalliumRpc → ℕ → Request
ask self = request_to self (codes "RpcStopDaemon") nothing

-- A refused call, a lost answer, and neither, as runs in one go.
module _ {self : ThalliumRpc} {rpc : RpcContext} (c : IsConnected self rpc) where
  refused :
      (m : ℕ)
      → suc m ≤ num_hosts rpc
      → stop_all_daemons (failing unreachable m) self []
        ≡ (throws margo_exception, requests (ask self) (suc m) 1)
  refused m le =
      stop_all_daemons-unreachable (failing unreachable m) c [] m (num_hosts rpc - suc m)
        (omega arith) (AllReach-before m 0 m (omega arith)) (ground arith)

  lost_one :
      (m : ℕ)
      → suc m ≤ num_hosts rpc
      → stop_all_daemons (failing lost m) self []
        ≡ (throws margo_exception, requests (ask self) (num_hosts rpc) 1)
  lost_one m le =
      let N = num_hosts rpc in
      let run = stop_all_daemons-Reaches (failing lost m) c [] (AllReach-lost m 0 N) in
      rw (all_answered-lost m 0 N (omega arith) (omega arith)) at run

  none_lost :
      stop_all_daemons (failing lost (num_hosts rpc)) self []
      ≡ (ok tt, requests (ask self) (num_hosts rpc) 1)
  none_lost =
      let N = num_hosts rpc in
      let run = stop_all_daemons-Reaches (failing lost N) c [] (AllReach-lost N 0 N) in
      rw (all_answered-before N 0 N (omega arith)) at run

-- What the log holds at each position of the caller.
abbrev Matches : ℕ → ThalliumRpc → Phase → Log → Type 0
Matches num_hosts self (sending node_id) log =
    (m : ℕ) × (node_id ≡ suc m) × (log ≡ requests (ask self) m 1)
Matches num_hosts self (waiting node_id) log =
    (1 ≤ node_id) × (log ≡ requests (ask self) num_hosts 1)
Matches num_hosts self returned log = log ≡ requests (ask self) num_hosts 1
Matches num_hosts self raised log =
    (net : Net) × (stop_all_daemons net self [] ≡ (throws margo_exception, log))

caller-rpc :
    {num_hosts caller : ℕ} {procs : ℕ → ThalliumRpc} {s : Cluster}
    → Reach num_hosts caller procs s
    → (s.procs caller).rpc ≡ (procs caller).rpc
caller-rpc start = refl
caller-rpc (later r (send k at there)) = caller-rpc r
caller-rpc (later r (refuse k at)) = caller-rpc r
caller-rpc (later r (all_sent at)) = caller-rpc r
caller-rpc (later r (receive k at le h there)) = caller-rpc r
caller-rpc (later r (receive_earlier k at le h gone)) = caller-rpc r
caller-rpc (later r (lose k at le)) = caller-rpc r
caller-rpc (later r (all_received at)) = caller-rpc r
caller-rpc (later r (respond k at answers)) = caller-rpc r
caller-rpc {caller} (later {s} r (stop k {after} at run)) = elim (ℕ_discrete k caller) [
  | yes same ↦
      let was = ap (λ i. (s.procs i).rpc) same ∙ caller-rpc r in
      rw (update-eq s.procs k caller after same) (stop-rpc (s.procs k) run ∙ was)
  | no other ↦ rw (update-other s.procs k caller after other) (caller-rpc r)
]

-- One more call.
called-requests :
    {num_hosts caller : ℕ} {procs : ℕ → ThalliumRpc} {s : Cluster} (m : ℕ)
    → Reach num_hosts caller procs s
    → s.log ≡ requests (ask (procs caller)) m 1
    → called caller s (suc m) ≡ requests (ask (procs caller)) (suc m) 1
called-requests {caller} {procs} {s} m r logged =
    let named = get_server_name-rpc (s.procs caller) (procs caller) (suc m) (caller-rpc r) in
    let next : 1 + m ≡ suc m = omega arith in
    rw (logged, named) (rw next at (requests-snoc (ask (procs caller)) m 1))

module _ {caller : ℕ} {procs : ℕ → ThalliumRpc} {rpc : RpcContext}
    (c : IsConnected (procs caller) rpc) where
  Reach-Matches :
      {s : Cluster}
      → Reach (num_hosts rpc) caller procs s
      → Matches (num_hosts rpc) (procs caller) s.phase s.log
  Reach-Matches start = (0, refl, refl)
  Reach-Matches (later {s} r (send k (at, le) there)) =
      let (m, place, logged) = rw at at (Reach-Matches r) in
      (suc m, ap suc place, rw place (called-requests m r logged))
  Reach-Matches (later {s} r (refuse k (at, le))) =
      let (m, place, logged) = rw at at (Reach-Matches r) in
      let whole = called-requests m r logged in
      (failing unreachable m, rw (place, whole) (refused c m (omega (arith, place))))
  Reach-Matches (later r (all_sent at)) =
      let (m, place, logged) = rw at at (Reach-Matches r) in
      let last : m ≡ num_hosts rpc = omega (arith, place) in (omega arith, rw last at logged)
  Reach-Matches (later r (receive k at le h there)) =
      let (low, logged) = rw at at (Reach-Matches r) in (omega arith, logged)
  Reach-Matches (later r (receive_earlier k at le h gone)) =
      let (low, logged) = rw at at (Reach-Matches r) in (omega arith, logged)
  Reach-Matches (later r (lose k at le)) =
      let (low, logged) = rw at at (Reach-Matches r) in
      (failing lost (k - 1), rw logged (lost_one c (k - 1) (omega (arith, low))))
  Reach-Matches (later r (all_received at)) = (rw at at (Reach-Matches r)).1
  Reach-Matches (later r (respond k at answers)) = Reach-Matches r
  Reach-Matches (later r (stop k at run)) = Reach-Matches r

  -- With a caller that can call every host of its context, each interleaved run of
  -- `StopAllDaemons` that has ended did so as the method does in one go on some network: it
  -- returned or raised the same exception, after the same calls in the same order.
  pub ended-stop_all_daemons :
      {s : Cluster} {o : Outcome (Unit {0})}
      → Reach (num_hosts rpc) caller procs s
      → end_of s.phase ≡ some o
      → (net : Net) × (stop_all_daemons net (procs caller) [] ≡ (o, s.log))
  ended-stop_all_daemons {s} {o} r ended = go s.phase (Reach-Matches r) ended
    where
      go :
          (p : Phase)
          → Matches (num_hosts rpc) (procs caller) p s.log
          → end_of p ≡ some o
          → (net : Net) × (stop_all_daemons net (procs caller) [] ≡ (o, s.log))
      go (sending k) matches e = cc e
      go (waiting k) matches e = cc e
      go returned matches e =
          (failing lost (num_hosts rpc), ground (arith, none_lost c, e, matches))
      go raised (net, ran) e = (net, ground (arith, ran, e))
