-- ===== src/Thallium/Calls/Stop.antt =====
-- What `StopAllDaemons` sends, and when it returns.
use ppi_chi_nettest.Base.{
  ℕ, zero, suc, ◌+◌, ◌<◌, ◌≤◌, ◌≡◌, ◌≢◌, refl, ap, sym, ◌∙◌, List, [], ◌∷◌, ◌++◌, arith, length,
  Bool, true, false, ◌&&◌, if◌then◌else◌, u32_mod, list_laws,
}
use ppi_chi_nettest.Base.Text.{codes}
use ppi_chi_nettest.Base.Outcome.{Outcome, ok, throws, margo_exception}
use ppi_chi_nettest.RpcContext.{RpcContext, num_hosts}
use ppi_chi_nettest.Thallium.Action.{
  nothing, Log, unreachable, lost, answered, Net, Attempt, pure, lift, >>=-run,
}
use ppi_chi_nettest.Thallium.Rpc.{ThalliumRpc, the_rpc, async_call}
use ppi_chi_nettest.Thallium.Nodes.{for_nodes, rounds_of, for_nodes_lem}
use ppi_chi_nettest.Thallium.Calls.{
  IsConnected, request_to, requests, async_call-attempt, AllReach, numbers, attempt-Reaches,
  attempt-unreachable, length-snoc, wait_all, stop_body, stop_all, stop_all_daemons,
  the_rpc-IsConnected,
}

abbrev pub is_answered : Attempt → Bool
is_answered unreachable = false
is_answered lost = false
is_answered (answered v) = true

-- The attempt was sent.
abbrev pub is_sent : Attempt → Bool
is_sent unreachable = false
is_sent lost = true
is_sent (answered v) = true

-- Every attempt of the range is answered.
abbrev pub all_answered : Net → (n rounds : ℕ) → Bool
all_answered net n zero = true
all_answered net n (suc rounds) = is_answered (net.attempt n) && all_answered net (suc n) rounds

-- Waiting for all responses returns if all are answered, and raises otherwise.
pub wait_all-numbers :
    (net : Net) (n rounds : ℕ) (log : Log)
    → wait_all net (numbers n rounds) log
      ≡ (if all_answered net n rounds then ok tt else throws margo_exception, log)
unfolding wait_all
wait_all-numbers net n zero log = refl
wait_all-numbers net n (suc rounds) log = ground (arith, wait_all-numbers net (suc n) rounds log)

module _ (net : Net) {self : ThalliumRpc} {rpc : RpcContext} (c : IsConnected self rpc) where
  stop_body-Reaches :
      (node_id : ℕ) (responses : List ℕ) (log : Log)
      → 1 ≤ node_id
      → node_id ≤ num_hosts rpc
      → net.attempt (length log) ≢ unreachable
      → stop_body net self node_id responses log ≡ (
        ok (responses ++ length log ∷ []),
        log ++ request_to self (codes "RpcStopDaemon") nothing node_id ∷ [],
      )
  unfolding stop_body
  stop_body-Reaches node_id responses log low high h =
      let sent =
        async_call-attempt c net node_id (codes "RpcStopDaemon") nothing log low high
        ∙ attempt-Reaches net (request_to self (codes "RpcStopDaemon") nothing node_id) log h in
      >>=-run (async_call net self node_id (codes "RpcStopDaemon") nothing)
        (λ ret. pure (responses ++ ret ∷ [])) log sent

  stop_rounds :
      (rounds node_id : ℕ) (responses : List ℕ) (log : Log)
      → 1 ≤ node_id
      → node_id + rounds ≤ num_hosts rpc + 1
      → AllReach net (length log) rounds
      → rounds_of (num_hosts rpc) (stop_body net self) rounds node_id responses log ≡ (
        ok (responses ++ numbers (length log) rounds),
        log ++ requests (request_to self (codes "RpcStopDaemon") nothing) rounds node_id,
      )
  unfolding rounds_of
  stop_rounds zero node_id responses log low high h = simp list_laws
  stop_rounds (suc rounds) node_id responses log low high (h, hs) =
      let q = request_to self (codes "RpcStopDaemon") nothing node_id in
      let body = stop_body-Reaches node_id responses log low (omega arith) h in
      let longer : length (log ++ q ∷ []) ≡ suc (length log) = length-snoc log q in
      let rest =
        stop_rounds rounds (suc node_id) (responses ++ length log ∷ []) (log ++ q ∷ [])
          (omega arith) (omega arith) (rw longer hs) in
      >>=-run (stop_body net self node_id responses)
        (λ s'. rounds_of (num_hosts rpc) (stop_body net self) rounds (suc node_id) s') log body
      ∙ rest
      ∙ simp (longer, list_laws)

  stop_body-unreachable :
      (node_id : ℕ) (responses : List ℕ) (log : Log)
      → 1 ≤ node_id
      → node_id ≤ num_hosts rpc
      → net.attempt (length log) ≡ unreachable
      → stop_body net self node_id responses log ≡ (
        throws margo_exception,
        log ++ request_to self (codes "RpcStopDaemon") nothing node_id ∷ [],
      )
  unfolding stop_body
  stop_body-unreachable node_id responses log low high h =
      let sent =
        async_call-attempt c net node_id (codes "RpcStopDaemon") nothing log low high
        ∙ attempt-unreachable net (request_to self (codes "RpcStopDaemon") nothing node_id) log h in
      >>=-run (async_call net self node_id (codes "RpcStopDaemon") nothing)
        (λ ret. pure (responses ++ ret ∷ [])) log sent

  stop_rounds-unreachable :
      (rounds more node_id : ℕ) (responses : List ℕ) (log : Log)
      → 1 ≤ node_id
      → node_id + rounds + more < num_hosts rpc + 1
      → AllReach net (length log) rounds
      → net.attempt (length log + rounds) ≡ unreachable
      → rounds_of (num_hosts rpc) (stop_body net self) (rounds + suc more) node_id responses log ≡ (
        throws margo_exception,
        log ++ requests (request_to self (codes "RpcStopDaemon") nothing) (suc rounds) node_id,
      )
  unfolding rounds_of
  stop_rounds-unreachable zero more node_id responses log low high h u =
      let here : net.attempt (length log) ≡ unreachable = ap net.attempt (omega arith) ∙ u in
      let body = stop_body-unreachable node_id responses log low (omega arith) here in
      let start : 0 + suc more ≡ suc more = omega arith in
      rw start (
        >>=-run (stop_body net self node_id responses)
          (λ s'. rounds_of (num_hosts rpc) (stop_body net self) more (suc node_id) s') log body)
  stop_rounds-unreachable (suc rounds) more node_id responses log low high (h, hs) u =
      let q = request_to self (codes "RpcStopDaemon") nothing node_id in
      let body = stop_body-Reaches node_id responses log low (omega arith) h in
      let longer : length (log ++ q ∷ []) ≡ suc (length log) = length-snoc log q in
      let there : net.attempt (length (log ++ q ∷ []) + rounds) ≡ unreachable =
        ap net.attempt (omega (arith, longer)) ∙ u in
      let rest =
        stop_rounds-unreachable rounds more (suc node_id) (responses ++ length log ∷ [])
          (log ++ q ∷ []) (omega arith) (omega arith) (rw longer hs) there in
      let start : suc rounds + suc more ≡ suc (rounds + suc more) = omega arith in
      rw start (
        >>=-run (stop_body net self node_id responses)
          (λ s'.
            rounds_of (num_hosts rpc) (stop_body net self) (rounds + suc more) (suc node_id) s')
          log body
        ∙ rest
        ∙ simp list_laws)

  -- On a connected client, if no request to stop is refused at once, each node from 1 to the
  -- last is asked once, in order, before any answer is waited for; the call returns exactly
  -- when all have answered, and raises otherwise.
  pub stop_all_daemons-Reaches :
      (log : Log)
      → AllReach net (length log) (num_hosts rpc)
      → stop_all_daemons net self log ≡ (
        if all_answered net (length log) (num_hosts rpc) then ok tt else throws margo_exception,
        log ++ requests (request_to self (codes "RpcStopDaemon") nothing) (num_hosts rpc) 1,
      )
  unfolding stop_all_daemons stop_all
  stop_all_daemons-Reaches log h =
      let N = num_hosts rpc in
      let few : N + 1 < u32_mod = omega (arith, c.listed.few) in
      let told =
        for_nodes_lem N (stop_body net self) (suc N) [] log few (omega arith)
        ∙ stop_rounds N 1 [] log (omega arith) (omega arith) h in
      >>=-run (lift (the_rpc self)) (stop_all net self) log
        (ap (λ (o : Outcome RpcContext). (o, log)) (the_rpc-IsConnected c))
      ∙ >>=-run (for_nodes N (stop_body net self) (suc N) 1 []) (wait_all net) log told
      ∙ wait_all-numbers net (length log) N _

  -- On a connected client, if the requests to the nodes in front of one are sent and the
  -- request to that one is refused, the call raises: the nodes up to it were asked, in order,
  -- and none behind it.
  pub stop_all_daemons-unreachable :
      (log : Log) (before behind : ℕ)
      → before + suc behind ≡ num_hosts rpc
      → AllReach net (length log) before
      → net.attempt (length log + before) ≡ unreachable
      → stop_all_daemons net self log ≡ (
        throws margo_exception,
        log ++ requests (request_to self (codes "RpcStopDaemon") nothing) (suc before) 1,
      )
  unfolding stop_all_daemons stop_all
  stop_all_daemons-unreachable log before behind e h u =
      let N = num_hosts rpc in
      let few : N + 1 < u32_mod = omega (arith, c.listed.few) in
      let split : rounds_of N (stop_body net self) N 1 [] log
          ≡ rounds_of N (stop_body net self) (before + suc behind) 1 [] log =
        ap (λ (r : ℕ). rounds_of N (stop_body net self) r 1 [] log) (sym e) in
      let told =
        for_nodes_lem N (stop_body net self) (suc N) [] log few (omega arith)
        ∙ split
        ∙ stop_rounds-unreachable before behind 1 [] log (omega arith) (omega arith) h u in
      >>=-run (lift (the_rpc self)) (stop_all net self) log
        (ap (λ (o : Outcome RpcContext). (o, log)) (the_rpc-IsConnected c))
      ∙ >>=-run (for_nodes N (stop_body net self) (suc N) 1 []) (wait_all net) log told
