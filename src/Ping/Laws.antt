-- ===== src/Ping/Laws.antt =====
-- When the ping test gets through.
use ppi_chi_nettest.Base.{
  ℕ, zero, suc, ◌+◌, ◌%◌, ◌<◌, ◌≤◌, ◌≡◌, refl, ap, ◌∙◌, true, [], ◌∷◌, ◌++◌, arith, length,
  if◌then◌else◌, u64_mod, Bool-cases, inl, inr, list_laws,
}
use ppi_chi_nettest.Base.Text.{codes}
use ppi_chi_nettest.Base.Outcome.{Outcome, ok, fatal}
use ppi_chi_nettest.RpcContext.{RpcContext, num_hosts}
use ppi_chi_nettest.Thallium.Action.{metadata, Request, Log, Net, Action, >>=-run}
use ppi_chi_nettest.Thallium.Rpc.{ThalliumRpc, attempt, wait, sync_call}
use ppi_chi_nettest.Thallium.Nodes.{rounds_of, for_nodes_lem}
use ppi_chi_nettest.Thallium.Calls.{
  IsConnected, request_to, requests, async_call-attempt, length-snoc,
}
use ppi_chi_nettest.Thallium.Calls.Stop.{is_answered, all_answered}
use ppi_chi_nettest.Ping.{ping_body, ping_all}

-- How many attempts of the range are made by a caller that stops at the first without an answer.
abbrev pub asked : Net → (n rounds : ℕ) → ℕ
asked net n zero = 0
asked net n (suc rounds) = if is_answered (net.attempt n) then suc (asked net (suc n) rounds) else 1

pub asked-all_answered :
    (net : Net) (n rounds : ℕ) → all_answered net n rounds ≡ true → asked net n rounds ≡ rounds
asked-all_answered net n zero hit = refl
asked-all_answered net n (suc rounds) hit = ground (arith, asked-all_answered net (suc n) rounds)

module _ (net : Net) {self : ThalliumRpc} {rpc : RpcContext} (c : IsConnected self rpc) where
  abbrev pub ping : ℕ → Request
  ping = request_to self (codes "RpcPing") (metadata [])

  round :
      (node_id count : ℕ) (log : Log)
      → 1 ≤ node_id
      → node_id ≤ num_hosts rpc
      → ping_body net self node_id count log ≡ (
        if is_answered (net.attempt (length log)) then ok ((count + 1) % u64_mod) else fatal,
        log ++ request_to self (codes "RpcPing") (metadata []) node_id ∷ [],
      )
  unfolding ping_body sync_call attempt wait
  round node_id count log low high =
      let told = async_call-attempt c net node_id (codes "RpcPing") (metadata []) log low high in
      ground (arith, told)

  rounds_of-ping :
      (rounds node_id count : ℕ) (log : Log)
      → 1 ≤ node_id
      → node_id + rounds ≤ num_hosts rpc + 1
      → count + rounds < u64_mod
      → rounds_of (num_hosts rpc) (ping_body net self) rounds node_id count log ≡ (
        if all_answered net (length log) rounds then ok (count + rounds) else fatal,
        log ++ requests ping (asked net (length log) rounds) node_id,
      )
  unfolding rounds_of
  rounds_of-ping zero node_id count log low high few =
      let sum : count + 0 ≡ count = omega arith in simp (list_laws, sum)
  rounds_of-ping (suc rounds) node_id count log low high few =
      let q = ping node_id in
      let longer : length (log ++ q ∷ []) ≡ suc (length log) = length-snoc log q in
      let step : (count + 1) % u64_mod ≡ suc count = omega arith in
      let here = round node_id count log low (omega arith) in
      let rest =
        rounds_of-ping rounds (suc node_id) (suc count) (log ++ q ∷ []) (omega arith) (omega arith)
          (omega arith) in
      let sum : suc count + rounds ≡ count + suc rounds = omega arith in
      let more : ℕ → Action ℕ =
        λ s'. rounds_of (num_hosts rpc) (ping_body net self) rounds (suc node_id) s' in
      elim (Bool-cases (is_answered (net.attempt (length log)))) [
        | inl hit ↦
            >>=-run (ping_body net self node_id count) more log (rw (hit, step) at here)
            ∙ rest
            ∙ simp (longer, sum, hit, list_laws)
        | inr miss ↦
            >>=-run (ping_body net self node_id count) more log (rw miss at here) ∙ simp miss
      ]

  -- On a connected client `PingAll<false>` of the ping test asks the nodes in order, up to the
  -- last or to the first that does not answer; it returns exactly when every node answers, and
  -- then it counted all of them; it ends the program otherwise.
  pub ping_all-asked :
      (log : Log)
      → ping_all net self rpc log ≡ (
        if all_answered net (length log) (num_hosts rpc) then ok (num_hosts rpc) else fatal,
        log ++ requests ping (asked net (length log) (num_hosts rpc)) 1,
      )
  unfolding ping_all
  ping_all-asked log =
      let none_yet : 0 + num_hosts rpc ≡ num_hosts rpc = omega arith in
      for_nodes_lem (num_hosts rpc) (ping_body net self) (suc (num_hosts rpc)) 0 log
        (omega (arith, c.listed.few)) (omega arith)
      ∙ rounds_of-ping (num_hosts rpc) 1 0 log (omega arith) (omega arith)
          (omega (arith, c.listed.few))
      ∙ simp none_yet

  -- The value alone.
  pub ping_all-all_answered :
      (log : Log)
      → (ping_all net self rpc log).0
        ≡ (if all_answered net (length log) (num_hosts rpc) then ok (num_hosts rpc) else fatal)
  ping_all-all_answered log = ap (λ (r : Outcome ℕ × Log). r.0) (ping_all-asked log)
