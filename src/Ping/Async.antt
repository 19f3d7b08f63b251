-- ===== src/Ping/Async.antt =====
-- The asynchronous variant of the ping test ends as the synchronous one does.
use ppi_chi_nettest.Base.{
  ℕ, zero, suc, ◌+◌, ◌%◌, ◌<◌, ◌≤◌, ◌≡◌, refl, ap, sym, ◌∙◌, Bool, true, ◌&&◌, List, [], ◌∷◌, ◌++◌,
  arith, length, if◌then◌else◌, u64_mod, Bool-cases, inl, inr, list_laws,
}
use ppi_chi_nettest.Base.Text.{codes}
use ppi_chi_nettest.Base.Outcome.{Outcome, ok, fatal}
use ppi_chi_nettest.RpcContext.{RpcContext, num_hosts}
use ppi_chi_nettest.Thallium.Action.{metadata, Log, Net, Action, >>=-run}
use ppi_chi_nettest.Thallium.Rpc.{ThalliumRpc, attempt, wait}
use ppi_chi_nettest.Thallium.Nodes.{for_nodes, rounds_of, for_nodes_lem}
use ppi_chi_nettest.Thallium.Calls.{
  IsConnected, request_to, async_call-attempt, length-snoc, numbers,
}
use ppi_chi_nettest.Thallium.Calls.Stop.{is_sent, all_answered}
use ppi_chi_nettest.Ping.{ping_async_body, count_responses, ping_all_async, ping_all}
use ppi_chi_nettest.Ping.Laws.{ping_all-all_answered}

-- Every attempt of the range is sent.
abbrev all_sent : Net → (n rounds : ℕ) → Bool
all_sent net n zero = true
all_sent net n (suc rounds) = is_sent (net.attempt n) && all_sent net (suc n) rounds

all_answered-all_sent :
    (net : Net) (n rounds : ℕ) → all_answered net n rounds ≡ true → all_sent net n rounds ≡ true
all_answered-all_sent net n zero h = refl
all_answered-all_sent net n (suc rounds) h =
    ground (arith, all_answered-all_sent net (suc n) rounds)

count_responses-numbers :
    (net : Net) (n rounds count : ℕ) (log : Log)
    → count + rounds < u64_mod
    → count_responses net (numbers n rounds) count log
      ≡ (if all_answered net n rounds then ok (count + rounds) else fatal, log)
unfolding count_responses wait
count_responses-numbers net n zero count log few = ap (λ (k : ℕ). (ok k, log)) (omega arith)
count_responses-numbers net n (suc rounds) count log few =
    let step : (count + 1) % u64_mod ≡ suc count = omega arith in
    let sum : suc count + rounds ≡ count + suc rounds = omega arith in
    ground
      (arith, step, sum, count_responses-numbers net (suc n) rounds (suc count) log (omega arith))

module _ (net : Net) {self : ThalliumRpc} {rpc : RpcContext} (c : IsConnected self rpc) where
  round :
      (node_id : ℕ) (seen : List ℕ) (log : Log)
      → 1 ≤ node_id
      → node_id ≤ num_hosts rpc
      → ping_async_body net self node_id seen log ≡ (
        if is_sent (net.attempt (length log)) then ok (seen ++ length log ∷ []) else fatal,
        log ++ request_to self (codes "RpcPing") (metadata []) node_id ∷ [],
      )
  unfolding ping_async_body attempt
  round node_id seen log low high =
      let told = async_call-attempt c net node_id (codes "RpcPing") (metadata []) log low high in
      ground (arith, told)

  rounds_of-sent :
      (rounds node_id : ℕ) (seen : List ℕ) (log : Log)
      → 1 ≤ node_id
      → node_id + rounds ≤ num_hosts rpc + 1
      → (rounds_of (num_hosts rpc) (ping_async_body net self) rounds node_id seen log).0 ≡ (
          if all_sent net (length log) rounds
          then ok (seen ++ numbers (length log) rounds)
          else fatal)
  unfolding rounds_of
  rounds_of-sent zero node_id seen log low high = simp list_laws
  rounds_of-sent (suc rounds) node_id seen log low high =
      let q = request_to self (codes "RpcPing") (metadata []) node_id in
      let longer : length (log ++ q ∷ []) ≡ suc (length log) = length-snoc log q in
      let here = round node_id seen log low (omega arith) in
      let rest =
        rounds_of-sent rounds (suc node_id) (seen ++ length log ∷ []) (log ++ q ∷ []) (omega arith)
          (omega arith) in
      let more : List ℕ → Action (List ℕ) =
        λ s'. rounds_of (num_hosts rpc) (ping_async_body net self) rounds (suc node_id) s' in
      let value : Outcome (List ℕ) × Log → Outcome (List ℕ) = λ r. r.0 in
      elim (Bool-cases (is_sent (net.attempt (length log)))) [
        | inl hit ↦
            ap value (>>=-run (ping_async_body net self node_id seen) more log (rw hit at here))
            ∙ rest
            ∙ simp (longer, hit, list_laws)
        | inr miss ↦
            ap value (>>=-run (ping_async_body net self node_id seen) more log (rw miss at here))
            ∙ simp miss
      ]

  -- On a connected client `PingAll<true>` of the ping test ends as `PingAll<false>` does, on every
  -- network: it counts all nodes if every node answers, and ends the program otherwise.
  pub ping_all_async-ping_all :
      (log : Log) → (ping_all_async net self rpc log).0 ≡ (ping_all net self rpc log).0
  unfolding ping_all_async
  ping_all_async-ping_all log =
      let N = num_hosts rpc in
      let n = length log in
      let asked =
        for_nodes_lem N (ping_async_body net self) (suc N) [] log (omega (arith, c.listed.few))
          (omega arith) in
      let value : Outcome ℕ × Log → Outcome ℕ = λ r. r.0 in
      let end = (rounds_of N (ping_async_body net self) N 1 [] log).1 in
      let told : for_nodes N (ping_async_body net self) (suc N) 1 [] log
          ≡ (if all_sent net n N then ok (numbers n N) else fatal, end) =
        asked
        ∙ ap (λ (o : Outcome (List ℕ)). (o, end))
            (rounds_of-sent N 1 [] log (omega arith) (omega arith)) in
      let sync = ping_all-all_answered net c log in
      let counted = count_responses-numbers net n N 0 end (omega (arith, c.listed.few)) in
      let none_yet : 0 + N ≡ N = omega arith in
      let first = ap value (
        >>=-run (for_nodes N (ping_async_body net self) (suc N) 1 []) (λ s. count_responses net s 0)
          log told) in
      elim (Bool-cases (all_sent net n N)) [
        | inl whole ↦ rw whole at first ∙ ap value counted ∙ rw (none_yet, sync) refl
        | inr part ↦ elim (Bool-cases (all_answered net n N)) [
          | inl hit ↦ absurd (cc (all_answered-all_sent net n N hit))
          | inr miss ↦ rw part at first ∙ sym (rw miss at sync)
        ]
      ]
