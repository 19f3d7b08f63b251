-- ===== src/Bench/Ping.antt =====
-- What `PingAll` counts and what it sends.
use ppi_chi_nettest.Base.{
  ℕ, zero, suc, ◌+◌, ◌%◌, ◌<◌, ◌≤◌, ◌≡◌, ap, sym, ◌∙◌, List, [], ◌∷◌, ◌++◌, arith, length,
  if◌then◌else◌, u64_mod, Bool-cases, inl, inr,
}
use ppi_chi_nettest.Base.Text.{codes}
use ppi_chi_nettest.Base.Outcome.{Outcome, ok, ok-injective}
use ppi_chi_nettest.RpcContext.{RpcContext, num_hosts}
use ppi_chi_nettest.Thallium.Action.{metadata, Log, Net, >>=-run, Request}
use ppi_chi_nettest.Thallium.Rpc.{ThalliumRpc, wait, attempt, sync_call}
use ppi_chi_nettest.Thallium.Calls.{IsConnected, request_to, requests, async_call-attempt}
use ppi_chi_nettest.Thallium.Calls.Stop.{is_answered, is_sent}
use ppi_chi_nettest.Thallium.Nodes.{for_nodes}
use mathlib.Core.List.{append-nil, append_assoc}
use ppi_chi_nettest.Bench.{
  ping_sync_body, ping_all_sync, ping_async_body, count_responses, ping_all_async,
}
use ppi_chi_nettest.Bench.Rounds.{through, for_nodes-through}

abbrev pub count_if : Net → ℕ → ℕ → ℕ
count_if net n count = if is_answered (net.attempt n) then (count + 1) % u64_mod else count

abbrev pub keep_if : Net → ℕ → List ℕ → List ℕ
keep_if net n seen = if is_sent (net.attempt n) then seen ++ n ∷ [] else seen

-- How many attempts of the range are answered.
abbrev pub count_answered : Net → (n rounds : ℕ) → ℕ
count_answered net n zero = 0
count_answered net n (suc rounds) =
    (if is_answered (net.attempt n) then 1 else 0) + count_answered net (suc n) rounds

-- The attempts of the range that were sent.
abbrev pub sent : Net → (n rounds : ℕ) → List ℕ
sent net n zero = []
sent net n (suc rounds) =
    if is_sent (net.attempt n) then n ∷ sent net (suc n) rounds else sent net (suc n) rounds

-- How many of them are answered in front of the first that is not.
abbrev pub answered_first : Net → List ℕ → ℕ
answered_first net [] = 0
answered_first net (n ∷ ns) = if is_answered (net.attempt n) then suc (answered_first net ns) else 0

module _ (net : Net) {self : ThalliumRpc} {rpc : RpcContext} (c : IsConnected self rpc) where
  abbrev pub ping : ℕ → Request
  ping = request_to self (codes "RpcPing") (metadata [])

  sync_round :
      (node_id count : ℕ) (log : Log)
      → 1 ≤ node_id
      → node_id ≤ num_hosts rpc
      → ping_sync_body net self node_id count log
        ≡ (ok (count_if net (length log) count), log ++ ping node_id ∷ [])
  unfolding ping_sync_body sync_call attempt wait
  sync_round node_id count log low high =
      let told = async_call-attempt c net node_id (codes "RpcPing") (metadata []) log low high in
      ground (arith, told)

  async_round :
      (node_id : ℕ) (seen : List ℕ) (log : Log)
      → 1 ≤ node_id
      → node_id ≤ num_hosts rpc
      → ping_async_body net self node_id seen log
        ≡ (ok (keep_if net (length log) seen), log ++ ping node_id ∷ [])
  unfolding ping_async_body attempt
  async_round node_id seen log low high =
      let told = async_call-attempt c net node_id (codes "RpcPing") (metadata []) log low high in
      ground (arith, told)

  through-count :
      (rounds n count : ℕ)
      → count + rounds < u64_mod
      → through (count_if net) n rounds count ≡ count + count_answered net n rounds
  through-count zero n count h = omega arith
  through-count (suc rounds) n count h = elim (Bool-cases (is_answered (net.attempt n))) [
    | inl hit ↦
        let step : (count + 1) % u64_mod ≡ suc count = omega arith in
        rw (hit, step, through-count rounds (suc n) (suc count) (omega arith)) (omega arith)
    | inr miss ↦ rw (miss, through-count rounds (suc n) count (omega arith)) (omega arith)
  ]

  through-keep :
      (rounds n : ℕ) (seen : List ℕ)
      → through (keep_if net) n rounds seen ≡ seen ++ sent net n rounds
  through-keep zero n seen = sym (append-nil seen)
  through-keep (suc rounds) n seen = elim (Bool-cases (is_sent (net.attempt n))) [
    | inl hit ↦
        rw (hit, through-keep rounds (suc n) (seen ++ n ∷ [])) (append_assoc seen (n ∷ []) _)
    | inr miss ↦ rw (miss, through-keep rounds (suc n) seen)
  ]

  length-sent : (rounds n : ℕ) → length (sent net n rounds) ≤ rounds
  length-sent zero n = omega arith
  length-sent (suc rounds) n = ground (arith, length-sent rounds (suc n))

  answered_first-sent :
      (rounds n : ℕ) → answered_first net (sent net n rounds) ≤ count_answered net n rounds
  answered_first-sent zero n = omega arith
  answered_first-sent (suc rounds) n = ground (arith, answered_first-sent rounds (suc n))

  count_responses-first :
      (ns : List ℕ) (count : ℕ) (log : Log)
      → count + length ns < u64_mod
      → count_responses net ns count log ≡ (ok (count + answered_first net ns), log)
  unfolding count_responses wait
  count_responses-first [] count log h = ap (λ (k : ℕ). (ok k, log)) (omega arith)
  count_responses-first (n ∷ ns) count log h =
      let step : (count + 1) % u64_mod ≡ suc count = omega arith in
      ground (arith, step, count_responses-first ns (suc count) log (omega arith))

  -- On a connected client `PingAll<false>` returns whatever the network does: it asks each node
  -- once, in order, and counts the nodes that answered.
  pub ping_all_sync-count :
      (log : Log)
      → ping_all_sync net self rpc log ≡ (
        ok (count_answered net (length log) (num_hosts rpc)),
        log ++ requests ping (num_hosts rpc) 1,
      )
  unfolding ping_all_sync
  ping_all_sync-count log =
      for_nodes-through (num_hosts rpc) (ping_sync_body net self) (count_if net) ping sync_round 0
        log (omega (arith, c.listed.few))
      ∙ ap (λ (k : ℕ). (ok k, log ++ requests ping (num_hosts rpc) 1))
          (through-count (num_hosts rpc) (length log) 0 (omega (arith, c.listed.few)) ∙ omega arith)

  -- On a connected client `PingAll<true>` returns whatever the network does: it asks each node
  -- once, in order, and counts the answers in front of the first request that was sent and has
  -- none.
  pub ping_all_async-count :
      (log : Log)
      → ping_all_async net self rpc log ≡ (
        ok (answered_first net (sent net (length log) (num_hosts rpc))),
        log ++ requests ping (num_hosts rpc) 1,
      )
  unfolding ping_all_async
  ping_all_async-count log =
      let N = num_hosts rpc in
      let asked =
        for_nodes-through N (ping_async_body net self) (keep_if net) ping async_round [] log
          (omega (arith, c.listed.few))
        ∙ ap (λ (s : List ℕ). (ok s, log ++ requests ping N 1)) (through-keep N (length log) []) in
      let short : 0 + length (sent net (length log) N) < u64_mod =
        omega (arith, length-sent N (length log), c.listed.few) in
      >>=-run (for_nodes N (ping_async_body net self) (suc N) 1 []) (λ s. count_responses net s 0)
        log asked
      ∙ count_responses-first (sent net (length log) N) 0 (log ++ requests ping N 1) short
      ∙ ap (λ (k : ℕ). (ok k, log ++ requests ping N 1)) (omega arith)

  -- On a connected client and one network the asynchronous ping never counts more nodes than
  -- the synchronous one.
  pub ping_all_async-ping_all_sync :
      (log : Log) {m n : ℕ}
      → (ping_all_async net self rpc log).0 ≡ ok m
      → (ping_all_sync net self rpc log).0 ≡ ok n
      → m ≤ n
  ping_all_async-ping_all_sync log {m} {n} a s =
      let few = answered_first-sent (num_hosts rpc) (length log) in
      let here : answered_first net (sent net (length log) (num_hosts rpc)) ≡ m =
        ok-injective (sym (ap (λ (r : Outcome ℕ × Log). r.0) (ping_all_async-count log)) ∙ a) in
      let there : count_answered net (length log) (num_hosts rpc) ≡ n =
        ok-injective (sym (ap (λ (r : Outcome ℕ × Log). r.0) (ping_all_sync-count log)) ∙ s) in
      omega (arith, few, here, there)
