-- ===== src/Bench/Runs/Complete.antt =====
-- A nested loop of `IoCalls` or `MetadataCalls`, run to the end, from what one round of it does.
use mathlib.Core.List.{append-nil, append_assoc}
use ppi_chi_nettest.Base.{
  u64_mod, ◌%◌, ℕ, zero, suc, ◌+◌, ◌*◌, ◌<◌, ◌≤◌, ◌≡◌, refl, ap, sym, ◌∙◌, true, List, [], ◌∷◌,
  ◌++◌, arith, length, if◌then◌else◌,
}
use ppi_chi_nettest.Base.Int.{int_bound}
use ppi_chi_nettest.Base.Outcome.{ok, throws, margo_exception}
use ppi_chi_nettest.RpcContext.{RpcContext, num_hosts}
use ppi_chi_nettest.Thallium.Action.{Request, Log, Net, Action, pure, ◌>>=◌, >>=-run}
use ppi_chi_nettest.Thallium.Rpc.{ThalliumRpc}
use ppi_chi_nettest.Thallium.Calls.{IsConnected, Reaches, numbers, wait_all}
use ppi_chi_nettest.Thallium.Calls.Stop.{is_answered, all_answered, wait_all-numbers}
use ppi_chi_nettest.Bench.Rounds.{through}
use ppi_chi_nettest.Bench.Runs.{reserve, nested}
use ppi_chi_nettest.Bench.Runs.Loops.{rep_requests, nested-through}

-- Each of the attempts is answered, or at least sent.
abbrev pub Answers : Net → ℕ → Type 0
Answers net n = is_answered (net.attempt n) ≡ true

mul_bound : (a b : ℕ) → b < int_bound → a * b ≤ a * int_bound
mul_bound zero b h = omega arith
mul_bound (suc a) b h = omega (arith, mul_bound a b h)

-- There is room for the responses of less than 2^31 rounds on less than 2^31 nodes.
pub reserve_ok : (a b : ℕ) → a < int_bound → b < int_bound → reserve (a * b % u64_mod) ≡ ok tt
unfolding reserve
reserve_ok a b ha hb = ground (arith, mul_bound a b hb)

through-numbers :
    (rounds n : ℕ) (s : List ℕ)
    → through (λ k seen. seen ++ k ∷ []) n rounds s ≡ s ++ numbers n rounds
through-numbers zero n s = sym (append-nil s)
through-numbers (suc rounds) n s =
    through-numbers rounds (suc n) (s ++ n ∷ []) ∙ append_assoc s (n ∷ []) (numbers (suc n) rounds)

module _ (net : Net) {self : ThalliumRpc} {rpc : RpcContext} (c : IsConnected self rpc) where
  -- The two bodies of a nested loop, run to the end, by what `ops` is then.
  pub sync_run :
      (body : ℕ → Unit {0} → Action (Unit {0})) (q : ℕ → Request) (rep ops : ℕ) (log : Log)
      → ((node_id : ℕ) (s : Unit {0}) (log : Log)
          → 1 ≤ node_id
          → node_id ≤ num_hosts rpc
          → Answers net (length log)
          → body node_id s log ≡ (ok s, log ++ q node_id ∷ []))
      → rep < int_bound
      → ((k : ℕ) → length log ≤ k → k < length log + num_hosts rpc * rep → Answers net k)
      → (nested rpc body rep tt >>= λ u. pure ops) log
        ≡ (ok ops, log ++ rep_requests q rep (num_hosts rpc) 1)
  sync_run body q rep ops log one small all =
      >>=-run (nested rpc body rep tt) (λ u. pure ops) log
        (nested-through (num_hosts rpc) body (λ n s. s) q (Answers net) one rpc rep tt log refl
          (omega (arith, c.listed.few)) small all)

  pub async_run :
      (body : ℕ → List ℕ → Action (List ℕ)) (q : ℕ → Request) (rep ops : ℕ) (log : Log)
      → ((node_id : ℕ) (s : List ℕ) (log : Log)
          → 1 ≤ node_id
          → node_id ≤ num_hosts rpc
          → Reaches net (length log)
          → body node_id s log ≡ (ok (s ++ length log ∷ []), log ++ q node_id ∷ []))
      → rep < int_bound
      → ((k : ℕ) → length log ≤ k → k < length log + num_hosts rpc * rep → Reaches net k)
      → (nested rpc body rep [] >>= λ responses. wait_all net responses >>= λ u. pure ops) log ≡ (
        if all_answered net (length log) (num_hosts rpc * rep)
            then ok ops
            else throws margo_exception,
        log ++ rep_requests q rep (num_hosts rpc) 1,
      )
  async_run body q rep ops log one small all =
      let N = num_hosts rpc in
      let asked =
        nested-through N body (λ k seen. seen ++ k ∷ []) q (Reaches net) one rpc rep [] log refl
          (omega (arith, c.listed.few)) small all
        ∙ ap (λ (s : List ℕ). (ok s, log ++ rep_requests q rep N 1))
            (through-numbers (N * rep) (length log) []) in
      >>=-run (nested rpc body rep []) (λ responses. wait_all net responses >>= λ u. pure ops) log
        asked
      ∙ >>=-run (wait_all net (numbers (length log) (N * rep))) (λ u. pure ops)
          (log ++ rep_requests q rep N 1)
          (wait_all-numbers net (length log) (N * rep) (log ++ rep_requests q rep N 1))
      ∙ ground arith

module _ (net : Net) where
  pub all_answered-Answers :
      (n rounds : ℕ)
      → ((k : ℕ) → n ≤ k → k < n + rounds → Answers net k)
      → all_answered net n rounds ≡ true
  all_answered-Answers n zero all = refl
  all_answered-Answers n (suc rounds) all = rw (
    all n (omega arith) (omega arith),
    all_answered-Answers (suc n) rounds (λ k a z. all k (omega arith) (omega arith)),
  )

  pub Answers-Reaches : (n : ℕ) → Answers net n → Reaches net n
  Answers-Reaches n h = ground arith
