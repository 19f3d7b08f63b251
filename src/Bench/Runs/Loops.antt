-- ===== src/Bench/Runs/Loops.antt =====
-- The nested loops over the nodes and the repetitions, where every call returns.
use mathlib.Core.List.{append_assoc}
use ppi_chi_nettest.Base.{
  ℕ, zero, suc, ◌+◌, ◌*◌, ◌<◌, ◌≤◌, ◌≡◌, refl, ap, ◌∙◌, [], ◌∷◌, ◌++◌, arith, length, length-append,
  replicate, u32_mod, ◌==◌, false, if◌then◌else◌, list_laws,
}
use ppi_chi_nettest.Base.Int.{int_bound}
use ppi_chi_nettest.Base.Outcome.{ok, undefined}
use ppi_chi_nettest.RpcContext.{RpcContext, num_hosts}
use ppi_chi_nettest.Thallium.Action.{Request, Log, Action, lift, >>=-run}
use ppi_chi_nettest.Thallium.Nodes.{rounds_of, for_nodes_lem}
use ppi_chi_nettest.Thallium.Calls.{length-snoc}
use ppi_chi_nettest.Bench.Rounds.{through}
use ppi_chi_nettest.Bench.Runs.{repeat, nested}

-- `rep` requests to each of the nodes from `node_id` on.
abbrev pub rep_requests : (ℕ → Request) → (rep rounds node_id : ℕ) → Log
rep_requests q rep zero node_id = []
rep_requests q rep (suc rounds) node_id =
    replicate rep (q node_id) ++ rep_requests q rep rounds (suc node_id)

pub through-+ :
    {S : Type 0} (f : ℕ → S → S) (m n k : ℕ) (s : S)
    → through f k (m + n) s ≡ through f (k + m) n (through f k m s)
through-+ f zero n k s =
    let a : 0 + n ≡ n = omega arith in let b : k + 0 ≡ k = omega arith in rw (a, b)
through-+ f (suc m) n k s =
    let a : suc m + n ≡ suc (m + n) = omega arith in
    let b : k + suc m ≡ suc k + m = omega arith in rw (a, b) (through-+ f m n (suc k) (f k s))

length-replicate : (n : ℕ) (q : Request) → length (replicate n q) ≡ n
length-replicate zero q = refl
length-replicate (suc n) q = ap suc (length-replicate n q)

suc_times : (a b : ℕ) → suc a * b ≡ b + a * b
suc_times a b = grind arith

module _ {S : Type 0} (last : ℕ) (body : ℕ → S → Action S) (f : ℕ → S → S) (q : ℕ → Request)
    (P : ℕ → Type 0)
    (one : (node_id : ℕ) (s : S) (log : Log)
      → 1 ≤ node_id
      → node_id ≤ last
      → P (length log)
      → body node_id s log ≡ (ok (f (length log) s), log ++ q node_id ∷ [])) where
  repeat-through :
      (rounds i node_id : ℕ) (s : S) (log : Log)
      → 1 ≤ node_id
      → node_id ≤ last
      → i + rounds < int_bound
      → ((k : ℕ) → length log ≤ k → k < length log + rounds → P k)
      → repeat (body node_id) rounds i s log
        ≡ (ok (through f (length log) rounds s), log ++ replicate rounds (q node_id))
  unfolding repeat
  repeat-through zero i node_id s log low high few all = simp list_laws
  repeat-through (suc rounds) i node_id s log low high few all =
      let longer : length (log ++ q node_id ∷ []) ≡ suc (length log) =
        length-snoc log (q node_id) in
      let room : (suc i == int_bound) ≡ false = ground arith in
      let rest =
        repeat-through rounds (suc i) node_id (f (length log) s) (log ++ q node_id ∷ []) low high
          (omega arith) (λ k a c. all k (omega (arith, longer)) (omega (arith, longer))) in
      >>=-run (body node_id s)
        (λ s'.
          if suc i == int_bound then lift undefined else repeat (body node_id) rounds (suc i) s')
        log (one node_id s log low high (all (length log) (omega arith) (omega arith)))
      ∙ rw (room, rest) (simp (longer, list_laws))

  rounds_of-repeat :
      (rep rounds node_id : ℕ) (s : S) (log : Log)
      → 1 ≤ node_id
      → node_id + rounds ≤ last + 1
      → rep < int_bound
      → ((k : ℕ) → length log ≤ k → k < length log + rounds * rep → P k)
      → rounds_of last (λ n. repeat (body n) rep 0) rounds node_id s log
        ≡ (ok (through f (length log) (rounds * rep) s), log ++ rep_requests q rep rounds node_id)
  unfolding rounds_of
  rounds_of-repeat rep zero node_id s log low high few all =
      let none_left : 0 * rep ≡ 0 = omega arith in rw none_left (simp list_laws)
  rounds_of-repeat rep (suc rounds) node_id s log low high few all =
      let sent = log ++ replicate rep (q node_id) in
      let longer : length sent ≡ length log + rep =
        omega (
          arith,
          length-append log (replicate rep (q node_id)),
          length-replicate rep (q node_id),
        ) in
      let split : suc rounds * rep ≡ rep + rounds * rep = suc_times rounds rep in
      let rest =
        rounds_of-repeat rep rounds (suc node_id) (through f (length log) rep s) sent (omega arith)
          (omega arith) few
          (λ k a c. all k (omega (arith, longer)) (omega (arith, longer, split))) in
      >>=-run (repeat (body node_id) rep 0 s)
        (λ s'. rounds_of last (λ n. repeat (body n) rep 0) rounds (suc node_id) s') log
        (repeat-through rep 0 node_id s log low (omega arith) (omega arith)
          (λ k a c. all k a (omega (arith, split))))
      ∙ rest
      ∙ rw (split, longer, through-+ f rep (rounds * rep) (length log) s, append_assoc)

  -- The nested loops return, they made `rep` attempts at each node in order, and their state is
  -- that of the attempts' fates.
  pub nested-through :
      (rpc : RpcContext) (rep : ℕ) (s : S) (log : Log)
      → num_hosts rpc ≡ last
      → last + 1 < u32_mod
      → rep < int_bound
      → ((k : ℕ) → length log ≤ k → k < length log + last * rep → P k)
      → nested rpc body rep s log
        ≡ (ok (through f (length log) (last * rep) s), log ++ rep_requests q rep last 1)
  unfolding nested
  nested-through rpc rep s log hosts few small all = rw hosts (
      for_nodes_lem last (λ n. repeat (body n) rep 0) (suc last) s log few (omega arith)
      ∙ rounds_of-repeat rep last 1 s log (omega arith) (omega arith) small all)
