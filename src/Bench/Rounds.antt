-- ===== src/Bench/Rounds.antt =====
-- A loop over the nodes each of whose rounds makes one attempt and returns.
use ppi_chi_nettest.Base.{
  ℕ, zero, suc, ◌+◌, ◌<◌, ◌≤◌, ◌≡◌, ◌∙◌, [], ◌∷◌, ◌++◌, arith, length, u32_mod, list_laws,
}
use ppi_chi_nettest.Base.Outcome.{ok}
use ppi_chi_nettest.Thallium.Action.{Request, Log, Action, >>=-run}
use ppi_chi_nettest.Thallium.Nodes.{for_nodes, rounds_of, for_nodes_lem}
use ppi_chi_nettest.Thallium.Calls.{requests, length-snoc}

-- The state after the attempts from the n-th on.
abbrev pub through : {S : Type 0} → (ℕ → S → S) → (n rounds : ℕ) → S → S
through f n zero s = s
through f n (suc rounds) s = through f (suc n) rounds (f n s)

module _ {S : Type 0} (last : ℕ) (body : ℕ → S → Action S) (f : ℕ → S → S) (q : ℕ → Request)
    (one : (node_id : ℕ) (s : S) (log : Log)
      → 1 ≤ node_id
      → node_id ≤ last
      → body node_id s log ≡ (ok (f (length log) s), log ++ q node_id ∷ [])) where
  rounds_of-through :
      (rounds node_id : ℕ) (s : S) (log : Log)
      → 1 ≤ node_id
      → node_id + rounds ≤ last + 1
      → rounds_of last body rounds node_id s log
        ≡ (ok (through f (length log) rounds s), log ++ requests q rounds node_id)
  unfolding rounds_of
  rounds_of-through zero node_id s log low high = simp list_laws
  rounds_of-through (suc rounds) node_id s log low high =
      let longer : length (log ++ q node_id ∷ []) ≡ suc (length log) =
        length-snoc log (q node_id) in
      let rest =
        rounds_of-through rounds (suc node_id) (f (length log) s) (log ++ q node_id ∷ [])
          (omega arith) (omega arith) in
      >>=-run (body node_id s) (λ s'. rounds_of last body rounds (suc node_id) s') log
        (one node_id s log low (omega arith))
      ∙ rest
      ∙ simp (longer, list_laws)

  -- The loop returns, it made one attempt at each node in order, and its state is that of the
  -- attempts' fates.
  pub for_nodes-through :
      (s : S) (log : Log)
      → last + 1 < u32_mod
      → for_nodes last body (suc last) 1 s log
        ≡ (ok (through f (length log) last s), log ++ requests q last 1)
  for_nodes-through s log few =
      for_nodes_lem last body (suc last) s log few (omega arith)
      ∙ rounds_of-through last 1 s log (omega arith) (omega arith)
