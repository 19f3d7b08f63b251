-- ===== src/Thallium/Nodes.antt =====
-- The loop `for (NodeId node_id = 1; node_id <= NumHosts(); ++node_id)`, which
-- include/test_networks/rpc_thallium.h and the programs share. `NodeId` is a u32, `NumHosts()` a
-- `size_t`.
use ppi_chi_nettest.Base.{
  ℕ, zero, suc, ◌+◌, ◌%◌, ◌<◌, ◌≡◌, refl, true, false, leb, if◌then◌else◌, arith, u32_mod,
}
use ppi_chi_nettest.Base.Outcome.{ok, fatal, throws, undefined, out_of_fuel, Outcome}
use ppi_chi_nettest.Thallium.Action.{Log, Action, pure, ◌>>=◌}

module _ {S : Type 0} (last : ℕ) (body : ℕ → S → Action S) where
  -- The fuel bounds the rounds.
  unfoldable pub for_nodes : (fuel node_id : ℕ) → S → Action S
  for_nodes zero node_id s log = (out_of_fuel, log)
  for_nodes (suc fuel) node_id s log =
      let next = (body node_id s >>= λ s'. for_nodes fuel ((node_id + 1) % u32_mod) s') log in
      if leb node_id last then next else (ok s, log)

  -- The body at `node_id`, `node_id + 1`, …, as many times as there are rounds.
  unfoldable pub rounds_of : (rounds node_id : ℕ) → S → Action S
  rounds_of zero node_id s = pure s
  rounds_of (suc rounds) node_id s = body node_id s >>= λ s'. rounds_of rounds (suc node_id) s'

  bind_ext :
      (k l : S → Action S) (o : Outcome S) (log : Log)
      → ((s : S) (log : Log) → k s log ≡ l s log)
      → ((λ _. (o, log)) >>= k) log ≡ ((λ _. (o, log)) >>= l) log
  bind_ext k l (ok s) log h = h s log
  bind_ext k l fatal log h = refl
  bind_ext k l (throws e) log h = refl
  bind_ext k l undefined log h = refl
  bind_ext k l out_of_fuel log h = refl

  for_nodes-rounds :
      (rounds fuel node_id : ℕ) (s : S) (log : Log)
      → node_id + rounds ≡ last + 1
      → last + 1 < u32_mod
      → rounds < fuel
      → for_nodes fuel node_id s log ≡ rounds_of rounds node_id s log
  unfolding for_nodes rounds_of
  for_nodes-rounds rounds zero node_id s log e small h = absurd (omega arith)
  for_nodes-rounds zero (suc fuel) node_id s log e small h =
      let over : leb node_id last ≡ false = ground arith in rw over
  for_nodes-rounds (suc rounds) (suc fuel) node_id s log e small h =
      let more : leb node_id last ≡ true = ground arith in
      let next : (node_id + 1) % u32_mod ≡ suc node_id = omega arith in
      simp (more, next)
        (bind_ext (for_nodes fuel (suc node_id)) (rounds_of rounds (suc node_id))
          (body node_id s log).0 (body node_id s log).1
          (λ s' log'.
            for_nodes-rounds rounds fuel (suc node_id) s' log' (omega arith) small (omega arith)))

  -- If the number of the last node and one is below 2^32 and there is more fuel than nodes, the
  -- loop is the body run at node 1, 2, and so on up to the last, each after the one before
  -- returned.
  pub for_nodes_lem :
      (fuel : ℕ) (s : S) (log : Log)
      → last + 1 < u32_mod
      → last < fuel
      → for_nodes fuel 1 s log ≡ rounds_of last 1 s log
  for_nodes_lem fuel s log small h = for_nodes-rounds last fuel 1 s log (omega arith) small h
