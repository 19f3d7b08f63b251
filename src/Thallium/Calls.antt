-- ===== src/Thallium/Calls.antt =====
-- The calls of a client that is connected, node by node, and `StopAllDaemons`
-- (include/test_networks/rpc_thallium.h, lines 101 to 119).
pub mod Stop
use ppi_chi_nettest.Base.{
  ℕ, zero, suc, ◌+◌, ◌-◌, ◌<◌, ◌≤◌, ◌≡◌, ◌≢◌, refl, ap, sym, ◌∙◌, List, [], ◌∷◌, ◌++◌, Option, none,
  some, arith, length, length-append, u32_mod,
}
use ppi_chi_nettest.Base.Text.{Text, codes}
use ppi_chi_nettest.Base.Int.{int_to_string}
use ppi_chi_nettest.Base.Outcome.{
  Outcome, ok, fatal, throws, undefined, out_of_fuel, margo_exception,
}
use ppi_chi_nettest.RpcContext.{RpcContext, num_hosts}
use ppi_chi_nettest.RpcContext.Ready.{AreListed}
use ppi_chi_nettest.RpcContext.Address.{lookup_inside}
use ppi_chi_nettest.Thallium.Action.{
  Payload, nothing, Request, Log, Attempt, unreachable, lost, answered, Net, Action, pure, lift,
  ◌>>=◌, ◌>>◌,
}
use ppi_chi_nettest.Thallium.Rpc.{
  ThalliumRpc, the_rpc, deref, get_server_name, attempt, wait, async_call, sync_call,
}
use ppi_chi_nettest.Thallium.Nodes.{for_nodes}

-- The client engine is there, and the context lists its hosts.
pub record IsConnected (self : ThalliumRpc) (rpc : RpcContext) : Type 0 where
  pub context : self.rpc ≡ some rpc
  pub client : deref self.client_engine ≡ ok tt
  pub listed : AreListed rpc

-- The server name of a node, where it has one.
abbrev pub value_of : Outcome Text → Text
value_of o = elim o [ ok name ↦ name | _ ↦ [] ]

abbrev pub name_of : ThalliumRpc → ℕ → Text
name_of self node_id = value_of (get_server_name self node_id)

abbrev pub request_to : ThalliumRpc → Text → Payload → ℕ → Request
request_to self func payload node_id = record {
  server = name_of self node_id;
  func = func;
  payload = payload;
}

-- One request for each of the nodes from `node_id` on.
abbrev pub requests : (ℕ → Request) → (rounds node_id : ℕ) → Log
requests to zero node_id = []
requests to (suc rounds) node_id = to node_id ∷ requests to rounds (suc node_id)

pub length-requests :
    (to : ℕ → Request) (rounds node_id : ℕ) → length (requests to rounds node_id) ≡ rounds
length-requests to zero node_id = refl
length-requests to (suc rounds) node_id = ap suc (length-requests to rounds (suc node_id))

module _ {self : ThalliumRpc} {rpc : RpcContext} (c : IsConnected self rpc) where
  pub the_rpc-IsConnected : the_rpc self ≡ ok rpc
  the_rpc-IsConnected =
      ap (λ (o : Option RpcContext). elim o [ none ↦ undefined | some r ↦ ok r ]) c.context

  -- The server of a node is named by protocol, address and port of the context.
  pub get_server_name-IsConnected :
      (node_id : ℕ)
      → 1 ≤ node_id
      → node_id ≤ num_hosts rpc
      → get_server_name self node_id ≡ ok (name_of self node_id)
  unfolding get_server_name
  get_server_name-IsConnected node_id low high =
      let (h, at, ip, host) = lookup_inside rpc node_id (omega (arith, c.listed.few)) low high in
      let shown : get_server_name self node_id
          ≡ ok (
              rpc.protocol
              ++ (codes "://" ++ (h.ip_addr ++ (codes ":" ++ int_to_string rpc.port)))) =
        ground (arith, c.context, ip) in
      shown ∙ ap ok (sym (ap value_of shown))

  -- A call to a listed node is one attempt at that node's server.
  pub async_call-attempt :
      (net : Net) (node_id : ℕ) (func : Text) (payload : Payload) (log : Log)
      → 1 ≤ node_id
      → node_id ≤ num_hosts rpc
      → async_call net self node_id func payload log
        ≡ attempt net (request_to self func payload node_id) log
  unfolding async_call
  async_call-attempt net node_id func payload log low high =
      let named = get_server_name-IsConnected node_id low high in ground (arith, named, c.client)

-- The attempt is not refused at once.
abbrev pub Reaches : Net → ℕ → Type 0
Reaches net n = net.attempt n ≢ unreachable

abbrev pub AllReach : Net → (n rounds : ℕ) → Type 0
AllReach net n zero = Unit
AllReach net n (suc rounds) = Reaches net n × AllReach net (suc n) rounds

abbrev pub numbers : (n rounds : ℕ) → List ℕ
numbers n zero = []
numbers n (suc rounds) = n ∷ numbers (suc n) rounds

pub attempt-Reaches :
    (net : Net) (q : Request) (log : Log)
    → Reaches net (length log)
    → attempt net q log ≡ (ok (length log), log ++ q ∷ [])
unfolding attempt
attempt-Reaches net q log h = ground arith

pub attempt-unreachable :
    (net : Net) (q : Request) (log : Log)
    → net.attempt (length log) ≡ unreachable
    → attempt net q log ≡ (throws margo_exception, log ++ q ∷ [])
unfolding attempt
attempt-unreachable net q log h = ground arith

pub length-snoc : (log : Log) (q : Request) → length (log ++ q ∷ []) ≡ suc (length log)
length-snoc log q = omega (arith, length-append log (q ∷ []))

-- `Wait<int>` on each response in turn.
unfoldable pub wait_all : Net → List ℕ → Action (Unit {0})
unfolding wait
wait_all net [] = pure tt
wait_all net (r ∷ rs) = do wait net r; wait_all net rs

-- The body of the first loop of `StopAllDaemons`.
unfoldable pub stop_body : Net → ThalliumRpc → ℕ → List ℕ → Action (List ℕ)
stop_body net self node_id responses = do
  ret ← async_call net self node_id (codes "RpcStopDaemon") nothing
  pure (responses ++ ret ∷ [])

-- `StopAllDaemons` on the context of `rpc_`.
unfoldable pub stop_all : Net → ThalliumRpc → RpcContext → Action (Unit {0})
stop_all net self rpc = do
  responses ← for_nodes (num_hosts rpc) (stop_body net self) (suc (num_hosts rpc)) 1 []
  wait_all net responses

unfoldable pub stop_all_daemons : Net → ThalliumRpc → Action (Unit {0})
unfolding stop_all
stop_all_daemons net self = do rpc ← lift (the_rpc self); stop_all net self rpc
