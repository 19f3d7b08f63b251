-- ===== src/Thallium/Init/Laws.antt =====
-- From `ServerInit` to `RpcStopDaemon`: the state of the engines, and when the daemon returns.
use ppi_chi_nettest.Base.{ℕ, ◌+◌, ◌≡◌, true, refl, sym, ap, ◌∙◌, subst, [], ◌∷◌, ◌++◌, some, arith}
use ppi_chi_nettest.Base.Text.{Text, codes}
use ppi_chi_nettest.Base.Outcome.{ok, >>=-eq-ok, ok-injective}
use ppi_chi_nettest.RpcContext.{RpcContext, get_my_rpc_address, get_protocol, get_rpc_address}
use ppi_chi_nettest.RpcContext.Ready.{AreListed}
use ppi_chi_nettest.Thallium.Action.{Net}
use ppi_chi_nettest.Thallium.Rpc.{Engine, running, finalized, ThalliumRpc, deref}
use ppi_chi_nettest.Thallium.Init.{
  register_rpc, client_init, serve, make_streams, server_init, stop_this_daemon, rpc_stop_daemon,
  DaemonReturns,
}
use ppi_chi_nettest.Thallium.Calls.{IsConnected}

-- What `ServerInit` leaves when it returns.
pub record IsServing (rpc : RpcContext) (before self : ThalliumRpc) : Type 0 where
  pub context : self.rpc ≡ some rpc
  pub client :
      (protocol : Text) × (get_protocol rpc ≡ ok protocol) × (self.client_engine ≡ running protocol)
  pub server :
      (addr : Text) × (get_my_rpc_address rpc ≡ ok addr) × (self.server_engine ≡ running addr)
  pub streams : self.rpc_xstreams ≡ before.rpc_xstreams + rpc.num_threads
  pub registered : self.defined ≡ codes "RpcStopDaemon" ∷ []

serve-ok : (net : Net) (addr : Text) {e : Engine} → serve net addr ≡ ok e → e ≡ running addr
unfolding serve
serve-ok net addr h = ground arith

make_streams-ok : (n : ℕ) {m : ℕ} → make_streams n ≡ ok m → m ≡ n
unfolding make_streams
make_streams-ok n h = ground arith

-- `ClientInit` keeps the server engine, the streams and the names.
pub client_init-ok :
    (net : Net) (rpc : RpcContext) (self : ThalliumRpc) {after : ThalliumRpc}
    → client_init net rpc self ≡ ok after
    → (protocol : Text) × (get_protocol rpc ≡ ok protocol)
      × (record self { rpc = some rpc; client_engine = running protocol } ≡ after)
unfolding client_init
client_init-ok net rpc self e =
    let (protocol, named, e1) = >>=-eq-ok (get_protocol rpc) _ e in
    let (u, connected, e2) = >>=-eq-ok (net.can_connect protocol) _ e1 in
    let (address, resolved, e3) = >>=-eq-ok (get_rpc_address rpc rpc.node_id rpc.port) _ e2 in
    (protocol, named, ok-injective e3)

register_rpc-ok :
    (self : ThalliumRpc) (name : Text) {after : ThalliumRpc}
    → register_rpc self name ≡ ok after
    → record self { defined = self.defined ++ name ∷ [] } ≡ after
unfolding register_rpc
register_rpc-ok self name e =
    let (u, there, e1) = >>=-eq-ok (deref self.server_engine) _ e in ok-injective e1

-- When `ServerInit` returns, the server engine serves this node's own address, the client engine
-- uses the configured protocol, one stream for each thread has joined those that were there, and
-- `RpcStopDaemon` is the one name that the server engine answers.
pub server_init-IsServing :
    (net : Net) (rpc : RpcContext) (self : ThalliumRpc) {serving : ThalliumRpc}
    → server_init net rpc self ≡ ok serving
    → IsServing rpc self serving
unfolding server_init
server_init-IsServing net rpc self e =
    let (addr, own, e1) = >>=-eq-ok (get_my_rpc_address rpc) _ e in
    let (engine, served, e2) = >>=-eq-ok (serve net addr) _ e1 in
    let (streams, made, e3) = >>=-eq-ok (make_streams rpc.num_threads) _ e2 in
    let state : ThalliumRpc = record self {
      rpc = some rpc;
      server_engine = engine;
      rpc_pool = true;
      rpc_xstreams = self.rpc_xstreams + streams;
      defined = [];
    } in
    let name : Text = codes "RpcStopDaemon" in
    let (registered, put, e4) = >>=-eq-ok (register_rpc state name) (client_init net rpc) e3 in
    let (protocol, named, done) = client_init-ok net rpc registered e4 in
    let reg = register_rpc-ok state name put in
    subst (IsServing rpc self) done (record {
      context = refl;
      client = (protocol, named, refl);
      server = (
        addr,
        own,
        sym (ap (λ (t : ThalliumRpc). t.server_engine) reg) ∙ serve-ok net addr served,
      );
      streams =
          sym (ap (λ (t : ThalliumRpc). t.rpc_xstreams) reg)
          ∙ ap (λ n. self.rpc_xstreams + n) (make_streams-ok rpc.num_threads made);
      registered = sym (ap (λ (t : ThalliumRpc). t.defined) reg);
    })

-- On a server as `ServerInit` leaves it the daemon waits, and the request to stop is answered
-- by 0 and finalizes the server engine, so that the daemon returns.
pub rpc_stop_daemon-IsServing :
    (rpc : RpcContext) (before self : ThalliumRpc)
    → IsServing rpc before self
    → (¬ DaemonReturns self)
      × (stopped : ThalliumRpc) × (rpc_stop_daemon self ≡ ok (0, stopped))
      × DaemonReturns stopped
unfolding rpc_stop_daemon stop_this_daemon
rpc_stop_daemon-IsServing rpc before self serving =
    let (addr, own, server) = serving.server in
    let (protocol, named, client) = serving.client in
    (
      λ returns. rw server at returns,
      record self { client_engine = finalized protocol; server_engine = finalized addr },
      rw (client, server),
      tt,
    )

-- A server that was initialised on a listed context can call every node of it.
pub IsServing-IsConnected :
    (rpc : RpcContext) (before self : ThalliumRpc)
    → IsServing rpc before self
    → AreListed rpc
    → IsConnected self rpc
IsServing-IsConnected rpc before self serving listed =
    let (protocol, named, client) = serving.client in
    record { context = serving.context; client = rw client; listed = listed }

-- When `ClientInit` returns on a listed context, every node of it can be called.
pub client_init-IsConnected :
    (net : Net) (rpc : RpcContext) (self : ThalliumRpc) {connected : ThalliumRpc}
    → client_init net rpc self ≡ ok connected
    → AreListed rpc
    → IsConnected connected rpc
client_init-IsConnected net rpc self e listed =
    let (protocol, named, same) = client_init-ok net rpc self e in
    subst (λ t. IsConnected t rpc) same (record { context = refl; client = refl; listed = listed })

-- `ClientInit` printed the address of this node.
pub client_init-address :
    (net : Net) (rpc : RpcContext) (self : ThalliumRpc) {connected : ThalliumRpc}
    → client_init net rpc self ≡ ok connected
    → (address : Text) × (get_rpc_address rpc rpc.node_id rpc.port ≡ ok address)
unfolding client_init
client_init-address net rpc self e =
    let (protocol, named, e1) = >>=-eq-ok (get_protocol rpc) _ e in
    let (u, connected, e2) = >>=-eq-ok (net.can_connect protocol) _ e1 in
    let (address, resolved, e3) = >>=-eq-ok (get_rpc_address rpc rpc.node_id rpc.port) _ e2 in
    (address, resolved)
