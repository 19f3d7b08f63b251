-- ===== src/Thallium/Init.antt =====
-- Starting and stopping the engines (include/test_networks/rpc_thallium.h, lines 40 to 99).
pub mod Laws
use ppi_chi_nettest.Base.{ℕ, ◌+◌, Bool, true, List, [], ◌∷◌, ◌++◌, Option, some, ltb, if◌then◌else◌}
use ppi_chi_nettest.Base.Text.{Text, codes}
use ppi_chi_nettest.Base.Int.{int_bound}
use ppi_chi_nettest.Base.Outcome.{Outcome, ok, fatal, throws, undefined, out_of_fuel, ◌>>=◌, ◌>>◌}
use ppi_chi_nettest.RpcContext.{RpcContext, get_my_rpc_address, get_protocol, get_rpc_address}
use ppi_chi_nettest.Thallium.Action.{Net}
use ppi_chi_nettest.Thallium.Rpc.{Engine, absent, running, finalized, ThalliumRpc, deref}

-- `RegisterRpc`: the server engine answers one more name.
unfoldable pub register_rpc : ThalliumRpc → Text → Outcome ThalliumRpc
register_rpc self name = do
  deref self.server_engine
  ok (record self { defined = self.defined ++ name ∷ [] })

-- `ClientInit`; its last line prints the address of this node.
unfoldable pub client_init : Net → RpcContext → ThalliumRpc → Outcome ThalliumRpc
client_init net rpc self = do
  protocol ← get_protocol rpc
  net.can_connect protocol
  address ← get_rpc_address rpc rpc.node_id rpc.port
  ok (record self { rpc = some rpc; client_engine = running protocol })

-- The constructor of the server engine, whose exceptions end the program.
unfoldable pub serve : Net → Text → Outcome Engine
serve net addr = elim (net.can_serve addr) [
  | ok u ↦ ok (running addr)
  | fatal ↦ fatal
  | throws e ↦ fatal
  | undefined ↦ undefined
  | out_of_fuel ↦ out_of_fuel
]

-- The loop that makes a stream for each of the threads: its counter is an `int`, its bound a u32.
unfoldable pub make_streams : ℕ → Outcome ℕ
make_streams num_threads = if ltb num_threads int_bound then ok num_threads else undefined

-- `ServerInit`: the new engine answers no name yet, and the streams join those that are there.
unfoldable pub server_init : Net → RpcContext → ThalliumRpc → Outcome ThalliumRpc
unfolding serve make_streams register_rpc client_init
server_init net rpc self = do
  addr ← get_my_rpc_address rpc
  engine ← serve net addr
  streams ← make_streams rpc.num_threads
  let serving = record self {
    rpc = some rpc;
    server_engine = engine;
    rpc_pool = true;
    rpc_xstreams = self.rpc_xstreams + streams;
    defined = [];
  }
  registered ← register_rpc serving (codes "RpcStopDaemon")
  client_init net rpc registered

-- `tl::engine::finalize`
abbrev pub finalize : Engine → Outcome Engine
finalize absent = undefined
finalize (running a) = ok (finalized a)
finalize (finalized a) = ok (finalized a)

unfoldable pub stop_this_daemon : ThalliumRpc → Outcome ThalliumRpc
stop_this_daemon self = do
  client ← finalize self.client_engine
  server ← finalize self.server_engine
  ok (record self { client_engine = client; server_engine = server })

-- `RpcStopDaemon`: the response, and the state after it; an exception is only logged.
unfoldable pub rpc_stop_daemon : ThalliumRpc → Outcome (ℕ × ThalliumRpc)
unfolding stop_this_daemon
rpc_stop_daemon self = elim (stop_this_daemon self) [
  | ok stopped ↦ ok (0, stopped)
  | fatal ↦ fatal
  | throws e ↦ ok (0, self)
  | undefined ↦ undefined
  | out_of_fuel ↦ out_of_fuel
]

-- `RunDaemon` returns when the server engine is finalized; until then it waits.
abbrev pub DaemonReturns : ThalliumRpc → Type 0
DaemonReturns self = elim self.server_engine [ absent ↦ ⊥ | running a ↦ ⊥ | finalized a ↦ Unit ]
