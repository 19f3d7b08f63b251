-- ===== src/Thallium/Tests.antt =====
-- Runs of the remote calls on the two hosts of the context's tests.
use ppi_chi_nettest.Base.{
  ℕ, ◌+◌, ◌%◌, ◌≡◌, refl, true, false, List, [], ◌∷◌, map, none, some, ◌==◌, if◌then◌else◌, arith,
  u64_mod,
}
use ppi_chi_nettest.Base.Text.{codes, is_empty, to_string}
use ppi_chi_nettest.Base.Int.{int_to_string}
use ppi_chi_nettest.Base.Outcome.{ok, throws, margo_exception}
use ppi_chi_nettest.Bitfield.{hshm_bits}
use ppi_chi_nettest.Transfer.{DataTransfer, SegmentedTransfer, Memory}
use ppi_chi_nettest.Transfer.Laws.{total}
use ppi_chi_nettest.RpcContext.{get_my_rpc_address, get_protocol, get_rpc_address}
use ppi_chi_nettest.RpcContext.Tests.{ready, ready-IsReady}
use ppi_chi_nettest.Thallium.Action.{
  read_only, nothing, Attempt, unreachable, lost, answered, Net, Action, pure,
}
use ppi_chi_nettest.Thallium.Rpc.{absent, running, ThalliumRpc}
use ppi_chi_nettest.Thallium.Nodes.{for_nodes, rounds_of, for_nodes_lem}
use ppi_chi_nettest.Thallium.Bulk.{make_bulk}
use ppi_chi_nettest.Thallium.Bulk.Laws.{flagged, segment, make_bulk-flagged}
use ppi_chi_nettest.Thallium.Init.{server_init}
use ppi_chi_nettest.Thallium.Init.Laws.{IsServing, server_init-IsServing, IsServing-IsConnected}
use ppi_chi_nettest.Thallium.Calls.{IsConnected, request_to, requests, AllReach, stop_all_daemons}
use ppi_chi_nettest.Thallium.Calls.Stop.{
  all_answered, stop_all_daemons-Reaches, stop_all_daemons-unreachable,
}

-- Every attempt is answered by 0, but for one that loses its answer, or one that is refused.
abbrev pub net_with : ℕ → Attempt → Net
net_with n fate = record {
  attempt = λ k. if k == n then fate else answered 0;
  can_serve = λ addr. ok tt;
  can_connect = λ protocol. ok tt;
}

abbrev pub losing : Net
losing = net_with 1 lost

abbrev pub refusing : Net
refusing = net_with 1 unreachable

abbrev pub new_rpc : ThalliumRpc
new_rpc = record {
  kill_requested = false;
  client_engine = absent;
  server_engine = absent;
  rpc = none;
  rpc_xstreams = 0;
  rpc_pool = false;
  defined = [];
}

abbrev pub serving : ThalliumRpc
serving = record {
  kill_requested = false;
  client_engine = running (codes "tcp");
  server_engine = running (codes "tcp://d/10.0.0.2:8080");
  rpc = some ready;
  rpc_xstreams = 2;
  rpc_pool = true;
  defined = codes "RpcStopDaemon" ∷ [];
}

pub served : server_init losing ready new_rpc ≡ ok serving
unfolding server_init get_my_rpc_address get_rpc_address get_protocol int_to_string is_empty
    to_string
served = refl

server_init-IsServing_example : IsServing ready new_rpc serving
server_init-IsServing_example = server_init-IsServing losing ready new_rpc served

pub is_serving : IsServing ready new_rpc serving
is_serving = server_init-IsServing losing ready new_rpc served

pub connected : IsConnected serving ready
connected = IsServing-IsConnected ready new_rpc serving is_serving ready-IsReady.listed

reach : AllReach losing 0 2
reach = (λ e. cc, (λ e. cc, tt))

stop_all_daemons-Reaches_example : stop_all_daemons losing serving [] ≡ (
  if all_answered losing 0 2 then ok tt else throws margo_exception,
  requests (request_to serving (codes "RpcStopDaemon") nothing) 2 1,
)
stop_all_daemons-Reaches_example = stop_all_daemons-Reaches losing connected [] reach

stop_all_daemons-unreachable_example :
    stop_all_daemons refusing serving []
    ≡ (throws margo_exception, requests (request_to serving (codes "RpcStopDaemon") nothing) 2 1)
stop_all_daemons-unreachable_example =
    stop_all_daemons-unreachable refusing connected [] 1 0 refl (λ e. cc, tt) refl

abbrev body : ℕ → List ℕ → Action (List ℕ)
body node_id seen = pure (node_id ∷ seen)

for_nodes_lem_example : for_nodes 2 body 3 1 [] [] ≡ rounds_of 2 body 2 1 [] []
for_nodes_lem_example = for_nodes_lem 2 body 3 [] [] (omega arith) (omega arith)

abbrev segments : List DataTransfer
segments =
    record { flags = 3; data_ptr = 4096; data_size = 10 }
    ∷ record { flags = 4; data_ptr = 8192; data_size = 20 }
    ∷ []

abbrev sent : SegmentedTransfer
sent = record { ret_node = 1; bulk = segments; md = [] }

abbrev heap : Memory
heap = record { address = λ n. 16 + n; calls = 0; live = []; bytes = λ p. [] }

make_bulk-flagged_example :
    ((make_bulk hshm_bits segments 3 read_only).1 ≡ total (flagged hshm_bits 3 segments) % u64_mod)
    × ((make_bulk hshm_bits segments 3 read_only).0 ≡ (
        if total (flagged hshm_bits 3 segments) % u64_mod == 0
        then none
        else some
            (record { segments = map segment (flagged hshm_bits 3 segments); mode = read_only })))
make_bulk-flagged_example = make_bulk-flagged hshm_bits segments 3 read_only
