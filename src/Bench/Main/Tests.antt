-- ===== src/Bench/Main/Tests.antt =====
-- A run of the benchmark's `main`, and its ping test on node 1.
use ppi_chi_nettest.Base.{
  ◌≡◌, refl, false, List, [], ◌∷◌, ◌++◌, some, if◌then◌else◌, arith, length, ◌∙◌,
}
use ppi_chi_nettest.Base.Text.{Text, codes, is_empty, to_string}
use ppi_chi_nettest.Base.Int.{pos, int_to_string}
use ppi_chi_nettest.Base.Outcome.{ok, throws, margo_exception}
use ppi_chi_nettest.Bitfield.{hshm_bits}
use ppi_chi_nettest.Config.{ServerConfig, ConfigParse, benchmark_init, read_hosts}
use ppi_chi_nettest.Config.Laws.{bench_args, benchmark_init-bench_args}
use ppi_chi_nettest.RpcContext
use ppi_chi_nettest.RpcContext.{
  RpcContext, with_config, get_my_rpc_address, get_rpc_address, get_protocol,
}
use ppi_chi_nettest.RpcContext.Init.{server_init-all}
use ppi_chi_nettest.RpcContext.Tests.{
  env, blank, names, hosts, listed, first_local, config_of, ready, ready_config, ready-IsReady,
}
use ppi_chi_nettest.Thallium.Action.{nothing, metadata}
use ppi_chi_nettest.Thallium.Rpc.{ThalliumRpc}
use ppi_chi_nettest.Thallium.Init
use ppi_chi_nettest.Thallium.Calls.{IsConnected, request_to, requests, AllReach}
use ppi_chi_nettest.Thallium.Calls.Stop.{all_answered}
use ppi_chi_nettest.Thallium.Tests.{losing, new_rpc, serving}
use ppi_chi_nettest.Bench.Ping.{count_answered}
use ppi_chi_nettest.Bench.Main.{IoMemory, tested, drive, main, serves}
use ppi_chi_nettest.Bench.Main.Whole.{drive-ping, drive_elsewhere}
use ppi_chi_nettest.Bench.Main.Start.{main-drive}
use ppi_chi_nettest.Cluster.{Cluster, Reach, returned, HasResponded}
use ppi_chi_nettest.Cluster.Safety.{IsStopping, returned-early}
use ppi_chi_nettest.Cluster.Started.{Started, Started-Serves, Started-AllServe, bench_main-Started}
use ppi_chi_nettest.Cluster.Whole.{by, benchmark-IsStopping}

abbrev first : RpcContext
first = record ready { node_id = 1 }

abbrev first_rpc : ThalliumRpc
first_rpc = record serving { rpc = some first }

first_connected : IsConnected first_rpc first
first_connected = record {
  context = refl;
  client = refl;
  listed = record {
    numbered = ready-IsReady.listed.numbered;
    low = omega arith;
    high = omega arith;
    few = omega arith;
  };
}

abbrev memory : IoMemory
memory = record { ret_node = 0; data_ptr = 4096 }

abbrev ping_config : ServerConfig
ping_config = record ready_config { test = codes "ping" }

reach : AllReach losing 2 2
reach = (λ e. cc, (λ e. cc, tt))

drive-ping_example : drive hshm_bits losing first_rpc first ping_config memory [] ≡ (
  if all_answered losing 2 2
      then ok (tested (some (count_answered losing 0 2)))
      else throws margo_exception,
  requests (request_to first_rpc (codes "RpcPing") (metadata [])) 2 1
      ++ requests (request_to first_rpc (codes "RpcStopDaemon") nothing) 2 1,
)
drive-ping_example = drive-ping hshm_bits losing first_connected ping_config memory refl refl reach

abbrev parser : ConfigParse
parser = record {
  expand_path = λ path. ok path;
  parse_hostfile = λ file. ok names;
  parse_size = λ text. ok (length text);
}

abbrev arguments : List Text
arguments =
    bench_args (codes "b") (codes "ping") (codes "h") (codes "d") (codes "tcp") (pos 8080) (pos 2)
      (codes "4k") (codes "1") (codes "1") (codes "0")

abbrev info0 : ServerConfig
info0 = config_of [] false

abbrev info : ServerConfig
info = record {
  rpc = record {
    host_file = codes "h";
    host_names = names;
    protocol = codes "tcp";
    domain = codes "d";
    port = pos 8080;
    num_threads = pos 2;
  };
  io_size = 2;
  md_size = 1;
  rep = 1;
  sleep = 1;
  test = codes "ping";
  local_only = false;
}

hosts_named : read_hosts parser (codes "h") [] ≡ ok names
unfolding read_hosts is_empty
hosts_named = refl

parsed : benchmark_init parser arguments info0 ≡ ok info
parsed =
    benchmark_init-bench_args parser info0 (codes "b") (codes "ping") (codes "h") (codes "h")
      (codes "d") (codes "tcp") names (pos 8080) (pos 2) (codes "4k") (codes "1") (codes "1")
      (codes "0") 2 1 1 1 (omega arith) (omega arith) refl hosts_named refl refl refl refl

abbrev rpc : RpcContext
rpc = record (with_config info blank) { hosts = hosts; node_id = 2 }

started_here : RpcContext.server_init env info blank ≡ ok rpc
started_here = (server_init-all env info blank hosts refl (omega arith) listed 1 first_local refl).0

abbrev started_rpc : ThalliumRpc
started_rpc = record serving { rpc = some rpc }

served_here : Init.server_init losing rpc new_rpc ≡ ok started_rpc
unfolding Init.server_init get_my_rpc_address get_rpc_address get_protocol int_to_string is_empty
    to_string
served_here = refl

main-drive_example :
    (self : ThalliumRpc) × IsConnected self rpc
    × (self.defined ≡ codes "RpcStopDaemon" ∷ codes "RpcPing" ∷ codes "RpcTaskSubmit" ∷ [])
    × (main hshm_bits env parser losing arguments info0 blank new_rpc memory []
        ≡ drive hshm_bits losing self rpc info memory [])
main-drive_example =
    main-drive hshm_bits env parser losing arguments info0 info blank rpc new_rpc started_rpc memory
      [] refl parsed (omega arith) started_here served_here

-- The second node comes to serve, and two such nodes can be stopped.
abbrev second : ThalliumRpc
second =
    (main-drive hshm_bits env parser losing arguments info0 info blank rpc new_rpc started_rpc
      memory [] refl parsed (omega arith) started_here served_here).0

second_connected : IsConnected second rpc
second_connected =
    (main-drive hshm_bits env parser losing arguments info0 info blank rpc new_rpc started_rpc
      memory [] refl parsed (omega arith) started_here served_here).1

came_to_serve :
    main hshm_bits env parser losing arguments info0 blank new_rpc memory []
    ≡ (ok (serves second), [])
came_to_serve =
    (main-drive hshm_bits env parser losing arguments info0 info blank rpc new_rpc started_rpc
      memory [] refl parsed (omega arith) started_here served_here).3
    ∙ drive_elsewhere hshm_bits losing second_connected info memory [] refl

second_started : Started second
second_started =
    bench_main-Started hshm_bits env parser losing arguments info0 blank new_rpc memory []
      came_to_serve

abbrev end :
    (s : Cluster) × Reach 2 1 (λ n. second) s × (s.phase ≡ returned) × (s.procs ≡ λ n. second)
end =
    returned-early (Started-AllServe (λ n low high. second_started))
      (Started-Serves second_started).client

benchmark-IsStopping_example : HasResponded (end.0.handler 2) × IsStopping end.0 2
benchmark-IsStopping_example =
    benchmark-IsStopping second_started
      (λ n low high.
        by hshm_bits env parser losing arguments info0 blank new_rpc memory [] came_to_serve)
      end.1 end.2 2 (omega arith) (omega arith)
