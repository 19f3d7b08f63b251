-- ===== src/Ping/Tests.antt =====
-- Runs of the ping test on two hosts, the first of which is this one.
use ppi_chi_nettest.Base.{◌≡◌, refl, true, false, List, [], ◌∷◌, some, arith, length}
use ppi_chi_nettest.Base.Text.{Text, codes, is_empty, to_string}
use ppi_chi_nettest.Base.Int.{pos, int_to_string}
use ppi_chi_nettest.Base.Outcome.{ok}
use ppi_chi_nettest.Config.{ServerConfig, ConfigParse, read_hosts, ping_init}
use ppi_chi_nettest.Config.Laws.{ping_args, ping_init-ping_args}
use ppi_chi_nettest.RpcContext
use ppi_chi_nettest.RpcContext.{
  HostInfo, RpcContext, collect, get_ip_address, is_address_local, with_config, get_protocol,
  get_rpc_address,
}
use ppi_chi_nettest.RpcContext.Lookup.{FirstLocal, found}
use ppi_chi_nettest.RpcContext.Init.{server_init-all}
use ppi_chi_nettest.RpcContext.Tests.{env, blank, here, there, config_of, ready}
use ppi_chi_nettest.Thallium.Action.{Net, lost}
use ppi_chi_nettest.Thallium.Rpc.{running, ThalliumRpc}
use ppi_chi_nettest.Thallium.Init.{client_init}
use ppi_chi_nettest.Thallium.Calls.{AllReach}
use ppi_chi_nettest.Thallium.Tests.{net_with, losing, new_rpc, serving, connected}
use ppi_chi_nettest.Ping.{exits, ping_all, ping_all_async, main}
use ppi_chi_nettest.Ping.Async.{ping_all_async-ping_all}
use ppi_chi_nettest.Ping.Start.{main-run_client}

ping_all_async-ping_all_example :
    (ping_all_async losing serving ready []).0 ≡ (ping_all losing serving ready []).0
ping_all_async-ping_all_example = ping_all_async-ping_all losing connected []

-- The last answer is lost, the one of the second daemon to the request to stop.
abbrev late : Net
late = net_with 3 lost

abbrev names : List Text
names = here ∷ there ∷ []

abbrev hosts : List HostInfo
hosts =
    record { hostname = here; ip_addr = here; node_id = 1 }
    ∷ record { hostname = there; ip_addr = there; node_id = 2 }
    ∷ []

abbrev parser : ConfigParse
parser = record {
  expand_path = λ path. ok path;
  parse_hostfile = λ file. ok names;
  parse_size = λ text. ok (length text);
}

abbrev arguments : List Text
arguments =
    ping_args (codes "p") (codes "h") (codes "tcp") (codes "d") (pos 8080) (codes "client")
      (codes "all")

abbrev info0 : ServerConfig
info0 = config_of [] false

abbrev info : ServerConfig
info = record info0 {
  rpc = record {
    host_file = codes "h";
    host_names = names;
    protocol = codes "tcp";
    domain = codes "d";
    port = pos 8080;
    num_threads = pos 2;
  };
  test = codes "client";
}

hosts_read : read_hosts parser (codes "h") [] ≡ ok names
unfolding read_hosts is_empty
hosts_read = refl

parsed : ping_init parser arguments info0 ≡ ok info
parsed =
    ping_init-ping_args parser info0 (codes "p") (codes "h") (codes "h") (codes "tcp") (codes "d")
      (codes "client") (codes "all") names (pos 8080) (omega arith) refl hosts_read

listed : collect env names 1 ≡ ok hosts
unfolding collect get_ip_address
listed = refl

first_local : FirstLocal env hosts 0
unfolding is_address_local
first_local = found refl

abbrev context : RpcContext
context = record (with_config info blank) { hosts = hosts; node_id = 1 }

started_here : RpcContext.server_init env info blank ≡ ok context
started_here = (server_init-all env info blank hosts refl (omega arith) listed 0 first_local refl).0

abbrev client_rpc : ThalliumRpc
client_rpc = record new_rpc { client_engine = running (codes "tcp"); rpc = some context }

client_started : client_init late context new_rpc ≡ ok client_rpc
unfolding client_init get_rpc_address get_protocol int_to_string is_empty to_string
client_started = refl

reach : AllReach late 2 2
reach = (λ e. cc, (λ e. cc, tt))

main-run_client_example :
    (main env parser late arguments info0 blank new_rpc true true []).0 ≡ ok (exits 0 true)
main-run_client_example =
    main-run_client env parser late arguments info0 info blank context new_rpc parsed started_here
      client_rpc true refl (omega arith) refl refl client_started reach
