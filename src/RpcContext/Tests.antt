-- ===== src/RpcContext/Tests.antt =====
-- Runs of the context at a system of two hosts, the second of which is this one.
use ppi_chi_nettest.Base.{
  ◌≡◌, ◌≢◌, refl, ◌↔◌, ◌⊎◌, Bool, true, false, List, [], ◌∷◌, none, some, ◌==◌, if◌then◌else◌,
  arith, get_elem?, All,
}
use ppi_chi_nettest.Base.Text.{Text, codes}
use ppi_chi_nettest.Base.Int.{pos}
use ppi_chi_nettest.Base.Outcome.{ok, fatal}
use ppi_chi_nettest.Config.{ServerConfig}
use ppi_chi_nettest.RpcContext.{
  HostInfo, HostEnv, RpcContext, is_address_local, get_ip_address, collect, with_config,
  server_init, get_host_name_from_node_id, get_ip_address_from_node_id,
}
use ppi_chi_nettest.RpcContext.Lookup.{SomeBinds, is_address_local_iff, FirstLocal, found, later}
use ppi_chi_nettest.RpcContext.Init.{
  Collected, server_init-all, server_init-local, server_init-nowhere,
}
use ppi_chi_nettest.RpcContext.Ready.{AreListed, IsReady, server_init-IsReady}
use ppi_chi_nettest.RpcContext.Address.{lookup-Collected}

abbrev pub here : Text
here = codes "10.0.0.2"

abbrev pub there : Text
there = codes "10.0.0.1"

abbrev pub env : HostEnv
env = record {
  has_hints = true;
  interfaces = some (none ∷ some 7 ∷ []);
  gethostbyname = λ name. record { result = 0; addr_list = some (7 ∷ []) };
  inet_ntop = λ a. some (if a == 7 then here else there);
}

abbrev far_env : HostEnv
far_env = record env { interfaces = some (some 9 ∷ []) }

abbrev pub config_of : List Text → Bool → ServerConfig
config_of names only = record {
  rpc = record {
    host_file = [];
    host_names = names;
    protocol = codes "tcp";
    domain = codes "d";
    port = pos 8080;
    num_threads = pos 2;
  };
  io_size = 0;
  md_size = 0;
  rep = 0;
  sleep = 0;
  test = [];
  local_only = only;
}

abbrev pub names : List Text
names = there ∷ here ∷ []

abbrev pub blank : RpcContext
blank = record {
  port = pos 0;
  protocol = [];
  domain = [];
  hosts = [];
  neighborhood_size = 0;
  node_id = 0;
  num_threads = 0;
  config = none;
}

abbrev pub hosts : List HostInfo
hosts =
    record { hostname = there; ip_addr = there; node_id = 1 }
    ∷ record { hostname = here; ip_addr = here; node_id = 2 }
    ∷ []

abbrev pub ready_config : ServerConfig
ready_config = config_of names false

abbrev pub ready : RpcContext
ready = record (with_config ready_config blank) { hosts = hosts; node_id = 2 }

pub listed : collect env names 1 ≡ ok hosts
unfolding collect get_ip_address
listed = refl

pub first_local : FirstLocal env hosts 1
unfolding is_address_local
first_local = later refl (found refl)

fresh : blank.hosts ≢ [] → AreListed blank
fresh h = absurd (h refl)

pub started : server_init env ready_config blank ≡ ok ready
started =
    (server_init-all env ready_config blank hosts refl (omega arith) listed 1 first_local refl).0

pub ready-IsReady : IsReady ready_config ready
ready-IsReady = server_init-IsReady env ready_config blank (omega arith) fresh started

server_init-IsReady_example : IsReady ready_config ready
server_init-IsReady_example = server_init-IsReady env ready_config blank (omega arith) fresh started

server_init-all_example :
    (server_init env ready_config blank ≡ ok ready) × Collected env names 1 hosts
server_init-all_example =
    server_init-all env ready_config blank hosts refl (omega arith) listed 1 first_local refl

server_init-local_example :
    (h : HostInfo) × (get_elem? hosts 1 ≡ some h)
    × (server_init env (config_of names true) blank
        ≡ ok (record (with_config (config_of names true) blank) {
          hosts = record h { node_id = 1 } ∷ [];
          node_id = 1;
        }))
server_init-local_example =
    server_init-local env (config_of names true) blank hosts refl (omega arith) listed 1 first_local
      refl

abbrev only_here : List HostInfo
only_here = record { hostname = here; ip_addr = here; node_id = 1 } ∷ []

none_local : All (λ (h : HostInfo). is_address_local far_env h.ip_addr ≡ ok false) only_here
unfolding is_address_local
none_local = (refl, tt)

here_listed : collect far_env (here ∷ []) 1 ≡ ok only_here
unfolding collect get_ip_address
here_listed = refl

server_init-nowhere_example : server_init far_env (config_of (here ∷ []) false) blank ≡ fatal
server_init-nowhere_example =
    server_init-nowhere far_env (config_of (here ∷ []) false) blank only_here refl (omega arith)
      here_listed none_local

lookup-Collected_example :
    (get_ip_address_from_node_id ready 2 ≡ get_ip_address env here)
    × (get_host_name_from_node_id ready 2 ≡ ok here)
lookup-Collected_example =
    lookup-Collected env names ready 2 here (omega arith) server_init-all_example.1 (omega arith)
      (omega arith) refl

is_address_local_iff_example :
    ((is_address_local env here ≡ ok true) ⊎ (is_address_local env here ≡ ok false))
    × ((is_address_local env here ≡ ok true) ↔ SomeBinds env here (none ∷ some 7 ∷ []))
is_address_local_iff_example =
    is_address_local_iff env here (none ∷ some 7 ∷ []) refl refl (tt, ((here, refl), tt))
