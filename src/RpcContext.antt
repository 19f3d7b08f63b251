-- ===== src/RpcContext.antt =====
-- include/test_networks/rpc.h: the hosts of a run and the addresses of their servers. What the
-- operating system and libfabric answer is the argument `env`.
pub mod Lookup
pub mod Init
pub mod Ready
pub mod Address
pub mod Tests
use ppi_chi_nettest.Base.{
  ℕ, suc, ◌+◌, ◌-◌, ◌%◌, Bool, true, false, not, ◌&&◌, ◌||◌, List, [], ◌∷◌, ◌++◌, Option, none,
  some, ◌==◌, ltb, leb, if◌then◌else◌, u32_mod, length, get_elem?,
}
use ppi_chi_nettest.Base.Text.{Text, codes, text_eq, is_empty, is_digit, to_string}
use ppi_chi_nettest.Base.Int.{ℤ, to_u32, int_bound, int_to_string}
use ppi_chi_nettest.Base.Outcome.{Outcome, ok, fatal, throws, runtime_error, undefined, ◌>>=◌}
use ppi_chi_nettest.Config.{ServerConfig}

pub record HostInfo : Type 0 where
  pub hostname : Text
  pub ip_addr : Text
  pub node_id : ℕ

unfoldable pub host_info : Text → Text → ℕ → HostInfo
host_info hostname ip_addr node_id = record {
  hostname = hostname;
  ip_addr = ip_addr;
  node_id = node_id;
}

-- `config_` is the configuration that the pointer refers to, once it is set.
pub record RpcContext : Type 0 where
  pub port : ℤ
  pub protocol : Text
  pub domain : Text
  pub hosts : List HostInfo
  pub neighborhood_size : ℕ
  pub node_id : ℕ
  pub num_threads : ℕ
  pub config : Option ServerConfig

-- What `gethostbyname_r` leaves: its result, and `h_addr_list`, which may be a null pointer.
pub record HostEntry : Type 0 where
  pub result : ℕ
  pub addr_list : Option (List ℕ)

-- The answers of the system. `interfaces` is the list that `fi_getinfo` finds, with the source
-- address of each entry that has one, or nothing if the call fails; `inet_ntop` may fail too.
pub record HostEnv : Type 0 where
  pub has_hints : Bool
  pub interfaces : Option (List (Option ℕ))
  pub gethostbyname : Text → HostEntry
  pub inet_ntop : ℕ → Option Text

-- The loop of `_IsAddressLocal`; `ip` is read although it was not written where `inet_ntop` fails.
local_loop : HostEnv → Text → List (Option ℕ) → Outcome Bool
local_loop env addr [] = ok false
local_loop env addr (none ∷ infos) = local_loop env addr infos
local_loop env addr (some src_addr ∷ infos) =
    let rest = local_loop env addr infos in
    elim (env.inet_ntop src_addr) [
      | none ↦ undefined
      | some ip ↦ if text_eq addr ip then ok true else rest
    ]

-- `_IsAddressLocal`
unfoldable pub is_address_local : HostEnv → Text → Outcome Bool
unfolding local_loop
is_address_local env addr =
    if not env.has_hints
    then fatal
    else elim env.interfaces [ none ↦ fatal | some infos ↦ local_loop env addr infos ]

-- `std::count(…, '.')`
pub count_dots : Text → ℕ
count_dots [] = 0
count_dots (c ∷ s) = if c == b'.' then suc (count_dots s) else count_dots s

-- The loop that clears `is_ip`; `std::isdigit` is undefined on a negative `char`.
ip_chars : Text → Outcome Bool
ip_chars [] = ok true
ip_chars (c ∷ s) =
    let rest = ip_chars s in
    if c == b'.'
    then rest
    else if leb 128 c
    then undefined
    else if is_digit c
    then rest
    else ok false

pub resolve : HostEnv → Text → Outcome Text
resolve env host_name =
    let entry = env.gethostbyname host_name in
    if not (entry.result == 0) then fatal else elim entry.addr_list [
      | none ↦ undefined
      | some [] ↦ fatal
      | some (a ∷ more) ↦ elim (env.inet_ntop a) [ none ↦ fatal | some ip ↦ ok ip ]
    ]

-- `_GetIpAddress`
unfoldable pub get_ip_address : HostEnv → Text → Outcome Text
unfolding count_dots ip_chars resolve
get_ip_address env host_name =
    if count_dots host_name == 3
    then (do is_ip ← ip_chars host_name; if is_ip then ok host_name else resolve env host_name)
    else resolve env host_name

-- The loop of `_FindThisHost`, from `node_id` on.
pub find_loop : HostEnv → List HostInfo → ℕ → Outcome ℕ
find_loop env [] node_id = fatal
find_loop env (host ∷ hosts) node_id = do
  found ← is_address_local env host.ip_addr
  if found
      then ok node_id
      else if suc node_id == int_bound
      then undefined
      else find_loop env hosts (suc node_id)

-- `_FindThisHost`
unfoldable pub find_this_host : HostEnv → List HostInfo → Outcome ℕ
unfolding find_loop
find_this_host env hosts = find_loop env hosts 1

-- The loop of `ServerInit` over the host names, from `node_id` on.
unfoldable pub collect : HostEnv → List Text → ℕ → Outcome (List HostInfo)
unfolding host_info
collect env [] node_id = ok []
collect env (name ∷ names) node_id = do
  ip ← get_ip_address env name
  rest ← collect env names ((node_id + 1) % u32_mod)
  ok (host_info name ip node_id ∷ rest)

-- The end of `ServerInit`: with `local_only_` this host alone is kept, as node 1.
unfoldable pub reset_ids : ServerConfig → RpcContext → Outcome RpcContext
reset_ids config self =
    if config.local_only
    then elim (get_elem? self.hosts (self.node_id - 1)) [
      | none ↦ undefined
      | some this_host ↦
          ok (record self { node_id = 1; hosts = record this_host { node_id = 1 } ∷ [] })
    ]
    else ok self

-- The copies that `ServerInit` takes from the configuration.
abbrev pub with_config : ServerConfig → RpcContext → RpcContext
with_config config self = record self {
  config = some config;
  port = config.rpc.port;
  protocol = config.rpc.protocol;
  domain = config.rpc.domain;
  num_threads = to_u32 config.rpc.num_threads;
}

-- `RpcContext::ServerInit`
unfoldable pub server_init : HostEnv → ServerConfig → RpcContext → Outcome RpcContext
unfolding collect find_this_host reset_ids
server_init env config self =
    let ctx = with_config config self in
    if not (length ctx.hosts == 0) then ok ctx else do
      hosts ← collect env config.rpc.host_names 1
      this ← find_this_host env hosts
      let node_id = this % u32_mod
      if node_id == 0 || ltb (length hosts % u32_mod) node_id
          then fatal
          else reset_ids config (record ctx { hosts = hosts; node_id = node_id })

-- `config_->…`, a null or wild pointer before `ServerInit`.
unfoldable pub the_config : RpcContext → Outcome ServerConfig
the_config self = elim self.config [ none ↦ undefined | some config ↦ ok config ]

-- `hosts_[index]`
unfoldable pub host_at : RpcContext → ℕ → Outcome HostInfo
host_at self index = elim (get_elem? self.hosts index) [ none ↦ undefined | some host ↦ ok host ]

unfoldable pub get_host_name_from_node_id : RpcContext → ℕ → Outcome Text
unfolding host_at
get_host_name_from_node_id self node_id =
    if node_id == 0 || ltb (length self.hosts % u32_mod) node_id
    then fatal
    else do host ← host_at self (node_id - 1); ok host.hostname

unfoldable pub get_ip_address_from_node_id : RpcContext → ℕ → Outcome Text
unfolding host_at
get_ip_address_from_node_id self node_id =
    if node_id == 0 || ltb (length self.hosts % u32_mod) node_id
    then throws runtime_error
    else do host ← host_at self (node_id - 1); ok host.ip_addr

unfoldable pub get_rpc_address : RpcContext → ℕ → ℤ → Outcome Text
unfolding the_config get_host_name_from_node_id
get_rpc_address self node_id port = do
  config ← the_config self
  if text_eq config.rpc.protocol (codes "shm") then ok (codes "shm") else do
    let start = config.rpc.protocol ++ codes "://"
    let domain = config.rpc.domain
    let result = if not (is_empty domain) then start ++ (domain ++ codes "/") else start
    host_name ← get_host_name_from_node_id self node_id
    ok (result ++ (host_name ++ (codes ":" ++ int_to_string port)))

unfoldable pub get_my_rpc_address : RpcContext → Outcome Text
unfolding get_rpc_address
get_my_rpc_address self = get_rpc_address self self.node_id self.port

unfoldable pub get_protocol : RpcContext → Outcome Text
unfolding the_config
get_protocol self = do config ← the_config self; ok config.rpc.protocol

abbrev pub num_hosts : RpcContext → ℕ
num_hosts self = length self.hosts
