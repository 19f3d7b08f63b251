-- ===== src/RpcContext/Address.antt =====
-- The lookups by node number and the addresses made from them.
use ppi_chi_nettest.Base.{
  ℕ, zero, suc, ◌-◌, ◌%◌, ◌<◌, ◌≤◌, ◌≡◌, ◌⊎◌, true, false, ◌||◌, ◌++◌, List, [], ◌∷◌, some, arith,
  ◌==◌, ltb, if◌then◌else◌, length, get_elem?, get_elem?_lt, u32_mod,
}
use ppi_chi_nettest.Base.Text.{Text, codes, text_eq, is_empty}
use ppi_chi_nettest.Base.Int.{int_to_string}
use ppi_chi_nettest.Base.Outcome.{ok, fatal, throws, runtime_error}
use ppi_chi_nettest.Config.{ServerConfig}
use ppi_chi_nettest.RpcContext.{
  HostInfo, HostEnv, RpcContext, get_ip_address, host_at, get_host_name_from_node_id,
  get_ip_address_from_node_id, get_rpc_address, get_my_rpc_address, the_config,
}
use ppi_chi_nettest.RpcContext.Init.{Collected}
use ppi_chi_nettest.RpcContext.Ready.{IsReady}

module _ (self : RpcContext) (node_id : ℕ) (few : length self.hosts < u32_mod) where
  -- A node number from 1 to the number of hosts has a host, and both lookups answer from it.
  pub lookup_inside :
      1 ≤ node_id
      → node_id ≤ length self.hosts
      → (h : HostInfo) × (get_elem? self.hosts (node_id - 1) ≡ some h)
        × (get_ip_address_from_node_id self node_id ≡ ok h.ip_addr)
        × (get_host_name_from_node_id self node_id ≡ ok h.hostname)
  unfolding get_ip_address_from_node_id get_host_name_from_node_id
  lookup_inside low high =
      let (h, at) = get_elem?_lt self.hosts (node_id - 1) (omega arith) in
      let inside : (node_id == 0 || ltb (length self.hosts % u32_mod) node_id) ≡ false =
        ground arith in
      (h, at, rw (inside, host_at, at), rw (inside, host_at, at))

  -- In a context of fewer than 2^32 hosts, node number 0 and every number above the number of
  -- hosts is refused: by an exception in the one lookup, by the end of the program in the
  -- other.
  pub lookup_outside :
      (node_id ≡ 0) ⊎ (length self.hosts < node_id)
      → (get_ip_address_from_node_id self node_id ≡ throws runtime_error)
        × (get_host_name_from_node_id self node_id ≡ fatal)
  unfolding get_ip_address_from_node_id get_host_name_from_node_id
  lookup_outside out =
      let outside : (node_id == 0 || ltb (length self.hosts % u32_mod) node_id) ≡ true =
        ground arith in
      (rw outside, rw outside)

Collected-at :
    (env : HostEnv) (names : List Text) (n : ℕ) (hosts : List HostInfo) (i : ℕ) (name : Text)
    (h : HostInfo)
    → Collected env names n hosts
    → get_elem? names i ≡ some name
    → get_elem? hosts i ≡ some h
    → (get_ip_address env name ≡ ok h.ip_addr) × (h.hostname ≡ name)
Collected-at env [] n hosts i name h c a b = cc
Collected-at env (x ∷ names) n [] i name h c a b = cc
Collected-at env (x ∷ names) n (y ∷ hosts) zero name h c a b = (cc (c.1), cc (c.0))
Collected-at env (x ∷ names) n (y ∷ hosts) (suc i) name h c a b =
    Collected-at env names (suc n) hosts i name h c.3 a b

-- In a context of fewer than 2^32 hosts that lists `names` as `ServerInit` does, node k, from 1
-- to the number of hosts, has the k-th name, and the address that was looked up for it.
pub lookup-Collected :
    (env : HostEnv) (names : List Text) (self : RpcContext) (node_id : ℕ) (name : Text)
    → length self.hosts < u32_mod
    → Collected env names 1 self.hosts
    → 1 ≤ node_id
    → node_id ≤ length self.hosts
    → get_elem? names (node_id - 1) ≡ some name
    → (get_ip_address_from_node_id self node_id ≡ get_ip_address env name)
      × (get_host_name_from_node_id self node_id ≡ ok name)
lookup-Collected env names self node_id name few c low high named =
    let (h, at, ip, host) = lookup_inside self node_id few low high in
    let (looked, same) = Collected-at env names 1 self.hosts (node_id - 1) name h c named at in
    (cc (ip, looked), cc (host, same))

-- protocol://[domain/]host:port, as a server of the configuration listens to.
abbrev pub address_text : ServerConfig → Text → Text → Text
address_text config host port =
    (if is_empty config.rpc.domain
      then config.rpc.protocol ++ codes "://"
      else (config.rpc.protocol ++ codes "://") ++ (config.rpc.domain ++ codes "/"))
    ++ (host ++ (codes ":" ++ port))

-- On a context as `ServerInit` leaves it this node has an address: `shm` for the protocol of
-- that name, else one of protocol, domain if there is one, this host's name and the configured
-- port.
pub get_my_rpc_address-IsReady :
    (config : ServerConfig) (self : RpcContext)
    → IsReady config self
    → (h : HostInfo) × (get_elem? self.hosts (self.node_id - 1) ≡ some h)
      × (get_my_rpc_address self
          ≡ ok (
              if text_eq config.rpc.protocol (codes "shm")
              then codes "shm"
              else address_text config h.hostname (int_to_string config.rpc.port)))
unfolding get_my_rpc_address get_rpc_address the_config
get_my_rpc_address-IsReady config self r =
    let (h, at, ip, host) =
      lookup_inside self self.node_id (omega (arith, r.listed.few)) r.listed.low r.listed.high in
    (h, at, ground (arith, r.configured, r.port, host))
