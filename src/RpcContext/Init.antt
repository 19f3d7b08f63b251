-- ===== src/RpcContext/Init.antt =====
-- `ServerInit`: which hosts it lists, which of them is this host, and the invariant that the
-- lookups by node rely on.
use ppi_chi_nettest.Base.{
  ℕ, suc, ◌+◌, ◌-◌, ◌%◌, ◌<◌, ◌≤◌, ◌≡◌, refl, ap, subst, ◌∙◌, ◌⊎◌, inl, inr, true, false, List, [],
  ◌∷◌, some, arith, ◌==◌, ltb, All, length, get_elem?, get_elem?_lt, Bool-cases, u32_mod,
}
use ppi_chi_nettest.Base.Text.{Text}
use ppi_chi_nettest.Base.Int.{int_bound}
use ppi_chi_nettest.Base.Outcome.{ok, fatal, >>=-eq-ok, ok-injective}
use ppi_chi_nettest.Config.{ServerConfig}
use ppi_chi_nettest.RpcContext.{
  HostInfo, host_info, HostEnv, RpcContext, is_address_local, get_ip_address, find_loop,
  find_this_host, collect, reset_ids, with_config, server_init,
}
use ppi_chi_nettest.RpcContext.Lookup.{FirstLocal, found, later, FirstLocal-lt}

-- `hosts` answers `names` in order, with the addresses that were looked up, numbered from `n`.
abbrev pub Collected : HostEnv → List Text → ℕ → List HostInfo → Type 0
Collected env [] n [] = Unit
Collected env [] n (h ∷ hs) = ⊥
Collected env (name ∷ names) n [] = ⊥
Collected env (name ∷ names) n (h ∷ hs) =
    (h.hostname ≡ name)
    × (get_ip_address env name ≡ ok h.ip_addr)
    × (h.node_id ≡ n)
    × Collected env names (suc n) hs

abbrev pub IsNumbered : ℕ → List HostInfo → Type 0
IsNumbered n [] = Unit
IsNumbered n (h ∷ hs) = (h.node_id ≡ n) × IsNumbered (suc n) hs

-- `collect` lists every name once, in order, with its looked-up address, numbered without a gap.
pub collect-Collected :
    (env : HostEnv) (names : List Text) (n : ℕ) (hosts : List HostInfo)
    → n + length names < u32_mod
    → collect env names n ≡ ok hosts
    → Collected env names n hosts
unfolding collect host_info
collect-Collected env [] n hosts h e = subst (Collected env [] n) (ok-injective e) tt
collect-Collected env (name ∷ names) n hosts h e =
    let (ip, looked, e') = >>=-eq-ok (get_ip_address env name) _ e in
    let (rest, listed, e'') = >>=-eq-ok (collect env names ((n + 1) % u32_mod)) _ e' in
    let next : (n + 1) % u32_mod ≡ suc n = omega arith in
    let numbered : Collected env names (suc n) rest =
      collect-Collected env names (suc n) rest (omega arith) (rw (← next) listed) in
    subst (Collected env (name ∷ names) n) (ok-injective e'') (refl, looked, refl, numbered)

pub Collected-IsNumbered :
    (env : HostEnv) (names : List Text) (n : ℕ) (hosts : List HostInfo)
    → Collected env names n hosts
    → IsNumbered n hosts
Collected-IsNumbered env [] n [] c = tt
Collected-IsNumbered env [] n (h ∷ hs) c = absurd c
Collected-IsNumbered env (x ∷ names) n [] c = absurd c
Collected-IsNumbered env (x ∷ names) n (h ∷ hs) c =
    (c.2, Collected-IsNumbered env names (suc n) hs c.3)

pub length-Collected :
    (env : HostEnv) (names : List Text) (n : ℕ) (hosts : List HostInfo)
    → Collected env names n hosts
    → length hosts ≡ length names
length-Collected env [] n [] c = refl
length-Collected env [] n (h ∷ hs) c = absurd c
length-Collected env (x ∷ names) n [] c = absurd c
length-Collected env (x ∷ names) n (h ∷ hs) c = ap suc (length-Collected env names (suc n) hs c.3)

-- The search finds the first local host.
find_loop-FirstLocal :
    {env : HostEnv} (hs : List HostInfo) (n : ℕ) {i : ℕ}
    → n + length hs ≤ int_bound
    → FirstLocal env hs i
    → find_loop env hs n ≡ ok (n + i)
unfolding find_loop
find_loop-FirstLocal [] n few f = elim f [ ]
find_loop-FirstLocal (h ∷ hs) n few (found e) = rw e (ap ok (omega arith))
find_loop-FirstLocal (h ∷ hs) n {i = suc i} few (later e f) =
    let room = FirstLocal-lt f in
    let more : (suc n == int_bound) ≡ false = ground arith in
    rw (e, more, find_loop-FirstLocal hs (suc n) (omega arith) f) (ap ok (omega arith))

-- What the search returns is the first local host.
pub FirstLocal-find_loop :
    (env : HostEnv) (hs : List HostInfo) (n : ℕ) {r : ℕ}
    → find_loop env hs n ≡ ok r
    → (i : ℕ) × FirstLocal env hs i × (r ≡ n + i)
unfolding find_loop
FirstLocal-find_loop env [] n e = cc
FirstLocal-find_loop env (h ∷ hs) n {r} e =
    let (local, tested, e') = >>=-eq-ok (is_address_local env h.ip_addr) _ e in
    elim (Bool-cases local) [
      | inl yes_local ↦
          (0, found (cc (tested, yes_local)), omega (arith, ok-injective (rw yes_local at e')))
      | inr not_local ↦ elim (Bool-cases (suc n == int_bound)) [
        | inl full ↦ cc (rw (not_local, full) at e')
        | inr more ↦
            let (i, f, shape) = FirstLocal-find_loop env hs (suc n) (rw (not_local, more) at e') in
            (suc i, later (cc (tested, not_local)) f, omega (arith, shape))
      ]
    ]

-- If no host is local the search ends the program.
find_loop-none :
    (env : HostEnv) (hs : List HostInfo) (n : ℕ)
    → n + length hs ≤ int_bound
    → All (λ h. is_address_local env h.ip_addr ≡ ok false) hs
    → (find_loop env hs n ≡ fatal) ⊎ (n + length hs ≡ int_bound)
unfolding find_loop
find_loop-none env [] n few all = inl refl
find_loop-none env (h ∷ hs) n few all = elim (Bool-cases (suc n == int_bound)) [
  | inl full ↦ inr (ground arith)
  | inr more ↦ elim (find_loop-none env hs (suc n) (ground arith) all.1) [
    | inl lost ↦ inl (rw (all.0, more) lost)
    | inr full ↦ inr (omega arith)
  ]
]

module _ (env : HostEnv) (config : ServerConfig) (self : RpcContext) (hosts : List HostInfo)
    (first : self.hosts ≡ []) (few : length config.rpc.host_names < int_bound - 1)
    (listed : collect env config.rpc.host_names 1 ≡ ok hosts) where
  collected : Collected env config.rpc.host_names 1 hosts
  collected = collect-Collected env config.rpc.host_names 1 hosts (omega arith) listed

  short : length hosts < int_bound - 1
  short = omega (arith, length-Collected env config.rpc.host_names 1 hosts collected)

  -- With this host at position `i`, what is left to do is the reset for `local_only`.
  server_init-found :
      (i : ℕ)
      → FirstLocal env hosts i
      → server_init env config self
        ≡ reset_ids config (record (with_config config self) { hosts = hosts; node_id = suc i })
  unfolding server_init find_this_host
  server_init-found i f =
      let room = FirstLocal-lt f in
      let whole : suc i % u32_mod ≡ suc i = omega (arith, short) in
      let named : (suc i == 0) ≡ false = ground arith in
      let one : 1 + i ≡ suc i = omega arith in
      let inside : (ltb (length hosts % u32_mod) (suc i)) ≡ false = ground (arith, short) in
      rw (
        first,
        listed,
        find_loop-FirstLocal hosts 1 (omega (arith, short)) f,
        one,
        whole,
        named,
        inside,
      )

  -- On a context without hosts, for fewer than 2^31 - 1 names that all resolve and without
  -- `local_only_`: all hosts are listed in the order of their names, numbered from 1, and this
  -- host is the first one whose address is local.
  pub server_init-all :
      (i : ℕ)
      → FirstLocal env hosts i
      → config.local_only ≡ false
      → (server_init env config self
          ≡ ok (record (with_config config self) { hosts = hosts; node_id = suc i }))
        × Collected env config.rpc.host_names 1 hosts
  unfolding reset_ids
  server_init-all i f all = (server_init-found i f ∙ rw all, collected)

  -- On a context without hosts, for fewer than 2^31 - 1 names that all resolve and with
  -- `local_only_`: the first host whose address is local is kept alone, as node 1.
  pub server_init-local :
      (i : ℕ)
      → FirstLocal env hosts i
      → config.local_only ≡ true
      → (h : HostInfo) × (get_elem? hosts i ≡ some h)
        × (server_init env config self
            ≡ ok (record (with_config config self) {
              hosts = record h { node_id = 1 } ∷ [];
              node_id = 1;
            }))
  unfolding reset_ids
  server_init-local i f only =
      let (h, at) = get_elem?_lt hosts i (FirstLocal-lt f) in
      let back : suc i - 1 ≡ i = omega arith in
      (h, at, server_init-found i f ∙ simp (only, back, at))

  -- On a context without hosts, for fewer than 2^31 - 1 names that all resolve: if no address
  -- of theirs is local, `ServerInit` ends the program.
  pub server_init-nowhere :
      All (λ h. is_address_local env h.ip_addr ≡ ok false) hosts
      → server_init env config self ≡ fatal
  unfolding server_init find_this_host
  server_init-nowhere none_local =
      elim (find_loop-none env hosts 1 (omega (arith, short)) none_local) [
        | inl lost ↦ rw (first, listed, lost)
        | inr full ↦ absurd (omega (arith, short))
      ]
