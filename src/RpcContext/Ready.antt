-- ===== src/RpcContext/Ready.antt =====
-- The state that `ServerInit` leaves: the invariant that the lookups by node number rely on.
use ppi_chi_nettest.Base.{
  ℕ, suc, ◌+◌, ◌-◌, ◌%◌, ◌<◌, ◌≤◌, ◌≡◌, ◌≢◌, refl, subst, ◌∙◌, false, ◌||◌, List, [], ◌∷◌, some,
  arith, ◌==◌, ltb, length, get_elem?, Bool-cases, Option-cases, if◌then◌else◌, ◌⊎◌, sym, inl, inr,
  u32_mod,
}
use ppi_chi_nettest.Base.Int.{int_bound}
use ppi_chi_nettest.Base.Outcome.{Outcome, ok, fatal, ◌>>=◌, >>=-eq-ok, ok-injective}
use ppi_chi_nettest.Config.{ServerConfig}
use ppi_chi_nettest.RpcContext.{
  HostInfo, HostEnv, RpcContext, find_this_host, collect, reset_ids, with_config, server_init,
}
use ppi_chi_nettest.RpcContext.Lookup.{FirstLocal-lt}
use ppi_chi_nettest.RpcContext.Init.{
  IsNumbered, collect-Collected, Collected-IsNumbered, length-Collected, FirstLocal-find_loop,
}

-- The hosts are numbered from 1, and this host is one of them.
pub record AreListed (ctx : RpcContext) : Type 0 where
  pub numbered : IsNumbered 1 ctx.hosts
  pub low : 1 ≤ ctx.node_id
  pub high : ctx.node_id ≤ length ctx.hosts
  pub few : length ctx.hosts < int_bound

pub record IsReady (config : ServerConfig) (ctx : RpcContext) : Type 0 where
  pub listed : AreListed ctx
  pub configured : ctx.config ≡ some config
  pub protocol : ctx.protocol ≡ config.rpc.protocol
  pub port : ctx.port ≡ config.rpc.port

reset_ids-IsReady :
    (config : ServerConfig) (self : RpcContext) {ctx : RpcContext}
    → AreListed self
    → self.config ≡ some config
    → self.protocol ≡ config.rpc.protocol
    → self.port ≡ config.rpc.port
    → reset_ids config self ≡ ok ctx
    → IsReady config ctx
unfolding reset_ids
reset_ids-IsReady config self {ctx} listed c p q e = elim (Bool-cases config.local_only) [
  | inl only ↦ elim (Option-cases (get_elem? self.hosts (self.node_id - 1))) [
    | inl outside ↦ cc (rw (only, outside) at e)
    | inr (h, at) ↦ subst (IsReady config) (ok-injective (rw (only, at) at e)) (record {
      listed = record {
        numbered = (refl, tt);
        low = omega arith;
        high = omega arith;
        few = omega arith;
      };
      configured = c;
      protocol = p;
      port = q;
    })
  ]
  | inr all ↦
      subst (IsReady config) (ok-injective (rw all at e))
        (record { listed = listed; configured = c; protocol = p; port = q })
]

List-cases {ℓ} : {A : Type ℓ} (l : List A) → (l ≡ []) ⊎ ((l ≢ []) × ((length l == 0) ≡ false))
List-cases [] = inl refl
List-cases (x ∷ xs) = inr (λ e. cc, ground arith)

module _ (env : HostEnv) (config : ServerConfig) (self : RpcContext) where
  -- What `ServerInit` does with the hosts that it collected.
  choose : List HostInfo → ℕ → Outcome RpcContext
  choose hosts this =
      if this % u32_mod == 0 || ltb (length hosts % u32_mod) (this % u32_mod)
      then fatal
      else reset_ids config
          (record (with_config config self) { hosts = hosts; node_id = this % u32_mod })

  server_init-empty :
      self.hosts ≡ []
      → server_init env config self ≡ (
          collect env config.rpc.host_names 1 >>= λ hosts.
          find_this_host env hosts >>= λ this. choose hosts this)
  unfolding server_init choose
  server_init-empty none_yet = simp none_yet

  choose-IsReady :
      (hosts : List HostInfo) (i : ℕ) {ctx : RpcContext}
      → IsNumbered 1 hosts
      → length hosts < int_bound
      → i < length hosts
      → choose hosts (1 + i) ≡ ok ctx
      → IsReady config ctx
  unfolding choose
  choose-IsReady hosts i numbered few inside e =
      let whole : (1 + i) % u32_mod ≡ suc i = omega arith in
      let named : (suc i == 0) ≡ false = ground arith in
      let within : ltb (length hosts % u32_mod) (suc i) ≡ false = ground arith in
      reset_ids-IsReady config (record (with_config config self) { hosts = hosts; node_id = suc i })
        (record { numbered = numbered; low = omega arith; high = inside; few = few }) refl refl refl
        (rw (whole, named, within) at e)

  -- For fewer than 2^31 - 1 host names, and a context that has no hosts or lists them as
  -- `AreListed` says: whenever `ServerInit` returns, the hosts are numbered from 1, this host
  -- is one of them, and configuration, protocol and port are those that were given.
  pub server_init-IsReady :
      {ctx : RpcContext}
      → length config.rpc.host_names < int_bound - 1
      → (self.hosts ≢ [] → AreListed self)
      → server_init env config self ≡ ok ctx
      → IsReady config ctx
  unfolding server_init find_this_host
  server_init-IsReady few old e = elim (List-cases self.hosts) [
    | inl none_yet ↦
        let (hosts, listed, e') = >>=-eq-ok _ _ (sym (server_init-empty none_yet) ∙ e) in
        let (this, searched, e'') = >>=-eq-ok (find_this_host env hosts) _ e' in
        let (i, f, shape) = FirstLocal-find_loop env hosts 1 searched in
        let names = collect-Collected env config.rpc.host_names 1 hosts (omega arith) listed in
        let short : length hosts < int_bound =
          omega (arith, length-Collected env config.rpc.host_names 1 hosts names) in
        choose-IsReady hosts i (Collected-IsNumbered env config.rpc.host_names 1 hosts names) short
          (FirstLocal-lt f) (rw shape at e'')
    | inr (some_yet, more) ↦
        let kept = old some_yet in
        subst (IsReady config) (ok-injective (rw more at e)) (record {
          listed = record {
            numbered = kept.numbered;
            low = kept.low;
            high = kept.high;
            few = kept.few;
          };
          configured = refl;
          protocol = refl;
          port = refl;
        })
  ]
