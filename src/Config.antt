-- ===== src/Config.antt =====
-- include/test_networks/config_server.h: the configuration that a program reads from its
-- arguments. `hshm::ConfigParse` is not in the repository: it is the argument `cp`.
pub mod Atoi
pub mod Laws
mod Tests
use ppi_chi_nettest.Base.{
  ℕ, Bool, not, false, List, [], ◌∷◌, ◌++◌, none, some, ◌==◌, if◌then◌else◌, length, get_elem?,
}
use ppi_chi_nettest.Base.Text.{Text, codes, text_eq, is_empty}
use ppi_chi_nettest.Base.Int.{ℤ, pos}
use ppi_chi_nettest.Base.Outcome.{Outcome, ok, fatal, undefined, ◌>>=◌}
use ppi_chi_nettest.Config.Atoi.{atoi}

pub record RpcInfo : Type 0 where
  pub host_file : Text
  pub host_names : List Text
  pub protocol : Text
  pub domain : Text
  pub port : ℤ
  pub num_threads : ℤ

pub record ServerConfig : Type 0 where
  pub rpc : RpcInfo
  pub io_size : ℕ
  pub md_size : ℕ
  pub rep : ℕ
  pub sleep : ℕ
  pub test : Text
  pub local_only : Bool

-- The three functions of `hshm::ConfigParse` that are called; each may end the program.
pub record ConfigParse : Type 0 where
  pub expand_path : Text → Outcome Text
  pub parse_hostfile : Text → Outcome (List Text)
  pub parse_size : Text → Outcome ℕ

-- `argv[i]`
unfoldable pub arg : List Text → ℕ → Outcome Text
arg argv i = elim (get_elem? argv i) [ none ↦ undefined | some s ↦ ok s ]

-- The host names of a host file, or `localhost` behind those that are there already.
unfoldable pub read_hosts : ConfigParse → Text → List Text → Outcome (List Text)
read_hosts cp host_file old =
    if not (is_empty host_file)
    then cp.parse_hostfile host_file
    else ok (old ++ codes "localhost" ∷ [])

unfoldable pub benchmark_init : ConfigParse → List Text → ServerConfig → Outcome ServerConfig
unfolding arg read_hosts atoi
benchmark_init cp argv self = if not (length argv == 11) then fatal else do
  test ← arg argv 1
  host_file ← cp.expand_path (← arg argv 2)
  host_names ← read_hosts cp host_file self.rpc.host_names
  domain ← arg argv 3
  protocol ← arg argv 4
  port ← atoi (← arg argv 5)
  num_threads ← atoi (← arg argv 6)
  io_size ← cp.parse_size (← arg argv 7)
  md_size ← cp.parse_size (← arg argv 8)
  rep ← cp.parse_size (← arg argv 9)
  sleep ← cp.parse_size (← arg argv 10)
  ok (record {
    rpc = record {
      host_file = host_file;
      host_names = host_names;
      protocol = protocol;
      domain = domain;
      port = port;
      num_threads = num_threads;
    };
    io_size = io_size;
    md_size = md_size;
    rep = rep;
    sleep = sleep;
    test = test;
    local_only = self.local_only;
  })

unfoldable pub ping_init : ConfigParse → List Text → ServerConfig → Outcome ServerConfig
unfolding arg read_hosts atoi
ping_init cp argv self = if not (length argv == 7) then fatal else do
  host_file ← cp.expand_path (← arg argv 1)
  host_names ← read_hosts cp host_file self.rpc.host_names
  protocol ← arg argv 2
  domain ← arg argv 3
  port ← atoi (← arg argv 4)
  test ← arg argv 5
  scope ← arg argv 6
  ok (record self {
    rpc = record {
      host_file = host_file;
      host_names = host_names;
      protocol = protocol;
      domain = domain;
      port = port;
      num_threads = pos 2;
    };
    test = test;
    local_only = text_eq scope (codes "local");
  })
