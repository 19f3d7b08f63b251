-- ===== src/Config/Laws.antt =====
-- What the two initializers accept and what they store.
use ppi_chi_nettest.Base.{
  ℕ, ◌≡◌, ◌≢◌, false, List, [], ◌∷◌, ◌++◌, ◌==◌, if◌then◌else◌, length, arith,
}
use ppi_chi_nettest.Base.Text.{Text, codes, text_eq, is_empty}
use ppi_chi_nettest.Base.Int.{ℤ, pos, IsInt, int_to_string}
use ppi_chi_nettest.Base.Outcome.{ok, fatal}
use ppi_chi_nettest.Config.{ServerConfig, ConfigParse, read_hosts, benchmark_init, ping_init}
use ppi_chi_nettest.Config.Atoi.{atoi-int_to_string}

-- The arguments of the benchmark, in the order of its usage text.
abbrev pub bench_args :
    (program test host_file domain protocol : Text) (port num_threads : ℤ)
    (io_size md_size rep sleep : Text)
    → List Text
bench_args program test host_file domain protocol port num_threads io_size md_size rep sleep =
    program
    ∷ test
    ∷ host_file
    ∷ domain
    ∷ protocol
    ∷ int_to_string port
    ∷ int_to_string num_threads
    ∷ io_size
    ∷ md_size
    ∷ rep
    ∷ sleep
    ∷ []

-- The arguments of the ping test, in the order of its usage text.
abbrev pub ping_args :
    (program host_file provider domain : Text) (port : ℤ) (test scope : Text) → List Text
ping_args program host_file provider domain port test scope =
    program ∷ host_file ∷ provider ∷ domain ∷ int_to_string port ∷ test ∷ scope ∷ []

module _ (cp : ConfigParse) (self : ServerConfig) where
  -- Arguments written in the order of the usage text reach the fields that they are named for,
  -- if port and thread count fit an `int` and the library can expand the path, read the host
  -- file and parse the sizes.
  pub benchmark_init-bench_args :
      (program test host_file path domain protocol : Text) (hosts : List Text)
      (port num_threads : ℤ) (io md rep sleep : Text) (io_n md_n rep_n sleep_n : ℕ)
      → IsInt port
      → IsInt num_threads
      → cp.expand_path host_file ≡ ok path
      → read_hosts cp path self.rpc.host_names ≡ ok hosts
      → cp.parse_size io ≡ ok io_n
      → cp.parse_size md ≡ ok md_n
      → cp.parse_size rep ≡ ok rep_n
      → cp.parse_size sleep ≡ ok sleep_n
      → benchmark_init cp
          (bench_args program test host_file domain protocol port num_threads io md rep sleep)
          self
        ≡ ok (record {
          rpc = record {
            host_file = path;
            host_names = hosts;
            protocol = protocol;
            domain = domain;
            port = port;
            num_threads = num_threads;
          };
          io_size = io_n;
          md_size = md_n;
          rep = rep_n;
          sleep = sleep_n;
          test = test;
          local_only = self.local_only;
        })
  unfolding benchmark_init
  benchmark_init-bench_args program test host_file path domain protocol hosts port num_threads io md
        rep sleep io_n md_n rep_n sleep_n hp ht e1 e2 e3 e4 e5 e6 =
      rw (e1, e2, atoi-int_to_string port hp, atoi-int_to_string num_threads ht, e3, e4, e5, e6)

  -- Arguments of the ping test written in the order of its usage text, with a port that fits an
  -- `int`, reach their fields if the library can expand the path and read the host file; only
  -- this host is kept exactly if the last argument is `local`, and there are always two
  -- threads.
  pub ping_init-ping_args :
      (program host_file path provider domain test scope : Text) (hosts : List Text) (port : ℤ)
      → IsInt port
      → cp.expand_path host_file ≡ ok path
      → read_hosts cp path self.rpc.host_names ≡ ok hosts
      → ping_init cp (ping_args program host_file provider domain port test scope) self
        ≡ ok (record self {
          rpc = record {
            host_file = path;
            host_names = hosts;
            protocol = provider;
            domain = domain;
            port = port;
            num_threads = pos 2;
          };
          test = test;
          local_only = text_eq scope (codes "local");
        })
  unfolding ping_init
  ping_init-ping_args program host_file path provider domain test scope hosts port hp e1 e2 =
      rw (e1, e2, atoi-int_to_string port hp)

  -- A wrong number of arguments ends either program.
  pub init-argc :
      (argv : List Text)
      → (length argv ≢ 11 → benchmark_init cp argv self ≡ fatal)
        × (length argv ≢ 7 → ping_init cp argv self ≡ fatal)
  unfolding benchmark_init ping_init
  init-argc argv = (wrong_bench, wrong_ping)
    where
      test_false : (n m : ℕ) → n ≢ m → (n == m) ≡ false
      test_false n m h = ground arith

      wrong_bench : length argv ≢ 11 → benchmark_init cp argv self ≡ fatal
      wrong_bench h = rw (test_false (length argv) 11 h)

      wrong_ping : length argv ≢ 7 → ping_init cp argv self ≡ fatal
      wrong_ping h = rw (test_false (length argv) 7 h)

  -- Without a host file the hosts are those that were there, and `localhost`; with one, those of
  -- the file and no other.
  pub read_hosts_lem :
      (file : Text) (old : List Text)
      → read_hosts cp file old
        ≡ (if is_empty file then ok (old ++ codes "localhost" ∷ []) else cp.parse_hostfile file)
  unfolding read_hosts
  read_hosts_lem file old = ground arith
