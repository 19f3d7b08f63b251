-- ===== src/Config/Tests.antt =====
-- Runs of the initializers at concrete arguments.
use ppi_chi_nettest.Base.{◌≡◌, refl, false, List, [], ◌∷◌, arith, length}
use ppi_chi_nettest.Base.Text.{Text, codes, is_empty}
use ppi_chi_nettest.Base.Int.{pos}
use ppi_chi_nettest.Base.Outcome.{ok}
use ppi_chi_nettest.Config.{ServerConfig, ConfigParse, read_hosts, benchmark_init}
use ppi_chi_nettest.Config.Laws.{bench_args, benchmark_init-bench_args}

abbrev pub blank : ServerConfig
blank = record {
  rpc = record {
    host_file = [];
    host_names = [];
    protocol = [];
    domain = [];
    port = pos 0;
    num_threads = pos 0;
  };
  io_size = 0;
  md_size = 0;
  rep = 0;
  sleep = 0;
  test = [];
  local_only = false;
}

abbrev parser : ConfigParse
parser = record {
  expand_path = λ path. ok path;
  parse_hostfile = λ file. ok (codes "node1" ∷ codes "node2" ∷ []);
  parse_size = λ text. ok (length text);
}

abbrev nodes : List Text
nodes = codes "node1" ∷ codes "node2" ∷ []

pub hosts_read : read_hosts parser (codes "h") [] ≡ ok nodes
unfolding read_hosts is_empty
hosts_read = refl

benchmark_init-bench_args_example :
    benchmark_init parser
      (bench_args
        (codes "b")
        (codes "io")
        (codes "h")
        (codes "d")
        (codes "tcp")
        (pos 8080)
        (pos 4)
        (codes "4k")
        (codes "1")
        (codes "1")
        (codes "0"))
      blank
    ≡ ok (record {
      rpc = record {
        host_file = codes "h";
        host_names = nodes;
        protocol = codes "tcp";
        domain = codes "d";
        port = pos 8080;
        num_threads = pos 4;
      };
      io_size = 2;
      md_size = 1;
      rep = 1;
      sleep = 1;
      test = codes "io";
      local_only = false;
    })
benchmark_init-bench_args_example =
    benchmark_init-bench_args parser blank (codes "b") (codes "io") (codes "h") (codes "h")
      (codes "d") (codes "tcp") nodes (pos 8080) (pos 4) (codes "4k") (codes "1") (codes "1")
      (codes "0") 2 1 1 1 (omega arith) (omega arith) refl hosts_read refl refl refl refl
