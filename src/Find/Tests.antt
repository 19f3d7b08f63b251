-- ===== src/Find/Tests.antt =====
-- Runs on three ranks, and on a list of two interfaces.
use ppi_chi_nettest.Base.{◌≡◌, refl, true, List, [], ◌∷◌, some, arith}
use ppi_chi_nettest.Base.Text.{Text, codes}
use ppi_chi_nettest.Base.Outcome.{ok}
use ppi_chi_nettest.Find.{Interface, Libfabric, find_loop, main}
use ppi_chi_nettest.Find.Whole.{Works, AllAnswer, nonempty, main-AllAnswer}
use ppi_chi_nettest.Find.Laws.{joined}
use ppi_chi_nettest.Find.Loop.{IsSplit, find_loop-IsSplit}

abbrev ips : List Text
ips = codes "10" ∷ [] ∷ codes "9" ∷ []

abbrev interfaces : List Interface
interfaces =
    record { src_addr = some 3; fabric = some (codes "a") }
    ∷ record { src_addr = some 4; fabric = some (codes "b") }
    ∷ []

abbrev env : Libfabric
env = record {
  has_hints = true;
  getinfo = λ provider domain. some interfaces;
  inet_ntop = λ addr. some (codes "1");
}

abbrev last : List Interface
last = record { src_addr = some 4; fabric = some (codes "b") } ∷ []

searched : find_loop env (codes "b") interfaces ≡ ok (codes "1", last)
unfolding find_loop
searched = refl

find_loop-IsSplit_example : IsSplit env (codes "b") interfaces (codes "1", last)
find_loop-IsSplit_example = find_loop-IsSplit env (codes "b") interfaces searched

env-Works : Works env
env-Works = record { hints = refl; prints = λ addr. (codes "1", refl, (omega arith, omega arith)) }

main-AllAnswer_example :
    (ips : List Text) × AllAnswer (env ∷ env ∷ []) (codes "p") (codes "d") (codes "b") ips
    × (main joined
          (env ∷ env ∷ [])
          (codes "find" ∷ codes "p" ∷ codes "d" ∷ codes "b" ∷ codes "out" ∷ [])
        ≡ ok (0, some (codes "out", nonempty ips)))
main-AllAnswer_example =
    main-AllAnswer joined (env ∷ env ∷ []) (codes "find") (codes "p") (codes "d") (codes "b")
      (codes "out") (λ buffers. refl) (env-Works, (env-Works, tt))
