-- ===== src/FullPing/Tests.antt =====
-- Runs on a libfabric all of whose calls succeed.
use ppi_chi_nettest.Base.{ℕ, ◌≡◌, Bool, true, [], ◌∷◌}
use ppi_chi_nettest.Base.Text.{codes}
use ppi_chi_nettest.Base.Outcome.{ok}
use ppi_chi_nettest.Config.{ConfigParse}
use ppi_chi_nettest.FullPing.{
  hints, info, fabric, domain, passive, acquire, ping_all, launch_server,
}
use ppi_chi_nettest.FullPing.Balance.{Balanced, ping_all-Balanced, launch_server_lem}

abbrev succeeds : ℕ → Bool
succeeds n = true

ping_all-Balanced_example : Balanced (ping_all succeeds (codes "node1" ∷ codes "node2" ∷ [])).1
ping_all-Balanced_example = ping_all-Balanced succeeds (codes "node1" ∷ codes "node2" ∷ [])

launch_server_lem_example :
    ((launch_server succeeds).0 ≡ 1 → Balanced (launch_server succeeds).1)
    × ((launch_server succeeds).0 ≡ 0
        → (launch_server succeeds).1
          ≡ acquire hints 0
            ∷ acquire info 1
            ∷ acquire fabric 2
            ∷ acquire domain 3
            ∷ acquire passive 4
            ∷ [])
launch_server_lem_example = launch_server_lem succeeds

abbrev parser : ConfigParse
parser = record {
  expand_path = λ path. ok path;
  parse_hostfile = λ file. ok (codes "node1" ∷ []);
  parse_size = λ text. ok 0;
}
