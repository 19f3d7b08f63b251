-- ===== src/Bench/CopyPull.antt =====
-- A pull that copies block by block, as one that `RpcTaskSubmit` can be given.
use ppi_chi_nettest.Base.{ℕ, ◌≡◌, refl, ap, ◌∙◌, List, [], ◌∷◌, map, Option, none, some}
use ppi_chi_nettest.Base.Text.{Text}
use ppi_chi_nettest.Base.Outcome.{Outcome, ok}
use ppi_chi_nettest.Transfer.{Memory}
use ppi_chi_nettest.Thallium.Action.{Bulk}
use ppi_chi_nettest.Thallium.Bulk.Distinct.{addresses, Apart, Distinct}
use ppi_chi_nettest.Cluster.Family.{update, update-eq, update-other}
use ppi_chi_nettest.Bench.Served.{Pulls}

-- The memory after these blocks were written, in order.
abbrev copy : List ℕ → List Text → (ℕ → Text) → ℕ → Text
copy [] ts bytes = bytes
copy (p ∷ ps) [] bytes = bytes
copy (p ∷ ps) (t ∷ ts) bytes = update (copy ps ts bytes) p t

abbrev pub copy_pull : Option Bulk → (ℕ → Text) → Option Bulk → Memory → Outcome (ℕ × Memory)
copy_pull remote source local_wbulk m =
    ok (
      10,
      record m { bytes = copy (addresses local_wbulk) (map source (addresses remote)) m.bytes },
    )

map-update :
    (bytes : ℕ → Text) (p : ℕ) (t : Text) (ps : List ℕ)
    → Apart p ps
    → map (update bytes p t) ps ≡ map bytes ps
map-update bytes p t [] h = refl
map-update bytes p t (q ∷ qs) (other, h) =
    rw (update-other bytes p q t other) (ap (λ l. bytes q ∷ l) (map-update bytes p t qs h))

map-copy :
    (source bytes : ℕ → Text) (ls rs : List (ℕ × ℕ))
    → map (λ (s : ℕ × ℕ). s.1) ls ≡ map (λ (s : ℕ × ℕ). s.1) rs
    → Distinct (map (λ (s : ℕ × ℕ). s.0) ls)
    → map
        (copy (map (λ (s : ℕ × ℕ). s.0) ls) (map source (map (λ (s : ℕ × ℕ). s.0) rs)) bytes)
        (map (λ (s : ℕ × ℕ). s.0) ls)
      ≡ map source (map (λ (s : ℕ × ℕ). s.0) rs)
map-copy source bytes [] [] e apart = refl
map-copy source bytes [] (r ∷ rs) e apart = cc e
map-copy source bytes (l ∷ ls) [] e apart = cc e
map-copy source bytes (l ∷ ls) (r ∷ rs) e (first, apart) =
    let below =
      copy (map (λ (s : ℕ × ℕ). s.0) ls) (map source (map (λ (s : ℕ × ℕ). s.0) rs)) bytes in
    let rest = map-copy source bytes ls rs (cc e) apart in
    rw (update-eq below l.0 l.0 (source r.0) refl) (
      ap (λ t. source r.0 ∷ t)
        (map-update below l.0 (source r.0) (map (λ (s : ℕ × ℕ). s.0) ls) first ∙ rest))

-- It copies whatever the remote blocks hold.
pub copy_pull-Pulls :
    (remote : Option Bulk) (source : ℕ → Text) → Pulls remote source (copy_pull remote source)
copy_pull-Pulls none source none m e apart = (10, m, refl, refl, refl)
copy_pull-Pulls none source (some here) m e apart =
    (10, _, refl, refl, map-copy source m.bytes here.segments [] e apart)
copy_pull-Pulls (some there) source none m e apart =
    (10, m, refl, refl, map-copy source m.bytes [] there.segments e tt)
copy_pull-Pulls (some there) source (some here) m e apart =
    (10, _, refl, refl, map-copy source m.bytes here.segments there.segments e apart)
