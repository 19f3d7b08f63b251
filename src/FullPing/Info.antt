-- ===== src/FullPing/Info.antt =====
-- `PrintInfo` of src/fullping.cc, which lists the providers that libfabric knows.
use ppi_chi_nettest.Base.{
  ℕ, ◌≡◌, refl, Bool, not, List, [], ◌∷◌, ◌++◌, Option, none, some, map, if◌then◌else◌, Bool-cases,
  inl, inr,
}
use ppi_chi_nettest.Base.Text.{Text, codes}
use ppi_chi_nettest.Base.Outcome.{Outcome, ok, undefined, ◌>>=◌}
use ppi_chi_nettest.FullPing.{Kind, hints, info, acquire, release, sends, receives, prints, Events}

-- An entry of the list of `fi_getinfo`: its names, where they are set.
pub record FabricInfo : Type 0 where
  pub prov_name : Option Text
  pub domain_name : Option Text
  pub fabric_name : Option Text

-- `std::string(const char *)` of a pointer that may be null.
abbrev pub c_name : Option Text → Outcome Text
c_name none = undefined
c_name (some name) = ok name

-- The loop over the providers: three lines for each. Its inner loop over the hosts is empty.
unfoldable pub print_loop : List FabricInfo → Outcome Events
print_loop [] = ok []
print_loop (curr ∷ rest) = do
  prov_name ← c_name curr.prov_name
  domain_name ← c_name curr.domain_name
  fabric_name ← c_name curr.fabric_name
  more ← print_loop rest
  ok (
      prints (codes " Fabric: " ++ fabric_name)
      ∷ prints (codes "  Provider: " ++ prov_name)
      ∷ prints (codes "  Domain: " ++ domain_name)
      ∷ more)

-- `PrintInfo`, from the list that `fi_getinfo` gives; the hints are released in front of the list.
unfoldable pub print_info : (ℕ → Bool) → List FabricInfo → Outcome (ℕ × Events)
unfolding print_loop
print_info answer infos =
    if not (answer 0)
    then ok (1, [])
    else if not (answer 1)
    then ok (1, acquire hints 0 ∷ release hints 0 ∷ [])
    else do
      lines ← print_loop infos
      ok (0, acquire hints 0 ∷ acquire info 1 ∷ (lines ++ release hints 0 ∷ release info 1 ∷ []))

abbrev acquired : Events → List (Kind × ℕ)
acquired [] = []
acquired (acquire k n ∷ es) = (k, n) ∷ acquired es
acquired (release k n ∷ es) = acquired es
acquired (sends t ∷ es) = acquired es
acquired (receives t ∷ es) = acquired es
acquired (prints t ∷ es) = acquired es

abbrev released : Events → List (Kind × ℕ)
released [] = []
released (acquire k n ∷ es) = released es
released (release k n ∷ es) = (k, n) ∷ released es
released (sends t ∷ es) = released es
released (receives t ∷ es) = released es
released (prints t ∷ es) = released es

-- The three lines of a provider whose names are set.
abbrev lines : List (Text × Text × Text) → Events
lines [] = []
lines ((prov_name, domain_name, fabric_name) ∷ rest) =
    prints (codes " Fabric: " ++ fabric_name)
    ∷ prints (codes "  Provider: " ++ prov_name)
    ∷ prints (codes "  Domain: " ++ domain_name)
    ∷ lines rest

abbrev named : Text × Text × Text → FabricInfo
named (prov, dom, fab) = record {
  prov_name = some prov;
  domain_name = some dom;
  fabric_name = some fab;
}

print_loop-lines :
    (names : List (Text × Text × Text)) → print_loop (map named names) ≡ ok (lines names)
unfolding print_loop
print_loop-lines [] = refl
print_loop-lines ((prov, dom, fab) ∷ names) = rw (print_loop-lines names) refl

acquired-lines :
    (names : List (Text × Text × Text)) (es : Events) → acquired (lines names ++ es) ≡ acquired es
acquired-lines [] es = refl
acquired-lines (n ∷ names) es = acquired-lines names es

released-lines :
    (names : List (Text × Text × Text)) (es : Events) → released (lines names ++ es) ≡ released es
released-lines [] es = refl
released-lines (n ∷ names) es = released-lines names es

-- Where the providers have their names set, `PrintInfo` returns, and it releases what it acquired,
-- in the order in which it acquired it.
pub print_info-released :
    (answer : ℕ → Bool) (names : List (Text × Text × Text))
    → (run : ℕ × Events) × (print_info answer (map named names) ≡ ok run)
      × (acquired run.1 ≡ released run.1)
unfolding print_info
print_info-released answer names = elim (Bool-cases (answer 0)) [
  | inr a ↦ ((1, []), rw a refl, refl)
  | inl a ↦ elim (Bool-cases (answer 1)) [
    | inr b ↦ ((1, acquire hints 0 ∷ release hints 0 ∷ []), rw (a, b) refl, refl)
    | inl b ↦
        let end = release hints 0 ∷ release info 1 ∷ [] in
        (
          (0, acquire hints 0 ∷ acquire info 1 ∷ (lines names ++ end)),
          rw (a, b, print_loop-lines names) refl,
          rw (acquired-lines names end, released-lines names end) refl,
        )
  ]
]
