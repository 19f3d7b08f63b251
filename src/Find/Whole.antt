-- ===== src/Find/Whole.antt =====
-- The address finder as a whole: from the interfaces of the ranks to the file.
use ppi_chi_nettest.Base.{
  ℕ, zero, suc, ◌≤◌, ◌≡◌, ◌≢◌, refl, ap, ◌∙◌, true, not, List, [], ◌∷◌, none, some, arith,
  if◌then◌else◌, length, take, All, Option-cases, inl, inr,
}
use ppi_chi_nettest.Base.Text.{Text, is_empty}
use ppi_chi_nettest.Base.Outcome.{ok}
use ppi_chi_nettest.Find.{Interface, Libfabric, find_loop, find_ip_from_fabric, find_all, main}
use ppi_chi_nettest.Find.Laws.{NoNul, kept, Gathers, outfile-kept}
use ppi_chi_nettest.Find.Loop.{IsSplit, find_loop-step, find_loop-IsSplit}

-- An address as `inet_ntop` prints it into 16 characters.
abbrev pub IsPrinted : Text → Type 0
IsPrinted ip = NoNul ip × (length ip ≤ 15)

-- `fi_allocinfo` and `inet_ntop` succeed.
pub record Works (env : Libfabric) : Type 0 where
  pub hints : env.has_hints ≡ true
  pub prints : (addr : ℕ) → (ip : Text) × (env.inet_ntop addr ≡ some ip) × IsPrinted ip

-- What a rank answers: nothing if libfabric finds no interface, or what the search takes.
abbrev pub Answers : Libfabric → (provider domain fabric : Text) → Text → Type 0
Answers env provider dom fabric ip = elim (env.getinfo provider dom) [
  | none ↦ ip ≡ []
  | some is ↦ (freed : List Interface) × IsSplit env fabric is (ip, freed)
]

abbrev pub AllAnswer : List Libfabric → (provider domain fabric : Text) → List Text → Type 0
AllAnswer [] provider dom fabric [] = Unit
AllAnswer [] provider dom fabric (ip ∷ ips) = ⊥
AllAnswer (env ∷ ranks) provider dom fabric [] = ⊥
AllAnswer (env ∷ ranks) provider dom fabric (ip ∷ ips) =
    Answers env provider dom fabric ip × AllAnswer ranks provider dom fabric ips

-- The addresses that are not empty.
abbrev pub nonempty : List Text → List Text
nonempty [] = []
nonempty (ip ∷ ips) = if not (is_empty ip) then ip ∷ nonempty ips else nonempty ips

-- An address of at most 15 characters is not cut.
take-all : (n : ℕ) (s : Text) → length s ≤ n → take n s ≡ s
take-all zero [] h = refl
take-all zero (c ∷ s) h = absurd (omega arith)
take-all (suc n) [] h = refl
take-all (suc n) (c ∷ s) h = ap (λ t. c ∷ t) (take-all n s (omega arith))

kept-nonempty : (ips : List Text) → All IsPrinted ips → kept ips ≡ nonempty ips
kept-nonempty [] h = refl
kept-nonempty (ip ∷ ips) ((clean, short), hs) =
    let whole = take-all 15 ip short in rw (whole, kept-nonempty ips hs)

find_loop-returns :
    (env : Libfabric) (fabric : Text) (is : List Interface)
    → Works env
    → (found : Text × List Interface) × (find_loop env fabric is ≡ ok found) × IsPrinted found.0
unfolding find_loop
find_loop-returns env fabric [] works = (([], []), refl, (omega arith, omega arith))
find_loop-returns env fabric (i ∷ is) works = elim (find_loop-step env fabric i is) [
  | inl (miss, on) ↦
      let (taken, ran, printed) = find_loop-returns env fabric is works in
      (taken, on ∙ ran, printed)
  | inr (hit, addr, set, at) ↦
      let (ip, printed, fits) = works.prints addr in ((ip, i ∷ is), at ∙ rw printed refl, fits)
]

find_ip-Answers :
    (env : Libfabric) (provider dom fabric : Text)
    → Works env
    → (ip : Text) × (find_ip_from_fabric env provider dom fabric ≡ ok ip)
      × IsPrinted ip
      × Answers env provider dom fabric ip
unfolding find_ip_from_fabric
find_ip-Answers env provider dom fabric works = elim (Option-cases (env.getinfo provider dom)) [
  | inl missing ↦
      ([], rw (works.hints, missing) refl, (omega arith, omega arith), rw (missing, Answers) refl)
  | inr (is, there) ↦
      let ((ip, freed), ran, printed) = find_loop-returns env fabric is works in
      let taken = find_loop-IsSplit env fabric is ran in
      (ip, rw (works.hints, there, ran) refl, printed, rw (there, Answers) (freed, taken))
]

find_all-AllAnswer :
    (ranks : List Libfabric) (provider dom fabric : Text)
    → All Works ranks
    → (ips : List Text) × (find_all ranks provider dom fabric ≡ ok ips)
      × All IsPrinted ips
      × AllAnswer ranks provider dom fabric ips
unfolding find_all
find_all-AllAnswer [] provider dom fabric works = ([], refl, tt, tt)
find_all-AllAnswer (env ∷ ranks) provider dom fabric (w, ws) =
    let (ip, found, printed, answers) = find_ip-Answers env provider dom fabric w in
    let (ips, more, all_printed, all_answer) = find_all-AllAnswer ranks provider dom fabric ws in
    (ip ∷ ips, rw (found, more) refl, (printed, all_printed), (answers, all_answer))

cleans : (ips : List Text) → All IsPrinted ips → All NoNul ips
cleans [] h = tt
cleans (ip ∷ ips) ((clean, short), hs) = (clean, cleans ips hs)

main-found :
    (mpi_gather : List Text → Text) (ranks : List Libfabric)
    (program provider dom fabric path : Text) {ips : List Text}
    → Gathers mpi_gather
    → find_all ranks provider dom fabric ≡ ok ips
    → All IsPrinted ips
    → main mpi_gather ranks (program ∷ provider ∷ dom ∷ fabric ∷ path ∷ [])
      ≡ ok (0, some (path, nonempty ips))
unfolding main
main-found mpi_gather ranks program provider dom fabric path {ips} gathers found printed =
    let written = outfile-kept mpi_gather ips gathers (cleans ips printed) in
    rw (found, written, kept-nonempty ips printed) refl

-- With `MPI_Gather` that puts the buffers of the ranks behind one another, and on ranks whose
-- `fi_allocinfo` and `inet_ntop` succeed, the program with four arguments returns 0, and rank 0
-- writes to the path of the last one, in the order of the ranks, the addresses that they answer,
-- without the empty ones and none of them cut.
pub main-AllAnswer :
    (mpi_gather : List Text → Text) (ranks : List Libfabric)
    (program provider dom fabric path : Text)
    → Gathers mpi_gather
    → All Works ranks
    → (ips : List Text) × AllAnswer ranks provider dom fabric ips
      × (main mpi_gather ranks (program ∷ provider ∷ dom ∷ fabric ∷ path ∷ [])
          ≡ ok (0, some (path, nonempty ips)))
main-AllAnswer mpi_gather ranks program provider dom fabric path gathers works =
    let (ips, found, printed, answer) = find_all-AllAnswer ranks provider dom fabric works in
    (
      ips,
      answer,
      main-found mpi_gather ranks program provider dom fabric path gathers found printed,
    )

-- With another number of arguments it exits with 1 and writes no file.
main-argc :
    (mpi_gather : List Text → Text) (ranks : List Libfabric) (argv : List Text)
    → length argv ≢ 5
    → main mpi_gather ranks argv ≡ ok (1, none)
unfolding main
main-argc mpi_gather ranks argv other = ground arith
