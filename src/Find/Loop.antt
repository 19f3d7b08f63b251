-- ===== src/Find/Loop.antt =====
-- Which entry the search takes, and which ones it gives back.
use ppi_chi_nettest.Base.{
  ℕ, ◌≡◌, refl, ap, ◌∙◌, sym, subst, Bool, true, false, List, [], ◌∷◌, ◌++◌, none, some, All,
  Bool-cases, Option-cases, inl, inr, ◌⊎◌,
}
use ppi_chi_nettest.Base.Text.{Text, text_eq}
use ppi_chi_nettest.Base.Outcome.{ok, undefined, ok-injective}
use ppi_chi_nettest.Find.{Interface, Libfabric, find_loop}

-- The entry has an address, and its fabric has the name.
abbrev pub matches : Text → Interface → Bool
matches fabric i = elim i.src_addr [
  | none ↦ false
  | some addr ↦ elim i.fabric [ none ↦ false | some name ↦ text_eq name fabric ]
]

-- What the search answers from the entry that it took.
abbrev pub Taken : Libfabric → Text → List Interface → Text → Type 0
Taken env fabric [] ip = ip ≡ []
Taken env fabric (i ∷ is) ip =
    (matches fabric i ≡ true)
    × (addr : ℕ) × (i.src_addr ≡ some addr)
    × (env.inet_ntop addr ≡ some ip)

-- One entry: the search goes on behind it, or takes it.
pub find_loop-step :
    (env : Libfabric) (fabric : Text) (i : Interface) (is : List Interface)
    → ((matches fabric i ≡ false) × (find_loop env fabric (i ∷ is) ≡ find_loop env fabric is))
      ⊎ ((matches fabric i ≡ true)
          × (addr : ℕ) × (i.src_addr ≡ some addr)
          × (find_loop env fabric (i ∷ is)
              ≡ elim (env.inet_ntop addr) [ none ↦ undefined | some ip ↦ ok (ip, i ∷ is) ]))
unfolding find_loop
find_loop-step env fabric i is = elim (Option-cases i.src_addr) [
  | inl unset ↦ inl (rw unset refl, rw unset refl)
  | inr (addr, set) ↦ elim (Option-cases i.fabric) [
    | inl unnamed ↦ inl (rw (set, unnamed) refl, rw (set, unnamed) refl)
    | inr (name, named) ↦ elim (Bool-cases (text_eq name fabric)) [
      | inl same ↦ inr (rw (set, named) same, addr, set, rw (set, named, same) refl)
      | inr other ↦ inl (rw (set, named) other, rw (set, named, other) refl)
    ]
  ]
]

at_end : (env : Libfabric) (fabric : Text) → find_loop env fabric [] ≡ ok ([], [])
unfolding find_loop
at_end env fabric = refl

-- The list in two parts: entries that do not match, and what the search took and gave back.
abbrev pub IsSplit : Libfabric → Text → List Interface → Text × List Interface → Type 0
IsSplit env fabric is (ip, freed) =
    (front : List Interface) × (front ++ freed ≡ is)
    × All (λ i. matches fabric i ≡ false) front
    × Taken env fabric freed ip

-- When the search returns, it answers from the first entry that matches, or an empty address if
-- none does; the entries in front of it, all of them if none matches, are never given back.
pub find_loop-IsSplit :
    (env : Libfabric) (fabric : Text) (is : List Interface) {found : Text × List Interface}
    → find_loop env fabric is ≡ ok found
    → IsSplit env fabric is found
find_loop-IsSplit env fabric [] e =
    subst (IsSplit env fabric []) (ok-injective (sym (at_end env fabric) ∙ e)) ([], refl, tt, refl)
find_loop-IsSplit env fabric (i ∷ is) {found} e = elim (find_loop-step env fabric i is) [
  | inl (miss, on) ↦
      let (front, whole, none_fits, taken) = find_loop-IsSplit env fabric is (rw on at e) in
      (i ∷ front, ap (λ l. i ∷ l) whole, (miss, none_fits), taken)
  | inr (hit, addr, set, at) ↦ elim (Option-cases (env.inet_ntop addr)) [
    | inl unprinted ↦ cc (rw unprinted at (sym at ∙ e))
    | inr (a, printed) ↦
        subst (IsSplit env fabric (i ∷ is)) (ok-injective (rw printed at (sym at ∙ e)))
          ([], refl, tt, (hit, addr, set, printed))
  ]
]
