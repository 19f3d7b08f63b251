-- ===== src/Find.antt =====
-- src/chi_net_find.cc: each rank finds its address on a fabric, and rank 0 writes all of them to a
-- file. What libfabric finds, `inet_ntop` and `MPI_Gather` are arguments.
pub mod Laws
pub mod Loop
pub mod Whole
mod Tests
use ppi_chi_nettest.Base.{
  ℕ, zero, suc, ◌+◌, ◌*◌, Bool, not, ◌&&◌, List, [], ◌∷◌, ◌++◌, Option, none, some, ◌==◌,
  if◌then◌else◌, length, drop, map,
}
use ppi_chi_nettest.Base.Text.{Text, text_eq, is_empty}
use ppi_chi_nettest.Config.{arg}
use ppi_chi_nettest.Base.Outcome.{Outcome, ok, undefined, ◌>>=◌}

-- An entry of the list of `fi_getinfo`: its source address and the name of its fabric, if set.
pub record Interface : Type 0 where
  pub src_addr : Option ℕ
  pub fabric : Option Text

-- Whether `fi_allocinfo` succeeds, what `fi_getinfo` finds for provider and domain, and `inet_ntop`.
pub record Libfabric : Type 0 where
  pub has_hints : Bool
  pub getinfo : Text → Text → Option (List Interface)
  pub inet_ntop : ℕ → Option Text

-- The loop: the address, and the part of the list that is freed behind it. A failed `inet_ntop`
-- leaves the buffer unset that is read then.
unfoldable pub find_loop : Libfabric → Text → List Interface → Outcome (Text × List Interface)
find_loop env fabric [] = ok ([], [])
find_loop env fabric (i ∷ is) =
    let more = find_loop env fabric is in
    elim i.src_addr [
      | none ↦ more
      | some addr ↦ elim i.fabric [
        | none ↦ more
        | some test_fabric ↦
            if text_eq test_fabric fabric
            then elim (env.inet_ntop addr) [ none ↦ undefined | some ip ↦ ok (ip, i ∷ is) ]
            else more
      ]
    ]

-- `find_ip_from_fabric`; without hints it writes through a null pointer.
unfoldable pub find_ip_from_fabric : Libfabric → (provider domain fabric : Text) → Outcome Text
unfolding find_loop
find_ip_from_fabric env provider domain fabric =
    if not env.has_hints then undefined else elim (env.getinfo provider domain) [
      | none ↦ ok []
      | some is ↦ find_loop env fabric is >>= λ (ip, freed). ok ip
    ]

abbrev pub max_ip_len : ℕ
max_ip_len = 16

-- `strncpy`, which fills up with zeros.
unfoldable pub strncpy : Text → ℕ → Text
strncpy s zero = []
strncpy [] (suc n) = 0 ∷ strncpy [] n
strncpy (c ∷ s) (suc n) = c ∷ strncpy s n

-- `local_ip` as it is sent.
unfoldable pub local_ip : Text → Text
unfolding strncpy
local_ip ip = strncpy ip 15 ++ 0 ∷ []

-- `std::string(const char *)`: up to the first zero, which the buffer must have.
unfoldable pub c_string : Text → Outcome Text
c_string [] = undefined
c_string (c ∷ s) = let more = c_string s >>= λ t. ok (c ∷ t) in if c == 0 then ok [] else more

-- The loop of rank 0 with `size` rounds left: the lines of the file.
unfoldable pub save : (size i : ℕ) → Text → Outcome (List Text)
unfolding c_string
save zero i all_ips = ok []
save (suc size) i all_ips = do
  curr_ip ← c_string (drop (i * max_ip_len) all_ips)
  lines ← save size (suc i) all_ips
  ok (if not (is_empty curr_ip) then curr_ip ∷ lines else lines)

-- What rank 0 writes, from the addresses that the ranks found; `mpi_gather` is the buffer
-- `all_ips` that `MPI_Gather` fills from those of the ranks.
unfoldable pub outfile : (List Text → Text) → List Text → Outcome (List Text)
unfolding local_ip save
outfile mpi_gather ips = save (length ips) 0 (mpi_gather (map local_ip ips))

-- The addresses that the ranks find, each with its own libfabric.
unfoldable pub find_all : List Libfabric → (provider domain fabric : Text) → Outcome (List Text)
unfolding find_ip_from_fabric
find_all [] provider domain fabric = ok []
find_all (env ∷ ranks) provider domain fabric = do
  ip ← find_ip_from_fabric env provider domain fabric
  ips ← find_all ranks provider domain fabric
  ok (ip ∷ ips)

-- `main` of all ranks together: the exit code, and the file that rank 0 writes, by its path.
unfoldable pub main :
    (List Text → Text) → List Libfabric → List Text → Outcome (ℕ × Option (Text × List Text))
unfolding arg find_all outfile
main mpi_gather ranks argv = if not (length argv == 5) then ok (1, none) else do
  provider ← arg argv 1
  domain ← arg argv 2
  fabric ← arg argv 3
  path ← arg argv 4
  ips ← find_all ranks provider domain fabric
  lines ← outfile mpi_gather ips
  ok (0, some (path, lines))
