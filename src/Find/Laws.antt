-- ===== src/Find/Laws.antt =====
-- What the file holds, and which address a rank finds.
use mathlib.Core.List.{append_assoc}
use ppi_chi_nettest.Base.{
  ℕ, zero, suc, ◌*◌, ◌≡◌, ◌≢◌, refl, ap, false, not, List, [], ◌∷◌, ◌++◌, arith, ◌==◌,
  if◌then◌else◌, map, length, length-append, drop, take, All,
}
use ppi_chi_nettest.Base.Text.{Text, is_empty}
use ppi_chi_nettest.Base.Outcome.{ok}
use ppi_chi_nettest.Find.{strncpy, local_ip, c_string, save, outfile, max_ip_len}

-- A text without zeros, as a `std::string` of an address is.
abbrev pub NoNul : Text → Type 0
NoNul s = All (λ c. c ≢ 0) s

-- The lines of the file: the addresses cut to 15 characters, without the empty ones.
abbrev pub kept : List Text → List Text
kept [] = []
kept (ip ∷ ips) = if not (is_empty (take 15 ip)) then take 15 ip ∷ kept ips else kept ips

-- The buffers behind one another, in order.
abbrev pub joined : List Text → Text
joined [] = []
joined (b ∷ bs) = b ++ joined bs

abbrev pub Gathers : (List Text → Text) → Type 0
Gathers mpi_gather = (buffers : List Text) → mpi_gather buffers ≡ joined buffers

abbrev gather : List Text → Text
gather ips = joined (map local_ip ips)

c_string-strncpy :
    (n : ℕ) (s rest : Text) → NoNul s → c_string (strncpy s n ++ 0 ∷ rest) ≡ ok (take n s)
unfolding c_string strncpy
c_string-strncpy zero s rest h = refl
c_string-strncpy (suc n) [] rest h = refl
c_string-strncpy (suc n) (c ∷ s) rest (h, hs) =
    let other : (c == 0) ≡ false = ground arith in rw (other, c_string-strncpy n s rest hs)

length-strncpy : (n : ℕ) (s : Text) → length (strncpy s n) ≡ n
unfolding strncpy
length-strncpy zero s = refl
length-strncpy (suc n) [] = ap suc (length-strncpy n [])
length-strncpy (suc n) (c ∷ s) = ap suc (length-strncpy n s)

length-local_ip : (ip : Text) → length (local_ip ip) ≡ max_ip_len
unfolding local_ip
length-local_ip ip = omega (arith, length-append (strncpy ip 15) (0 ∷ []), length-strncpy 15 ip)

drop-length : (s t : Text) → drop (length s) (s ++ t) ≡ t
drop-length [] t = refl
drop-length (c ∷ s) t = drop-length s t

save-gather :
    (ips : List Text) (i : ℕ) (before : Text)
    → length before ≡ i * max_ip_len
    → All NoNul ips
    → save (length ips) i (before ++ gather ips) ≡ ok (kept ips)
unfolding save local_ip
save-gather [] i before at h = refl
save-gather (ip ∷ ips) i before at (h, hs) =
    let here : drop (i * max_ip_len) (before ++ gather (ip ∷ ips)) ≡ gather (ip ∷ ips) =
      rw (← at) (drop-length before (gather (ip ∷ ips))) in
    let read : c_string (gather (ip ∷ ips)) ≡ ok (take 15 ip) =
      rw (append_assoc (strncpy ip 15) (0 ∷ []) (gather ips))
        (c_string-strncpy 15 ip (gather ips) h) in
    let behind : length (before ++ local_ip ip) ≡ suc i * max_ip_len =
      omega (arith, at, length-append before (local_ip ip), length-local_ip ip) in
    let rest = save-gather ips (suc i) (before ++ local_ip ip) behind hs in
    let whole : (before ++ local_ip ip) ++ gather ips ≡ before ++ gather (ip ∷ ips) =
      append_assoc before (local_ip ip) (gather ips) in
    rw (here, read, ← whole, rest)

-- If `MPI_Gather` puts the buffers of the ranks behind one another, the file lists, in the order of
-- the ranks, the addresses that the ranks found, each cut to 15 characters, and leaves out the
-- empty ones; the addresses hold no zero bytes.
pub outfile-kept :
    (mpi_gather : List Text → Text) (ips : List Text)
    → Gathers mpi_gather
    → All NoNul ips
    → outfile mpi_gather ips ≡ ok (kept ips)
unfolding outfile
outfile-kept mpi_gather ips gathers h =
    rw (gathers (map local_ip ips)) (save-gather ips 0 [] (omega arith) h)
