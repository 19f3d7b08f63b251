-- ===== src/Types/Tests.antt =====
-- Runs of the id, query and timer types at concrete inputs.
use ppi_chi_nettest.Base.{
  ◌+◌, ◌/◌, ◌%◌, ◌-◌, ◌≡◌, refl, ◌↔◌, true, List, [], ◌∷◌, ◌++◌, some, arith, u64_mod,
}
use ppi_chi_nettest.Base.Text.{Text, codes, to_string}
use ppi_chi_nettest.Archive.LittleEndian.{little_endian}
use ppi_chi_nettest.Bitfield.{hshm_bits}
use ppi_chi_nettest.Types.UniqueId
use ppi_chi_nettest.Types.UniqueId.Key.{key, key_print, key_hash, parts, of_parts, key_lem}
use ppi_chi_nettest.Types.Query.Laws.{IsWords}
use ppi_chi_nettest.Types.Query.Requests.Words.{build-IsWords}
use ppi_chi_nettest.Types.UniqueId.{PoolId, StdHash}
use ppi_chi_nettest.Types.SubDomain.{SubDomainId}
use ppi_chi_nettest.Types.Domain
use ppi_chi_nettest.Types.Domain.{DomainId}
use ppi_chi_nettest.Types.Range.{UpdateDomainInfo, expand}
use ppi_chi_nettest.Types.Query
use ppi_chi_nettest.Types.Query.{DomainQuery, get_iter_flags}
use ppi_chi_nettest.Types.Query.Requests.{
  Request, range, direct_id, build, iter_arg, sub_id_arg, iter_name, scope_name, sel_name,
  range_name, unset_part,
}
use ppi_chi_nettest.Types.Query.Requests.Describe.{print-build}
use ppi_chi_nettest.Types.Query.Requests.Memory.{build-eq_iff}
use ppi_chi_nettest.Types.Timer.{
  Call, refresh_to, tick_by, resume_it, pause_it, new_timer, run, get_nsec, get_nsec_from_start,
  get_nsec_since,
}
use ppi_chi_nettest.Types.Timer.Stopwatch.{watch_run, new_watch, run-Stopwatch}

abbrev pool_a : PoolId
pool_a = record { node_id = 3; hash = 1; unique = 70 }

abbrev pool_b : PoolId
pool_b = record { node_id = 3; hash = 2; unique = 70 }

abbrev sub : SubDomainId
sub = record { major = 1; minor = 9 }

abbrev domain_a : DomainId
domain_a = record { scope = pool_a; sub_id = sub }

abbrev domain_b : DomainId
domain_b = record { scope = pool_b; sub_id = sub }

abbrev std : StdHash
std = record { u32 = λ n. n; u64 = λ n. n }

abbrev memory_a : DomainQuery
memory_a = record { flags = 0; sub_id = 0; sel = record { int = 77 } }

abbrev memory_b : DomainQuery
memory_b = record { flags = 5; sub_id = 6; sel = record { int = 2 + u64_mod / 2 } }

abbrev info : UpdateDomainInfo
info = record {
  domain_id = domain_a;
  op = expand;
  range = record { group = 1; off = 2; count = 3 };
}

abbrev ask : Request
ask = range 1 10 20 0x40000

abbrev join : List Text → Text
join [] = []
join (t ∷ ts) = t ++ (codes "," ++ join ts)

domain_words : Domain.Laws.IsWords domain_a
domain_words = omega arith

print-build_example :
    Query.print hshm_bits join (build hshm_bits memory_a ask)
    ≡ join (
        iter_name (iter_arg ask)
        ∷ scope_name ask
        ∷ sel_name ask
        ∷ range_name ask
        ∷ to_string (sub_id_arg ask)
        ∷ [])
print-build_example = print-build hshm_bits memory_a join ask (omega arith, omega arith, refl)

build-eq_iff_example :
    (Query.eq
        (build hshm_bits memory_a (direct_id 1 7 0))
        (build hshm_bits memory_b (direct_id 1 7 0))
      ≡ true)
    ↔ (unset_part (direct_id 1 7 0) memory_a.sel ≡ unset_part (direct_id 1 7 0) memory_b.sel)
build-eq_iff_example =
    build-eq_iff hshm_bits memory_a memory_b (direct_id 1 7 0) (omega arith, refl)

abbrev calls : List Call
calls = refresh_to 100 ∷ resume_it ∷ tick_by 50 ∷ pause_it ∷ refresh_to u64_mod ∷ []

run-Stopwatch_example :
    (get_nsec (run calls new_timer) ≡ (watch_run calls new_watch).net % u64_mod)
    × (get_nsec_from_start (run calls new_timer) ≡ (watch_run calls new_watch).lap % u64_mod)
    × (get_nsec_since (run calls new_timer) 60 ≡ (watch_run calls new_watch).now % u64_mod - 60)
run-Stopwatch_example = run-Stopwatch calls 60 (omega arith)

abbrev sent : Request
sent = direct_id 1 7 0x8000

build-IsWords_example :
    IsWords (build hshm_bits memory_a sent)
    × ((Query.serialize little_endian).load memory_b
          ((Query.serialize little_endian).save (build hshm_bits memory_a sent) (9 ∷ []))
        ≡ some (build hshm_bits memory_a sent, 9 ∷ []))
build-IsWords_example =
    build-IsWords hshm_bits memory_a sent little_endian memory_b (9 ∷ [])
      (omega arith, omega arith, omega arith) (omega arith)

key_lem_example :
    (of_parts (parts (key pool_a)) ≡ key pool_a)
    × (parts (of_parts {kind = 1} (4, 5)) ≡ (4, 5))
    × ((key pool_a ≡ key pool_b) ↔ (UniqueId.eq pool_a pool_b ≡ true))
    × ((key_print (key pool_a) ≡ key_print (key pool_b)) ↔ (key pool_a ≡ key pool_b))
    × (key_hash std (key pool_a)
        ≡ (std.u64 (parts (key pool_a)).1 + std.u32 (parts (key pool_a)).0) % u64_mod)
key_lem_example = key_lem std (key pool_a) (key pool_b) (4, 5) pool_a pool_b
