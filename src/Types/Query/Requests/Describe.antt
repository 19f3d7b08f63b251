-- ===== src/Types/Query/Requests/Describe.antt =====
-- What `operator<<` prints of a built query.
use ppi_chi_nettest.Base.{
  ℕ, ◌<◌, ◌^◌, ◌≡◌, refl, ap, ◌∙◌, Bool, false, ◌||◌, if◌then◌else◌, List, [], ◌∷◌, arith, u32_mod,
  bit_and,
}
use ppi_chi_nettest.Base.Bits.{bit_and_assoc, zero-bit_and}
use ppi_chi_nettest.Base.Text.{Text, codes, to_string}
use ppi_chi_nettest.Bitfield.{Bitfield}
use ppi_chi_nettest.Bitfield.Laws.{has, has_of_disjoint}
use ppi_chi_nettest.Types.Selection
use ppi_chi_nettest.Types.Query.{
  DomainQuery, get_local_id, get_range, get_global, get_global_bcast, get_direct_id,
  get_direct_hash, scope_text, iter_text, sel_text, range_text, print,
}
use ppi_chi_nettest.Types.Query.Requests.{
  Request, local_id, global, range, global_bcast, direct_id, direct_hash, build, iter_arg,
  sub_id_arg, IsRequest, scope_name, sel_name, range_name, iter_name,
}
use ppi_chi_nettest.Types.Query.Requests.Flags.{fixed_bits, any-build, iter_apart}

or_false : (x : Bool) → (x || false) ≡ x
or_false x = ground arith

-- The ladders of `operator<<` over the flag numbers.
abbrev scope_ladder : (ℕ → Bool) → Text
scope_ladder t =
    if t 1
    then codes "local"
    else if t 3
    then codes "global"
    else if t 2
    then codes "direct"
    else []

abbrev sel_ladder : (ℕ → Bool) → Text
sel_ladder t =
    if t 4 then codes "id" else if t 5 then codes "hash" else if t 6 then codes "range" else []

fixed_scope : (r : Request) → scope_ladder (λ n. has n (fixed_bits r)) ≡ scope_name r
fixed_scope (local_id s i) = refl
fixed_scope (global s f) = refl
fixed_scope (range s o c f) = refl
fixed_scope global_bcast = refl
fixed_scope (direct_id s i f) = refl
fixed_scope (direct_hash s h f) = refl

fixed_sel : (r : Request) → sel_ladder (λ n. has n (fixed_bits r)) ≡ sel_name r
fixed_sel (local_id s i) = refl
fixed_sel (global s f) = refl
fixed_sel (range s o c f) = refl
fixed_sel global_bcast = refl
fixed_sel (direct_id s i f) = refl
fixed_sel (direct_hash s h f) = refl

fixed_iter : (r : Request) (n : ℕ) → bit_and (2 ^ n) 126 ≡ 0 → has n (fixed_bits r) ≡ false
fixed_iter r n apart = outside (fixed_bits r) (inside r)
  where
    inside : (r : Request) → bit_and 126 (fixed_bits r) ≡ fixed_bits r
    inside (local_id s i) = refl
    inside (global s f) = refl
    inside (range s o c f) = refl
    inside global_bcast = refl
    inside (direct_id s i f) = refl
    inside (direct_hash s h f) = refl

    outside : (k : ℕ) → bit_and 126 k ≡ k → has n k ≡ false
    outside k e =
        let none_left : bit_and (2 ^ n) k ≡ 0 =
          cc (ap (bit_and (2 ^ n)) e, bit_and_assoc (2 ^ n) 126 k, apart, zero-bit_and k) in
        rw none_left

-- The numbers that `operator<<` prints for the selection.
module _ (b : Bitfield) (mem : DomainQuery) where
  id-local : (s i : ℕ) → i < u32_mod → Selection.id (get_local_id b mem s i).sel ≡ i
  unfolding get_local_id
  id-local s i h = omega arith

  id-direct : (s i f : ℕ) → i < u32_mod → Selection.id (get_direct_id b mem s i f).sel ≡ i
  unfolding get_direct_id
  id-direct s i f h = omega arith

  hash-direct : (s k f : ℕ) → k < u32_mod → Selection.hash (get_direct_hash b mem s k f).sel ≡ k
  unfolding get_direct_hash
  hash-direct s k f h = omega arith

  range_fields :
      (s o c f : ℕ)
      → o < u32_mod
      → c < u32_mod
      → (Selection.off (get_range b mem s o c f).sel ≡ o)
        × (Selection.count (get_range b mem s o c f).sel ≡ c)
  unfolding get_range
  range_fields s o c f ho hc = omega arith

  -- A scope or selection flag of a built query is one of those that the constructor sets.
  any-fixed :
      (r : Request) (n : ℕ)
      → IsRequest r
      → n < 32
      → bit_and (2 ^ n) 126 ≡ 2 ^ n
      → b.any (build b mem r).flags (b.bit_opt n) ≡ has n (fixed_bits r)
  any-fixed r n h lt inside =
      any-build b mem r n lt
      ∙ rw (has_of_disjoint n 126 (iter_arg r) inside (iter_apart r h)) (or_false _)

  -- An iteration flag is one of those that the request carries.
  any-iter :
      (r : Request) (n : ℕ)
      → n < 32
      → bit_and (2 ^ n) 126 ≡ 0
      → b.any (build b mem r).flags (b.bit_opt n) ≡ has n (iter_arg r)
  any-iter r n lt apart = any-build b mem r n lt ∙ rw (fixed_iter r n apart)

  scope_text-build : (r : Request) → IsRequest r → scope_text b (build b mem r) ≡ scope_name r
  unfolding scope_text
  scope_text-build r h =
      rw
        (
          any-fixed r 1 h (omega arith) refl,
          any-fixed r 3 h (omega arith) refl,
          any-fixed r 2 h (omega arith) refl,
        )
        (fixed_scope r)

  sel_text-build : (r : Request) → IsRequest r → sel_text b (build b mem r) ≡ sel_name r
  unfolding sel_text
  sel_text-build r h =
      rw
        (
          any-fixed r 4 h (omega arith) refl,
          any-fixed r 5 h (omega arith) refl,
          any-fixed r 6 h (omega arith) refl,
        )
        (fixed_sel r)

  iter_text-build : (r : Request) → iter_text b (build b mem r) ≡ iter_name (iter_arg r)
  unfolding iter_text
  iter_text-build r = rw (
    any-iter r 15 (omega arith) refl,
    any-iter r 18 (omega arith) refl,
    any-iter r 19 (omega arith) refl,
    any-iter r 17 (omega arith) refl,
  )

  range_flags :
      (r : Request)
      → IsRequest r
      → (b.any (build b mem r).flags (b.bit_opt 4) ≡ has 4 (fixed_bits r))
        × (b.any (build b mem r).flags (b.bit_opt 5) ≡ has 5 (fixed_bits r))
        × (b.any (build b mem r).flags (b.bit_opt 6) ≡ has 6 (fixed_bits r))
  range_flags r h = (
    any-fixed r 4 h (omega arith) refl,
    any-fixed r 5 h (omega arith) refl,
    any-fixed r 6 h (omega arith) refl,
  )

  range_text-build : (r : Request) → IsRequest r → range_text b (build b mem r) ≡ range_name r
  unfolding range_text build
  range_text-build (local_id s i) h =
      let t = range_flags (local_id s i) h in rw (t.2, t.0, id-local s i h)
  range_text-build (global s f) h = let t = range_flags (global s f) h in rw (t.2, t.0, t.1)
  range_text-build (range s o c f) h =
      let t = range_flags (range s o c f) h in
      let fields = range_fields s o c f h.0 h.1 in rw (t.2, fields.0, fields.1)
  range_text-build global_bcast h = let t = range_flags global_bcast h in rw (t.2, t.0, t.1)
  range_text-build (direct_id s i f) h =
      let t = range_flags (direct_id s i f) h in rw (t.2, t.0, id-direct s i f h.0)
  range_text-build (direct_hash s k f) h =
      let t = range_flags (direct_hash s k f) h in rw (t.2, t.0, t.1, hash-direct s k f h.0)

  sub_id-build : (r : Request) → (build b mem r).sub_id ≡ sub_id_arg r
  unfolding build get_local_id get_global get_range get_global_bcast get_direct_id get_direct_hash
  sub_id-build (local_id s i) = refl
  sub_id-build (global s f) = refl
  sub_id-build (range s o c f) = refl
  sub_id-build global_bcast = refl
  sub_id-build (direct_id s i f) = refl
  sub_id-build (direct_hash s h f) = refl

  -- `operator<<` prints a query that was built for a request, whose numbers fit 32 bits and
  -- whose iteration flags are none of the scope and selection flags, as what was asked for,
  -- whatever the memory held.
  pub print-build :
      (format : List Text → Text) (r : Request)
      → IsRequest r
      → print b format (build b mem r)
        ≡ format (
            iter_name (iter_arg r)
            ∷ scope_name r
            ∷ sel_name r
            ∷ range_name r
            ∷ to_string (sub_id_arg r)
            ∷ [])
  unfolding print
  print-build format r h = rw (
    iter_text-build r,
    scope_text-build r h,
    sel_text-build r h,
    range_text-build r h,
    sub_id-build r,
  )
