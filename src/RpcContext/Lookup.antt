-- ===== src/RpcContext/Lookup.antt =====
-- `_IsAddressLocal`, `_GetIpAddress` and `_FindThisHost` against what they look for.
use ppi_chi_nettest.Base.{
  ℕ, suc, ◌<◌, ◌≡◌, ◌≢◌, refl, ◌⊎◌, inl, inr, ◌↔◌, true, false, List, [], ◌∷◌, Option, none, some,
  arith, ◌==◌, All, length, Bool-cases, Option-cases,
}
use ppi_chi_nettest.Base.Text.{Text, text_eq, text_eq_sound, text_eq_refl, is_digit}
use ppi_chi_nettest.Base.Outcome.{ok}
use ppi_chi_nettest.RpcContext.{
  HostInfo, HostEnv, local_loop, is_address_local, count_dots, ip_chars, resolve, get_ip_address,
}

-- An entry of the interface list is bound to the address.
abbrev pub Binds : HostEnv → Text → Option ℕ → Type 0
Binds env addr none = ⊥
Binds env addr (some a) = env.inet_ntop a ≡ some addr

abbrev pub SomeBinds : HostEnv → Text → List (Option ℕ) → Type 0
SomeBinds env addr [] = ⊥
SomeBinds env addr (i ∷ is) = Binds env addr i ⊎ SomeBinds env addr is

-- The library can print every address of the interface list.
abbrev pub Prints : HostEnv → Option ℕ → Type 0
Prints env none = Unit
Prints env (some a) = (ip : Text) × (env.inet_ntop a ≡ some ip)

local_loop-true :
    (env : HostEnv) (addr : Text) (infos : List (Option ℕ))
    → local_loop env addr infos ≡ ok true
    → SomeBinds env addr infos
unfolding local_loop
local_loop-true env addr [] h = cc
local_loop-true env addr (none ∷ is) h = inr (local_loop-true env addr is h)
local_loop-true env addr (some a ∷ is) h = elim (Option-cases (env.inet_ntop a)) [
  | inl failed ↦ ground arith
  | inr (ip, printed) ↦ elim (Bool-cases (text_eq addr ip)) [
    | inl same ↦ inl (cc (printed, text_eq_sound addr ip same))
    | inr other ↦ inr (local_loop-true env addr is (ground arith))
  ]
]

local_loop-total :
    (env : HostEnv) (addr : Text) (infos : List (Option ℕ))
    → All (Prints env) infos
    → (local_loop env addr infos ≡ ok false)
      ⊎ (SomeBinds env addr infos × (local_loop env addr infos ≡ ok true))
unfolding local_loop
local_loop-total env addr [] h = inl refl
local_loop-total env addr (none ∷ is) h = elim (local_loop-total env addr is h.1) [
  | inl no_match ↦ inl no_match
  | inr (b, e) ↦ inr (inr b, e)
]
local_loop-total env addr (some a ∷ is) h =
    let (ip, printed) = h.0 in
    elim (Bool-cases (text_eq addr ip)) [
      | inl same ↦
          inr (inl (cc (printed, text_eq_sound addr ip same)), rw (printed, local_loop, same))
      | inr other ↦ elim (local_loop-total env addr is h.1) [
        | inl no_match ↦ inl (rw (printed, local_loop, other) no_match)
        | inr (b, e) ↦ inr (inr b, rw (printed, local_loop, other) e)
      ]
    ]

local_loop-Binds :
    (env : HostEnv) (addr : Text) (infos : List (Option ℕ))
    → All (Prints env) infos
    → SomeBinds env addr infos
    → local_loop env addr infos ≡ ok true
unfolding local_loop
local_loop-Binds env addr [] h b = absurd b
local_loop-Binds env addr (none ∷ is) h (inl b) = absurd b
local_loop-Binds env addr (none ∷ is) h (inr b) = local_loop-Binds env addr is h.1 b
local_loop-Binds env addr (some a ∷ is) h (inl b) = rw (b, local_loop, text_eq_refl addr)
local_loop-Binds env addr (some a ∷ is) h (inr b) =
    let (ip, printed) = h.0 in
    elim (Bool-cases (text_eq addr ip)) [
      | inl same ↦ rw (printed, local_loop, same)
      | inr other ↦ rw (printed, local_loop, other) (local_loop-Binds env addr is h.1 b)
    ]

-- Where libfabric answers and every address can be printed, `_IsAddressLocal` returns, and it
-- returns true exactly when some interface is bound to the address.
pub is_address_local_iff :
    (env : HostEnv) (addr : Text) (infos : List (Option ℕ))
    → env.has_hints ≡ true
    → env.interfaces ≡ some infos
    → All (Prints env) infos
    → ((is_address_local env addr ≡ ok true) ⊎ (is_address_local env addr ≡ ok false))
      × ((is_address_local env addr ≡ ok true) ↔ SomeBinds env addr infos)
unfolding is_address_local
is_address_local_iff env addr infos hints found printable = (
  rw (hints, found) (decided (local_loop-total env addr infos printable)),
  rw (hints, found) (local_loop-true env addr infos, local_loop-Binds env addr infos printable),
)
  where
    decided :
        (local_loop env addr infos ≡ ok false)
          ⊎ (SomeBinds env addr infos × (local_loop env addr infos ≡ ok true))
        → (local_loop env addr infos ≡ ok true) ⊎ (local_loop env addr infos ≡ ok false)
    decided (inl e) = inr e
    decided (inr (b, e)) = inl e

-- A dot or a decimal digit.
abbrev pub IsIpChar : ℕ → Type 0
IsIpChar c = ((c == b'.') ≡ true) ⊎ (is_digit c ≡ true)

ip_chars-All : (s : Text) → All IsIpChar s → ip_chars s ≡ ok true
unfolding ip_chars
ip_chars-All [] h = refl
ip_chars-All (c ∷ s) (inl dot, h) = rw dot (ip_chars-All s h)
ip_chars-All (c ∷ s) (inr digit, h) = ground (arith, ip_chars-All s h)

All-ip_chars : (s : Text) → ip_chars s ≡ ok true → All IsIpChar s
unfolding ip_chars
All-ip_chars [] h = tt
All-ip_chars (c ∷ s) h = elim (Bool-cases (c == b'.')) [
  | inl dot ↦ (inl dot, All-ip_chars s (rw dot at h))
  | inr no_dot ↦ elim (Bool-cases (is_digit c)) [
    | inl digit ↦ (inr digit, All-ip_chars s (ground arith))
    | inr no_digit ↦ ground arith
  ]
]

-- A name of digits and exactly three dots is its own address, whatever the system answers; a
-- name without exactly three dots is always looked up.
pub get_ip_address_lem :
    (env : HostEnv) (name : Text)
    → (count_dots name ≡ 3 → All IsIpChar name → get_ip_address env name ≡ ok name)
      × (count_dots name ≢ 3 → get_ip_address env name ≡ resolve env name)
unfolding get_ip_address
get_ip_address_lem env name = (dotted, other)
  where
    dotted : count_dots name ≡ 3 → All IsIpChar name → get_ip_address env name ≡ ok name
    dotted three chars = rw (three, ip_chars-All name chars)

    test : count_dots name ≢ 3 → (count_dots name == 3) ≡ false
    test h = ground arith

    other : count_dots name ≢ 3 → get_ip_address env name ≡ resolve env name
    other h = rw (test h)

-- The first host of the list, counted from `n`, whose address is local.
pub data FirstLocal (env : HostEnv) : List HostInfo → ℕ → Type 0 where
  found :
      {h : HostInfo} {hs : List HostInfo}
      → is_address_local env h.ip_addr ≡ ok true
      → FirstLocal env (h ∷ hs) 0
  later :
      {h : HostInfo} {hs : List HostInfo} {i : ℕ}
      → is_address_local env h.ip_addr ≡ ok false
      → FirstLocal env hs i
      → FirstLocal env (h ∷ hs) (suc i)

pub FirstLocal-lt :
    {env : HostEnv} {hs : List HostInfo} {i : ℕ} → FirstLocal env hs i → i < length hs
FirstLocal-lt (found e) = omega arith
FirstLocal-lt (later e f) = omega (arith, FirstLocal-lt f)
