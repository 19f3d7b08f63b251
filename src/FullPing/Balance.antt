-- ===== src/FullPing/Balance.antt =====
-- Which runs give back what they acquired.
use mathlib.Core.List.{append_assoc}
use ppi_chi_nettest.Base.{
  ℕ, ◌+◌, ◌≡◌, refl, subst, sym, Bool, List, [], ◌∷◌, ◌++◌, Bool-cases, inl, inr, arith,
}
use ppi_chi_nettest.Base.Text.{Text, codes}
use ppi_chi_nettest.Base.Outcome.{ok}
use ppi_chi_nettest.Config.{ConfigParse}
use ppi_chi_nettest.FullPing.{
  Kind, hints, info, fabric, domain, passive, acquire, release, sends, receives, prints, Events,
  ping_host, ping_hosts, ping_all, launch_server, main,
}

-- Every handle is released once, behind all uses, and after the handles that were acquired later.
pub data Balanced : Events → Type 0 where
  done : Balanced []
  sent : {host : Text} {es : Events} → Balanced es → Balanced (sends host ∷ es)
  received : {host : Text} {es : Events} → Balanced es → Balanced (receives host ∷ es)
  printed : {line : Text} {es : Events} → Balanced es → Balanced (prints line ∷ es)
  held :
      {k : Kind} {n : ℕ} (inside after : Events)
      → Balanced inside
      → Balanced after
      → Balanced (acquire k n ∷ (inside ++ release k n ∷ after))

Balanced-++ : {es fs : Events} → Balanced es → Balanced fs → Balanced (es ++ fs)
Balanced-++ done b = b
Balanced-++ (sent a) b = sent (Balanced-++ a b)
Balanced-++ (received a) b = received (Balanced-++ a b)
Balanced-++ (printed a) b = printed (Balanced-++ a b)
Balanced-++ {fs = fs} (held {k = k} {n = n} inside after a c) b =
    subst (λ es. Balanced (acquire k n ∷ es)) (sym (append_assoc inside (release k n ∷ after) fs))
      (held inside (after ++ fs) a (Balanced-++ c b))

-- A handle that is held around a run and released at its end.
pub around :
    {k : Kind} {n : ℕ} (es : Events)
    → Balanced es
    → Balanced (acquire k n ∷ (es ++ release k n ∷ []))
around es b = held es [] b done

ping_host-Balanced :
    (answer : ℕ → Bool) (n : ℕ) (host : Text) → Balanced (ping_host answer n host).0
unfolding ping_host
ping_host-Balanced answer n host = elim (Bool-cases (answer n)) [
  | inr a ↦ rw a done
  | inl a ↦ elim (Bool-cases (answer (n + 1))) [
    | inr b ↦ rw (a, b) (around [] done)
    | inl b ↦ elim (Bool-cases (answer (n + 2))) [
      | inr c ↦ rw (a, b, c) (around _ (around [] done))
      | inl c ↦ elim (Bool-cases (answer (n + 3))) [
        | inr d ↦ rw (a, b, c, d) (around _ (around _ (around [] done)))
        | inl d ↦ rw (a, b, c, d) (around _ (around _ (around _ (around _ (sent (received done))))))
      ]
    ]
  ]
]

ping_hosts-Balanced :
    (answer : ℕ → Bool) (n : ℕ) (hosts : List Text) → Balanced (ping_hosts answer n hosts)
unfolding ping_hosts
ping_hosts-Balanced answer n [] = done
ping_hosts-Balanced answer n (host ∷ hosts) =
    Balanced-++ (ping_host-Balanced answer n host)
      (ping_hosts-Balanced answer (ping_host answer n host).1 hosts)

-- Whatever libfabric answers, `PingAll` releases every handle that it acquired, once, and in the
-- reverse order.
pub ping_all-Balanced : (answer : ℕ → Bool) (hosts : List Text) → Balanced (ping_all answer hosts).1
unfolding ping_all
ping_all-Balanced answer hosts = elim (Bool-cases (answer 0)) [
  | inr a ↦ rw a done
  | inl a ↦ rw a (around _ (ping_hosts-Balanced answer 1 hosts))
]

-- Where `LaunchServer` fails it released everything, in the reverse order; where it succeeds it
-- returns at once, and released none of the five handles that it holds.
pub launch_server_lem :
    (answer : ℕ → Bool)
    → let run = launch_server answer in
      (run.0 ≡ 1 → Balanced run.1)
      × (run.0 ≡ 0
          → run.1
            ≡ acquire hints 0
              ∷ acquire info 1
              ∷ acquire fabric 2
              ∷ acquire domain 3
              ∷ acquire passive 4
              ∷ [])
unfolding launch_server
launch_server_lem answer = elim (Bool-cases (answer 0)) [
  | inr a ↦ rw a (λ e. done, λ e. cc)
  | inl a ↦ elim (Bool-cases (answer 1)) [
    | inr b ↦ rw (a, b) (λ e. around [] done, λ e. cc)
    | inl b ↦ elim (Bool-cases (answer 2)) [
      | inr c ↦ rw (a, b, c) (λ e. around _ (around [] done), λ e. cc)
      | inl c ↦ elim (Bool-cases (answer 3)) [
        | inr d ↦ rw (a, b, c, d) (λ e. around _ (around _ (around [] done)), λ e. cc)
        | inl d ↦ elim (Bool-cases (answer 4)) [
          | inr f ↦
              rw (a, b, c, d, f) (λ e. around _ (around _ (around _ (around [] done))), λ e. cc)
          | inl f ↦ elim (Bool-cases (answer 5)) [
            | inr g ↦
                rw (a, b, c, d, f, g)
                  (λ e. around _ (around _ (around _ (around _ (around [] done)))), λ e. cc)
            | inl g ↦ rw (a, b, c, d, f, g) (λ e. cc, λ e. refl)
          ]
        ]
      ]
    ]
  ]
]

-- With the mode `client` and a host file that can be read the program pings `localhost`, and no
-- other host, whatever the file lists.
pub main-client :
    (cp : ConfigParse) (answer : ℕ → Bool) (program file dom provider port : Text)
    (hosts : List Text)
    → cp.parse_hostfile file ≡ ok hosts
    → main cp answer (program ∷ file ∷ dom ∷ provider ∷ port ∷ codes "client" ∷ [])
      ≡ ok (ping_all answer (codes "localhost" ∷ []))
unfolding main
main-client cp answer program file dom provider port hosts e = ground (arith, e)
