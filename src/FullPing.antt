-- ===== src/FullPing.antt =====
-- src/fullping.cc: a ping over bare libfabric. What libfabric answers is the argument `answer`,
-- which says whether its n-th call succeeds; a run is the list of what it acquires, sends,
-- receives, prints and releases. A handle is named by the number of the call that made it.
pub mod Balance
pub mod Info
mod Tests
use ppi_chi_nettest.Base.{
  ℕ, suc, ◌+◌, Bool, not, List, [], ◌∷◌, ◌++◌, ltb, ◌==◌, if◌then◌else◌, length,
}
use ppi_chi_nettest.Base.Text.{Text, codes, text_eq, is_empty}
use ppi_chi_nettest.Base.Outcome.{Outcome, ok, ◌>>=◌, ◌>>◌}
use ppi_chi_nettest.Config.{ConfigParse, arg}

pub data Kind : Type 0 where
  hints info fabric domain endpoint passive : Kind

pub data Event : Type 0 where
  acquire release : Kind → ℕ → Event
  sends receives prints : Text → Event

abbrev pub Events : Type 0
Events = List Event

-- One round of the loop of `PingAll`, after `n` calls: the events, and the calls after it.
unfoldable pub ping_host : (ℕ → Bool) → ℕ → Text → Events × ℕ
ping_host answer n host =
    if not (answer n)
    then ([], n + 1)
    else if not (answer (n + 1))
    then (acquire info n ∷ release info n ∷ [], n + 2)
    else if not (answer (n + 2))
    then (
      acquire info n ∷ acquire fabric (n + 1) ∷ release fabric (n + 1) ∷ release info n ∷ [],
      n + 3,
    )
    else if not (answer (n + 3))
    then (
      acquire info n
          ∷ acquire fabric (n + 1)
          ∷ acquire domain (n + 2)
          ∷ release domain (n + 2)
          ∷ release fabric (n + 1)
          ∷ release info n
          ∷ [],
      n + 4,
    )
    else (
      acquire info n
          ∷ acquire fabric (n + 1)
          ∷ acquire domain (n + 2)
          ∷ acquire endpoint (n + 3)
          ∷ sends host
          ∷ receives host
          ∷ release endpoint (n + 3)
          ∷ release domain (n + 2)
          ∷ release fabric (n + 1)
          ∷ release info n
          ∷ [],
      n + 6,
    )

unfoldable pub ping_hosts : (ℕ → Bool) → ℕ → List Text → Events
unfolding ping_host
ping_hosts answer n [] = []
ping_hosts answer n (host ∷ hosts) =
    let (events, n') = ping_host answer n host in events ++ ping_hosts answer n' hosts

-- `PingAll`: the value that it returns, and its events.
unfoldable pub ping_all : (ℕ → Bool) → List Text → ℕ × Events
unfolding ping_hosts
ping_all answer hosts =
    if not (answer 0)
    then (1, [])
    else (0, acquire hints 0 ∷ (ping_hosts answer 1 hosts ++ release hints 0 ∷ []))

-- `LaunchServer`
unfoldable pub launch_server : (ℕ → Bool) → ℕ × Events
launch_server answer =
    if not (answer 0)
    then (1, [])
    else if not (answer 1)
    then (1, acquire hints 0 ∷ release hints 0 ∷ [])
    else if not (answer 2)
    then (1, acquire hints 0 ∷ acquire info 1 ∷ release info 1 ∷ release hints 0 ∷ [])
    else if not (answer 3)
    then (
      1,
      acquire hints 0
          ∷ acquire info 1
          ∷ acquire fabric 2
          ∷ release fabric 2
          ∷ release info 1
          ∷ release hints 0
          ∷ [],
    )
    else if not (answer 4)
    then (
      1,
      acquire hints 0
          ∷ acquire info 1
          ∷ acquire fabric 2
          ∷ acquire domain 3
          ∷ release domain 3
          ∷ release fabric 2
          ∷ release info 1
          ∷ release hints 0
          ∷ [],
    )
    else if not (answer 5)
    then (
      1,
      acquire hints 0
          ∷ acquire info 1
          ∷ acquire fabric 2
          ∷ acquire domain 3
          ∷ acquire passive 4
          ∷ release passive 4
          ∷ release domain 3
          ∷ release fabric 2
          ∷ release info 1
          ∷ release hints 0
          ∷ [],
    )
    else (
      0,
      acquire hints 0
          ∷ acquire info 1
          ∷ acquire fabric 2
          ∷ acquire domain 3
          ∷ acquire passive 4
          ∷ [],
    )

-- `main`; the result of `ParseHostfile` is dropped.
unfoldable pub main : ConfigParse → (ℕ → Bool) → List Text → Outcome (ℕ × Events)
unfolding arg is_empty ping_all launch_server
main cp answer argv = if ltb (length argv) 6 then ok (1, []) else do
  hostfile_path ← arg argv 1
  mode ← arg argv 5
  let parse = cp.parse_hostfile hostfile_path >>= λ dropped. ok tt
  if is_empty hostfile_path then ok tt else parse
  let hosts = codes "localhost" ∷ []
  if text_eq mode (codes "server")
      then ok (launch_server answer)
      else if text_eq mode (codes "client")
      then ok (ping_all answer hosts)
      else ok (0, [])
