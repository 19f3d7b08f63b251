-- ===== src/Cluster.antt =====
-- `StopAllDaemons` in one process and the handlers `RpcStopDaemon` in those of the nodes, in any
-- interleaving (include/test_networks/rpc_thallium.h, lines 78 to 112). Requests and responses are
-- delivered in any order, and the caller may see any call fail.
pub mod Family
pub mod Invariant
pub mod Progress
pub mod Rest
pub mod Safety
pub mod Started
pub mod Sequential
pub mod Whole
mod Tests
use ppi_chi_nettest.Base.{ℕ, suc, ◌≤◌, ◌≡◌, List, [], ◌∷◌, ◌++◌}
use ppi_chi_nettest.Base.Text.{Text, codes}
use ppi_chi_nettest.Base.Outcome.{ok}
use ppi_chi_nettest.Thallium.Action.{nothing, Log}
use ppi_chi_nettest.Thallium.Calls.{request_to}
use ppi_chi_nettest.Thallium.Rpc.{IsRunning, IsFinalized, ThalliumRpc}
use ppi_chi_nettest.Thallium.Init.{rpc_stop_daemon}
use ppi_chi_nettest.Cluster.Family.{update}

-- Where `StopAllDaemons` is: at the call of a node, at the wait for a node, or at its end.
pub data Phase : Type 0 where
  sending waiting : ℕ → Phase
  returned raised : Phase

-- How far the request of a node is: not sent, not yet handled, answered, and done. The handler
-- responds first and stops its engines afterwards.
pub data Handler : Type 0 where
  idle asked responded stopped : Handler

-- The caller's position, the requests, `CHI_THALLIUM` of each process, and the calls that the
-- caller attempted: process n runs the daemon of node n, and there may be a process that runs none.
pub record Cluster : Type 0 where
  pub phase : Phase
  pub handler : ℕ → Handler
  pub procs : ℕ → ThalliumRpc
  pub log : Log

abbrev pub new_cluster : (ℕ → ThalliumRpc) → Cluster
new_cluster procs = record { phase = sending 1; handler = λ node_id. idle; procs = procs; log = [] }

-- The number of the changes that a request has been through.
abbrev pub rank : Handler → ℕ
rank idle = 0
rank asked = 1
rank responded = 2
rank stopped = 3

-- The response is out.
abbrev pub HasResponded : Handler → Type 0
HasResponded h = 2 ≤ rank h

-- The loop of `StopAllDaemons` over `num_hosts` nodes has `node_id` to ask.
abbrev pub IsAsking : (num_hosts : ℕ) → Cluster → ℕ → Type 0
IsAsking num_hosts s node_id = (s.phase ≡ sending node_id) × (node_id ≤ num_hosts)

-- The process answers calls of this name.
abbrev pub Defines : ThalliumRpc → Text → Type 0
Defines self name = (front : List Text) × (back : List Text) × (self.defined ≡ front ++ name ∷ back)

-- The calls after that of a node.
abbrev pub called : (caller : ℕ) → Cluster → ℕ → Log
called caller s node_id =
    s.log ++ request_to (s.procs caller) (codes "RpcStopDaemon") nothing node_id ∷ []

-- One step of the caller, whose process is `caller`, or of the handler of a node. A call goes out
-- only through a running client engine, which the handler of the caller's own process finalizes.
-- A wait is sure to end with the response only while that engine runs; once it is finalized, the
-- wait ends with a response that had come in before, or fails, or never ends.
pub data Step (num_hosts caller : ℕ) (s : Cluster) : Cluster → Type 0 where
  send :
      (node_id : ℕ)
      → IsAsking num_hosts s node_id
      → IsRunning (s.procs caller).client_engine
      → Step num_hosts caller s (record s {
        phase = sending (suc node_id);
        handler = update s.handler node_id asked;
        log = called caller s node_id;
      })
  refuse :
      (node_id : ℕ)
      → IsAsking num_hosts s node_id
      → Step num_hosts caller s (record s { phase = raised; log = called caller s node_id })
  all_sent :
      s.phase ≡ sending (suc num_hosts) → Step num_hosts caller s (record s { phase = waiting 1 })
  receive :
      (node_id : ℕ)
      → s.phase ≡ waiting node_id
      → node_id ≤ num_hosts
      → HasResponded (s.handler node_id)
      → IsRunning (s.procs caller).client_engine
      → Step num_hosts caller s (record s { phase = waiting (suc node_id) })
  receive_earlier :
      (node_id : ℕ)
      → s.phase ≡ waiting node_id
      → node_id ≤ num_hosts
      → HasResponded (s.handler node_id)
      → IsFinalized (s.procs caller).client_engine
      → Step num_hosts caller s (record s { phase = waiting (suc node_id) })
  lose :
      (node_id : ℕ)
      → s.phase ≡ waiting node_id
      → node_id ≤ num_hosts
      → Step num_hosts caller s (record s { phase = raised })
  all_received :
      s.phase ≡ waiting (suc num_hosts) → Step num_hosts caller s (record s { phase = returned })
  respond :
      (node_id : ℕ)
      → s.handler node_id ≡ asked
      → Defines (s.procs node_id) (codes "RpcStopDaemon")
      → Step num_hosts caller s (record s { handler = update s.handler node_id responded })
  stop :
      (node_id : ℕ) {after : ThalliumRpc}
      → s.handler node_id ≡ responded
      → rpc_stop_daemon (s.procs node_id) ≡ ok (0, after)
      → Step num_hosts caller s (record s {
        handler = update s.handler node_id stopped;
        procs = update s.procs node_id after;
      })

pub data Reach (num_hosts caller : ℕ) (procs : ℕ → ThalliumRpc) : Cluster → Type 0 where
  start : Reach num_hosts caller procs (new_cluster procs)
  later :
      {s t : Cluster}
      → Reach num_hosts caller procs s
      → Step num_hosts caller s t
      → Reach num_hosts caller procs t
