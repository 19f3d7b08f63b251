-- ===== src/Ping/Whole.antt =====
-- Whole runs of the ping test: the server, and the client on node 1.
use ppi_chi_nettest.Base.{
  ◌≡◌, refl, sym, Bool, true, false, not, [], ◌∷◌, ◌++◌, arith, if◌then◌else◌, ◌==◌, Bool-cases,
  inl, inr,
}
use ppi_chi_nettest.Base.Text.{codes}
use ppi_chi_nettest.Base.Outcome.{ok, fatal, throws, Exception}
use ppi_chi_nettest.RpcContext.{RpcContext, num_hosts, get_rpc_address}
use ppi_chi_nettest.RpcContext.Ready.{AreListed}
use ppi_chi_nettest.Thallium.Action.{nothing, metadata, Log, Net, pure, ◌>>◌, catch_all}
use ppi_chi_nettest.Thallium.Rpc.{ThalliumRpc}
use ppi_chi_nettest.Thallium.Init.{register_rpc, client_init, server_init}
use ppi_chi_nettest.Thallium.Init.Laws.{
  server_init-IsServing, client_init-IsConnected, client_init-address, IsServing,
}
use ppi_chi_nettest.Thallium.Calls.{
  IsConnected, request_to, requests, length-requests, AllReach, stop_all_daemons,
}
use ppi_chi_nettest.Thallium.Calls.Stop.{all_answered, stop_all_daemons-Reaches}
use ppi_chi_nettest.Ping.{runner_server_init, start_server, client, serves, returns, exits, run}
use ppi_chi_nettest.Ping.Laws.{ping_all-asked, asked-all_answered}

-- On a server that `ServerInit` started, the program registers its name behind `RpcStopDaemon` and
-- changes nothing else.
pub runner_server_init-IsServing :
    (rpc : RpcContext) (before self : ThalliumRpc)
    → IsServing rpc before self
    → runner_server_init self
      ≡ ok (record self { defined = codes "RpcStopDaemon" ∷ codes "RpcPing" ∷ [] })
unfolding runner_server_init register_rpc
runner_server_init-IsServing rpc before self serving =
    let (addr, own, server) = serving.server in rw (server, serving.registered)

-- The server part, when the engines start: the server answers `RpcStopDaemon` and `RpcPing` behind
-- what it answered before, and the block is there if it could be made.
pub run-server :
    (net : Net) (rpc : RpcContext) (before serving : ThalliumRpc) (there made : Bool) (log : Log)
    → server_init net rpc before ≡ ok serving
    → let ready = record serving { defined = codes "RpcStopDaemon" ∷ codes "RpcPing" ∷ [] } in
      (run net before rpc (codes "server") there made log ≡ (ok (serves ready made), log))
      × (run net before rpc (codes "touchserver") there made log ≡ (ok (returns made), log))
unfolding run start_server
run-server net rpc before serving there made log started =
    let s = server_init-IsServing net rpc before started in
    let registered = runner_server_init-IsServing rpc before serving s in
    (rw (started, registered) refl, rw (started, registered) refl)

-- If the server part raises an exception it exits with 1, and the old block is gone.
pub run-server_throws :
    (net : Net) (rpc : RpcContext) (before : ThalliumRpc) (there made : Bool) (log : Log)
    {e : Exception}
    → server_init net rpc before ≡ throws e
    → (run net before rpc (codes "server") there made log ≡ (ok (exits 1 false), log))
      × (run net before rpc (codes "touchserver") there made log ≡ (ok (exits 1 false), log))
unfolding run start_server
run-server_throws net rpc before there made log failed = (rw failed refl, rw failed refl)

module _ (net : Net) (rpc : RpcContext) (before connected : ThalliumRpc) (listed : AreListed rpc)
    (started : client_init net rpc before ≡ ok connected) where
  c : IsConnected connected rpc
  c = client_init-IsConnected net rpc before started listed

  pings : Log
  pings = requests (request_to connected (codes "RpcPing") (metadata [])) (num_hosts rpc) 1

  stops : Log
  stops = requests (request_to connected (codes "RpcStopDaemon") nothing) (num_hosts rpc) 1

  -- What the client does once every ping is answered.
  stopping :
      AllReach net (num_hosts rpc) (num_hosts rpc)
      → catch_all (stop_all_daemons net connected >> pure true) (pure false) pings
        ≡ (ok (all_answered net (num_hosts rpc) (num_hosts rpc)), pings ++ stops)
  unfolding pings stops
  stopping reach =
      let many =
        length-requests (request_to connected (codes "RpcPing") (metadata [])) (num_hosts rpc) 1 in
      let stop = stop_all_daemons-Reaches net c pings (rw many reach) in
      let stop_at = rw many at stop in ground (arith, stop_at)

  client-all_answered :
      rpc.node_id ≡ 1
      → AllReach net (num_hosts rpc) (num_hosts rpc)
      → all_answered net 0 (num_hosts rpc) ≡ true
      → client net before rpc []
        ≡ (ok (exits 0 (not (all_answered net (num_hosts rpc) (num_hosts rpc)))), pings ++ stops)
  unfolding client pings
  client-all_answered first reach hit =
      let asks = ping_all-asked net c [] in
      let pinged = rw (hit, asked-all_answered net 0 (num_hosts rpc) hit) at asks in
      let (address, printed) = client_init-address net rpc before started in
      let shown : get_rpc_address rpc 1 rpc.port ≡ ok address = rw (sym first) printed in
      let stopped = stopping reach in ground (arith, started, pinged, stopped, shown)

  client-missed : all_answered net 0 (num_hosts rpc) ≡ false → (client net before rpc []).0 ≡ fatal
  unfolding client
  client-missed miss =
      let asks = ping_all-asked net c [] in
      let pinged = rw miss at asks in ground (arith, started, pinged)

  run-opened :
      (made : Bool)
      → rpc.node_id ≡ 1
      → run net before rpc (codes "client") true made []
        ≡ catch_all (client net before rpc) (pure (exits 1 true)) []
  unfolding run
  run-opened made first = let node : (rpc.node_id == 1) ≡ true = ground arith in rw node refl

  -- Without the block of a server the client ends the program and sends nothing.
  pub run-client_unopened :
      (made : Bool)
      → rpc.node_id ≡ 1
      → run net before rpc (codes "client") false made [] ≡ (fatal, [])
  unfolding run
  run-client_unopened made first =
      let node : (rpc.node_id == 1) ≡ true = ground arith in rw node refl

  -- The client on a listed context, on node 1 and with the block of a server, if no request to
  -- stop is refused at once: where a ping is not answered the program ends. Otherwise it exits
  -- with 0 whether or not the daemons stop, and the block is gone exactly if all daemons answered.
  pub run-client :
      (made : Bool)
      → rpc.node_id ≡ 1
      → AllReach net (num_hosts rpc) (num_hosts rpc)
      → (run net before rpc (codes "client") true made []).0 ≡ (
          if all_answered net 0 (num_hosts rpc)
          then ok (exits 0 (not (all_answered net (num_hosts rpc) (num_hosts rpc))))
          else fatal)
  run-client made first reach =
      let opened = run-opened made first in
      elim (Bool-cases (all_answered net 0 (num_hosts rpc))) [
        | inl hit ↦
            let ran = client-all_answered first reach hit in rw (opened, hit) (ground (arith, ran))
        | inr miss ↦ let ran = client-missed miss in rw (opened, miss) (ground (arith, ran))
      ]
