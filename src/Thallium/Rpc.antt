-- ===== src/Thallium/Rpc.antt =====
-- The state of `ThalliumRpc` and its calls (include/test_networks/rpc_thallium.h, lines 31 to 145
-- and 205 to 279).
use ppi_chi_nettest.Base.{
  ◌≡◌, ℕ, ◌+◌, ◌%◌, Bool, List, [], ◌∷◌, ◌++◌, Option, none, some, ◌==◌, if◌then◌else◌, length,
  u64_mod,
}
use ppi_chi_nettest.Base.Text.{Text, codes}
use ppi_chi_nettest.Base.Int.{int_to_string}
use ppi_chi_nettest.Base.Outcome.{
  Outcome, ok, fatal, throws, undefined, out_of_fuel, margo_exception,
}
use ppi_chi_nettest.Base.Outcome
use ppi_chi_nettest.Bitfield.{Bitfield}
use ppi_chi_nettest.Transfer.{Memory, SegmentedTransfer, dt_write}
use ppi_chi_nettest.RpcContext
use ppi_chi_nettest.RpcContext.{RpcContext, num_hosts}
use ppi_chi_nettest.Thallium.Action.{
  Bulk, Payload, transfer, Request, unreachable, lost, answered, Net, Action, lift, ◌>>=◌, ◌>>◌,
}
use ppi_chi_nettest.Thallium.Bulk.{make_bulk_client, make_bulk_server}

-- A `std::unique_ptr<tl::engine>`, by the address or the protocol that it was made with.
pub data Engine : Type 0 where
  absent : Engine
  running finalized : Text → Engine

abbrev pub IsRunning : Engine → Type 0
IsRunning e = (made_with : Text) × (e ≡ running made_with)

abbrev pub IsFinalized : Engine → Type 0
IsFinalized e = (made_with : Text) × (e ≡ finalized made_with)

pub record ThalliumRpc : Type 0 where
  pub kill_requested : Bool
  pub client_engine : Engine
  pub server_engine : Engine
  pub rpc : Option RpcContext
  pub rpc_xstreams : ℕ
  pub rpc_pool : Bool
  pub defined : List Text  -- the names that the server engine answers

-- `rpc_->…`
abbrev pub the_rpc : ThalliumRpc → Outcome RpcContext
the_rpc self = elim self.rpc [ none ↦ undefined | some rpc ↦ ok rpc ]

-- A call on an engine goes through its pointer.
abbrev pub deref : Engine → Outcome (Unit {0})
deref absent = undefined
deref (running a) = ok tt
deref (finalized a) = ok tt

unfoldable pub get_server_name : ThalliumRpc → ℕ → Outcome Text
get_server_name self node_id = Outcome.◌>>=◌ (the_rpc self) λ rpc.
    Outcome.◌>>=◌ (RpcContext.get_ip_address_from_node_id rpc node_id) λ ip_address.
      ok (rpc.protocol ++ (codes "://" ++ (ip_address ++ (codes ":" ++ int_to_string rpc.port))))

-- One attempt of the library: `lookup`, and the call on the endpoint. The value is the attempt's
-- number, which stands for its response.
unfoldable pub attempt : Net → Request → Action ℕ
attempt net r log =
    let log' = log ++ r ∷ [] in
    elim (net.attempt (length log)) [
      | unreachable ↦ (throws margo_exception, log')
      | lost ↦ (ok (length log), log')
      | answered v ↦ (ok (length log), log')
    ]

-- `Wait<int>`
unfoldable pub wait : Net → ℕ → Action ℕ
wait net response log = elim (net.attempt response) [
  | unreachable ↦ (throws margo_exception, log)
  | lost ↦ (throws margo_exception, log)
  | answered v ↦ (ok v, log)
]

-- `Call<thallium::async_response, true>`
unfoldable pub async_call : Net → ThalliumRpc → ℕ → Text → Payload → Action ℕ
unfolding get_server_name attempt
async_call net self node_id func payload = do
  server_name ← lift (get_server_name self node_id)
  lift (deref self.client_engine)
  attempt net (record { server = server_name; func = func; payload = payload })

-- `Call<int, false>`
unfoldable pub sync_call : Net → ThalliumRpc → ℕ → Text → Payload → Action ℕ
unfolding async_call wait
sync_call net self node_id func payload = do
  response ← async_call net self node_id func payload
  wait net response

-- `IoCall<thallium::async_response, true>`
unfoldable pub async_io_call :
    Bitfield → Net → ThalliumRpc → ℕ → Text → SegmentedTransfer → ℕ → Action ℕ
unfolding get_server_name attempt make_bulk_client
async_io_call b net self node_id func xfer io_flag = do
  server_name ← lift (get_server_name self node_id)
  lift (deref self.client_engine)
  let bulk = (make_bulk_client b xfer.bulk io_flag).0
  attempt net (record { server = server_name; func = func; payload = transfer bulk xfer })

-- `IoCall<int, false>`
unfoldable pub sync_io_call :
    Bitfield → Net → ThalliumRpc → ℕ → Text → SegmentedTransfer → ℕ → Action ℕ
unfolding async_io_call wait
sync_io_call b net self node_id func xfer io_flag = do
  response ← async_io_call b net self node_id func xfer io_flag
  wait net response

-- `IoCallServerWrite`; `pull` is the transfer from the client's bulk into the local one: it gives
-- the number of bytes and the memory after it, or raises an exception.
unfoldable pub io_call_server_write :
    Bitfield
    → (Option Bulk → Memory → Outcome (ℕ × Memory))
    → SegmentedTransfer
    → Memory
    → Outcome (ℕ × Memory)
unfolding make_bulk_server
io_call_server_write b pull xfer m =
    let (local_wbulk, planned_bytes) = make_bulk_server b xfer.bulk (dt_write b) in
    if planned_bytes == 0 then ok (0, m) else elim (pull local_wbulk m) [
      | ok (n, m') ↦ ok ((0 + n) % u64_mod, m')
      | fatal ↦ fatal
      | throws e ↦ fatal
      | undefined ↦ undefined
      | out_of_fuel ↦ out_of_fuel
    ]
