-- ===== src/Thallium/OneWay.antt =====
-- The calls of include/test_networks/rpc_thallium.h whose result is `void`, and the tests whether
-- an answer is there. A response is disabled in a call without a result: it is sent, and nobody
-- waits.
use ppi_chi_nettest.Base.{ℕ, ◌≤◌, ◌≡◌, Bool, [], ◌∷◌, ◌++◌, arith, length, if◌then◌else◌}
use ppi_chi_nettest.Base.Text.{Text}
use ppi_chi_nettest.Base.Outcome.{ok, throws, margo_exception}
use ppi_chi_nettest.Bitfield.{Bitfield}
use ppi_chi_nettest.Transfer.{SegmentedTransfer}
use ppi_chi_nettest.RpcContext.{RpcContext, num_hosts}
use ppi_chi_nettest.Thallium.Action.{Payload, Log, Net, Action, pure, ◌>>◌}
use ppi_chi_nettest.Thallium.Rpc.{ThalliumRpc, attempt, wait, async_call, async_io_call}
use ppi_chi_nettest.Thallium.Calls.{IsConnected, request_to, async_call-attempt}
use ppi_chi_nettest.Thallium.Calls.Stop.{is_sent}

-- `Call<void, false>`
unfoldable pub call_void : Net → ThalliumRpc → ℕ → Text → Payload → Action (Unit {0})
unfolding async_call
call_void net self node_id func payload = do async_call net self node_id func payload; pure tt

-- `IoCall<void, false>`
unfoldable pub io_call_void :
    Bitfield → Net → ThalliumRpc → ℕ → Text → SegmentedTransfer → ℕ → Action (Unit {0})
unfolding async_io_call
io_call_void b net self node_id func xfer io_flag = do
  async_io_call b net self node_id func xfer io_flag
  pure tt

-- `Wait<void>`
unfoldable pub wait_void : Net → ℕ → Action (Unit {0})
unfolding wait
wait_void net response = do wait net response; pure tt

-- `IsDone` and `IsComplete`, from what the library says of the response.
unfoldable pub is_done : (ℕ → Bool) → ℕ → Bool
is_done received response = received response

unfoldable pub is_complete : (ℕ → Bool) → ℕ → Bool
is_complete received response = received response

-- On a connected client and for a listed node, a call without a result makes one attempt and returns
-- if that is sent, also if its answer is lost; it raises an exception otherwise.
pub call_void-sent :
    (net : Net) {self : ThalliumRpc} {rpc : RpcContext}
    → IsConnected self rpc
    → (node_id : ℕ) (func : Text) (payload : Payload) (log : Log) → 1 ≤ node_id
    → node_id ≤ num_hosts rpc
    → call_void net self node_id func payload log ≡ (
      if is_sent (net.attempt (length log)) then ok tt else throws margo_exception,
      log ++ request_to self func payload node_id ∷ [],
    )
unfolding call_void attempt
call_void-sent net c node_id func payload log low high =
    let told = async_call-attempt c net node_id func payload log low high in ground (arith, told)
