-- ===== src/Bench/Tests.antt =====
-- Runs of the benchmark on the two hosts of the context's tests.
use ppi_chi_nettest.Base.{
  map, Option, ℕ, ◌+◌, ◌*◌, ◌%◌, ◌<◌, ◌≤◌, ◌≡◌, refl, [], ◌∷◌, if◌then◌else◌, arith, u64_mod,
  replicate,
}
use ppi_chi_nettest.Base.Text.{Text, codes}
use ppi_chi_nettest.Base.Outcome.{Outcome, ok, throws, margo_exception}
use ppi_chi_nettest.Bitfield.{hshm_bits}
use ppi_chi_nettest.Transfer.{SegmentedTransfer, Memory}
use ppi_chi_nettest.Transfer.Allocate.{placed, blocks}
use ppi_chi_nettest.RpcContext.Tests.{ready}
use ppi_chi_nettest.Thallium.Action.{Bulk, metadata, Log, lost, Net}
use ppi_chi_nettest.Thallium.Calls.{request_to, requests, Reaches}
use ppi_chi_nettest.Thallium.Calls.Stop.{all_answered}
use ppi_chi_nettest.Thallium.Tests.{net_with, losing, serving, connected, new_rpc, is_serving}
use ppi_chi_nettest.Bench.{test_runner, rpc_task_submit, ping_all_sync, ping_all_async}
use ppi_chi_nettest.Bench.Handlers.{test_runner-IsServing, rpc_task_submit-live}
use ppi_chi_nettest.Bench.Ping.{
  count_answered, ping_all_sync-count, ping_all_async-count, ping_all_async-ping_all_sync,
}
use ppi_chi_nettest.Bench.Runs.{
  io_calls_sync, io_calls_async, metadata_calls_sync, metadata_calls_async,
}
use ppi_chi_nettest.Bench.Runs.Loops.{rep_requests}
use ppi_chi_nettest.Bench.Runs.Complete.{Answers}
use ppi_chi_nettest.Bench.Runs.Sent.{
  io_payload, io_calls_sync-Answers, io_calls_async-Reaches, metadata_calls-Answers,
}
use ppi_chi_nettest.Thallium.Bulk.{make_bulk_client}
use ppi_chi_nettest.Thallium.Bulk.Distinct.{addresses}
use ppi_chi_nettest.Transfer.{dt_write}

-- Every attempt is answered.
abbrev good : Net
good = net_with 99 lost

registered_names :
    test_runner serving
    ≡ ok (record serving {
      defined = codes "RpcStopDaemon" ∷ codes "RpcPing" ∷ codes "RpcTaskSubmit" ∷ [];
    })
registered_names = test_runner-IsServing ready new_rpc serving is_serving

abbrev heap : Memory
heap = record { address = λ n. 16 + n; calls = 0; live = []; bytes = λ p. [] }

abbrev xfer : SegmentedTransfer
xfer = record {
  ret_node = 1;
  bulk = record { flags = 3; data_ptr = 0; data_size = 10 } ∷ [];
  md = [];
}

rpc_task_submit-live_example :
    (after : Memory) × (rpc_task_submit hshm_bits (λ bulk m. ok (10, m)) xfer heap ≡ ok (0, after))
    × (after.live ≡ blocks (placed heap.address 0 xfer.bulk) [])
rpc_task_submit-live_example =
    rpc_task_submit-live hshm_bits (λ bulk m. ok (10, m)) xfer heap (λ bulk m. (10, m, refl, refl))
      (λ n e. omega arith)

ping_all_sync-count_example : ping_all_sync losing serving ready [] ≡ (
  ok (count_answered losing 0 2),
  requests (request_to serving (codes "RpcPing") (metadata [])) 2 1,
)
ping_all_sync-count_example = ping_all_sync-count losing connected []

all_answer : (k : ℕ) → 0 ≤ k → k < 0 + 4 → Answers good k
all_answer k low high = ground arith

all_reach : (k : ℕ) → 0 ≤ k → k < 0 + 4 → Reaches losing k
all_reach k low high = ground arith

io_calls_sync-Answers_example : io_calls_sync hshm_bits good serving ready 0 4096 8 100 2 [] ≡ (
  ok (2 * 2 * (100 + 8) % u64_mod),
  rep_requests (request_to serving (codes "RpcTaskSubmit") (io_payload 0 4096 8 100)) 2 2 1,
)
io_calls_sync-Answers_example =
    io_calls_sync-Answers hshm_bits good connected 0 4096 8 100 2 [] (omega arith) all_answer

io_calls_async-Reaches_example : io_calls_async hshm_bits losing serving ready 0 4096 8 100 2 [] ≡ (
  if all_answered losing 0 4 then ok (2 * 2 * (100 + 8) % u64_mod) else throws margo_exception,
  rep_requests (request_to serving (codes "RpcTaskSubmit") (io_payload 0 4096 8 100)) 2 2 1,
)
io_calls_async-Reaches_example =
    io_calls_async-Reaches hshm_bits losing connected 0 4096 8 100 2 [] (omega arith) all_reach

metadata_calls-Answers_example :
    let done : Outcome ℕ × Log = (
      ok (2 * 2 % u64_mod),
      rep_requests (request_to serving (codes "RpcPing") (metadata (replicate 8 1))) 2 2 1,
    ) in
    (metadata_calls_sync good serving ready 8 2 [] ≡ done)
    × (metadata_calls_async good serving ready 8 2 [] ≡ done)
metadata_calls-Answers_example =
    metadata_calls-Answers hshm_bits good connected 8 2 [] (omega arith) all_answer

counted_sync : (ping_all_sync losing serving ready []).0 ≡ ok 1
counted_sync = rw (ping_all_sync-count losing connected []) refl

counted_async : (ping_all_async losing serving ready []).0 ≡ ok 1
counted_async = rw (ping_all_async-count losing connected []) refl

ping_all_async-ping_all_sync_example : 1 ≤ 1
ping_all_async-ping_all_sync_example =
    ping_all_async-ping_all_sync losing connected [] counted_async counted_sync

-- Three segments, the second of which is not flagged for writing.
abbrev three_segments : SegmentedTransfer
three_segments = record {
  ret_node = 1;
  bulk =
      record { flags = 3; data_ptr = 4096; data_size = 10 }
      ∷ record { flags = 4; data_ptr = 8192; data_size = 20 }
      ∷ record { flags = 3; data_ptr = 9000; data_size = 5 }
      ∷ [];
  md = 1 ∷ [];
}

abbrev fresh : SegmentedTransfer
fresh = record { ret_node = 0; bulk = []; md = [] }

-- What the client's blocks hold.
abbrev source : ℕ → Text
source p = p ∷ []

abbrev exposed : Option Bulk
exposed = (make_bulk_client hshm_bits three_segments.bulk (dt_write hshm_bits)).0

-- The first and the third block of the server are written.
pulled_blocks : map source (addresses exposed) ≡ (4096 ∷ []) ∷ (9000 ∷ []) ∷ []
unfolding make_bulk_client
pulled_blocks = refl
