-- ===== src/Bench/Runs/Sent.antt =====
-- What `IoCalls` and `MetadataCalls` send, and when they return.
use ppi_chi_nettest.Base.{
  true, refl, none, some, ◌==◌, ℕ, ◌+◌, ◌*◌, ◌%◌, ◌<◌, ◌≤◌, ◌≡◌, List, [], ◌∷◌, ◌++◌, arith, length,
  replicate, if◌then◌else◌, u64_mod,
}
use ppi_chi_nettest.Base.Text.{Text, codes}
use ppi_chi_nettest.Base.Int.{int_bound}
use ppi_chi_nettest.Base.Outcome.{Outcome, ok, throws, margo_exception}
use ppi_chi_nettest.Bitfield.{Bitfield}
use ppi_chi_nettest.Transfer.{emplace, SegmentedTransfer, dt_write}
use ppi_chi_nettest.Transfer.Laws.{total}
use ppi_chi_nettest.Thallium.Bulk.Laws.{make_bulk-flagged}
use ppi_chi_nettest.RpcContext.{RpcContext, num_hosts}
use ppi_chi_nettest.Thallium.Action.{read_only, Payload, metadata, transfer, Request, Log, Net}
use ppi_chi_nettest.Thallium.Rpc.{
  ThalliumRpc, attempt, wait, sync_call, async_io_call, sync_io_call,
}
use ppi_chi_nettest.Thallium.Bulk.{client_mode, make_bulk_client}
use ppi_chi_nettest.Thallium.Calls.{
  IsConnected, get_server_name-IsConnected, request_to, async_call-attempt, Reaches,
}
use ppi_chi_nettest.Thallium.Calls.Stop.{all_answered}
use ppi_chi_nettest.Bench.Runs.{
  io_transfer, io_sync_body, io_async_body, metadata_sync_body, metadata_async_body, io_calls_sync,
  io_calls_async, int_rounds, int_as_u64, metadata_calls_sync, metadata_calls_async,
}
use ppi_chi_nettest.Bench.Runs.Loops.{rep_requests}
use ppi_chi_nettest.Bench.Runs.Complete.{
  reserve_ok, Answers, sync_run, async_run, all_answered-Answers, Answers-Reaches,
}

-- The payload of a request of `IoCalls`, spelled out: one segment of `io_size` bytes with the two
-- bits of DT_WRITE, exposed for reading unless it is empty, and `md_size` bytes of metadata.
abbrev pub io_payload : (ret_node data_ptr md_size io_size : ℕ) → Payload
io_payload ret_node data_ptr md_size io_size =
    transfer
      (if io_size % u64_mod == 0
        then none
        else some (record { segments = (data_ptr, io_size) ∷ []; mode = read_only }))
      (record {
        ret_node = ret_node;
        bulk = record { flags = 3; data_ptr = data_ptr; data_size = io_size } ∷ [];
        md = replicate md_size 1;
      })

write_bits : (b : Bitfield) → dt_write b ≡ 3
write_bits b = rw (b.bit_opt_lem 1 (omega arith), b.bit_opt_lem 0 (omega arith))

io_payload_lem :
    (b : Bitfield) (ret_node data_ptr md_size io_size : ℕ)
    → let xfer = io_transfer b ret_node data_ptr md_size io_size in
      transfer (make_bulk_client b xfer.bulk (dt_write b)).0 xfer
      ≡ io_payload ret_node data_ptr md_size io_size
unfolding io_transfer emplace make_bulk_client client_mode total
io_payload_lem b ret_node data_ptr md_size io_size =
    let bulk = (io_transfer b ret_node data_ptr md_size io_size).bulk in
    let hit : b.any (b.init (dt_write b)) (dt_write b) ≡ true =
      rw (b.init_lem, write_bits b, b.any_lem) refl in
    let exposed = (make_bulk-flagged b bulk (dt_write b) (client_mode b (dt_write b))).1 in
    rw (exposed, hit, b.init_lem, write_bits b) (ground arith)

module _ (b : Bitfield) (net : Net) {self : ThalliumRpc} {rpc : RpcContext}
    (c : IsConnected self rpc) where
  -- A request with its transfer, and the memory that the client exposes for it.
  abbrev submit : SegmentedTransfer → ℕ → Request
  submit xfer =
      request_to self (codes "RpcTaskSubmit")
        (transfer (make_bulk_client b xfer.bulk (dt_write b)).0 xfer)

  io_sync_round :
      (xfer : SegmentedTransfer) (node_id : ℕ) (s : Unit {0}) (log : Log)
      → 1 ≤ node_id
      → node_id ≤ num_hosts rpc
      → Answers net (length log)
      → io_sync_body b net self xfer node_id s log ≡ (ok s, log ++ submit xfer node_id ∷ [])
  unfolding io_sync_body sync_io_call async_io_call attempt wait
  io_sync_round xfer node_id s log low high h =
      let named = get_server_name-IsConnected c node_id low high in ground (arith, named, c.client)

  io_async_round :
      (xfer : SegmentedTransfer) (node_id : ℕ) (s : List ℕ) (log : Log)
      → 1 ≤ node_id
      → node_id ≤ num_hosts rpc
      → Reaches net (length log)
      → io_async_body b net self xfer node_id s log
        ≡ (ok (s ++ length log ∷ []), log ++ submit xfer node_id ∷ [])
  unfolding io_async_body async_io_call attempt
  io_async_round xfer node_id s log low high h =
      let named = get_server_name-IsConnected c node_id low high in ground (arith, named, c.client)

  metadata_sync_round :
      (md : Text) (node_id : ℕ) (s : Unit {0}) (log : Log)
      → 1 ≤ node_id
      → node_id ≤ num_hosts rpc
      → Answers net (length log)
      → metadata_sync_body net self md node_id s log
        ≡ (ok s, log ++ request_to self (codes "RpcPing") (metadata md) node_id ∷ [])
  unfolding metadata_sync_body sync_call attempt wait
  metadata_sync_round md node_id s log low high h =
      let told = async_call-attempt c net node_id (codes "RpcPing") (metadata md) log low high in
      ground (arith, told)

  metadata_async_round :
      (md : Text) (node_id : ℕ) (s : List ℕ) (log : Log)
      → 1 ≤ node_id
      → node_id ≤ num_hosts rpc
      → Reaches net (length log)
      → metadata_async_body net self md node_id s log ≡ (
        ok (s ++ length log ∷ []),
        log ++ request_to self (codes "RpcPing") (metadata md) node_id ∷ [],
      )
  unfolding metadata_async_body attempt
  metadata_async_round md node_id s log low high h =
      let told = async_call-attempt c net node_id (codes "RpcPing") (metadata md) log low high in
      ground (arith, told)

  -- On a connected client, if every request is answered and `rep` is below 2^31,
  -- `IoCalls<false>` returns: it sent `rep` requests to each node, node by node, each with the
  -- one segment of `io_size` bytes and `md_size` bytes of metadata, and `ops` is their number
  -- of bytes modulo 2^64.
  pub io_calls_sync-Answers :
      (ret_node data_ptr md_size io_size rep : ℕ) (log : Log)
      → rep < int_bound
      → ((k : ℕ) → length log ≤ k → k < length log + num_hosts rpc * rep → Answers net k)
      → io_calls_sync b net self rpc ret_node data_ptr md_size io_size rep log ≡ (
        ok (num_hosts rpc * rep * (io_size + md_size) % u64_mod),
        log
            ++ rep_requests
                (request_to self
                  (codes "RpcTaskSubmit")
                  (io_payload ret_node data_ptr md_size io_size))
                rep
                (num_hosts rpc)
                1,
      )
  unfolding io_calls_sync
  io_calls_sync-Answers ret_node data_ptr md_size io_size rep log small all =
      let xfer = io_transfer b ret_node data_ptr md_size io_size in
      let ops = num_hosts rpc * rep * (io_size + md_size) % u64_mod in
      let run =
        sync_run net c (io_sync_body b net self xfer) (submit xfer) rep ops log (io_sync_round xfer)
          small all in
      rw (reserve_ok (num_hosts rpc) rep c.listed.few small)
        (rw (io_payload_lem b ret_node data_ptr md_size io_size) at run)

  -- On a connected client, if every request can be sent and `rep` is below 2^31,
  -- `IoCalls<true>` sends the same requests as `IoCalls<false>` before it waits, returns the
  -- same `ops` exactly when all of them are answered, and raises otherwise.
  pub io_calls_async-Reaches :
      (ret_node data_ptr md_size io_size rep : ℕ) (log : Log)
      → rep < int_bound
      → ((k : ℕ) → length log ≤ k → k < length log + num_hosts rpc * rep → Reaches net k)
      → io_calls_async b net self rpc ret_node data_ptr md_size io_size rep log ≡ (
        if all_answered net (length log) (num_hosts rpc * rep)
            then ok (num_hosts rpc * rep * (io_size + md_size) % u64_mod)
            else throws margo_exception,
        log
            ++ rep_requests
                (request_to self
                  (codes "RpcTaskSubmit")
                  (io_payload ret_node data_ptr md_size io_size))
                rep
                (num_hosts rpc)
                1,
      )
  unfolding io_calls_async
  io_calls_async-Reaches ret_node data_ptr md_size io_size rep log small all =
      let xfer = io_transfer b ret_node data_ptr md_size io_size in
      let ops = num_hosts rpc * rep * (io_size + md_size) % u64_mod in
      let run =
        async_run net c (io_async_body b net self xfer) (submit xfer) rep ops log
          (io_async_round xfer) small all in
      rw (reserve_ok (num_hosts rpc) rep c.listed.few small)
        (rw (io_payload_lem b ret_node data_ptr md_size io_size) at run)

  -- On a connected client, if every request is answered and `rep` is below 2^31, both
  -- `MetadataCalls` return the number of requests modulo 2^64, after the same `rep` requests to
  -- each node, node by node, each with `md_size` bytes of metadata.
  pub metadata_calls-Answers :
      (md_size rep : ℕ) (log : Log)
      → rep < int_bound
      → ((k : ℕ) → length log ≤ k → k < length log + num_hosts rpc * rep → Answers net k)
      → let done : Outcome ℕ × Log = (
        ok (num_hosts rpc * rep % u64_mod),
        log
            ++ rep_requests
                (request_to self (codes "RpcPing") (metadata (replicate md_size 1)))
                rep
                (num_hosts rpc)
                1,
      ) in
        (metadata_calls_sync net self rpc md_size rep log ≡ done)
        × (metadata_calls_async net self rpc md_size rep log ≡ done)
  unfolding metadata_calls_sync metadata_calls_async
  metadata_calls-Answers md_size rep log small all =
      let whole : int_rounds rep ≡ rep = ground arith in
      let wide : int_as_u64 rep ≡ rep = ground arith in
      let room = reserve_ok (num_hosts rpc) rep c.listed.few small in
      let md = replicate md_size 1 in
      let q = request_to self (codes "RpcPing") (metadata md) in
      let ops = num_hosts rpc * rep % u64_mod in
      let replied = all_answered-Answers net (length log) (num_hosts rpc * rep) all in
      let waited =
        async_run net c (metadata_async_body net self md) q rep ops log (metadata_async_round md)
          small (λ k a z. Answers-Reaches net k (all k a z)) in
      (
        rw (whole, wide, room)
            (sync_run net c (metadata_sync_body net self md) q rep ops log (metadata_sync_round md)
              small all),
        rw (whole, wide, room) (rw replied at waited),
      )
