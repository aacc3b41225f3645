-- ===== src/Router/Leaks.antt =====
-- relay-engine/src/inference_router.rs: what the error path and overlapping requests leave behind.
use cozmio.Prelude.{ℕ, ◌≡◌, refl, true, false, some, arith, ◌==◌, ==_refl, string_key}
use cozmio.Prelude.Results.{err}
use cozmio.Prelude.Maps.{lookup, insert, lookup-insert, lookup-remove}
use cozmio.Workers.States.{get-mark_busy, get-mark_idle}
use cozmio.Workers.{WorkerInfo, WorkerRegistry, busy, idle, get}
use cozmio.Workers
use cozmio.Router.{InferenceRouter, InferenceRequest, transport, begin_request, finish_request}

begin_sent :
    (q : InferenceRequest) (now : ℕ) (r : InferenceRouter)
    → r.worker_rx_alive ≡ true
    → let r' = (begin_request q now r).0 in
      (r'.registry ≡ (Workers.mark_busy q.worker_id r.registry).0)
      × (r'.worker_rx_alive ≡ true)
      × (r'.pending_requests
          ≡ insert q.request_id (record { request = q; created_at = now }) r.pending_requests)
unfolding begin_request
begin_sent q now r alive = (ground arith, ground arith, ground arith)

-- When the command cannot be sent, the request is refused with an error, but it stays in the table of
-- pending requests, with no task that waits for it, and its worker stays marked busy.
pub failed_send_leaks :
    (request : InferenceRequest) (now : ℕ) (r : InferenceRouter) (w : WorkerInfo)
    → r.worker_rx_alive ≡ false
    → get request.worker_id r.registry ≡ some w
    → let (r', result) = begin_request request now r in
      (result ≡ err (transport "channel closed"))
      × (lookup request.request_id r'.pending_requests
          ≡ some (record { request = request; created_at = now }))
      × (get request.worker_id r'.registry ≡ some (record w { state = busy }))
      × (r'.oneshots ≡ r.oneshots)
unfolding begin_request
failed_send_leaks request now r w closed found = rw closed (
  refl,
  ground (
    arith,
    ==_refl request.request_id,
    lookup-insert request.request_id request.request_id
        (record { request = request; created_at = now }) r.pending_requests,
  ),
  ground (
    arith,
    found,
    ==_refl request.worker_id,
    get-mark_busy request.worker_id request.worker_id r.registry,
  ),
  refl,
)

-- Two requests that overlap on one worker: when the first ends, for whatever reason, the worker is
-- marked idle though the second is still pending.
pub idle_while_pending :
    (a b : InferenceRequest) (s t : ℕ) (r : InferenceRouter) (w : WorkerInfo)
    → r.worker_rx_alive ≡ true
    → a.worker_id ≡ b.worker_id
    → (a.request_id == b.request_id) ≡ false
    → get b.worker_id r.registry ≡ some w
    → let both = (begin_request b t (begin_request a s r).0).0 in
      let r' = (finish_request a.request_id a.worker_id both).0 in
      (get b.worker_id r'.registry ≡ some (record w { state = idle }))
      × (lookup b.request_id r'.pending_requests ≡ some (record { request = b; created_at = t }))
unfolding finish_request
idle_while_pending a b s t r w alive same differ found =
    let first = begin_sent a s r alive in
    let second = begin_sent b t (begin_request a s r).0 first.1 in
    rw (second.0, second.2, first.0, first.2, same)
      (
        ground (
          arith,
          found,
          ==_refl b.worker_id,
          get-mark_idle b.worker_id b.worker_id
              (Workers.mark_busy b.worker_id (Workers.mark_busy b.worker_id r.registry).0).0,
          get-mark_busy b.worker_id b.worker_id (Workers.mark_busy b.worker_id r.registry).0,
          get-mark_busy b.worker_id b.worker_id r.registry,
        ),
        rw (lookup-remove, differ) (rw (lookup-insert, ==_refl b.request_id)),
      )
