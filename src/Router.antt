-- ===== src/Router.antt =====
-- relay-engine/src/inference_router.rs: inference requests on their way to a worker and back.
--
-- `send_inference_request` waits for its response, so it is two functions: `begin_request` runs to the
-- wait, `finish_request` from its end. A `oneshot` channel is what its receiver finds: nothing yet, a
-- response, or that the sender was dropped. The bounded `mpsc` channel of commands is a list; a send on
-- it that has to wait for room is one that comes later. `request_id` stands for `Uuid::new_v4`.
--
-- `route_inference` passes a fourth argument `image_data`, a name that is not bound there, where
-- `send_inference_request` takes three, so the file as it stands does not compile; the model makes the
-- call with three.
pub mod Selection
pub mod Pending
pub mod Traffic
pub mod Answers
pub mod Leaks
mod Tests
use cozmio.Prelude.{
  ℕ, String, Bool, true, false, Option, none, some, List, [], ◌∷◌, ◌++◌, if◌then◌else◌, string_key,
  length,
}
use cozmio.Prelude.Int.{ℤ, ltb_ℤ, num_seconds}
use cozmio.Prelude.Results.{Result, ok, err, ◌>>=◌}
use cozmio.Prelude.Maps.{Map, lookup, insert, remove, modify}
use cozmio.Workers.{WorkerInfo, WorkerRegistry, get_idle_workers, get_online_workers}
use cozmio.Workers

-- error.rs
pub data Error : Type 0 where
  protocol transport agent : String → Error
  io : Error

pub record InferenceRequest : Type 0 where
  pub request_id : String
  pub worker_id : String
  pub context_bundle : String
  pub timeout_secs : ℤ

pub record InferenceResponse : Type 0 where
  pub request_id : String
  pub success : Bool
  pub payload_text : String
  pub error : String

pub record PendingRequest : Type 0 where
  pub request : InferenceRequest
  pub created_at : ℕ

pub data RoutingStrategy : Type 0 where
  any specific : RoutingStrategy
  model_specific : String → RoutingStrategy

pub data WorkerCommand : Type 0 where
  inference_request : InferenceRequest → WorkerCommand
  worker_disconnect : String → WorkerCommand

pub data Oneshot : Type 0 where
  empty dropped : Oneshot
  sent : InferenceResponse → Oneshot

pub record InferenceRouter : Type 0 where
  pub registry : WorkerRegistry
  pub pending_requests : Map String PendingRequest
  pub worker_tx : List WorkerCommand
  -- whether `process_worker_commands` still holds the receiver
  pub worker_rx_alive : Bool
  -- the receivers of the requests that are waiting
  pub oneshots : Map String Oneshot

abbrev pub first_id : List WorkerInfo → Option String
first_id [] = none
first_id (w ∷ ws) = some w.worker_id

abbrev or_else {ℓ} : {A : Type ℓ} → Option A → Result Error A → Result Error A
or_else none r = r
or_else (some a) r = ok a

unfoldable pub select_worker : WorkerRegistry → Result Error String
select_worker r =
    or_else (first_id (get_idle_workers r))
      (or_else (first_id (get_online_workers r)) (err (protocol "No available workers")))

-- The choice of a worker in `route_inference`.
unfoldable pub choose_worker : RoutingStrategy → WorkerRegistry → Result Error String
choose_worker any r = select_worker r
choose_worker specific r = err (protocol "Specific worker ID required")
choose_worker (model_specific m) r = err (protocol "Model-specific routing not yet implemented")

-- `send_inference_request` up to its wait. If the command cannot be sent it returns there.
unfoldable pub begin_request :
    InferenceRequest → ℕ → InferenceRouter → InferenceRouter × Result Error (Unit {0})
begin_request request now r =
    if r.worker_rx_alive
    then (
      record stored {
        worker_tx = r.worker_tx ++ inference_request request ∷ [];
        oneshots = insert request.request_id empty r.oneshots;
      },
      ok tt,
    )
    else (stored, err (transport "channel closed"))
  where
    stored : InferenceRouter
    stored = record r {
      registry = (Workers.mark_busy request.worker_id r.registry).0;
      pending_requests =
          insert request.request_id (record { request = request; created_at = now })
            r.pending_requests;
    }

abbrev pub awaited : Option Oneshot → Result Error InferenceResponse
awaited (some (sent response)) = ok response
awaited (some dropped) = err (protocol "Response receiver error")
awaited _ = err (protocol "Inference request timed out")

-- `send_inference_request` from the end of its wait, whether a response, a dropped sender or the timeout
-- has ended it.
unfoldable pub finish_request :
    String → String → InferenceRouter → InferenceRouter × Result Error InferenceResponse
finish_request request_id worker_id r = (
  record r {
    registry = (Workers.mark_idle worker_id r.registry).0;
    pending_requests = remove request_id r.pending_requests;
    oneshots = remove request_id r.oneshots;
  },
  awaited (lookup request_id r.oneshots),
)

-- Take the pending request and send `response` to its receiver, if it still waits.
abbrev pub answer : String → InferenceResponse → InferenceRouter → InferenceRouter × Bool
answer request_id response r =
    if Workers.is_some (lookup request_id r.pending_requests)
    then (
      record r {
        pending_requests = remove request_id r.pending_requests;
        oneshots = modify request_id (λ _. sent response) r.oneshots;
      },
      true,
    )
    else (r, false)

unfoldable pub handle_response :
    String → InferenceResponse → InferenceRouter → InferenceRouter × Bool
handle_response request_id response r = answer request_id response r

abbrev pub cancelled : String → InferenceResponse
cancelled request_id = record {
  request_id = request_id;
  success = false;
  payload_text = "";
  error = "Request cancelled";
}

unfoldable pub cancel_request : String → InferenceRouter → InferenceRouter × Bool
cancel_request request_id r = answer request_id (cancelled request_id) r

abbrev pub pending_count : InferenceRouter → ℕ
pending_count r = length r.pending_requests

-- The first loop of `cleanup_stale_requests`.
unfoldable pub stale_requests : ℤ → ℕ → Map String PendingRequest → List String
stale_requests max_age_secs now [] = []
stale_requests max_age_secs now ((id, p) ∷ m) =
    let rest = stale_requests max_age_secs now m in
    if ltb_ℤ max_age_secs (num_seconds now p.created_at) then id ∷ rest else rest

-- The second.
unfoldable pub cancel_all : List String → InferenceRouter → InferenceRouter
cancel_all [] r = r
cancel_all (id ∷ ids) r = cancel_all ids (cancel_request id r).0

unfoldable pub cleanup_stale_requests : ℤ → ℕ → InferenceRouter → InferenceRouter
unfolding stale_requests cancel_all
cleanup_stale_requests max_age_secs now r =
    cancel_all (stale_requests max_age_secs now r.pending_requests) r
