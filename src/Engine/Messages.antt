-- ===== src/Engine/Messages.antt =====
-- relay-engine/src/proto/mod.rs: the messages between clients and the engine.
use cozmio.Prelude.{ℕ, String, Bool, Option, List}
use cozmio.Prelude.Int.{ℤ}
use cozmio.Session.{ExecutionResult}

pub record DispatchRequest : Type 0 where
  pub agent_name : String
  pub original_suggestion : String
  pub dispatched_task : String

-- `StatusRequest`, `ProgressRequest`, `ResultRequest`, `InterruptRequest` and `SubscribeRequest` have
-- the same field.
pub record SessionRequest : Type 0 where
  pub session_id : String

pub record InferenceRequest : Type 0 where
  pub request_id : String
  pub worker_id : String
  pub context_bundle : String
  pub timeout_secs : ℤ

pub record DispatchResponse : Type 0 where
  pub session_id : String
  pub status : ℤ

pub record StatusResponse : Type 0 where
  pub session_id : String
  pub status : ℤ
  pub started_at : ℕ
  pub updated_at : ℕ
  pub duration_secs : ℤ

pub record WireEntry : Type 0 where
  pub timestamp : ℕ
  pub message : String
  pub level : ℤ

pub record ProgressResponse : Type 0 where
  pub session_id : String
  pub entries : List WireEntry

pub record ResultResponse : Type 0 where
  pub session_id : String
  pub result : Option ExecutionResult

pub record InferenceResponse : Type 0 where
  pub request_id : String
  pub success : Bool
  pub payload_text : String
  pub error : String

pub record ProgressEvent : Type 0 where
  pub session_id : String
  pub timestamp : ℕ
  pub message : String
  pub level : ℤ
  pub terminal : Bool
  pub terminal_status : ℤ

-- What a handler passes to `encode_response`.
pub data Response : Type 0 where
  dispatch_response : DispatchResponse → Response
  status_response : StatusResponse → Response
  progress_response : ProgressResponse → Response
  result_response : ResultResponse → Response
  interrupt_response : Bool → Response
  inference_response : InferenceResponse → Response

-- `decode` of prost at each message, and `encode`.
pub record Wire : Type 0 where
  pub decode_dispatch : List ℕ → Option DispatchRequest
  pub decode_session : List ℕ → Option SessionRequest
  pub decode_inference : List ℕ → Option InferenceRequest
  pub encode : Response → List ℕ
