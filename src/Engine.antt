-- ===== src/Engine.antt =====
-- relay-engine/src/main.rs and agent.rs: the answers to the requests of clients.
--
-- `handle_connection` reads one request, answers it and closes the connection. The bytes of the
-- connection are an argument; so are the time, the identifier that a new session or subscriber gets, and
-- `runtime`, the tokio runtime that the thread is in, if any, with the outcome of
-- `InferenceRouter::route_inference`, which is the subject of Router.antt. The accept loop calls
-- `handle_connection` on threads of `std::thread::spawn`, which are in no runtime. The protobuf library (prost) is the record `Wire` of its decoders and of its
-- encoder. The accept loops, the listeners and the log are left out.
pub mod Messages
pub mod Answers
pub mod Connections
pub mod Failures
mod Tests
use Prim.Native.String
use cozmio.Prelude.{
  ℕ, ◌/◌, String, Bool, true, false, Option, none, some, List, [], ◌++◌, map, nat_eq, if◌then◌else◌,
  string_key,
}
use cozmio.Prelude.Int.{ℤ, pos, negsuc, num_seconds}
use cozmio.Prelude.Maps.{Map, lookup}
use cozmio.Prelude.Results.{Result, ok, err}
use cozmio.Frames.{FrameError, recv_request, split_typed_request, send_prefixed}
use cozmio.Session.{
  Session, SessionManager, SessionStatus, pending, failed, ExecutionResult, ExecutionTask,
  ProgressEntry, Notice, on_progress, on_terminal, Delivery, discriminant, level_to_i32,
  get_session, get_progress, get_result, get_status,
}
use cozmio.Session
use cozmio.Connector
use Messages.{
  DispatchRequest, SessionRequest, InferenceRequest, StatusResponse, WireEntry, ProgressEvent,
  InferenceResponse, Response, dispatch_response, status_response, progress_response,
  result_response, interrupt_response, inference_response, Wire,
}

-- A call that changes the sessions and calls subscribers.
abbrev pub Effect : Type 0 → Type 0
Effect A = A × (SessionManager × List Delivery)

-- The calls of `ExecutionAgent` that the engine makes. An error is its text.
pub record Agent : Type 0 where
  pub dispatch : String → String → ℕ → SessionManager → Effect (Option String)
  pub interrupt : String → ℕ → SessionManager → Effect (Option String)

-- `ClaudeCodeConnector` as an agent. `kill` is the outcome of the `kill` command, `show` the text of
-- a process.
unfoldable pub interrupt_process :
    (ℕ → String) → (ℕ → Bool) → String → ℕ → SessionManager × Option ℕ → Effect (Option String)
interrupt_process show kill id now (m, none) = (some "No running process found", (m, []))
interrupt_process show kill id now (m, some pid) = (
  if kill pid then none else some "Failed to interrupt process",
  Connector.end_interrupt show id pid (kill pid) now m,
)

abbrev pub claude_code : (ℕ → String) → (ℕ → Bool) → Agent
claude_code show kill = record {
  dispatch = λ id task now m. (none, Connector.dispatch id now m);
  interrupt = λ id now m. interrupt_process show kill id now (Connector.begin_interrupt id m);
}

abbrev pub AgentRegistry : Type 0
AgentRegistry = Map String Agent

abbrev pub status_as_i32 : SessionStatus → ℤ
status_as_i32 s = pos (discriminant s)

-- An empty identifier and a negative status.
abbrev pub build_error_response : Response
build_error_response = dispatch_response (record { session_id = ""; status = negsuc 0 })

abbrev pub failure : String → String → ExecutionResult
failure summary error_message = record {
  summary = summary;
  raw_output = "";
  duration_secs = 0;
  success = false;
  error_message = error_message;
}

-- The session is given its result and fails.
unfoldable pub fail : String → String → String → ℕ → SessionManager → Effect Response
fail id summary error_message now m = (
  dispatch_response (record { session_id = id; status = status_as_i32 failed }),
  Session.update_status id failed now (Session.set_result id (failure summary error_message) now m),
)

abbrev pub status_or_pending : Option SessionStatus → SessionStatus
status_or_pending none = pending
status_or_pending (some s) = s

unfoldable pub dispatched : String → ℕ → Effect (Option String) → Effect Response
dispatched id now (none, (m, ds)) = (
  dispatch_response
      (record { session_id = id; status = status_as_i32 (status_or_pending (get_status id m)) }),
  (m, ds),
)
dispatched id now (some e, (m, ds)) =
    let (r, (m', es)) = fail id "Dispatch failed" e now m in (r, (m', ds ++ es))

unfoldable pub dispatch_with :
    Option Agent → DispatchRequest → String → ℕ → SessionManager → Effect Response
dispatch_with none req id now m =
    fail id "Agent not found" (String.◌++◌ "Agent not found: " req.agent_name) now m
dispatch_with (some agent) req id now m =
    dispatched id now (agent.dispatch id req.dispatched_task now m)

abbrev pub task_of : DispatchRequest → ExecutionTask
task_of req = record {
  original_suggestion = req.original_suggestion;
  dispatched_task = req.dispatched_task;
  agent_name = req.agent_name;
}

-- The identifier is that of the new session.
unfoldable pub handle_dispatch :
    AgentRegistry → DispatchRequest → String → ℕ → SessionManager → Effect Response
handle_dispatch agents req id now m =
    dispatch_with (lookup req.agent_name agents) req id now
      (Session.create_session id (task_of req) now m)

abbrev status_reply : String → Option Session → Response
status_reply id none = build_error_response
status_reply id (some s) = status_response (record {
  session_id = id;
  status = status_as_i32 s.status;
  started_at = s.started_at / 1000000000;
  updated_at = s.updated_at / 1000000000;
  duration_secs = num_seconds s.updated_at s.started_at;
})

unfoldable pub handle_status : SessionRequest → SessionManager → Response
handle_status req m = status_reply req.session_id (get_session req.session_id m)

abbrev pub wire_entry : ProgressEntry → WireEntry
wire_entry e = record { timestamp = e.timestamp; message = e.message; level = level_to_i32 e.level }

unfoldable pub handle_progress : SessionRequest → SessionManager → Response
handle_progress req m = progress_response (record {
  session_id = req.session_id;
  entries = map wire_entry (Session.or_empty (get_progress req.session_id m));
})

abbrev result_reply : String → Option ExecutionResult → Response
result_reply id none = build_error_response
result_reply id (some r) = result_response (record { session_id = id; result = some r })

unfoldable pub handle_result : SessionRequest → SessionManager → Response
handle_result req m = result_reply req.session_id (get_result req.session_id m)

abbrev interrupted_reply : Effect (Option String) → Effect Response
interrupted_reply (none, e) = (interrupt_response true, e)
interrupted_reply (some reason, e) = (interrupt_response false, e)

abbrev interrupt_with : Option Agent → String → ℕ → SessionManager → Effect Response
interrupt_with none id now m = (interrupt_response false, (m, []))
interrupt_with (some agent) id now m = interrupted_reply (agent.interrupt id now m)

-- Sessions are interrupted through the agent "claude-code", whatever agent they were dispatched to.
unfoldable pub handle_interrupt :
    AgentRegistry → SessionRequest → ℕ → SessionManager → Effect Response
handle_interrupt agents req now m =
    interrupt_with (lookup "claude-code" agents) req.session_id now m

abbrev inference_reply : InferenceRequest → Result String InferenceResponse → Response
inference_reply req (ok resp) = inference_response resp
inference_reply req (err e) =
    inference_response
      (record { request_id = req.request_id; success = false; payload_text = ""; error = e })

abbrev unchanged : SessionManager → Response → Effect Response
unchanged m r = (r, (m, []))

-- A payload that cannot be decoded is answered with an error.
abbrev decoded : {A : Type 0} → SessionManager → (A → Effect Response) → Option A → Effect Response
decoded m handle none = unchanged m build_error_response
decoded m handle (some req) = handle req

abbrev replied : Effect Response → Effect (Option Response)
replied (r, e) = (some r, e)

-- What `block_on` comes to, when the thread is in a runtime.
abbrev pub Runtime : Type 0
Runtime = Option (InferenceRequest → Result String InferenceResponse)

-- `Handle::current()` panics on a thread that is in no runtime, and there is no response.
abbrev pub infer : SessionManager → Runtime → Option InferenceRequest → Effect (Option Response)
infer m runtime none = replied (unchanged m build_error_response)
infer m none (some req) = (none, (m, []))
infer m (some route) (some req) = replied (unchanged m (inference_reply req (route req)))

module _ (wire : Wire) (agents : AgentRegistry) (runtime : Runtime) where
  -- The arms of the `match` of `handle_connection` but that of an inference request.
  unfoldable pub respond_always : ℕ × List ℕ → String → ℕ → SessionManager → Effect Response
  respond_always (kind, payload) id now m =
      if nat_eq kind 1
      then decoded m (λ req. handle_dispatch agents req id now m) (wire.decode_dispatch payload)
      else if nat_eq kind 2
      then decoded m (λ req. unchanged m (handle_status req m)) (wire.decode_session payload)
      else if nat_eq kind 3
      then decoded m (λ req. unchanged m (handle_progress req m)) (wire.decode_session payload)
      else if nat_eq kind 4
      then decoded m (λ req. unchanged m (handle_result req m)) (wire.decode_session payload)
      else if nat_eq kind 5
      then decoded m (λ req. handle_interrupt agents req now m) (wire.decode_session payload)
      else unchanged m build_error_response

  -- The whole of it, for a request kind and its payload; `none` when it panics.
  unfoldable pub respond : ℕ × List ℕ → String → ℕ → SessionManager → Effect (Option Response)
  respond (kind, payload) id now m =
      if nat_eq kind 7
      then infer m runtime (wire.decode_inference payload)
      else replied (respond_always (kind, payload) id now m)

  abbrev respond_frame :
      Result FrameError (ℕ × List ℕ) → String → ℕ → SessionManager → Effect (Option Response)
  respond_frame (ok request) id now m = respond request id now m
  respond_frame (err e) id now m = replied (unchanged m build_error_response)

  abbrev pub sent : Effect (Option Response) → Effect (List ℕ)
  sent (none, e) = ([], e)
  sent (some r, e) = (send_prefixed (wire.encode r), e)

  abbrev answer :
      Result FrameError (List ℕ × List ℕ) → String → ℕ → SessionManager → Effect (List ℕ)
  answer (err e) id now m = ([], (m, []))
  answer (ok (msg, rest)) id now m = sent (respond_frame (split_typed_request msg) id now m)

  -- The bytes of the answer: none, if the connection is closed without one.
  unfoldable pub handle_connection : List ℕ → String → ℕ → SessionManager → Effect (List ℕ)
  handle_connection bytes id now m = answer (recv_request bytes) id now m

module _ (wire : Wire) where
  -- What a request on the subscription port makes of a connection that becomes the subscriber `sub`.
  abbrev pub subscribe_decoded :
      Option SessionRequest → String → SessionManager → SessionManager × List Delivery
  subscribe_decoded none sub m = (m, [])
  subscribe_decoded (some req) sub m = Session.subscribe req.session_id sub m

  abbrev subscribe_split :
      Result FrameError (ℕ × List ℕ) → String → SessionManager → SessionManager × List Delivery
  subscribe_split (err e) sub m = (m, [])
  subscribe_split (ok (kind, payload)) sub m =
      if nat_eq kind 6 then subscribe_decoded (wire.decode_session payload) sub m else (m, [])

  abbrev subscribe_frame :
      Result FrameError (List ℕ × List ℕ) → String → SessionManager → SessionManager × List Delivery
  subscribe_frame (err e) sub m = (m, [])
  subscribe_frame (ok (msg, rest)) sub m = subscribe_split (split_typed_request msg) sub m

  unfoldable pub handle_subscribe :
      List ℕ → String → SessionManager → SessionManager × List Delivery
  handle_subscribe bytes sub m = subscribe_frame (recv_request bytes) sub m

-- `TcpSessionSubscriber`: the event of a notice. `show` is the derived `Debug` of a status.
unfoldable pub event_of : (SessionStatus → String) → ℕ → Delivery → ProgressEvent
event_of show now d = go d.notice
  where
    go : Notice → ProgressEvent
    go (on_progress e) = record {
      session_id = d.session_id;
      timestamp = e.timestamp;
      message = e.message;
      level = level_to_i32 e.level;
      terminal = false;
      terminal_status = pos 0;
    }
    go (on_terminal s) = record {
      session_id = d.session_id;
      timestamp = now;
      message = String.◌++◌ "session terminal: " (show s);
      level = pos 0;
      terminal = true;
      terminal_status = status_as_i32 s;
    }
