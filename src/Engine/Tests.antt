-- ===== src/Engine/Tests.antt =====
-- Requests to the engine, and the theorems on their answers at inputs that meet their hypotheses.

use cozmio.Prelude.{
  ℕ, String, Bool, subst, ◌≡◌, ◌≢◌, refl, false, true, none, some, List, [], ◌∷◌, ◌++◌, arith,
  string_key, nat_key,
}
use cozmio.Prelude.Maps.{insert, lookup}
use cozmio.Prelude.Results.{ok, err}
use cozmio.Prelude.Int.{ℤ, pos}
use cozmio.Frames.{io, send_request_to_stream, recv_response_from_stream}
use cozmio.Session.{
  Session, SessionManager, SessionStatus, pending, new, create_session, register_process,
  get_session, info, ProgressEntry, Delivery,
}
use cozmio.Engine.{
  Agent, AgentRegistry, claude_code, task_of, handle_dispatch, respond, interrupt_process,
  handle_connection,
}
use cozmio.Connector.{begin_interrupt, finish, find_pid, exited}
use cozmio.Connector.Output.{combine_output}
use cozmio.Connector.Endings.{ending}
use cozmio.Connector.Interrupts.{interrupted_with}
use cozmio.Engine.Failures.{failed_kill_misreported}
use cozmio.Engine.Messages.{DispatchRequest, InferenceRequest, Response, Wire}
use cozmio.Engine.Answers.{IsAgent, claude_code-IsAgent, TellsStatus, dispatch_answer}
use cozmio.Engine.Connections.{request_answered, inference_unanswered}

abbrev a_request : DispatchRequest
a_request = record {
  agent_name = "claude-code";
  original_suggestion = "fix";
  dispatched_task = "fix it";
}

abbrev pid_text : ℕ → String
pid_text n = "n"

abbrev killable : ℕ → Bool
killable pid = true

abbrev one_agent : AgentRegistry
one_agent = ("claude-code", claude_code pid_text killable) ∷ []

abbrev no_agent : AgentRegistry
no_agent = []

some-inj : (a b : Agent) → some a ≡ some b → a ≡ b
some-inj a b h = ground arith

registered : (a : Agent) → lookup "claude-code" one_agent ≡ some a → IsAgent a
unfolding lookup
registered a h =
    subst IsAgent (some-inj (claude_code pid_text killable) a h)
      (claude_code-IsAgent pid_text killable)

dispatch_answer_example : TellsStatus "s" (handle_dispatch one_agent a_request "s" 4 new)
dispatch_answer_example = dispatch_answer one_agent a_request "s" 4 new registered

abbrev busy : SessionManager
busy = register_process 7 "s" (create_session "s" (task_of a_request) 4 new)

abbrev a_session : Session
a_session = record {
  id = "s";
  task = task_of a_request;
  status = pending;
  progress_logs = [];
  started_at = 4;
  updated_at = 4;
  final_result = none;
}

busy_found : get_session "s" busy ≡ some a_session
unfolding register_process create_session new insert lookup
busy_found = refl

agent_found : lookup "claude-code" one_agent ≡ some (claude_code pid_text killable)
unfolding lookup
agent_found = refl

abbrev a_wire : Wire
a_wire = record {
  decode_dispatch = λ payload. some a_request;
  decode_session = λ payload. some (record { session_id = "s" });
  decode_inference = λ payload. none;
  encode = λ r. 8 ∷ 1 ∷ [];
}

request_answered_example :
    let answer =
      handle_connection a_wire one_agent none
        (send_request_to_stream 1 (10 ∷ []) ++ (5 ∷ []))
        "s"
        4
        new in
    (r : Response) × (e : SessionManager × List Delivery) × (respond a_wire one_agent none
        (1, 10 ∷ [])
        "s"
        4
        new
      ≡ (some r, e))
    × (recv_response_from_stream answer.0 ≡ ok (8 ∷ 1 ∷ [], []))
    × (answer.1 ≡ e)
request_answered_example =
    request_answered a_wire one_agent none 1 (10 ∷ []) (5 ∷ []) "s" 4 new (λ h. ground (arith, h))
      (omega arith) (omega arith)

abbrev a_question : InferenceRequest
a_question = record {
  request_id = "a";
  worker_id = "";
  context_bundle = "ctx";
  timeout_secs = pos 5;
}

abbrev asking : Wire
asking = record a_wire { decode_inference = λ payload. some a_question }

inference_unanswered_example :
    let answer =
      handle_connection asking one_agent none (send_request_to_stream 7 [] ++ []) "s" 4 busy in
    (recv_response_from_stream answer.0 ≡ err io) × (answer.1 ≡ (busy, []))
inference_unanswered_example =
    inference_unanswered asking one_agent [] [] "s" 4 busy a_question (omega arith) refl

abbrev decimal : ℤ → String
decimal n = "n"

abbrev stubborn : ℕ → Bool
stubborn pid = false

busy_runs : find_pid "s" busy.processes ≡ some 7
unfolding find_pid register_process create_session new insert
busy_runs = refl

failed_kill_misreported_example :
    let marked = (begin_interrupt "s" busy).0 in
    let ended = (finish decimal "s" 7 (exited true none) "out" "" 3 9 marked).0 in
    let told = interrupt_process pid_text stubborn "s" 10 (ended, some 7) in
    (told.0 ≢ none)
    × (ending (get_session "s" told.1.0) ≡ interrupted_with a_session (combine_output "out" "") 3)
failed_kill_misreported_example =
    failed_kill_misreported pid_text decimal stubborn "s" 7 (exited true none) "out" "" 3 9 10 busy
      a_session busy_found busy_runs refl

abbrev hello : ProgressEntry
hello = record { timestamp = 1; message = "hello"; level = info }

abbrev status_text : SessionStatus → String
status_text s = "Failed"
