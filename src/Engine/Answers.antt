-- ===== src/Engine/Answers.antt =====
-- relay-engine/src/main.rs: what the answers say of the sessions.

use Prim.Native.String
use cozmio.Prelude.{
  ℕ, String, Bool, ◌≡◌, refl, true, false, Option, none, some, List, [], arith, ==_refl, string_key,
  inl, inr, ◌⊎◌, ◌≢◌, Bool-cases,
}
use cozmio.Prelude.Int.{ℤ, pos}
use cozmio.Prelude.Maps.{lookup, lookup-insert}
use cozmio.Session.{
  Session, SessionManager, Delivery, with_result, pending, failed, running, interrupted,
  get_session, get_status, create_session, with_status, clear_interrupt_requested,
  mark_interrupt_requested,
}
use cozmio.Session.Lookups.{get_session-update_status, get_session-set_result}
use cozmio.Connector
use cozmio.Connector.Interrupts.{killed_session}
use cozmio.Engine.{
  Agent, AgentRegistry, Effect, claude_code, status_as_i32, build_error_response, failure, fail,
  dispatched, dispatch_with, handle_dispatch, handle_status, handle_progress, handle_result,
  handle_interrupt, interrupt_process, interrupted_reply, task_of,
}
use cozmio.Engine.Messages.{
  DispatchRequest, Response, dispatch_response, status_response, progress_response, result_response,
  interrupt_response,
}

-- What the engine relies on: `dispatch` keeps the session that it is given.
pub record IsAgent (a : Agent) : Type 0 where
  pub keeps :
      (id task : String) (now : ℕ) (m : SessionManager) (s : Session)
      → get_session id m ≡ some s
      → (s' : Session) × (get_session id (a.dispatch id task now m).1.0 ≡ some s')

pub claude_code-IsAgent : (show : ℕ → String) (kill : ℕ → Bool) → IsAgent (claude_code show kill)
unfolding Connector.dispatch
claude_code-IsAgent show kill = record {
  keeps = λ id task now m s found.
      (with_status running now s, rw (get_session-update_status, ==_refl id, found));
}

-- A dispatch is answered with the identifier and the status of a session that exists.
abbrev pub TellsStatus : String → Effect Response → Type 0
TellsStatus id r =
    (s : Session) × (get_session id r.1.0 ≡ some s)
    × (r.0 ≡ dispatch_response (record { session_id = id; status = status_as_i32 s.status }))

abbrev pub status_code : Response → Option ℤ
status_code (status_response r) = some r.status
status_code _ = none

fail_session :
    (id summary message : String) (now : ℕ) (m : SessionManager) (s : Session)
    → get_session id m ≡ some s
    → get_session id (fail id summary message now m).1.0
      ≡ some (with_status failed now (with_result (failure summary message) now s))
unfolding fail
fail_session id summary message now m s found =
    rw (get_session-update_status, ==_refl id, get_session-set_result, ==_refl id, found)

fail_answer :
    (id summary message : String) (now : ℕ) (m : SessionManager) (s : Session)
    → get_session id m ≡ some s
    → TellsStatus id (fail id summary message now m)
unfolding fail
fail_answer id summary message now m s found = (
  with_status failed now (with_result (failure summary message) now s),
  fail_session id summary message now m s found,
  refl,
)

dispatched_answer :
    (id : String) (now : ℕ) (e : Option String) (m : SessionManager) (ds : List Delivery)
    (s : Session)
    → get_session id m ≡ some s
    → TellsStatus id (dispatched id now (e, (m, ds)))
unfolding dispatched
dispatched_answer id now none m ds s found = (s, found, rw found)
dispatched_answer id now (some e) m ds s found = fail_answer id "Dispatch failed" e now m s found

dispatch_with_answer :
    (agent : Option Agent) (req : DispatchRequest) (id : String) (now : ℕ) (m : SessionManager)
    (s : Session)
    → ((a : Agent) → agent ≡ some a → IsAgent a)
    → get_session id m ≡ some s
    → TellsStatus id (dispatch_with agent req id now m)
unfolding dispatch_with
dispatch_with_answer none req id now m s lawful found =
    fail_answer id "Agent not found" _ now m s found
dispatch_with_answer (some a) req id now m s lawful found =
    let r = a.dispatch id req.dispatched_task now m in
    let (s', found') = (lawful a refl).keeps id req.dispatched_task now m s found in
    dispatched_answer id now r.0 r.1.0 r.1.1 s' found'

new_session : String → DispatchRequest → ℕ → Session
new_session id req now = record {
  id = id;
  task = task_of req;
  status = pending;
  progress_logs = [];
  started_at = now;
  updated_at = now;
  final_result = none;
}

created :
    (id : String) (req : DispatchRequest) (now : ℕ) (m : SessionManager)
    → get_session id (create_session id (task_of req) now m) ≡ some (new_session id req now)
unfolding create_session new_session
created id req now m = rw (lookup-insert, ==_refl id)

-- The answer to a dispatch tells the new session's identifier, and the status that the session has
-- then, if every agent registered under the name keeps the session that it is given.
pub dispatch_answer :
    (agents : AgentRegistry) (req : DispatchRequest) (id : String) (now : ℕ) (m : SessionManager)
    → ((a : Agent) → lookup req.agent_name agents ≡ some a → IsAgent a)
    → TellsStatus id (handle_dispatch agents req id now m)
unfolding handle_dispatch
dispatch_answer agents req id now m lawful =
    dispatch_with_answer (lookup req.agent_name agents) req id now
      (create_session id (task_of req) now m) (new_session id req now) lawful (created id req now m)

fail_replies :
    (id summary message : String) (now : ℕ) (m : SessionManager) (s : Session)
    → get_session id m ≡ some s
    → let m' = (fail id summary message now m).1.0 in
      (status_code (handle_status (record { session_id = id }) m') ≡ some (pos 4))
      × (handle_result (record { session_id = id }) m'
          ≡ result_response (record { session_id = id; result = some (failure summary message) }))
unfolding handle_status handle_result
fail_replies id summary message now m s found =
    rw (fail_session id summary message now m s found) (refl, refl)

-- A task for an agent that is not registered fails at once: the status that is asked for next is
-- `Failed`, and the result names the agent.
pub unknown_agent_fails :
    (agents : AgentRegistry) (req : DispatchRequest) (id : String) (now : ℕ) (m : SessionManager)
    → lookup req.agent_name agents ≡ none
    → let m' = (handle_dispatch agents req id now m).1.0 in
      (status_code (handle_status (record { session_id = id }) m') ≡ some (pos 4))
      × (handle_result (record { session_id = id }) m'
          ≡ result_response (record {
            session_id = id;
            result =
                some (failure "Agent not found" (String.◌++◌ "Agent not found: " req.agent_name));
          }))
unfolding handle_dispatch dispatch_with
unknown_agent_fails agents req id now m h = rw h (
    fail_replies id "Agent not found" (String.◌++◌ "Agent not found: " req.agent_name) now
      (create_session id (task_of req) now m) (new_session id req now) (created id req now m))

-- Asked for a session that does not exist, the engine answers with an error, or with no entries if
-- it is asked for the progress.
pub unknown_session :
    (id : String) (m : SessionManager)
    → get_session id m ≡ none
    → (handle_status (record { session_id = id }) m ≡ build_error_response)
      × (handle_result (record { session_id = id }) m ≡ build_error_response)
      × (handle_progress (record { session_id = id }) m
          ≡ progress_response (record { session_id = id; entries = [] }))
unfolding handle_status handle_result handle_progress
unknown_session id m h = (rw h, rw h, rw h)

interrupt_process_lem :
    (show : ℕ → String) (kill : ℕ → Bool) (id : String) (now : ℕ) (m : SessionManager) (s : Session)
    (pid : Option ℕ)
    → get_session id m ≡ some s
    → let r = interrupt_process show kill id now (Connector.mark_running id m pid, pid) in
      ((r.0 ≡ none) × (get_status id r.1.0 ≡ some interrupted))
      ⊎ ((r.0 ≢ none) × (get_session id r.1.0 ≡ some s))
unfolding interrupt_process
interrupt_process_lem show kill id now m s none found = inr (ground arith, found)
interrupt_process_lem show kill id now m s (some pid) found = elim (Bool-cases (kill pid)) [
  | inl k ↦ rw k (
      inl (
        refl,
        rw (killed_session show id pid now (Connector.mark_running id m (some pid)), marked pid),
      ))
  | inr k ↦
      rw k
        (inr (ground arith, unfold Connector.end_interrupt clear_interrupt_requested in marked pid))
]
  where
    marked : (pid : ℕ) → get_session id (Connector.mark_running id m (some pid)) ≡ some s
    marked pid = unfold mark_interrupt_requested in found

replied :
    (id : String) (s : Session) (r : Effect (Option String))
    → ((r.0 ≡ none) × (get_status id r.1.0 ≡ some interrupted))
      ⊎ ((r.0 ≢ none) × (get_session id r.1.0 ≡ some s))
    → (((interrupted_reply r).0 ≡ interrupt_response true)
        × (get_status id (interrupted_reply r).1.0 ≡ some interrupted))
      ⊎ (((interrupted_reply r).0 ≡ interrupt_response false)
          × (get_session id (interrupted_reply r).1.0 ≡ some s))
replied id s (none, e) (inl h) = inl (refl, h.1)
replied id s (none, e) (inr h) = ground arith
replied id s (some reason, e) (inl h) = ground arith
replied id s (some reason, e) (inr h) = inr (refl, h.1)

-- An interrupt that is answered with success has left the session interrupted; one that is answered
-- with failure has left it as it was.
pub interrupt_answer :
    (show : ℕ → String) (kill : ℕ → Bool) (agents : AgentRegistry) (id : String) (now : ℕ)
    (m : SessionManager) (s : Session)
    → lookup "claude-code" agents ≡ some (claude_code show kill)
    → get_session id m ≡ some s
    → let r = handle_interrupt agents (record { session_id = id }) now m in
      ((r.0 ≡ interrupt_response true) × (get_status id r.1.0 ≡ some interrupted))
      ⊎ ((r.0 ≡ interrupt_response false) × (get_session id r.1.0 ≡ some s))
unfolding handle_interrupt Connector.begin_interrupt
interrupt_answer show kill agents id now m s h found = rw h (
    replied id s (interrupt_process show kill id now (Connector.begin_interrupt id m))
      (interrupt_process_lem show kill id now m s (Connector.find_pid id m.processes) found))
