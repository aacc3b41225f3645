-- ===== src/Connector.antt =====
-- relay-engine/src/agents/claude_code.rs: the agent that runs the Claude Code command line.
--
-- `dispatch` marks the session running and starts a thread. What the thread meets is an argument: the
-- outcome of `spawn`, the lines that the two readers of the child's output push, in the order in which
-- they reach the session, and the outcome of `wait`. A reader that fails stops, so its failure is its
-- last line. The thread's part after `wait` is `finish`; `interrupt`, which another thread runs, is cut
-- where it waits for the `kill` command, into `begin_interrupt` and `end_interrupt`. Every action
-- takes the time of its call, and returns what subscribers are sent. `show` is the `Display` of an
-- integer.
pub mod Output
pub mod Endings
pub mod Interrupts
pub mod Runs
mod Tests
use Prim.Native.String
use cozmio.Prelude.{
  ℕ, String, Bool, true, false, not, ◌||◌, Option, none, some, List, [], ◌∷◌, ◌++◌, if◌then◌else◌,
  ◌==◌, string_key,
}
use cozmio.Prelude.Int.{ℤ}
use cozmio.Prelude.Maps.{Map}
use cozmio.Prelude.Results.{Result, ok, err}
use cozmio.Session.{
  Session, SessionManager, SessionStatus, running, completed, failed, interrupted, status_eq,
  LogLevel, info, warn, error, ProgressEntry, ExecutionResult, Delivery, get_status, get_result,
  is_interrupt_requested,
}
use cozmio.Session
use Output.{combine_output, push_line}

-- An action on the sessions, and what it sends.
abbrev pub Action : Type 0
Action = SessionManager → SessionManager × List Delivery

infixl 5 ◌andthen◌
abbrev pub ◌andthen◌ : Action → Action → Action
◌andthen◌ f g m = let (m', ds) = f m in let (m'', es) = g m' in (m'', ds ++ es)

abbrev pub silently : (SessionManager → SessionManager) → Action
silently f m = (f m, [])

abbrev pub entry : ℕ → String → LogLevel → ProgressEntry
entry now message level = record { timestamp = now; message = message; level = level }

-- `ClaudeCodeConnector::dispatch` up to `thread::spawn`.
unfoldable pub dispatch : String → ℕ → Action
dispatch id now = Session.update_status id running now

abbrev pub started_entry : (ℕ → String) → ℕ → ℕ → ProgressEntry
started_entry show pid now =
    entry now (String.◌++◌ "Started Claude Code process pid=" (show pid)) info

-- The thread, once `spawn` has given a child.
unfoldable pub started : (ℕ → String) → String → ℕ → ℕ → Action
started show id pid now =
    silently (Session.register_process pid id)
    andthen Session.add_progress id (started_entry show pid now) now

-- The thread, if `spawn` fails.
unfoldable pub spawn_failed : String → String → ℕ → ℕ → Action
spawn_failed id reason duration_secs now =
    silently (
      Session.set_result id
        (record {
          summary = "Failed to spawn process";
          raw_output = "";
          duration_secs = duration_secs;
          success = false;
          error_message = reason;
        })
        now)
    andthen Session.add_progress id
        (entry now (String.◌++◌ "Failed to spawn Claude Code process: " reason) error) now
    andthen Session.update_status id failed now

pub data Stream : Type 0 where
  stdout stderr : Stream

abbrev stream_name : Stream → String
stream_name stdout = "stdout"
stream_name stderr = "stderr"

abbrev stream_level : Stream → LogLevel
stream_level stdout = info
stream_level stderr = warn

pub data Line : Type 0 where
  line : String → Line
  broken : String → Line

-- The entry that a round of the loop of `spawn_output_reader` adds.
abbrev pub line_entry : ℕ → Stream × Line → ProgressEntry
line_entry now (s, line text) =
    entry now (String.◌++◌ (stream_name s) (String.◌++◌ ": " text)) (stream_level s)
line_entry now (s, broken reason) =
    entry now
      (String.◌++◌ "Failed reading " (String.◌++◌ (stream_name s) (String.◌++◌ ": " reason))) error

-- The rounds of both readers, each at its time.
unfoldable pub read_lines : String → List (ℕ × (Stream × Line)) → Action
read_lines id [] m = (m, [])
read_lines id ((now, l) ∷ ls) m =
    let (m', ds) = Session.add_progress id (line_entry now l) now m in
    let (m'', es) = read_lines id ls m' in (m'', ds ++ es)

abbrev is_from : Stream → Stream → Bool
is_from stdout stdout = true
is_from stderr stderr = true
is_from _ _ = false

abbrev pushed : Stream → Stream × Line → String → String
pushed s (s', line text) output = if is_from s s' then push_line text output else output
pushed s (s', broken reason) output = output

-- The text that the reader of a stream has collected in its sink, for its lines in order.
unfoldable pub collected : Stream → List (ℕ × (Stream × Line)) → String
collected s [] = ""
collected s ((now, l) ∷ ls) = let rest = collected s ls in pushed s l rest

-- What `wait` gives: whether the exit was a success, with its code, or an error.
pub data Exit : Type 0 where
  exited : Bool → Option ℤ → Exit
  wait_failed : String → Exit

abbrev summary_of : (ℤ → String) → Bool → Option ℤ → String
summary_of show true code = "Task completed successfully"
summary_of show false (some code) = String.◌++◌ "Task failed with exit code " (show code)
summary_of show false none = "Task failed"

-- The result that the thread writes if it was not interrupted.
abbrev pub exit_result : (ℤ → String) → Exit → String → String → ℕ → ExecutionResult
exit_result show (exited success code) raw_output stderr_text duration_secs = record {
  summary = summary_of show success code;
  raw_output = raw_output;
  duration_secs = duration_secs;
  success = success;
  error_message = if success then "" else stderr_text;
}
exit_result show (wait_failed reason) raw_output stderr_text duration_secs = record {
  summary = "Task execution failed";
  raw_output = raw_output;
  duration_secs = duration_secs;
  success = false;
  error_message = reason;
}

abbrev pub exit_status : Exit → SessionStatus
exit_status (exited success code) = if success then completed else failed
exit_status (wait_failed reason) = failed

abbrev pub interrupt_result : String → ℕ → ExecutionResult
interrupt_result raw_output duration_secs = record {
  summary = "Task interrupted";
  raw_output = raw_output;
  duration_secs = duration_secs;
  success = false;
  error_message = "Interrupted";
}

abbrev is_interrupted : Option SessionStatus → Bool
is_interrupted (some interrupted) = true
is_interrupted _ = false

-- `if !matches!(get_status, Some(Interrupted)) { update_status(Interrupted) }`
unfoldable pub ensure_interrupted : String → ℕ → Action
ensure_interrupted id now m =
    if is_interrupted (get_status id m) then (m, []) else Session.update_status id interrupted now m

abbrev is_none {ℓ} : {A : Type ℓ} → Option A → Bool
is_none none = true
is_none (some x) = false

-- `if get_result.is_none() { set_result }`
unfoldable pub ensure_result : String → String → ℕ → ℕ → Action
ensure_result id raw_output duration_secs now m =
    if is_none (get_result id m)
    then (Session.set_result id (interrupt_result raw_output duration_secs) now m, [])
    else (m, [])

-- The branch that is taken when an interrupt was requested, or has marked the session.
unfoldable pub finish_interrupted : String → String → ℕ → ℕ → Action
finish_interrupted id raw_output duration_secs now =
    silently (Session.clear_interrupt_requested id)
    andthen ensure_interrupted id now
    andthen ensure_result id raw_output duration_secs now

unfoldable pub finish_exited : (ℤ → String) → String → Exit → String → String → ℕ → ℕ → Action
finish_exited show id exit raw_output stderr_text duration_secs now =
    silently
      (Session.set_result id (exit_result show exit raw_output stderr_text duration_secs) now)
    andthen Session.update_status id (exit_status exit) now

-- The thread from the end of `wait` on, the readers having been joined.
unfoldable pub finish : (ℤ → String) → String → ℕ → Exit → String → String → ℕ → ℕ → Action
finish show id pid exit stdout_text stderr_text duration_secs now =
    silently (Session.unregister_process pid) andthen (λ m.
      let raw_output = combine_output stdout_text stderr_text in
      if is_interrupt_requested id m || is_interrupted (get_status id m)
      then finish_interrupted id raw_output duration_secs now m
      else finish_exited show id exit raw_output stderr_text duration_secs now m)

-- The `find_map` over the processes.
unfoldable pub find_pid : String → Map ℕ String → Option ℕ
find_pid id [] = none
find_pid id ((pid, sid) ∷ m) = if sid == id then some pid else find_pid id m

abbrev pub mark_running : String → SessionManager → Option ℕ → SessionManager
mark_running id m none = m
mark_running id m (some pid) = Session.mark_interrupt_requested id m

-- `interrupt` up to the `kill` command: the process to kill, if there is one.
unfoldable pub begin_interrupt : String → SessionManager → SessionManager × Option ℕ
begin_interrupt id m = let pid = find_pid id m.processes in (mark_running id m pid, pid)

-- `interrupt` from the end of the `kill` command, which succeeded or did not.
unfoldable pub end_interrupt : (ℕ → String) → String → ℕ → Bool → ℕ → Action
end_interrupt show id pid killed now m =
    if killed
    then ((Session.add_progress id
            (entry now (String.◌++◌ "Interrupted Claude Code process pid=" (show pid)) warn) now
          andthen silently (Session.unregister_process pid)
          andthen Session.update_status id interrupted now)
        m)
    else (Session.clear_interrupt_requested id m, [])
