-- ===== src/Relays.antt =====
-- src-tauri/src/relay_bridge.rs: the desktop host dispatches a task to the relay, follows its progress
-- and fetches its result.
--
-- The answers of the relay are arguments: for a subscription, the list of what `recv_event` gives,
-- each with the time of `now_ts`. What the host does for others (publishing a snapshot, recording an
-- experience, scheduling a consolidation, the notification and the action log of a result) is the
-- list of its effects; the last two are made of the snapshot, the request and constants.
pub mod Tracking
pub mod Progress
pub mod Published
mod Tests
use cozmio.Prelude.{
  ℕ, ◌-◌, String, Bool, true, false, ◌||◌, Option, none, some, List, [], ◌∷◌, ◌++◌, if◌then◌else◌,
  ltb, nat_eq, length, drop, ◌==◌, string_key,
}
use cozmio.Prelude.Int.{ℤ, pos, negsuc}
use cozmio.Prelude.Results.{Result, Done, ok, err}
use cozmio.Prelude.Text.{is_empty, is_blank, trim, take_chars, char_count}
use cozmio.Experience.{◌<+>◌, ExperienceEventInput, build_relay_dispatch_event}
use cozmio.Engine.Messages.{ProgressEvent}

pub record RelayProgressInfo : Type 0 where
  pub timestamp : ℕ
  pub status_label : String
  pub message : String

pub record RelayExecutionInfo : Type 0 where
  pub trace_id : Option String
  pub transport : String
  pub relay_status : String
  pub session_id : Option String
  pub progress : List RelayProgressInfo
  pub result_summary : Option String
  pub result_output : Option String
  pub error_message : Option String
  pub updated_at : ℕ

pub record RelayDispatchRequest : Type 0 where
  pub trace_id : String
  pub original_suggestion : String
  pub dispatched_task : String
  pub window_title : String
  pub process_name : String
  pub runtime_context : Option String

pub data Effect : Type 0 where
  publish : RelayExecutionInfo → Effect
  record_experience : ExperienceEventInput → Effect
  schedule_consolidation : String → Effect
  notify_result : RelayExecutionInfo → Effect
  log_action : RelayExecutionInfo → Effect

-- `MAX_PROGRESS_ITEMS`
abbrev pub max_progress_items : ℕ
max_progress_items = 12

unfoldable pub clip_relay_context : String → ℕ → String
clip_relay_context value max_chars =
    let clipped = take_chars max_chars value in
    if ltb max_chars (char_count value) then clipped <+> "..." else clipped

unfoldable pub trim_progress : RelayExecutionInfo → RelayExecutionInfo
trim_progress s =
    if ltb max_progress_items (length s.progress)
    then record s { progress = drop (length s.progress - max_progress_items) s.progress }
    else s

unfoldable pub level_label : ℤ → String
level_label (pos n) = if nat_eq n 1 then "warn" else if nat_eq n 2 then "error" else "info"
level_label (negsuc n) = "info"

unfoldable pub terminal_status_label : ℤ → String
terminal_status_label (pos n) =
    if nat_eq n 3
    then "completed"
    else if nat_eq n 4
    then "failed"
    else if nat_eq n 5
    then "interrupted"
    else if nat_eq n 2
    then "waiting"
    else if nat_eq n 1
    then "running"
    else "unknown"
terminal_status_label (negsuc n) = "unknown"

abbrev pub add_progress : RelayProgressInfo → RelayExecutionInfo → RelayExecutionInfo
add_progress p s = record s { progress = s.progress ++ p ∷ [] }

unfoldable pub progress_of : ProgressEvent → RelayProgressInfo
unfolding level_label
progress_of e = record {
  timestamp = e.timestamp;
  status_label = level_label e.level;
  message = if is_blank e.message then "<empty>" else e.message;
}

unfoldable pub status_by_event : ProgressEvent → String → String
unfolding terminal_status_label
status_by_event e status =
    if e.terminal
    then terminal_status_label e.terminal_status
    else if (status == "dispatching") || (status == "connecting")
    then "running"
    else status

unfoldable pub apply_progress_event : ProgressEvent → RelayExecutionInfo → RelayExecutionInfo
unfolding trim_progress progress_of status_by_event
apply_progress_event e s =
    let trimmed = trim_progress (add_progress (progress_of e) s) in
    record trimmed { relay_status = status_by_event e trimmed.relay_status }

unfoldable pub push_host_progress : ℕ → String → String → RelayExecutionInfo → RelayExecutionInfo
unfolding trim_progress
push_host_progress now message label s =
    trim_progress
      (add_progress (record { timestamp = now; status_label = label; message = message }) s)

unfoldable pub trim_output : String → String
trim_output output =
    let trimmed = trim output in
    if ltb 4000 (char_count trimmed)
    then take_chars 4000 trimmed <+> "\n...[truncated]"
    else trimmed

abbrev pub trace_ref : RelayDispatchRequest → Option String
trace_ref r = if is_empty r.trace_id then none else some r.trace_id

-- `record_relay_dispatch` for the task of a request.
unfoldable pub recorded : RelayDispatchRequest → Option String → String → Option String → Effect
unfolding build_relay_dispatch_event
recorded r session_id event_kind detail = record_experience (
    build_relay_dispatch_event (trace_ref r) session_id event_kind r.window_title r.process_name
      r.original_suggestion detail)

-- A status with its error, at a time.
abbrev pub with_error : String → String → ℕ → RelayExecutionInfo → RelayExecutionInfo
with_error status error now s = record s {
  relay_status = status;
  error_message = some error;
  updated_at = now;
}
