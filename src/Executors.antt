-- ===== src/Executors.antt =====
-- src-tauri/src/executor_session_registry.rs: the sessions that the desktop application has dispatched.
--
-- The state is the list `executor_sessions` of the application, kept with the latest activity first.
-- Times are seconds since the epoch, and `now` is the argument of every function that reads the clock.
-- `sort_by` is a stable sort, written as insertion sort. `recent_executor_summary_in_state`, which
-- formats the list for a prompt, is left out.
pub mod Lookups
pub mod Order
mod Tests
use cozmio.Prelude.{
  ℕ, String, Bool, true, false, not, ◌||◌, Option, none, some, List, [], ◌∷◌, ◌++◌, leb,
  if◌then◌else◌, filter, ◌==◌, string_key,
}
use cozmio.Prelude.Results.{Result, ok, err}
use cozmio.Prelude.Text.{is_blank}

pub data ExecutorSessionStatus : Type 0 where
  dispatched running completed failed interrupted unknown : ExecutorSessionStatus

pub record ExecutorLogSource : Type 0 where
  pub source_type : String
  pub locator : String

pub record ExecutorSessionSummary : Type 0 where
  pub cozmio_trace_id : String
  pub relay_session_id : String
  pub executor_target : String
  pub dispatched_at : ℕ
  pub last_activity_at : ℕ
  pub task_brief : String
  pub status : ExecutorSessionStatus
  pub executor_native_session_id : Option String
  pub log_source : Option ExecutorLogSource
  pub result_summary : Option String

abbrev pub Sessions : Type 0
Sessions = List ExecutorSessionSummary

-- An outcome, and the list that the call leaves.
abbrev pub Outcome : Type 0
Outcome = Result String Unit × Sessions

unfoldable pub insert_sorted : ExecutorSessionSummary → Sessions → Sessions
insert_sorted s [] = s ∷ []
insert_sorted s (t ∷ ts) =
    if leb t.last_activity_at s.last_activity_at then s ∷ (t ∷ ts) else t ∷ insert_sorted s ts

-- `sort_by(|a, b| b.last_activity_at.cmp(&a.last_activity_at))`
unfoldable pub sort_by_activity : Sessions → Sessions
sort_by_activity [] = []
sort_by_activity (s ∷ ss) = insert_sorted s (sort_by_activity ss)

unfoldable pub find_relay : String → Sessions → Option ExecutorSessionSummary
find_relay id [] = none
find_relay id (s ∷ ss) = if s.relay_session_id == id then some s else find_relay id ss

unfoldable pub record_dispatched_session : ExecutorSessionSummary → Sessions → Outcome
record_dispatched_session summary ss =
    if is_blank summary.relay_session_id then (err "relay_session_id is required", ss) else (
      ok tt,
      sort_by_activity
          (filter (λ s. not (s.relay_session_id == summary.relay_session_id)) ss ++ summary ∷ []),
    )

abbrev kept_summary : Option String → Option String → Option String
kept_summary none old = old
kept_summary (some new) old = if is_blank new then old else some new

abbrev pub touch :
    ExecutorSessionStatus → Option String → ℕ → ExecutorSessionSummary → ExecutorSessionSummary
touch status result_summary now s = record s {
  status = status;
  last_activity_at = now;
  result_summary = kept_summary result_summary s.result_summary;
}

-- A write through the reference that `iter_mut().find` gives.
unfoldable pub modify_relay :
    String → (ExecutorSessionSummary → ExecutorSessionSummary) → Sessions → Sessions
modify_relay id f [] = []
modify_relay id f (s ∷ ss) = if s.relay_session_id == id then f s ∷ ss else s ∷ modify_relay id f ss

abbrev pub is_none {ℓ} : {A : Type ℓ} → Option A → Bool
is_none none = true
is_none (some x) = false

unfoldable pub update_session_status :
    String → ExecutorSessionStatus → Option String → ℕ → Sessions → Outcome
update_session_status id status result_summary now ss =
    if is_none (find_relay id ss)
    then (err "executor session not found", ss)
    else (ok tt, sort_by_activity (modify_relay id (touch status result_summary now) ss))

unfoldable pub status_from_relay_label : String → ExecutorSessionStatus
status_from_relay_label label =
    if label == "completed" || label == "done"
    then completed
    else if label == "failed"
        || label == "error"
        || label == "dispatch_error"
        || label == "subscription_error"
    then failed
    else if label == "interrupted"
    then interrupted
    else if label == "running"
        || label == "waiting"
        || label == "dispatching"
        || label == "connecting"
    then running
    else unknown

unfoldable pub status_label : ExecutorSessionStatus → String
status_label dispatched = "dispatched"
status_label running = "running"
status_label completed = "completed"
status_label failed = "failed"
status_label interrupted = "interrupted"
status_label unknown = "unknown"
