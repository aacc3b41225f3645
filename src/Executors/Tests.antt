-- ===== src/Executors/Tests.antt =====
-- A list of tracked sessions, and the theorems on it.

use cozmio.Prelude.{
  ℕ, String, ◌≡◌, ◌↔◌, refl, false, none, some, [], ◌∷◌, if◌then◌else◌, string_key,
}
use cozmio.Prelude.Results.{ok}
use cozmio.Prelude.Text.{is_blank, is_whitespace}
use cozmio.Executors.{
  ExecutorSessionSummary, Sessions, dispatched, completed, find_relay, record_dispatched_session,
  update_session_status, touch, insert_sorted, sort_by_activity, modify_relay,
  status_from_relay_label, failed,
}
use cozmio.Executors.Lookups.{IsDistinct, record_lookup}

abbrev summary : String → ℕ → ExecutorSessionSummary
summary id now = record {
  cozmio_trace_id = "trace";
  relay_session_id = id;
  executor_target = "claude-code";
  dispatched_at = now;
  last_activity_at = now;
  task_brief = "fix it";
  status = dispatched;
  executor_native_session_id = none;
  log_source = none;
  result_summary = none;
}

abbrev tracked : Sessions
tracked = summary "b" 9 ∷ summary "a" 3 ∷ []

tracked-IsDistinct : IsDistinct tracked
unfolding find_relay
tracked-IsDistinct = (refl, (refl, tt))

-- An older session moves to the front when it is updated.
updated_first :
    (update_session_status "a" completed (some "done") 12 tracked).1
    ≡ touch completed (some "done") 12 (summary "a" 3) ∷ summary "b" 9 ∷ []
unfolding update_session_status sort_by_activity insert_sorted modify_relay find_relay is_blank
    is_whitespace
updated_first = refl

-- A blank identifier is refused.
blank_refused : (record_dispatched_session (summary " " 5) tracked).1 ≡ tracked
unfolding record_dispatched_session is_blank is_whitespace
blank_refused = refl

subscription_failed : status_from_relay_label "subscription_error" ≡ failed
unfolding status_from_relay_label
subscription_failed = refl

record_lookup_example :
    let r = record_dispatched_session (summary "a" 11) tracked in
    ((r.0 ≡ ok tt) ↔ (is_blank "a" ≡ false))
    × IsDistinct r.1
    × ((j : String)
        → find_relay j r.1 ≡ (
            if is_blank "a"
            then find_relay j tracked
            else if string_key.same "a" j
            then some (summary "a" 11)
            else find_relay j tracked))
record_lookup_example = record_lookup (summary "a" 11) tracked tracked-IsDistinct
