-- ===== src/Relays/Tracking.antt =====
-- src-tauri/src/relay_bridge.rs: starting a session, following it and fetching its result.
use cozmio.Prelude.{
  ℕ, String, Bool, true, false, Option, none, some, List, [], ◌∷◌, ◌++◌, if◌then◌else◌, ◌==◌,
  string_key,
}
use cozmio.Prelude.Results.{Result, Done, ok, err}
use cozmio.Prelude.Text.{is_blank, trim}
use cozmio.Experience.{◌<+>◌}
use cozmio.Engine.Messages.{ProgressEvent}
use cozmio.Session.{ExecutionResult}
use cozmio.Relays.{
  RelayExecutionInfo, RelayDispatchRequest, Effect, publish, schedule_consolidation, notify_result,
  log_action, apply_progress_event, push_host_progress, trim_output, trace_ref, recorded,
  with_error,
}

-- What the relay answers when a session is started.
pub record Answers : Type 0 where
  pub available : Result String Done
  pub connected : Result String Done
  pub dispatched : Result String String

abbrev pub initial : RelayDispatchRequest → ℕ → RelayExecutionInfo
initial r now = record {
  trace_id = trace_ref r;
  transport = "tcp-loopback";
  relay_status = "connecting";
  session_id = none;
  progress = [];
  result_summary = none;
  result_output = none;
  error_message = none;
  updated_at = now;
}

abbrev pub preparing : RelayDispatchRequest → String
preparing r =
    "Desktop host preparing relay dispatch for '" <+> r.window_title <+> "' (" <+> r.process_name
    <+> ")"

unfoldable pub connecting : RelayDispatchRequest → ℕ → RelayExecutionInfo
unfolding push_host_progress
connecting r now = push_host_progress now (preparing r) "info" (initial r now)

unfoldable pub session_started :
    RelayDispatchRequest → String → ℕ → RelayExecutionInfo → RelayExecutionInfo
unfolding push_host_progress
session_started r session_id now s =
    push_host_progress now ("Desktop host dispatched Relay session " <+> session_id) "info"
      (record s { session_id = some session_id; relay_status = "running"; updated_at = now })

-- The effects, the result, and the snapshot that the tracking thread gets.
abbrev pub Start : Type 0
Start = List Effect × Result String (String × RelayExecutionInfo)

unfoldable pub refused :
    RelayDispatchRequest → String → String → String → String → ℕ → RelayExecutionInfo → Start
unfolding recorded
refused r status kind detail error now s =
    (recorded r none kind (some detail) ∷ publish (with_error status error now s) ∷ [], err error)

unfoldable pub start_dispatched :
    RelayDispatchRequest → ℕ → RelayExecutionInfo → Result String String → Start
unfolding recorded refused session_started
start_dispatched r now s (err e) =
    let error = "Relay dispatch failed: " <+> e in
    refused r "dispatch_error" "relay_dispatch_failed" error error now s
start_dispatched r now s (ok session_id) =
    let t = session_started r session_id now s in
    (
      recorded r (some session_id) "executor_session_started" (some "relay session id assigned")
          ∷ publish t
          ∷ [],
      ok (session_id, t),
    )

unfoldable pub start_connected :
    RelayDispatchRequest
    → ℕ
    → RelayExecutionInfo
    → Result String Done
    → Result String String
    → Start
unfolding recorded refused start_dispatched
start_connected r now s (err e) d =
    let error = "Failed to connect Relay: " <+> e in
    refused r "connect_error" "relay_connect_failed" error error now s
start_connected r now s (ok _) d =
    let t = record s { relay_status = "dispatching"; updated_at = now } in
    let (es, out) = start_dispatched r now t d in
    (
      publish t
          ∷ recorded r none "relay_dispatch_requested"
              (some "desktop host requested relay dispatch")
          ∷ es,
      out,
    )

unfoldable pub start_available :
    RelayDispatchRequest → ℕ → RelayExecutionInfo → Answers → Result String Done → Start
unfolding refused start_connected
start_available r now s a (err e) =
    refused r "relay_unavailable" "relay_unavailable" ("ensure_relay_available failed: " <+> e) e
      now s
start_available r now s a (ok _) = start_connected r now s a.connected a.dispatched

unfoldable pub start_relay_session : RelayDispatchRequest → ℕ → Answers → Start
unfolding connecting start_available
start_relay_session r now a =
    let s = connecting r now in
    let (es, out) = start_available r now s a a.available in (publish s ∷ es, out)

-- How the loop over `recv_event` is left: by a terminal event, by an error, or not yet.
pub data Followed : Type 0 where
  ended broken waiting : RelayExecutionInfo → Followed

unfoldable pub failure :
    RelayDispatchRequest
    → String
    → String
    → String
    → ℕ
    → RelayExecutionInfo
    → List Effect × RelayExecutionInfo
unfolding recorded
failure r session_id kind error now s =
    let t = with_error "subscription_error" error now s in
    (recorded r (some session_id) kind (some error) ∷ publish t ∷ [], t)

unfoldable pub follow :
    RelayDispatchRequest
    → String
    → List (ℕ × Result String ProgressEvent)
    → RelayExecutionInfo
    → List Effect × Followed
unfolding recorded failure apply_progress_event
follow r session_id [] s = ([], waiting s)
follow r session_id ((now, err e) ∷ es) s =
    let (fs, t) =
      failure r session_id "relay_progress_stream_failed" ("Relay progress stream failed: " <+> e)
        now s in
    (fs, broken t)
follow r session_id ((now, ok e) ∷ es) s =
    let t = record (apply_progress_event e s) { updated_at = now } in
    let rest = follow r session_id es t in
    let first =
      recorded r (some session_id) "executor_progress_summary" (some e.message) ∷ publish t ∷ [] in
    (if e.terminal then first else first ++ rest.0, if e.terminal then ended t else rest.1)

abbrev pub outcome_kind : Bool → String
outcome_kind true = "executor_completed"
outcome_kind false = "executor_failed"

abbrev pub bool_text : Bool → String
bool_text true = "true"
bool_text false = "false"

-- The snapshot with a result, before the host's own progress entry.
unfoldable pub with_result : ExecutionResult → RelayExecutionInfo → RelayExecutionInfo
unfolding trim_output
with_result res s = record s {
  result_summary = some res.summary;
  result_output = some (trim_output res.raw_output);
  error_message =
      if is_blank res.error_message then s.error_message else some (trim res.error_message);
  relay_status =
      if s.relay_status == "running"
      then (if res.success then "completed" else "failed")
      else s.relay_status;
}

unfoldable pub finish_tracking :
    RelayDispatchRequest
    → String
    → ℕ
    → Result String (Option ExecutionResult)
    → RelayExecutionInfo
    → List Effect × RelayExecutionInfo
unfolding recorded with_result push_host_progress
finish_tracking r session_id now (ok (some res)) s =
    let t = with_result res s in
    let kind = outcome_kind res.success in
    let u =
      record (push_host_progress now
        ("Desktop host received Relay result for '" <+> r.window_title <+> "' (" <+> r.process_name
          <+> ")")
        "info" t) { updated_at = now } in
    (
      recorded r (some session_id) kind (
            some (
              "success="
              <+> bool_text res.success
              <+> " status="
              <+> t.relay_status
              <+> " summary="
              <+> res.summary
              <+> " error="
              <+> res.error_message))
          ∷ schedule_consolidation kind
          ∷ publish u
          ∷ notify_result u
          ∷ log_action u
          ∷ [],
      u,
    )
finish_tracking r session_id now (ok none) s =
    let t = record s {
      error_message = some "Relay session reached terminal state but result was not available";
      updated_at = now;
    } in
    (publish t ∷ [], t)
finish_tracking r session_id now (err e) s =
    let t = record s { error_message = some e; updated_at = now } in (publish t ∷ [], t)

-- What the relay answers while a session is tracked.
pub record Stream : Type 0 where
  pub connected : Result String Done
  pub subscribed : Result String Done
  pub events : List (ℕ × Result String ProgressEvent)
  pub result : Result String (Option ExecutionResult)

unfoldable pub track_followed :
    RelayDispatchRequest
    → String
    → ℕ
    → Result String (Option ExecutionResult)
    → List Effect × Followed
    → List Effect × RelayExecutionInfo
unfolding finish_tracking
track_followed r session_id now result (es, ended s) =
    let (fs, t) = finish_tracking r session_id now result s in (es ++ fs, t)
track_followed r session_id now result (es, broken s) = (es, s)
track_followed r session_id now result (es, waiting s) = (es, s)

unfoldable pub track_subscribed :
    RelayDispatchRequest
    → String
    → ℕ
    → Stream
    → Result String Done
    → RelayExecutionInfo
    → List Effect × RelayExecutionInfo
unfolding failure follow track_followed
track_subscribed r session_id now a (err e) s =
    failure r session_id "relay_subscription_failed" ("Failed to subscribe Relay session: " <+> e)
      now s
track_subscribed r session_id now a (ok _) s =
    track_followed r session_id now a.result (follow r session_id a.events s)

unfoldable pub track_connected :
    RelayDispatchRequest
    → String
    → ℕ
    → Stream
    → Result String Done
    → RelayExecutionInfo
    → List Effect × RelayExecutionInfo
unfolding failure track_subscribed
track_connected r session_id now a (err e) s =
    failure r session_id "relay_subscription_reconnect_failed"
      ("Failed to reconnect Relay for subscription: " <+> e) now s
track_connected r session_id now a (ok _) s = track_subscribed r session_id now a a.subscribed s

unfoldable pub track_relay_session :
    RelayDispatchRequest
    → String
    → ℕ
    → Stream
    → RelayExecutionInfo
    → List Effect × RelayExecutionInfo
unfolding track_connected
track_relay_session r session_id now a s = track_connected r session_id now a a.connected s
