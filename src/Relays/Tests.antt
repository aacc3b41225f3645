-- ===== src/Relays/Tests.antt =====
-- The desktop host at a concrete session, and its theorems at inputs that meet their hypotheses.
use cozmio.Prelude.{
  ℕ, String, ◌≡◌, refl, true, none, some, List, [], ◌∷◌, ◌++◌, arith, All, In, string_key,
}
use cozmio.Prelude.Int.{pos}
use cozmio.Prelude.Results.{Result, ok}
use cozmio.Engine.Messages.{ProgressEvent}
use cozmio.Session.{ExecutionResult}
use cozmio.Relays.{publish, RelayExecutionInfo, RelayDispatchRequest, terminal_status_label}
use cozmio.Relays.Tracking.{track_relay_session, follow, finish_tracking}
use cozmio.Relays.Progress.{lasts, snapshot, seen, follow_shows_last}
use cozmio.Relays.Published.{IsShort, IsSettled, track-IsShort, finish_settles}

abbrev request : RelayDispatchRequest
request = record {
  trace_id = "t";
  original_suggestion = "do it";
  dispatched_task = "do it now";
  window_title = "w";
  process_name = "p";
  runtime_context = none;
}

abbrev running : RelayExecutionInfo
running = record {
  trace_id = some "t";
  transport = "tcp-loopback";
  relay_status = "running";
  session_id = some "s";
  progress = [];
  result_summary = none;
  result_output = none;
  error_message = none;
  updated_at = 1;
}

abbrev last_event : ProgressEvent
last_event = record {
  session_id = "s";
  timestamp = 2;
  message = "done";
  level = pos 0;
  terminal = true;
  terminal_status = pos 3;
}

abbrev events : List (ℕ × Result String ProgressEvent)
events = (2, ok last_event) ∷ []

abbrev result : ExecutionResult
result = record {
  summary = "fine";
  raw_output = "out";
  duration_secs = 3;
  success = true;
  error_message = "";
}

label : terminal_status_label (pos 3) ≡ "completed"
unfolding terminal_status_label
label = refl

follow_shows_last_example :
    (snapshot (follow request "s" events running).1).progress
    ≡ lasts (running.progress ++ seen events)
follow_shows_last_example = follow_shows_last request "s" events running (omega arith)

track-IsShort_example :
    All IsShort
      (track_relay_session request "s" 3
        record { connected = ok tt; subscribed = ok tt; events = events; result = ok (some result) }
        running).0
track-IsShort_example =
    track-IsShort request "s" 3
      record { connected = ok tt; subscribed = ok tt; events = events; result = ok (some result) }
      running (omega arith)

finish_settles_example :
    let (effects, t) = finish_tracking request "s" 3 (ok (some result)) running in
    All IsSettled effects × In (publish t) effects × (t.result_summary ≡ some result.summary)
finish_settles_example = finish_settles request "s" 3 result running
