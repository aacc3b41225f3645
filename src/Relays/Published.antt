-- ===== src/Relays/Published.antt =====
-- src-tauri/src/relay_bridge.rs: the snapshots that are published, and the last status.
use cozmio.Prelude.{
  ℕ, ◌≤◌, String, ◌≡◌, refl, Bool, true, false, Option, none, some, List, [], ◌∷◌, ◌++◌, ltb,
  if◌then◌else◌, length, Bool-cases, inl, inr, All, In, ◌∙◌, All-append, ◌==◌, string_key,
}
use cozmio.Prelude.Results.{Result, Done, ok, err}
use cozmio.Prelude.Tails.{length-tail_of}
use cozmio.Experience.{◌<+>◌}
use cozmio.Engine.Messages.{ProgressEvent}
use cozmio.Session.{ExecutionResult}
use cozmio.Relays.{
  RelayExecutionInfo, RelayDispatchRequest, Effect, publish, record_experience,
  schedule_consolidation, notify_result, log_action, trim_progress, push_host_progress, recorded,
  apply_progress_event,
}
use cozmio.Relays.Tracking.{
  Answers, Stream, Followed, ended, broken, waiting, initial, preparing, connecting,
  session_started, refused, start_dispatched, start_connected, start_available, start_relay_session,
  failure, follow, with_result, finish_tracking, track_followed, track_subscribed, track_connected,
  track_relay_session,
}
use cozmio.Relays.Progress.{seen, snapshot, follow_shows_last, push-lasts, apply-length}

-- A snapshot that is published, or shown with a result, has at most twelve entries.
abbrev pub IsShort : Effect → Type 0
IsShort (publish s) = length s.progress ≤ 12
IsShort (record_experience i) = Unit
IsShort (schedule_consolidation k) = Unit
IsShort (notify_result s) = length s.progress ≤ 12
IsShort (log_action s) = length s.progress ≤ 12

module _ (r : RelayDispatchRequest) where
  started-short :
      (id : String) (now : ℕ) (s : RelayExecutionInfo)
      → length (session_started r id now s).progress ≤ 12
  unfolding session_started
  started-short id now s =
      push-lasts now ("Desktop host dispatched Relay session " <+> id) "info"
        (record s { session_id = some id; relay_status = "running"; updated_at = now })

  dispatched-IsShort :
      (now : ℕ) (s : RelayExecutionInfo) (d : Result String String)
      → length s.progress ≤ 12
      → All IsShort (start_dispatched r now s d).0
  unfolding start_dispatched refused recorded
  dispatched-IsShort now s (err e) h = (tt, (h, tt))
  dispatched-IsShort now s (ok id) h = (tt, (started-short id now s, tt))

  connected-IsShort :
      (now : ℕ) (s : RelayExecutionInfo) (c : Result String Done) (d : Result String String)
      → length s.progress ≤ 12
      → All IsShort (start_connected r now s c d).0
  unfolding start_connected refused recorded
  connected-IsShort now s (err e) d h = (tt, (h, tt))
  connected-IsShort now s (ok _) d h = (
    h,
    (tt, dispatched-IsShort now (record s { relay_status = "dispatching"; updated_at = now }) d h),
  )

  available-IsShort :
      (now : ℕ) (s : RelayExecutionInfo) (a : Answers) (c : Result String Done)
      → length s.progress ≤ 12
      → All IsShort (start_available r now s a c).0
  unfolding start_available refused recorded
  available-IsShort now s a (err e) h = (tt, (h, tt))
  available-IsShort now s a (ok _) h = connected-IsShort now s a.connected a.dispatched h

  -- Starting a session publishes only snapshots of at most twelve entries, whatever the relay answers.
  pub start-IsShort : (now : ℕ) (a : Answers) → All IsShort (start_relay_session r now a).0
  unfolding start_relay_session connecting
  start-IsShort now a =
      let h = push-lasts now (preparing r) "info" (initial r now) in
      (h, available-IsShort now (connecting r now) a a.available h)

  module _ (id : String) where
    follow-IsShort :
        (es : List (ℕ × Result String ProgressEvent)) (s : RelayExecutionInfo)
        → length s.progress ≤ 12
        → All IsShort (follow r id es s).0
    unfolding follow failure recorded
    follow-IsShort [] s h = tt
    follow-IsShort ((now, err e) ∷ es) s h = (tt, (h, tt))
    follow-IsShort ((now, ok e) ∷ es) s h = cut e.terminal (
        follow-IsShort es (record (apply_progress_event e s) { updated_at = now })
          (apply-length e s))
      where
        cut :
            (b : Bool)
            → let t = record (apply_progress_event e s) { updated_at = now } in
              let first =
                recorded r (some id) "executor_progress_summary" (some e.message)
                ∷ publish t
                ∷ [] in
              All IsShort (follow r id es t).0
              → All IsShort (if b then first else first ++ (follow r id es t).0)
        cut true k = (tt, (apply-length e s, tt))
        cut false k = (tt, (apply-length e s, k))

    finish-IsShort :
        (now : ℕ) (res : Result String (Option ExecutionResult)) (s : RelayExecutionInfo)
        → length s.progress ≤ 12
        → All IsShort (finish_tracking r id now res s).0
    unfolding finish_tracking recorded
    finish-IsShort now (ok (some res)) s h =
        let k = push-lasts now _ "info" (with_result res s) in (tt, (tt, (k, (k, (k, tt)))))
    finish-IsShort now (ok none) s h = (h, tt)
    finish-IsShort now (err e) s h = (h, tt)

    followed-IsShort :
        (now : ℕ) (res : Result String (Option ExecutionResult)) (f : List Effect × Followed)
        → All IsShort f.0
        → length (snapshot f.1).progress ≤ 12
        → All IsShort (track_followed r id now res f).0
    unfolding track_followed
    followed-IsShort now res (es, ended s) a h =
        All-append IsShort es _ a (finish-IsShort now res s h)
    followed-IsShort now res (es, broken s) a h = a
    followed-IsShort now res (es, waiting s) a h = a

    tracked :
        (now : ℕ) (a : Stream) (d : Result String Done) (s : RelayExecutionInfo)
        → length s.progress ≤ 12
        → All IsShort (track_subscribed r id now a d s).0
    unfolding track_subscribed failure recorded
    tracked now a (err e) s h = (tt, (h, tt))
    tracked now a (ok _) s h =
        followed-IsShort now a.result (follow r id a.events s) (follow-IsShort a.events s h) (
          rw (follow_shows_last r id a.events s h)
            (length-tail_of 12 (s.progress ++ seen a.events)))

  -- Tracking a session from a snapshot of at most twelve entries publishes only such snapshots,
  -- whatever the relay answers.
  pub track-IsShort :
      (id : String) (now : ℕ) (a : Stream) (s : RelayExecutionInfo)
      → length s.progress ≤ 12
      → All IsShort (track_relay_session r id now a s).0
  unfolding track_relay_session track_connected failure recorded
  track-IsShort id now a s h = connected a.connected
    where
      connected : (c : Result String Done) → All IsShort (track_connected r id now a c s).0
      connected (err e) = (tt, (h, tt))
      connected (ok _) = tracked id now a a.subscribed s h

push-status :
    (now : ℕ) (m l : String) (s : RelayExecutionInfo)
    → (push_host_progress now m l s).relay_status ≡ s.relay_status
unfolding push_host_progress trim_progress
push-status now m l s =
    elim (Bool-cases (
      ltb 12
        (length (s.progress ++ record { timestamp = now; status_label = l; message = m } ∷ [])))) [
          | inl k ↦ rw k refl
          | inr k ↦ rw k refl
        ]

push-summary :
    (now : ℕ) (m l : String) (s : RelayExecutionInfo)
    → (push_host_progress now m l s).result_summary ≡ s.result_summary
unfolding push_host_progress trim_progress
push-summary now m l s =
    elim (Bool-cases (
      ltb 12
        (length (s.progress ++ record { timestamp = now; status_label = l; message = m } ∷ [])))) [
          | inl k ↦ rw k refl
          | inr k ↦ rw k refl
        ]

settled :
    (res : ExecutionResult) (s : RelayExecutionInfo)
    → ((with_result res s).relay_status == "running") ≡ false
unfolding with_result
settled res s = elim (Bool-cases (s.relay_status == "running")) [
  | inl k ↦ elim (Bool-cases res.success) [ inl b ↦ rw (k, b) refl | inr b ↦ rw (k, b) refl ]
  | inr k ↦ rw (k, k) refl
]

-- An effect shows no session as running, where it shows one.
abbrev pub IsSettled : Effect → Type 0
IsSettled (publish s) = (s.relay_status == "running") ≡ false
IsSettled (record_experience i) = Unit
IsSettled (schedule_consolidation k) = Unit
IsSettled (notify_result s) = (s.relay_status == "running") ≡ false
IsSettled (log_action s) = (s.relay_status == "running") ≡ false

-- When a result was fetched, the snapshot with it is published, and neither it nor what is notified
-- and logged shows the session as running, whatever the status that its terminal event gave.
pub finish_settles :
    (r : RelayDispatchRequest) (id : String) (now : ℕ) (res : ExecutionResult)
    (s : RelayExecutionInfo)
    → let (effects, t) = finish_tracking r id now (ok (some res)) s in
      All IsSettled effects × In (publish t) effects × (t.result_summary ≡ some res.summary)
unfolding finish_tracking recorded
finish_settles r id now res s =
    let settles : ((push_host_progress now
            ("Desktop host received Relay result for '" <+> r.window_title <+> "' ("
              <+> r.process_name <+> ")")
            "info" (with_result res s)).relay_status
          == "running")
        ≡ false =
      rw (push-status now _ "info" (with_result res s)) (settled res s) in
    (
      (tt, (tt, (settles, (settles, (settles, tt))))),
      inr (inr (inl refl)),
      push-summary now _ "info" (with_result res s) ∙ unfold with_result in refl,
    )
