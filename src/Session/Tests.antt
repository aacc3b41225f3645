-- ===== src/Session/Tests.antt =====
-- Runs of the session manager, and its theorems at inputs that meet their hypotheses.
use cozmio.Prelude.{ℕ, ◌≡◌, refl, inl, true, none, some, List, [], ◌∷◌, In, string_key}
use cozmio.Prelude.Maps.{insert, modify, lookup}
use cozmio.Session.{
  Session, SessionManager, pending, completed, ProgressEntry, info, ExecutionTask, new,
  create_session, get_session, add_progress, update_status, is_terminal, warn, subscribe,
}
use cozmio.Session.Runs
use cozmio.Session.Runs.{run, step, heard, entry_of, ending_of}
use cozmio.Session.Streams.{last_or}
use cozmio.Session.Subscription.{subscription_stream}
use cozmio.Session.Race.{Task, deliver, replay, World, start, Reach}
use cozmio.Session.Race
use cozmio.Session.Race.Loss.{no_entry_lost}
use cozmio.Session.Race.Twice.{entries, registrations, entry_sent_twice}

abbrev a_task : ExecutionTask
a_task = record {
  original_suggestion = "fix";
  dispatched_task = "fix it";
  agent_name = "claude-code";
}

abbrev hello : ProgressEntry
hello = record { timestamp = 1; message = "hello"; level = info }

abbrev bye : ProgressEntry
bye = record { timestamp = 2; message = "bye"; level = warn }

abbrev opened : SessionManager
opened = (add_progress "s" hello 5 (create_session "s" a_task 4 new)).0

abbrev later : List (ℕ × Runs.Call)
later =
    (7, Runs.add_progress "s" bye)
    ∷ (8, Runs.update_status "s" completed)
    ∷ (9, Runs.subscribe "s" "other")
    ∷ []

abbrev opened_session : Session
opened_session = record {
  id = "s";
  task = a_task;
  status = pending;
  progress_logs = hello ∷ [];
  started_at = 4;
  updated_at = 5;
  final_result = none;
}

-- A subscriber hears both entries, then the end.
late_subscriber :
    let r = run opened ((6, Runs.subscribe "s" "me") ∷ later) in
    (heard entry_of "me" "s" r.1 ≡ hello ∷ bye ∷ [])
    × (heard ending_of "me" "s" r.1 ≡ completed ∷ [])
unfolding run step heard create_session new add_progress update_status subscribe is_terminal insert
    modify lookup
late_subscriber = (refl, refl)

opened_found : get_session "s" opened ≡ some opened_session
unfolding create_session new add_progress insert modify lookup
opened_found = refl

subscription_stream_example :
    let r = run opened ((6, Runs.subscribe "s" "me") ∷ later) in
    (s' : Session) × (get_session "s" r.0 ≡ some s')
    × (heard entry_of "me" "s" r.1 ≡ s'.progress_logs)
    × (is_terminal s'.status ≡ true → last_or none (heard ending_of "me" "s" r.1) ≡ some s'.status)
unfolding create_session new add_progress lookup
subscription_stream_example =
    subscription_stream "me" "s" opened opened_session 6 later opened_found refl
      (tt, (tt, (refl, tt)))

-- One subscriber, one entry pushed before it came.
abbrev told_once : World
told_once = record {
  progress_logs = hello ∷ [];
  subscribers = "me" ∷ [];
  tasks = [];
  sent = ("me", hello) ∷ [];
}

told_once-Reach : Reach told_once
told_once-Reach =
    Reach.then
      (Reach.then
        (Reach.then
          (Reach.then
            (Reach.then (Reach.then Reach.begin (Race.push hello)) (Race.read [] [] hello refl))
            (Race.delivered [] [] hello refl))
          (Race.register "me"))
        (Race.catch_up [] [] "me" hello [] refl))
      (Race.replayed [] [] "me" refl)

no_entry_lost_example : In ("me", hello) told_once.sent
no_entry_lost_example =
    no_entry_lost told_once "me" hello told_once-Reach refl (inl refl) (inl refl)

entry_sent_twice_example :
    (w : World) × (r : Reach w) × (entries r ≡ hello ∷ [])
    × (registrations r ≡ "me" ∷ [])
    × (w.tasks ≡ [])
    × (w.sent ≡ ("me", hello) ∷ ("me", hello) ∷ [])
entry_sent_twice_example = entry_sent_twice hello "me"
