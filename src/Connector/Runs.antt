-- ===== src/Connector/Runs.antt =====
-- relay-engine/src/agents/claude_code.rs: a whole run of a task.

use mathlib.Core.List.{append_assoc, append-nil}
use cozmio.Prelude.{
  ℕ, String, ◌≡◌, ◌∙◌, ap, subst, refl, false, some, List, [], ◌∷◌, ◌++◌, map, ==_refl, string_key,
}
use cozmio.Prelude.Int.{ℤ}
use cozmio.Session.{
  Session, SessionManager, running, ProgressEntry, get_session, is_interrupt_requested,
  update_status, add_progress, register_process, with_status, with_progress,
}
use cozmio.Session.Lookups.{get_session-update_status, get_session-add_progress}
use cozmio.Connector.{
  Action, ◌andthen◌, Exit, exit_result, exit_status, dispatch, started, started_entry, read_lines,
  line_entry, collected, Stream, stdout, stderr, Line, finish, is_interrupted,
}
use cozmio.Connector.Output.{combine_output}
use cozmio.Connector.Endings.{finish_session}

-- A dispatch whose child is started, has its output read and exits.
unfoldable pub run_task :
    (ℕ → String)
    → (ℤ → String)
    → String
    → ℕ
    → List (ℕ × (Stream × Line))
    → Exit
    → ℕ
    → ℕ
    → ℕ
    → ℕ
    → Action
run_task show_pid show id pid lines exit duration t0 t1 t2 =
    dispatch id t0
    andthen started show_pid id pid t1
    andthen read_lines id lines
    andthen finish show id pid exit (collected stdout lines) (collected stderr lines) duration t2

-- What the first parts of a run leave in the session.
record Holds (id : String) (m : SessionManager) (logs : List ProgressEntry) : Type 0 where
  s : Session
  found : get_session id m ≡ some s
  is_running : s.status ≡ running
  logged : s.progress_logs ≡ logs
  free : is_interrupt_requested id m ≡ false

add_progress-Holds :
    (id : String) (e : ProgressEntry) (now : ℕ) (m : SessionManager) (logs : List ProgressEntry)
    → Holds id m logs
    → Holds id (add_progress id e now m).0 (logs ++ e ∷ [])
add_progress-Holds id e now m logs h = record {
  s = with_progress e now h.s;
  found = rw (get_session-add_progress, ==_refl id, h.found);
  is_running = h.is_running;
  logged = ap (λ l. l ++ e ∷ []) h.logged;
  free = unfold add_progress in h.free;
}

read_lines-Holds :
    (id : String) (lines : List (ℕ × (Stream × Line))) (m : SessionManager)
    (logs : List ProgressEntry)
    → Holds id m logs
    → Holds id (read_lines id lines m).0 (logs ++ map (λ l. line_entry l.0 l.1) lines)
unfolding read_lines
read_lines-Holds id [] m logs h = rw append-nil h
read_lines-Holds id ((now, l) ∷ ls) m logs h =
    subst (Holds id (read_lines id ((now, l) ∷ ls) m).0)
      (append_assoc logs (line_entry now l ∷ []) (map (λ l'. line_entry l'.0 l'.1) ls))
      (read_lines-Holds id ls (add_progress id (line_entry now l) now m).0
        (logs ++ line_entry now l ∷ []) (add_progress-Holds id (line_entry now l) now m logs h))

module _ (show_pid : ℕ → String) (show : ℤ → String) (id : String) (pid : ℕ)
    (lines : List (ℕ × (Stream × Line))) (exit : Exit) (duration t0 t1 t2 : ℕ) (m : SessionManager)
    (s : Session) where
  -- A dispatched task that nobody interrupts leaves its session, whatever it was before, with the
  -- status and the result of the exit of its child, and with its start and every line of the child's
  -- output, in the order of reading, behind what was in the log; the result holds the collected
  -- output.
  pub run_task_lem :
      get_session id m ≡ some s
      → is_interrupt_requested id m ≡ false
      → (s' : Session) × (get_session id
            (run_task show_pid show id pid lines exit duration t0 t1 t2 m).0
          ≡ some s')
        × (s'.status ≡ exit_status exit)
        × (s'.final_result
            ≡ some (
                exit_result show exit
                  (combine_output (collected stdout lines) (collected stderr lines))
                  (collected stderr lines)
                  duration))
        × (s'.progress_logs
            ≡ s.progress_logs
              ++ started_entry show_pid pid t1 ∷ map (λ l. line_entry l.0 l.1) lines)
  unfolding run_task started dispatch register_process
  run_task_lem found free = (
    _,
    finish_session show id pid exit (collected stdout lines) (collected stderr lines) duration t2
        (read_lines id lines (started show_pid id pid t1 (dispatch id t0 m).0).0).0 read.s
        read.found read.free (ap (λ status. is_interrupted (some status)) read.is_running),
    refl,
    refl,
    read.logged
        ∙ append_assoc s.progress_logs (started_entry show_pid pid t1 ∷ [])
            (map (λ l. line_entry l.0 l.1) lines),
  )
    where
      dispatched : Holds id (dispatch id t0 m).0 s.progress_logs
      dispatched = record {
        s = with_status running t0 s;
        found = rw (get_session-update_status, ==_refl id, found);
        is_running = refl;
        logged = refl;
        free = unfold update_status in free;
      }

      read : Holds id (read_lines id lines (started show_pid id pid t1 (dispatch id t0 m).0).0).0 (
          (s.progress_logs ++ started_entry show_pid pid t1 ∷ [])
          ++ map (λ l. line_entry l.0 l.1) lines)
      read = read_lines-Holds id lines (started show_pid id pid t1 (dispatch id t0 m).0).0 _ (
          add_progress-Holds id (started_entry show_pid pid t1) t1
            (register_process pid id (dispatch id t0 m).0) s.progress_logs
            (record {
              s = dispatched.s;
              found = dispatched.found;
              is_running = dispatched.is_running;
              logged = dispatched.logged;
              free = dispatched.free;
            }))
