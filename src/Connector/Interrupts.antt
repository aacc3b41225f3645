-- ===== src/Connector/Interrupts.antt =====
-- relay-engine/src/agents/claude_code.rs: an interrupt and the end of the task, in every order in which
-- their parts can run.
use mathlib.Core.Option
use Prim.Native.String
use cozmio.Prelude.{
  ℕ, String, Bool, ap, ◌∙◌, ◌≡◌, refl, true, false, Option, none, some, arith, ==_refl, string_key,
}
use cozmio.Prelude.Int.{ℤ}
use cozmio.Session.{
  Session, SessionManager, SessionStatus, ExecutionResult, ProgressEntry, interrupted, warn,
  get_session, is_interrupt_requested, unregister_process, update_status, add_progress, with_status,
  with_progress, mark_interrupt_requested, clear_interrupt_requested,
}
use cozmio.Session.Lookups.{get_session-update_status, get_session-add_progress, interrupt_flags}
use cozmio.Connector.{
  Exit, interrupt_result, finish, begin_interrupt, end_interrupt, find_pid, entry, mark_running,
}
use cozmio.Connector.Output.{combine_output}
use cozmio.Connector.Endings.{ending, or_default, finish_by_interrupt}

abbrev pub interrupted_with : Session → String → ℕ → Option (SessionStatus × Option ExecutionResult)
interrupted_with s raw duration =
    some (interrupted, some (or_default s.final_result (interrupt_result raw duration)))

begun :
    (id : String) (pid : ℕ) (m : SessionManager)
    → find_pid id m.processes ≡ some pid
    → (begin_interrupt id m).0 ≡ mark_interrupt_requested id m
unfolding begin_interrupt
begun id pid m h = ap (mark_running id m) h

-- The second part of an interrupt that killed the process.
abbrev pub killed_entry : (ℕ → String) → ℕ → ℕ → ProgressEntry
killed_entry show pid now =
    entry now (String.◌++◌ "Interrupted Claude Code process pid=" (show pid)) warn

module _ (show : ℕ → String) (id : String) (pid now : ℕ) (m : SessionManager) where
  abbrev pub killed : SessionManager
  killed = (end_interrupt show id pid true now m).0

  killed_flag : is_interrupt_requested id killed ≡ is_interrupt_requested id m
  killed_flag = unfold end_interrupt update_status unregister_process add_progress in refl

  pub killed_session :
      get_session id killed
      ≡ Option.map
          (with_status interrupted now)
          (Option.map (with_progress (killed_entry show pid now) now) (get_session id m))
  unfolding end_interrupt unregister_process
  killed_session = rw (get_session-update_status, ==_refl id, get_session-add_progress, ==_refl id)

  killed-ending :
      (status : SessionStatus) (r : Option ExecutionResult)
      → ending (get_session id m) ≡ some (status, r)
      → ending (get_session id killed) ≡ some (interrupted, r)
  killed-ending status r h = rw killed_session (mapped (get_session id m) h)
    where
      mapped :
          (o : Option Session)
          → ending o ≡ some (status, r)
          → ending (
              Option.map
                (with_status interrupted now)
                (Option.map (with_progress (killed_entry show pid now) now) o))
            ≡ some (interrupted, r)
      mapped none e = ground arith
      mapped (some s) e = ground arith

module _ (show_pid : ℕ → String) (show : ℤ → String) (id : String) (pid : ℕ) (exit : Exit)
    (out errs : String) (duration t1 t2 : ℕ) (m : SessionManager) (s : Session)
    (found : get_session id m ≡ some s) (runs : find_pid id m.processes ≡ some pid) where
  abbrev marked : SessionManager
  marked = (begin_interrupt id m).0

  abbrev finished : SessionManager → SessionManager
  finished n = (finish show id pid exit out errs duration t1 n).0

  abbrev reported : Bool → SessionManager → SessionManager
  reported killed n = (end_interrupt show_pid id pid killed t2 n).0

  marked_session : get_session id marked ≡ some s
  marked_session =
      ap (get_session id) (begun id pid m runs) ∙ unfold mark_interrupt_requested in found

  marked_flag : is_interrupt_requested id marked ≡ true
  marked_flag =
      ap (is_interrupt_requested id) (begun id pid m runs)
      ∙ rw ((interrupt_flags id id m).0, ==_refl id)

  finished-marked :
      (ending (get_session id (finished marked))
        ≡ interrupted_with s (combine_output out errs) duration)
      × (is_interrupt_requested id (finished marked) ≡ false)
  finished-marked =
      finish_by_interrupt show id pid exit out errs duration t1 marked s marked_session
        (rw marked_flag)

  reported-marked :
      (ending (get_session id (finished (reported true marked)))
        ≡ interrupted_with s (combine_output out errs) duration)
      × (is_interrupt_requested id (finished (reported true marked)) ≡ false)
  reported-marked =
      finish_by_interrupt show id pid exit out errs duration t1 (reported true marked)
        (with_status interrupted t2 (with_progress (killed_entry show_pid pid t2) t2 s))
        (rw (killed_session show_pid id pid t2 marked, marked_session))
        (rw (killed_flag show_pid id pid t2 marked, marked_flag))

  -- An interrupt that kills the process of a session ends it as `Interrupted` with a result, and no
  -- request is left, whichever of the task's end and the interrupt's second part comes first.
  pub interrupt_any_order :
      (ending (get_session id (finished (reported true marked)))
        ≡ interrupted_with s (combine_output out errs) duration)
      × (is_interrupt_requested id (finished (reported true marked)) ≡ false)
      × (ending (get_session id (reported true (finished marked)))
          ≡ interrupted_with s (combine_output out errs) duration)
      × (is_interrupt_requested id (reported true (finished marked)) ≡ false)
  interrupt_any_order = (
    reported-marked.0,
    reported-marked.1,
    killed-ending show_pid id pid t2 (finished marked) interrupted
        (some (or_default s.final_result (interrupt_result (combine_output out errs) duration)))
        finished-marked.0,
    rw (killed_flag show_pid id pid t2 (finished marked)) finished-marked.1,
  )

  -- If the task ends by itself while `kill` fails, the session ends as `Interrupted`, even if its exit
  -- was a success.
  pub failed_kill_interrupts :
      ending (get_session id (reported false (finished marked)))
      ≡ interrupted_with s (combine_output out errs) duration
  failed_kill_interrupts = unfold end_interrupt clear_interrupt_requested in finished-marked.0
