-- ===== src/Connector/Tests.antt =====
-- Ends of tasks, and the theorems on them at inputs that meet their hypotheses.
use cozmio.Prelude.{
  List, ◌++◌, map, ◌∷◌, ℕ, String, Bool, ◌≡◌, refl, true, false, none, some, [], contains,
  string_key, nat_key,
}
use cozmio.Prelude.Int.{ℤ, pos, negsuc}
use cozmio.Prelude.Maps.{insert, modify, lookup}
use cozmio.Session.{
  failed, Session, SessionManager, ExecutionTask, pending, new, create_session, register_process,
  get_session, is_interrupt_requested, mark_interrupt_requested,
}
use cozmio.Connector.{
  exit_status, completed, Stream, stdout, stderr, Line, line, collected, started_entry, line_entry,
  exited, exit_result, finish, begin_interrupt, end_interrupt, find_pid,
}
use cozmio.Connector.Runs.{run_task, run_task_lem}
use cozmio.Connector.Output.{combine_output}
use cozmio.Prelude.Text.{is_blank, is_whitespace}
use cozmio.Connector.Endings.{ending}
use cozmio.Connector.Interrupts.{interrupted_with, interrupt_any_order}

abbrev a_task : ExecutionTask
a_task = record {
  original_suggestion = "fix";
  dispatched_task = "fix it";
  agent_name = "claude-code";
}

abbrev decimal : ℤ → String
decimal (pos n) = "n"
decimal (negsuc n) = "-n"

abbrev pid_text : ℕ → String
pid_text n = "n"

abbrev a_session : Session
a_session = record {
  id = "s";
  task = a_task;
  status = pending;
  progress_logs = [];
  started_at = 4;
  updated_at = 4;
  final_result = none;
}

abbrev busy : SessionManager
busy = register_process 7 "s" (create_session "s" a_task 4 new)

busy_found : get_session "s" busy ≡ some a_session
unfolding register_process create_session new insert modify lookup
busy_found = refl

busy_runs : find_pid "s" busy.processes ≡ some 7
unfolding register_process create_session new insert find_pid
busy_runs = refl

-- Both streams are kept, unless one is blank.
combined :
    (combine_output "a\n" "b\n" ≡ "a\n\nb\n")
    × (combine_output " \n" "b\n" ≡ "b\n")
    × (combine_output "\t" "" ≡ "")
unfolding combine_output is_blank is_whitespace
combined = (refl, refl, refl)

abbrev marked_busy : SessionManager
marked_busy = mark_interrupt_requested "s" busy

marked_found : get_session "s" marked_busy ≡ some a_session
unfolding mark_interrupt_requested register_process create_session new insert modify lookup
marked_found = refl

marked_flag : is_interrupt_requested "s" marked_busy ≡ true
unfolding mark_interrupt_requested register_process create_session new contains
marked_flag = refl

abbrev finished_run : SessionManager → SessionManager
finished_run n = (finish decimal "s" 7 (exited true none) "out" "" 3 9 n).0

abbrev reported_run : Bool → SessionManager → SessionManager
reported_run killed n = (end_interrupt pid_text "s" 7 killed 10 n).0

abbrev begun_run : SessionManager
begun_run = (begin_interrupt "s" busy).0

interrupt_any_order_example :
    (ending (get_session "s" (finished_run (reported_run true begun_run)))
      ≡ interrupted_with a_session (combine_output "out" "") 3)
    × (is_interrupt_requested "s" (finished_run (reported_run true begun_run)) ≡ false)
    × (ending (get_session "s" (reported_run true (finished_run begun_run)))
        ≡ interrupted_with a_session (combine_output "out" "") 3)
    × (is_interrupt_requested "s" (reported_run true (finished_run begun_run)) ≡ false)
interrupt_any_order_example =
    interrupt_any_order pid_text decimal "s" 7 (exited true none) "out" "" 3 9 10 busy a_session
      busy_found busy_runs

abbrev two_lines : List (ℕ × (Stream × Line))
two_lines = (6, (stdout, line "done")) ∷ (7, (stderr, line "late")) ∷ []

idle : SessionManager
idle = create_session "s" a_task 4 new

idle_found : get_session "s" idle ≡ some a_session
unfolding idle create_session new insert lookup
idle_found = refl

idle_free : is_interrupt_requested "s" idle ≡ false
unfolding idle create_session new contains
idle_free = refl

-- Each stream is collected on its own.
collected_texts : (collected stdout two_lines ≡ "done\n") × (collected stderr two_lines ≡ "late\n")
unfolding collected
collected_texts = (refl, refl)

run_task_lem_example :
    (s' : Session) × (get_session "s"
        (run_task pid_text decimal "s" 7 two_lines (exited true none) 3 4 5 9 idle).0
      ≡ some s')
    × (s'.status ≡ completed)
    × (s'.final_result
        ≡ some (
            exit_result decimal
              (exited true none)
              (combine_output (collected stdout two_lines) (collected stderr two_lines))
              (collected stderr two_lines)
              3))
    × (s'.progress_logs
        ≡ [] ++ started_entry pid_text 7 5 ∷ map (λ l. line_entry l.0 l.1) two_lines)
run_task_lem_example =
    run_task_lem pid_text decimal "s" 7 two_lines (exited true none) 3 4 5 9 idle a_session
      idle_found idle_free

exit_codes :
    (exit_status (exited true none) ≡ completed) × (exit_status (exited false none) ≡ failed)
exit_codes = (refl, refl)
