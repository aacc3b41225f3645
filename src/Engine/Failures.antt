-- ===== src/Engine/Failures.antt =====
-- relay-engine/src/agents/claude_code.rs: what the caller of an interrupt is told, and what is recorded.
use cozmio.Prelude.{ℕ, String, ◌≡◌, ◌≢◌, Bool, false, none, some, arith}
use cozmio.Prelude.Int.{ℤ}
use cozmio.Session.{Session, SessionManager, get_session}
use cozmio.Connector.{Exit, begin_interrupt, finish, find_pid}
use cozmio.Connector.Output.{combine_output}
use cozmio.Connector.Endings.{ending}
use cozmio.Connector.Interrupts.{interrupted_with, failed_kill_interrupts}
use cozmio.Engine.{interrupt_process}

-- If the task of a session ends by itself, successfully or not, between the start of an interrupt and
-- the failure of its `kill` command, the caller of `interrupt` is given an error, and yet the session
-- has ended as `Interrupted` with an unsuccessful result, or with the result that it had before.
pub failed_kill_misreported :
    (show_pid : ℕ → String) (show : ℤ → String) (kill : ℕ → Bool) (id : String) (pid : ℕ)
    (exit : Exit) (out errs : String) (duration t1 t2 : ℕ) (m : SessionManager) (s : Session)
    → get_session id m ≡ some s
    → find_pid id m.processes ≡ some pid
    → kill pid ≡ false
    → let marked = (begin_interrupt id m).0 in
      let ended = (finish show id pid exit out errs duration t1 marked).0 in
      let told = interrupt_process show_pid kill id t2 (ended, some pid) in
      (told.0 ≢ none)
      × (ending (get_session id told.1.0) ≡ interrupted_with s (combine_output out errs) duration)
unfolding interrupt_process
failed_kill_misreported show_pid show kill id pid exit out errs duration t1 t2 m s found runs
      fails =
    rw fails (
      λ h. ground (arith, h),
      failed_kill_interrupts show_pid show id pid exit out errs duration t1 t2 m s found runs,
    )
