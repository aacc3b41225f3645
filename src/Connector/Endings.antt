-- ===== src/Connector/Endings.antt =====
-- relay-engine/src/agents/claude_code.rs: how a task ends.

use cozmio.Prelude.{
  ℕ, String, ◌≡◌, ap, refl, inl, inr, true, false, ◌||◌, Option, none, some, arith, ==_refl,
  string_key, Bool-cases, Option-cases,
}
use cozmio.Prelude.Int.{ℤ}
use cozmio.Session.{
  Session, SessionManager, SessionStatus, interrupted, completed, failed, running, pending, waiting,
  ExecutionResult, get_session, is_interrupt_requested, clear_interrupt_requested,
  unregister_process, update_status, set_result, with_status, with_result,
}
use cozmio.Session.Lookups.{
  get_session-update_status, get_session-set_result, get_session-add_progress, interrupt_flags,
}
use cozmio.Connector.{
  Exit, exit_result, exit_status, interrupt_result, finish, finish_exited, finish_interrupted,
  ensure_interrupted, ensure_result, is_interrupted, spawn_failed,
}
use cozmio.Connector.Output.{combine_output}

-- What is recorded of a session, once its task has ended.
abbrev pub ending : Option Session → Option (SessionStatus × Option ExecutionResult)
ending none = none
ending (some s) = some (s.status, s.final_result)

abbrev pub or_default {ℓ} : {A : Type ℓ} → Option A → A → A
or_default none x = x
or_default (some y) x = y

exited_session :
    (show : ℤ → String) (id : String) (exit : Exit) (raw errs : String) (duration now : ℕ)
    (m : SessionManager) (s : Session)
    → get_session id m ≡ some s
    → get_session id (finish_exited show id exit raw errs duration now m).0
      ≡ some (
          with_status
            (exit_status exit)
            now
            (with_result (exit_result show exit raw errs duration) now s))
unfolding finish_exited
exited_session show id exit raw errs duration now m s found =
    rw (get_session-update_status, ==_refl id, get_session-set_result, ==_refl id, found)

ensured_result :
    (id raw : String) (duration now : ℕ) (m : SessionManager) (s : Session)
    → get_session id m ≡ some s
    → (ending (get_session id (ensure_result id raw duration now m).0)
        ≡ some (s.status, some (or_default s.final_result (interrupt_result raw duration))))
      × (is_interrupt_requested id (ensure_result id raw duration now m).0
          ≡ is_interrupt_requested id m)
unfolding ensure_result
ensured_result id raw duration now m s found = elim (Option-cases s.final_result) [
  | inl e ↦ rw (found, e) (unset, unfold set_result in refl)
  | inr (r, e) ↦ rw (found, e) (rw (found, e), refl)
]
  where
    unset :
        ending (get_session id (set_result id (interrupt_result raw duration) now m))
        ≡ some (s.status, some (interrupt_result raw duration))
    unset = rw (get_session-set_result, ==_refl id, found)

ensured_status :
    (id : String) (now : ℕ) (m : SessionManager) (s : Session)
    → get_session id m ≡ some s
    → (s' : Session) × (get_session id (ensure_interrupted id now m).0 ≡ some s')
      × (s'.status ≡ interrupted)
      × (s'.final_result ≡ s.final_result)
      × (is_interrupt_requested id (ensure_interrupted id now m).0 ≡ is_interrupt_requested id m)
unfolding ensure_interrupted
ensured_status id now m s found = elim (Bool-cases (is_interrupted (some s.status))) [
  | inl k ↦ rw (found, k) (s, found, is_interrupted-eq s.status k, refl, refl)
  | inr k ↦
      rw (found, k)
        (with_status interrupted now s, updated, refl, refl, unfold update_status in refl)
]
  where
    is_interrupted-eq :
        (status : SessionStatus) → is_interrupted (some status) ≡ true → status ≡ interrupted
    is_interrupted-eq interrupted k = refl
    is_interrupted-eq pending k = ground arith
    is_interrupted-eq running k = ground arith
    is_interrupted-eq waiting k = ground arith
    is_interrupted-eq completed k = ground arith
    is_interrupted-eq failed k = ground arith

    updated :
        get_session id (update_status id interrupted now m).0 ≡ some (with_status interrupted now s)
    updated = rw (get_session-update_status, ==_refl id, found)

interrupted_ending :
    (id raw : String) (duration now : ℕ) (m : SessionManager) (s : Session)
    → get_session id m ≡ some s
    → (ending (get_session id (finish_interrupted id raw duration now m).0)
        ≡ some (interrupted, some (or_default s.final_result (interrupt_result raw duration))))
      × (is_interrupt_requested id (finish_interrupted id raw duration now m).0 ≡ false)
unfolding finish_interrupted
interrupted_ending id raw duration now m s found =
    let cleared = clear_interrupt_requested id m in
    let (s', found', status, result, flag) =
      ensured_status id now cleared s (unfold clear_interrupt_requested in found) in
    let (end, flag') =
      ensured_result id raw duration now (ensure_interrupted id now cleared).0 s' found' in
    (rw (end, status, result), rw (flag', flag, (interrupt_flags id id m).1, ==_refl id))

module _ (show : ℤ → String) (id : String) (pid : ℕ) (exit : Exit) (out errs : String)
    (duration now : ℕ) (m : SessionManager) (s : Session) (found : get_session id m ≡ some s) where
  pub finish_session :
      is_interrupt_requested id m ≡ false
      → is_interrupted (some s.status) ≡ false
      → get_session id (finish show id pid exit out errs duration now m).0
        ≡ some (
            with_status
              (exit_status exit)
              now
              (with_result (exit_result show exit (combine_output out errs) errs duration) now s))
  unfolding finish unregister_process
  finish_session h k = rw (
    h,
    found,
    k,
    exited_session show id exit (combine_output out errs) errs duration now
        (unregister_process pid m) s found,
  )

  -- A task that nobody interrupted ends with the status and the result of its exit, whatever the
  -- session held before.
  pub finish_by_exit :
      is_interrupt_requested id m ≡ false
      → is_interrupted (some s.status) ≡ false
      → ending (get_session id (finish show id pid exit out errs duration now m).0)
        ≡ some
            (exit_status exit, some (exit_result show exit (combine_output out errs) errs duration))
  finish_by_exit h k = ap ending (finish_session h k)

  -- A task that was interrupted, by its flag or by its status, ends with the flag cleared, the status
  -- `Interrupted`, and the result that the session already had, or else that of an interrupt, even if
  -- the child exited by itself.
  pub finish_by_interrupt :
      (is_interrupt_requested id m || is_interrupted (some s.status)) ≡ true
      → (ending (get_session id (finish show id pid exit out errs duration now m).0)
          ≡ some (
            interrupted,
            some (or_default s.final_result (interrupt_result (combine_output out errs) duration)),
          ))
        × (is_interrupt_requested id (finish show id pid exit out errs duration now m).0 ≡ false)
  unfolding finish unregister_process
  finish_by_interrupt h =
      rw (found, h)
        (interrupted_ending id (combine_output out errs) duration now (unregister_process pid m) s
          found)

-- A task whose child could not be started has failed, with the reason as its error.
pub spawn_failed_lem :
    (id reason : String) (duration now : ℕ) (m : SessionManager) (s : Session)
    → get_session id m ≡ some s
    → ending (get_session id (spawn_failed id reason duration now m).0)
      ≡ some (
        failed,
        some (record {
          summary = "Failed to spawn process";
          raw_output = "";
          duration_secs = duration;
          success = false;
          error_message = reason;
        }),
      )
unfolding spawn_failed
spawn_failed_lem id reason duration now m s found = rw (
  get_session-update_status,
  ==_refl id,
  get_session-add_progress,
  ==_refl id,
  get_session-set_result,
  ==_refl id,
  found,
)
