-- ===== src/Session/Lookups.antt =====
-- relay-engine/src/session.rs: what each method leaves in the tables that it writes.
use mathlib.Core.Option
use cozmio.Prelude.{
  ℕ, String, ◌≡◌, true, false, List, [], ◌∷◌, arith, ◌==◌, ==_iff, string_key, if◌then◌else◌, not,
  filter, contains,
}
use cozmio.Prelude.Maps.{lookup-modify}
use cozmio.Session.{
  SessionManager, SessionStatus, ProgressEntry, ExecutionResult, get_session, update_status,
  add_progress, set_result, with_status, with_progress, with_result, mark_interrupt_requested,
  clear_interrupt_requested, is_interrupt_requested,
}

contains-filter_ne :
    (x y : String) (ys : List String)
    → contains y (filter (λ z. not (z == x)) ys) ≡ (if x == y then false else contains y ys)
unfolding contains
contains-filter_ne x y [] = ground arith
contains-filter_ne x y (z ∷ ys) =
    ground (arith, ==_iff x y, ==_iff z x, ==_iff z y, contains-filter_ne x y ys)

-- A request that was marked is seen until it is cleared, and those of other sessions are not touched
-- by either.
pub interrupt_flags :
    (x y : String) (m : SessionManager)
    → (is_interrupt_requested y (mark_interrupt_requested x m)
        ≡ (if x == y then true else is_interrupt_requested y m))
      × (is_interrupt_requested y (clear_interrupt_requested x m)
          ≡ (if x == y then false else is_interrupt_requested y m))
unfolding mark_interrupt_requested clear_interrupt_requested
interrupt_flags x y m = (marked, contains-filter_ne x y m.interrupt_requested)
  where
    marked :
        contains y (
          if contains x m.interrupt_requested
          then m.interrupt_requested
          else x ∷ m.interrupt_requested)
        ≡ (if x == y then true else contains y m.interrupt_requested)
    marked = unfold contains in ground (arith, ==_iff x y)

pub get_session-update_status :
    (id j : String) (status : SessionStatus) (now : ℕ) (m : SessionManager)
    → get_session j (update_status id status now m).0
      ≡ (if id == j then Option.map (with_status status now) (get_session j m) else get_session j m)
unfolding update_status
get_session-update_status id j status now m = lookup-modify id j (with_status status now) m.sessions

pub get_session-add_progress :
    (id j : String) (e : ProgressEntry) (now : ℕ) (m : SessionManager)
    → get_session j (add_progress id e now m).0
      ≡ (if id == j then Option.map (with_progress e now) (get_session j m) else get_session j m)
unfolding add_progress
get_session-add_progress id j e now m = lookup-modify id j (with_progress e now) m.sessions

pub get_session-set_result :
    (id j : String) (result : ExecutionResult) (now : ℕ) (m : SessionManager)
    → get_session j (set_result id result now m)
      ≡ (if id == j then Option.map (with_result result now) (get_session j m) else get_session j m)
unfolding set_result
get_session-set_result id j result now m = lookup-modify id j (with_result result now) m.sessions
