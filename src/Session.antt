-- ===== src/Session.antt =====
-- relay-engine/src/session.rs: the sessions that the engine keeps, their subscribers, the running
-- processes and the interrupt requests.
--
-- Every method is a function from the manager to the manager. One that calls subscribers also returns
-- what it hands them, in order. `Utc::now` and `Uuid::new_v4` are arguments: a time is a number of
-- nanoseconds since the epoch, an identifier is its text. A subscriber, a trait object whose one
-- implementation owns a connection, is known by its `subscriber_id`. Each method holds its locks as one
-- step here; Session/Race.antt takes `add_progress` and `subscribe` apart.
pub mod Status
pub mod Lookups
pub mod Runs
pub mod Streams
pub mod Subscription
pub mod Race
mod Tests
use cozmio.Prelude.{
  ℕ, String, Bool, true, false, not, ◌&&◌, Option, none, some, List, [], ◌∷◌, ◌++◌, map, nat_eq,
  if◌then◌else◌, filter, contains, ◌==◌, nat_key, string_key,
}
use cozmio.Prelude.Int.{ℤ, pos, negsuc}
use cozmio.Prelude.Maps.{Map, lookup, insert, remove, modify}

pub data SessionStatus : Type 0 where
  pending running waiting completed failed interrupted : SessionStatus

unfoldable pub is_terminal : SessionStatus → Bool
is_terminal completed = true
is_terminal failed = true
is_terminal interrupted = true
is_terminal _ = false

-- The discriminant, which `as i32` and the derived `PartialEq` read.
abbrev pub discriminant : SessionStatus → ℕ
discriminant pending = 0
discriminant running = 1
discriminant waiting = 2
discriminant completed = 3
discriminant failed = 4
discriminant interrupted = 5

abbrev pub status_eq : SessionStatus → SessionStatus → Bool
status_eq a b = nat_eq (discriminant a) (discriminant b)

status_of_code : ℕ → SessionStatus
status_of_code n =
    if nat_eq n 0
    then pending
    else if nat_eq n 1
    then running
    else if nat_eq n 2
    then waiting
    else if nat_eq n 3
    then completed
    else if nat_eq n 4
    then failed
    else if nat_eq n 5
    then interrupted
    else pending

unfoldable pub status_from_i32 : ℤ → SessionStatus
unfolding status_of_code
status_from_i32 (pos n) = status_of_code n
status_from_i32 (negsuc n) = pending

pub data LogLevel : Type 0 where
  info warn error : LogLevel

unfoldable pub level_to_i32 : LogLevel → ℤ
level_to_i32 info = pos 0
level_to_i32 warn = pos 1
level_to_i32 error = pos 2

unfoldable pub level_from_i32 : ℤ → LogLevel
level_from_i32 (pos n) =
    if nat_eq n 0 then info else if nat_eq n 1 then warn else if nat_eq n 2 then error else info
level_from_i32 (negsuc n) = info

pub record ProgressEntry : Type 0 where
  pub timestamp : ℕ
  pub message : String
  pub level : LogLevel

pub record ExecutionResult : Type 0 where
  pub summary : String
  pub raw_output : String
  pub duration_secs : ℕ
  pub success : Bool
  pub error_message : String

pub record ExecutionTask : Type 0 where
  pub original_suggestion : String
  pub dispatched_task : String
  pub agent_name : String

pub record Session : Type 0 where
  pub id : String
  pub task : ExecutionTask
  pub status : SessionStatus
  pub progress_logs : List ProgressEntry
  pub started_at : ℕ
  pub updated_at : ℕ
  pub final_result : Option ExecutionResult

pub record SessionManager : Type 0 where
  pub sessions : Map String Session
  pub processes : Map ℕ String
  pub interrupt_requested : List String
  pub subscribers : Map String (List String)

-- The two calls of the trait `SessionSubscriber`.
pub data Notice : Type 0 where
  on_progress : ProgressEntry → Notice
  on_terminal : SessionStatus → Notice

pub record Delivery : Type 0 where
  pub subscriber : String
  pub session_id : String
  pub notice : Notice

unfoldable pub new : SessionManager
new = record { sessions = []; processes = []; interrupt_requested = []; subscribers = [] }

unfoldable pub create_session : String → ExecutionTask → ℕ → SessionManager → SessionManager
create_session id task now m = record m { sessions = insert id session m.sessions }
  where
    session : Session
    session = record {
      id = id;
      task = task;
      status = pending;
      progress_logs = [];
      started_at = now;
      updated_at = now;
      final_result = none;
    }

abbrev pub get_session : String → SessionManager → Option Session
get_session id m = lookup id m.sessions

abbrev pub or_empty {ℓ} : {A : Type ℓ} → Option (List A) → List A
or_empty none = []
or_empty (some xs) = xs

-- `subs.get(session_id).cloned().unwrap_or_default()`
abbrev pub subscribers_of : String → SessionManager → List String
subscribers_of id m = or_empty (lookup id m.subscribers)

abbrev pub send_all : String → Notice → List String → List Delivery
send_all id notice = map λ s. record { subscriber = s; session_id = id; notice = notice }

abbrev pub notify_progress : String → ProgressEntry → SessionManager → List Delivery
notify_progress id entry m = send_all id (on_progress entry) (subscribers_of id m)

abbrev pub notify_terminal : String → SessionStatus → SessionManager → List Delivery
notify_terminal id status m = send_all id (on_terminal status) (subscribers_of id m)

abbrev pub with_status : SessionStatus → ℕ → Session → Session
with_status status now s = record s { status = status; updated_at = now }

abbrev pub should_notify_terminal : Option Session → SessionStatus → Bool
should_notify_terminal none status = false
should_notify_terminal (some s) status = not (status_eq s.status status) && is_terminal status

unfoldable pub update_status :
    String → SessionStatus → ℕ → SessionManager → SessionManager × List Delivery
update_status id status now m = (
  record m { sessions = modify id (with_status status now) m.sessions },
  if should_notify_terminal (get_session id m) status then notify_terminal id status m else [],
)

abbrev pub with_progress : ProgressEntry → ℕ → Session → Session
with_progress entry now s = record s {
  progress_logs = s.progress_logs ++ entry ∷ [];
  updated_at = now;
}

unfoldable pub add_progress :
    String → ProgressEntry → ℕ → SessionManager → SessionManager × List Delivery
add_progress id entry now m = (
  record m { sessions = modify id (with_progress entry now) m.sessions },
  notify_progress id entry m,
)

abbrev pub with_result : ExecutionResult → ℕ → Session → Session
with_result result now s = record s { final_result = some result; updated_at = now }

unfoldable pub set_result : String → ExecutionResult → ℕ → SessionManager → SessionManager
set_result id result now m = record m { sessions = modify id (with_result result now) m.sessions }

abbrev pub status_of : Option Session → Option SessionStatus
status_of none = none
status_of (some s) = some s.status

abbrev pub get_status : String → SessionManager → Option SessionStatus
get_status id m = status_of (get_session id m)

abbrev pub logs_of : Option Session → Option (List ProgressEntry)
logs_of none = none
logs_of (some s) = some s.progress_logs

abbrev pub get_progress : String → SessionManager → Option (List ProgressEntry)
get_progress id m = logs_of (get_session id m)

abbrev pub result_of : Option Session → Option ExecutionResult
result_of none = none
result_of (some s) = s.final_result

abbrev pub get_result : String → SessionManager → Option ExecutionResult
get_result id m = result_of (get_session id m)

unfoldable pub register_process : ℕ → String → SessionManager → SessionManager
register_process pid id m = record m { processes = insert pid id m.processes }

unfoldable pub unregister_process : ℕ → SessionManager → SessionManager
unregister_process pid m = record m { processes = remove pid m.processes }

abbrev pub get_session_by_pid : ℕ → SessionManager → Option String
get_session_by_pid pid m = lookup pid m.processes

abbrev pub is_interrupt_requested : String → SessionManager → Bool
is_interrupt_requested id m = contains id m.interrupt_requested

unfoldable pub mark_interrupt_requested : String → SessionManager → SessionManager
mark_interrupt_requested id m = record m {
  interrupt_requested =
      if contains id m.interrupt_requested
      then m.interrupt_requested
      else id ∷ m.interrupt_requested;
}

unfoldable pub clear_interrupt_requested : String → SessionManager → SessionManager
clear_interrupt_requested id m = record m {
  interrupt_requested = filter (λ x. not (x == id)) m.interrupt_requested;
}

-- What a new subscriber is told: the buffered entries, and the terminal status if there is one.
abbrev pub buffered : Session → List Notice
buffered s =
    map on_progress s.progress_logs
    ++ (if is_terminal s.status then on_terminal s.status ∷ [] else [])

abbrev pub send_each : String → String → List Notice → List Delivery
send_each sub id = map λ n. record { subscriber = sub; session_id = id; notice = n }

unfoldable pub subscribe : String → String → SessionManager → SessionManager × List Delivery
subscribe id sub m = elim (get_session id m) [
  | none ↦ (m, [])
  | some s ↦ (
    record m { subscribers = insert id (subscribers_of id m ++ sub ∷ []) m.subscribers },
    send_each sub id (buffered s),
  )
]

unfoldable pub unsubscribe : String → String → SessionManager → SessionManager
unsubscribe id sub m = record m {
  subscribers = modify id (filter (λ s. not (s == sub))) m.subscribers;
}
