-- ===== src/Workers.antt =====
-- relay-engine/src/worker_registry.rs: the registry of the box workers.
--
-- A registration id is the 64-bit pattern of the source's `i64`, with its wrap-around written out; a
-- heartbeat interval is the integer that the worker sent. Times are nanoseconds since the epoch, given
-- as arguments. `values()` of the table is read in the order of the association list.
pub mod Registration
pub mod States
pub mod Keyed
mod Tests
use cozmio.Prelude.{
  ℕ, ◌+◌, ◌%◌, ◌^◌, String, Bool, true, false, not, Option, none, some, List, [], ◌∷◌, map, nat_eq,
  if◌then◌else◌, filter, find, length, ◌==◌, nat_key, string_key,
}
use cozmio.Prelude.Int.{ℤ}
use cozmio.Prelude.Maps.{Map, lookup, insert, remove, modify}

pub data WorkerState : Type 0 where
  online idle busy offline : WorkerState

-- `From<&str>`
unfoldable pub state_from_str : String → WorkerState
state_from_str s =
    if s == "online"
    then online
    else if s == "idle"
    then idle
    else if s == "busy"
    then busy
    else offline

pub record ModelStatus : Type 0 where
  pub model_name : String
  pub loaded : Bool
  pub memory_used_mb : ℤ

pub record WorkerHeartbeat : Type 0 where
  pub worker_id : String
  pub status : String
  pub model_status : Option ModelStatus

pub record WorkerInfo : Type 0 where
  pub worker_id : String
  pub worker_type : String
  pub endpoint : String
  pub registration_id : ℕ
  pub heartbeat_interval_secs : ℤ
  pub state : WorkerState
  pub model_status : Option ModelStatus
  pub last_heartbeat : ℕ

pub record WorkerRegistry : Type 0 where
  pub workers : Map String WorkerInfo
  pub next_registration_id : ℕ

abbrev pub is_online_state : WorkerState → Bool
is_online_state offline = false
is_online_state _ = true

abbrev pub is_idle_state : WorkerState → Bool
is_idle_state idle = true
is_idle_state _ = false

abbrev pub is_busy_state : WorkerState → Bool
is_busy_state busy = true
is_busy_state _ = false

abbrev pub is_online : WorkerInfo → Bool
is_online w = is_online_state w.state

abbrev pub is_idle : WorkerInfo → Bool
is_idle w = is_idle_state w.state

abbrev pub is_busy : WorkerInfo → Bool
is_busy w = is_busy_state w.state

unfoldable pub new : WorkerRegistry
new = record { workers = []; next_registration_id = 1 }

-- `WorkerInfo::new`
abbrev pub new_info : String → String → String → ℤ → ℕ → ℕ → WorkerInfo
new_info worker_id worker_type endpoint interval registration_id now = record {
  worker_id = worker_id;
  worker_type = worker_type;
  endpoint = endpoint;
  registration_id = registration_id;
  heartbeat_interval_secs = interval;
  state = online;
  model_status = none;
  last_heartbeat = now;
}

unfoldable pub register : String → String → String → ℤ → ℕ → WorkerRegistry → WorkerRegistry × ℕ
register worker_id worker_type endpoint interval now r = (
  record {
    workers =
        insert worker_id
          (new_info worker_id worker_type endpoint interval r.next_registration_id now) r.workers;
    next_registration_id = (r.next_registration_id + 1) % 18446744073709551616;
  },
  r.next_registration_id,
)

unfoldable pub unregister : String → WorkerRegistry → WorkerRegistry × Option WorkerInfo
unregister worker_id r =
    (record r { workers = remove worker_id r.workers }, lookup worker_id r.workers)

abbrev pub is_some {ℓ} : {A : Type ℓ} → Option A → Bool
is_some none = false
is_some (some a) = true

-- `get_mut` and a write; the result says whether the worker was there.
abbrev pub with_worker : String → (WorkerInfo → WorkerInfo) → WorkerRegistry → WorkerRegistry × Bool
with_worker worker_id f r =
    (record r { workers = modify worker_id f r.workers }, is_some (lookup worker_id r.workers))

abbrev pub heard_from : WorkerHeartbeat → ℕ → WorkerInfo → WorkerInfo
heard_from h now w = record w {
  state = state_from_str h.status;
  model_status = h.model_status;
  last_heartbeat = now;
}

unfoldable pub update_heartbeat :
    String → WorkerHeartbeat → ℕ → WorkerRegistry → WorkerRegistry × Bool
update_heartbeat worker_id h now = with_worker worker_id (heard_from h now)

abbrev pub with_heartbeat : ℕ → WorkerInfo → WorkerInfo
with_heartbeat now w = record w { last_heartbeat = now }

unfoldable pub update_heartbeat_timestamp : String → ℕ → WorkerRegistry → WorkerRegistry × Bool
update_heartbeat_timestamp worker_id now = with_worker worker_id (with_heartbeat now)

abbrev pub get : String → WorkerRegistry → Option WorkerInfo
get worker_id r = lookup worker_id r.workers

abbrev pub values {ℓ κ} : {K : Type ℓ} {V : Type κ} → Map K V → List V
values [] = []
values ((k, v) ∷ m) = v ∷ values m

abbrev pub get_online_workers : WorkerRegistry → List WorkerInfo
get_online_workers r = filter is_online (values r.workers)

abbrev pub get_idle_workers : WorkerRegistry → List WorkerInfo
get_idle_workers r = filter is_idle (values r.workers)

unfoldable pub get_by_registration_id : ℕ → WorkerRegistry → Option WorkerInfo
get_by_registration_id registration_id r =
    find (λ w. nat_eq w.registration_id registration_id) (values r.workers)

abbrev pub with_state : WorkerState → WorkerInfo → WorkerInfo
with_state s w = record w { state = s }

unfoldable pub mark_busy : String → WorkerRegistry → WorkerRegistry × Bool
mark_busy worker_id = with_worker worker_id (with_state busy)

unfoldable pub mark_idle : String → WorkerRegistry → WorkerRegistry × Bool
mark_idle worker_id = with_worker worker_id (with_state idle)

abbrev pub online_count : WorkerRegistry → ℕ
online_count r = length (get_online_workers r)

abbrev pub idle_count : WorkerRegistry → ℕ
idle_count r = length (get_idle_workers r)
