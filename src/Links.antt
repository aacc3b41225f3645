-- ===== src/Links.antt =====
-- relay-engine/src/worker_session.rs: the connections of the workers.
--
-- A stream is known by a number, and so is a monitor task. The bytes that a connection holds when it is
-- accepted are an argument, and so is whether the writes of the response succeed. The protobuf library
-- (prost) is the parameter `Codec`. `send_request` and `read_heartbeat` of this file are called by
-- nothing, and are left out. Locks that are poisoned by a panic are left out too.
pub mod Codecs
pub mod Registering
pub mod Heartbeats
mod Tests
use cozmio.Prelude.{
  ℕ, ◌+◌, String, Bool, true, false, Option, none, some, List, [], ◌∷◌, ltb, nat_eq, if◌then◌else◌,
  string_key,
}
use cozmio.Prelude.Results.{Result, ok, err, ◌>>=◌}
use cozmio.Prelude.Maps.{Map, lookup, insert, remove}
use cozmio.Frames.{FrameError, read_frame, send_prefixed}
use cozmio.Workers.{WorkerInfo, WorkerRegistry, get_online_workers, is_some}
use cozmio.Workers
use Codecs.{Codec, WorkerRegisterRequest, WorkerRegisterResponse}

-- proto/mod.rs
abbrev pub worker_register : ℕ
worker_register = 100

abbrev pub worker_heartbeat : ℕ
worker_heartbeat = 101

pub record Hub : Type 0 where
  pub registry : WorkerRegistry
  pub worker_streams : Map String ℕ
  pub heartbeat_tasks : Map String ℕ

pub data SessionError : Type 0 where
  -- the frame could not be read
  frame : FrameError → SessionError
  -- "Expected WORKER_REGISTER (100), got {}"
  expected_register : ℕ → SessionError
  -- "Failed to decode WorkerRegisterRequest"
  bad_register : SessionError
  -- the response could not be written
  io : SessionError

-- The worker is registered and its stream stored.
abbrev pub enlist : WorkerRegisterRequest → ℕ → ℕ → Hub → Hub × ℕ
enlist req stream now h =
    let (registry, registration_id) =
      Workers.register req.worker_id req.worker_type req.endpoint req.heartbeat_interval_secs now
        h.registry in
    (
      record h {
        registry = registry;
        worker_streams = insert req.worker_id stream h.worker_streams;
      },
      registration_id,
    )

abbrev pub registered : ℕ → WorkerRegisterResponse
registered registration_id = record {
  success = true;
  error = "";
  registration_id = registration_id;
}

module _ (codec : Codec) where
  -- The response: the worker's id, and the bytes that it is sent.
  abbrev pub respond :
      Bool → WorkerRegisterRequest → Hub × ℕ → Hub × Result SessionError (String × List ℕ)
  respond writes req (h, registration_id) = (
    h,
    if writes
        then ok
            (req.worker_id, send_prefixed (codec.encode_registered (registered registration_id)))
        else err io,
  )

  abbrev pub on_register :
      Bool
      → ℕ
      → ℕ
      → Option WorkerRegisterRequest
      → Hub
      → Hub × Result SessionError (String × List ℕ)
  on_register writes stream now none h = (h, err bad_register)
  on_register writes stream now (some req) h = respond writes req (enlist req stream now h)

  abbrev pub on_frame :
      Bool
      → ℕ
      → ℕ
      → Result FrameError ((ℕ × List ℕ) × List ℕ)
      → Hub
      → Hub × Result SessionError (String × List ℕ)
  on_frame writes stream now (err e) h = (h, err (frame e))
  on_frame writes stream now (ok ((request_type, payload), rest)) h =
      if nat_eq request_type worker_register
      then on_register writes stream now (codec.decode_register payload) h
      else (h, err (expected_register request_type))

  unfoldable pub handle_new_worker :
      List ℕ → Bool → ℕ → ℕ → Hub → Hub × Result SessionError (String × List ℕ)
  handle_new_worker bytes writes stream now h = on_frame writes stream now (read_frame bytes) h

-- `none` is the panic of `tokio::spawn` on a thread that is in no runtime, which `runtime` tells.
unfoldable pub start_heartbeat_monitor : Bool → String → ℕ → Hub → Option Hub
start_heartbeat_monitor runtime worker_id task h =
    if runtime
    then some (record h { heartbeat_tasks = insert worker_id task h.heartbeat_tasks })
    else none

-- One tick of the monitor's loop; `false` when the loop ends.
unfoldable pub monitor_tick : String → ℕ → Hub → Hub × Bool
monitor_tick worker_id now h =
    let (registry, found) = Workers.update_heartbeat_timestamp worker_id now h.registry in
    if found then (record h { registry = registry }, true) else (
      record h { registry = registry; heartbeat_tasks = remove worker_id h.heartbeat_tasks },
      false,
    )

unfoldable pub stop_heartbeat_monitor : String → Hub → Hub
stop_heartbeat_monitor worker_id h = record h {
  heartbeat_tasks = remove worker_id h.heartbeat_tasks;
}

unfoldable pub handle_disconnect : String → Hub → Hub
unfolding stop_heartbeat_monitor
handle_disconnect worker_id h =
    let h' = stop_heartbeat_monitor worker_id h in
    record h' {
      registry = (Workers.unregister worker_id h'.registry).0;
      worker_streams = remove worker_id h'.worker_streams;
    }

abbrev pub get_stream_arc : String → Hub → Option ℕ
get_stream_arc worker_id h = lookup worker_id h.worker_streams

-- 90 seconds, in nanoseconds.
abbrev pub timeout : ℕ
timeout = 90000000000

abbrev pub missed_heartbeats : ℕ → WorkerInfo → Bool
missed_heartbeats now w = ltb (w.last_heartbeat + timeout) now

-- The loop of `check_workers_connected`.
unfoldable pub disconnect_stale : ℕ → List WorkerInfo → Hub → Hub
disconnect_stale now [] h = h
disconnect_stale now (w ∷ ws) h =
    disconnect_stale now ws (if missed_heartbeats now w then handle_disconnect w.worker_id h else h)

unfoldable pub check_workers_connected : ℕ → Hub → Hub
check_workers_connected now h = disconnect_stale now (get_online_workers h.registry) h

unfoldable pub revert_worker_state : String → Hub → Hub × Bool
revert_worker_state worker_id h =
    let (registry, found) = Workers.mark_idle worker_id h.registry in
    (record h { registry = registry }, found)
