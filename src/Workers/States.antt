-- ===== src/Workers/States.antt =====
-- relay-engine/src/worker_registry.rs: the states of the workers and their heartbeats.
use cozmio.Prelude.{
  ℕ, ◌≤◌, ◌≡◌, none, List, [], ◌∷◌, String, arith, ◌==◌, string_key, if◌then◌else◌, filter, length,
}
use mathlib.Core.Option
use cozmio.Prelude.Maps.{lookup-modify, lookup-remove}
use cozmio.Workers.{
  WorkerInfo, WorkerRegistry, busy, idle, get, with_state, with_heartbeat, mark_busy, mark_idle,
  update_heartbeat_timestamp, unregister, is_online, is_idle, values, idle_count, online_count,
}

pub get-mark_busy :
    (id other : String) (r : WorkerRegistry)
    → get other (mark_busy id r).0
      ≡ (if id == other then Option.map (with_state busy) (get other r) else get other r)
unfolding mark_busy
get-mark_busy id other r = lookup-modify id other (with_state busy) r.workers

pub get-mark_idle :
    (id other : String) (r : WorkerRegistry)
    → get other (mark_idle id r).0
      ≡ (if id == other then Option.map (with_state idle) (get other r) else get other r)
unfolding mark_idle
get-mark_idle id other r = lookup-modify id other (with_state idle) r.workers

pub get-update_heartbeat_timestamp :
    (id other : String) (now : ℕ) (r : WorkerRegistry)
    → get other (update_heartbeat_timestamp id now r).0
      ≡ (if id == other then Option.map (with_heartbeat now) (get other r) else get other r)
unfolding update_heartbeat_timestamp
get-update_heartbeat_timestamp id other now r =
    lookup-modify id other (with_heartbeat now) r.workers

pub get-unregister :
    (id other : String) (r : WorkerRegistry)
    → get other (unregister id r).0 ≡ (if id == other then none else get other r)
unfolding unregister
get-unregister id other r = lookup-remove id other r.workers

idle-le-online : (ws : List WorkerInfo) → length (filter is_idle ws) ≤ length (filter is_online ws)
idle-le-online [] = omega arith
idle-le-online (w ∷ ws) = ground (arith, idle-le-online ws)

pub idle_count-le-online_count : (r : WorkerRegistry) → idle_count r ≤ online_count r
idle_count-le-online_count r = idle-le-online (values r.workers)
