-- ===== src/Workers/Registration.antt =====
-- relay-engine/src/worker_registry.rs: registration ids.
use cozmio.Prelude.{
  ℕ, ◌+◌, ◌<◌, ◌≤◌, ◌≡◌, refl, some, [], ◌∷◌, String, arith, nat_eq, find, if◌then◌else◌, ◌==◌,
  string_key,
}
use cozmio.Prelude.Int.{ℤ}
use cozmio.Prelude.Maps.{Map, insert, remove, modify, lookup-insert}
use cozmio.Workers
use cozmio.Workers.{
  WorkerInfo, WorkerRegistry, WorkerHeartbeat, values, get, get_by_registration_id,
}

abbrev Below : ℕ → Map String WorkerInfo → Type 0
Below n [] = Unit
Below n ((k, w) ∷ m) = (w.registration_id < n) × Below n m

-- Every id in use is below the next one.
pub record IsFresh (r : WorkerRegistry) : Type 0 where
  pub below : Below r.next_registration_id r.workers

Below-mono : {n p : ℕ} (m : Map String WorkerInfo) → n ≤ p → Below n m → Below p m
Below-mono [] h b = tt
Below-mono ((k, w) ∷ m) h b = (omega arith, Below-mono m h b.1)

Below-insert :
    (n : ℕ) (k : String) (w : WorkerInfo) (m : Map String WorkerInfo)
    → w.registration_id < n
    → Below n m
    → Below n (insert k w m)
unfolding insert
Below-insert n k w [] h b = (h, tt)
Below-insert n k w ((j, v) ∷ m) h b = ground (arith, Below-insert n k w m)

Below-remove : (n : ℕ) (k : String) (m : Map String WorkerInfo) → Below n m → Below n (remove k m)
unfolding remove
Below-remove n k [] b = tt
Below-remove n k ((j, v) ∷ m) b = ground (arith, Below-remove n k m)

Below-modify :
    (n : ℕ) (k : String) (f : WorkerInfo → WorkerInfo) (m : Map String WorkerInfo)
    → ((w : WorkerInfo) → (f w).registration_id ≡ w.registration_id)
    → Below n m
    → Below n (modify k f m)
unfolding modify
Below-modify n k f [] same b = tt
Below-modify n k f ((j, v) ∷ m) same b = ground (arith, same v, Below-modify n k f m same)

find-insert :
    (n : ℕ) (k : String) (w : WorkerInfo) (m : Map String WorkerInfo)
    → w.registration_id ≡ n
    → Below n m
    → find (λ v. nat_eq v.registration_id n) (values (insert k w m)) ≡ some w
unfolding insert
find-insert n k w [] e b = ground arith
find-insert n k w ((j, v) ∷ m) e b = ground (arith, find-insert n k w m e)

-- The operations that change the registry.
pub data Change : Type 0 where
  register : String → String → String → ℤ → Change
  unregister : String → Change
  update_heartbeat : String → WorkerHeartbeat → Change
  update_heartbeat_timestamp mark_busy mark_idle : String → Change

unfoldable pub change : WorkerRegistry → ℕ × Change → WorkerRegistry
change r (now, register id kind endpoint interval) =
    (Workers.register id kind endpoint interval now r).0
change r (now, unregister id) = (Workers.unregister id r).0
change r (now, update_heartbeat id h) = (Workers.update_heartbeat id h now r).0
change r (now, update_heartbeat_timestamp id) = (Workers.update_heartbeat_timestamp id now r).0
change r (now, mark_busy id) = (Workers.mark_busy id r).0
change r (now, mark_idle id) = (Workers.mark_idle id r).0

-- Every operation keeps the ids in use below the next one, as long as the counter does not wrap.
pub change-IsFresh :
    (r : WorkerRegistry) (now : ℕ) (c : Change)
    → r.next_registration_id + 1 < 18446744073709551616
    → IsFresh r
    → IsFresh (change r (now, c))
unfolding change Workers.register Workers.unregister Workers.update_heartbeat
    Workers.update_heartbeat_timestamp Workers.mark_busy Workers.mark_idle
change-IsFresh r now (register id kind endpoint interval) small h = record {
  below =
      Below-insert _ id (Workers.new_info id kind endpoint interval r.next_registration_id now)
        r.workers (omega arith) (Below-mono r.workers (omega arith) h.below);
}
change-IsFresh r now (unregister id) small h = record {
  below = Below-remove _ id r.workers h.below;
}
change-IsFresh r now (update_heartbeat id hb) small h = record {
  below = Below-modify _ id _ r.workers (λ w. refl) h.below;
}
change-IsFresh r now (update_heartbeat_timestamp id) small h = record {
  below = Below-modify _ id _ r.workers (λ w. refl) h.below;
}
change-IsFresh r now (mark_busy id) small h = record {
  below = Below-modify _ id _ r.workers (λ w. refl) h.below;
}
change-IsFresh r now (mark_idle id) small h = record {
  below = Below-modify _ id _ r.workers (λ w. refl) h.below;
}

-- A worker that registers is found under its worker id and under the registration id that it is
-- given, as the online worker that it described, and every other worker stays as it was.
pub register_found :
    (r : WorkerRegistry) (id kind endpoint other : String) (interval : ℤ) (now : ℕ)
    → IsFresh r
    → let (r', rid) = Workers.register id kind endpoint interval now r in
      (get_by_registration_id rid r' ≡ some (Workers.new_info id kind endpoint interval rid now))
      × (get other r' ≡ (
          if id == other
          then some (Workers.new_info id kind endpoint interval rid now)
          else get other r))
unfolding Workers.register get_by_registration_id
register_found r id kind endpoint other interval now h = (
  find-insert r.next_registration_id id _ r.workers refl h.below,
  lookup-insert id other _ r.workers,
)
