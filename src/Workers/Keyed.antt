-- ===== src/Workers/Keyed.antt =====
-- relay-engine/src/worker_registry.rs: a table of workers lists each under its own id, once.
use cozmio.Prelude.{ℕ, ◌≡◌, refl, none, [], ◌∷◌, String, arith, ==_iff, string_key}
use cozmio.Prelude.Maps.{
  Map, lookup, insert, remove, modify, lookup-insert, lookup-remove, lookup-modify,
}
use cozmio.Workers.{WorkerInfo, WorkerRegistry}
use cozmio.Workers.Registration.{
  Change, register, unregister, update_heartbeat, update_heartbeat_timestamp, mark_busy, mark_idle,
  change,
}
use cozmio.Workers

abbrev pub IsKeyed : Map String WorkerInfo → Type 0
IsKeyed [] = Unit
IsKeyed ((k, w) ∷ m) = (w.worker_id ≡ k) × (lookup k m ≡ none) × IsKeyed m

insert-IsKeyed :
    (k : String) (w : WorkerInfo) (m : Map String WorkerInfo)
    → w.worker_id ≡ k
    → IsKeyed m
    → IsKeyed (insert k w m)
unfolding insert lookup
insert-IsKeyed k w [] e h = (e, refl, tt)
insert-IsKeyed k w ((j, v) ∷ m) e h =
    ground (arith, insert-IsKeyed k w m e, ==_iff j k, ==_iff k j, lookup-insert k j w m)

remove-IsKeyed : (k : String) (m : Map String WorkerInfo) → IsKeyed m → IsKeyed (remove k m)
unfolding remove
remove-IsKeyed k [] h = tt
remove-IsKeyed k ((j, v) ∷ m) h = ground (arith, remove-IsKeyed k m, lookup-remove k j m)

modify-IsKeyed :
    (k : String) (f : WorkerInfo → WorkerInfo) (m : Map String WorkerInfo)
    → ((w : WorkerInfo) → (f w).worker_id ≡ w.worker_id)
    → IsKeyed m
    → IsKeyed (modify k f m)
unfolding modify
modify-IsKeyed k f [] same h = tt
modify-IsKeyed k f ((j, v) ∷ m) same h =
    ground (arith, same v, ==_iff k j, modify-IsKeyed k f m same, lookup-modify k j f m)

-- Every operation of the registry keeps it so.
pub change-IsKeyed :
    (r : WorkerRegistry) (now : ℕ) (c : Change)
    → IsKeyed r.workers
    → IsKeyed (change r (now, c)).workers
unfolding change Workers.register Workers.unregister Workers.update_heartbeat
    Workers.update_heartbeat_timestamp Workers.mark_busy Workers.mark_idle
change-IsKeyed r now (register id kind endpoint interval) h =
    insert-IsKeyed id (Workers.new_info id kind endpoint interval r.next_registration_id now)
      r.workers refl h
change-IsKeyed r now (unregister id) h = remove-IsKeyed id r.workers h
change-IsKeyed r now (update_heartbeat id hb) h =
    modify-IsKeyed id (Workers.heard_from hb now) r.workers (λ w. refl) h
change-IsKeyed r now (update_heartbeat_timestamp id) h =
    modify-IsKeyed id (Workers.with_heartbeat now) r.workers (λ w. refl) h
change-IsKeyed r now (mark_busy id) h =
    modify-IsKeyed id (Workers.with_state Workers.busy) r.workers (λ w. refl) h
change-IsKeyed r now (mark_idle id) h =
    modify-IsKeyed id (Workers.with_state Workers.idle) r.workers (λ w. refl) h
