-- ===== src/Links/Heartbeats.antt =====
-- relay-engine/src/worker_session.rs: heartbeats and disconnections.
use mathlib.Core.Option.{some-injective}
use cozmio.Prelude.{
  ℕ, ◌+◌, ◌<◌, ◌≡◌, ◌↔◌, ◌⊎◌, inl, inr, refl, sym, subst, ◌∙◌, Bool, Bool-cases, true, false, ◌&&◌,
  Option, none, some, List, [], ◌∷◌, String, arith, filter, contains, map, ◌==◌, ==_iff, string_key,
  if◌then◌else◌,
}
use cozmio.Prelude.Maps.{Map, lookup, lookup-remove}
use cozmio.Workers.{WorkerInfo, get, is_online, values, get_online_workers}
use cozmio.Workers.States.{get-unregister}
use cozmio.Workers.Keyed.{IsKeyed}
use cozmio.Links.{
  Hub, handle_disconnect, disconnect_stale, check_workers_connected, missed_heartbeats,
  get_stream_arc,
}

-- After a disconnection the worker is in none of the tables, and the other workers are where they were.
pub handle_disconnect_clears :
    (id other : String) (h : Hub)
    → let h' = handle_disconnect id h in
      (get other h'.registry ≡ (if id == other then none else get other h.registry))
      × (get_stream_arc other h' ≡ (if id == other then none else get_stream_arc other h))
      × (lookup other h'.heartbeat_tasks
          ≡ (if id == other then none else lookup other h.heartbeat_tasks))
unfolding handle_disconnect
handle_disconnect_clears id other h = (
  get-unregister id other h.registry,
  lookup-remove id other h.worker_streams,
  lookup-remove id other h.heartbeat_tasks,
)

-- The ids of the workers that `disconnect_stale` drops.
abbrev dropped : ℕ → List WorkerInfo → List String
dropped now ws = map (λ w. w.worker_id) (filter (missed_heartbeats now) ws)

get-dropped :
    (now : ℕ) (w : WorkerInfo) (j : String) (h : Hub)
    → get j (if missed_heartbeats now w then handle_disconnect w.worker_id h else h).registry
      ≡ (if missed_heartbeats now w && (w.worker_id == j) then none else get j h.registry)
get-dropped now w j h = ground (arith, (handle_disconnect_clears w.worker_id j h).0)

get-disconnect_stale :
    (now : ℕ) (ws : List WorkerInfo) (j : String) (h : Hub)
    → get j (disconnect_stale now ws h).registry
      ≡ (if contains j (dropped now ws) then none else get j h.registry)
unfolding disconnect_stale contains
get-disconnect_stale now [] j h = refl
get-disconnect_stale now (w ∷ ws) j h =
    get-disconnect_stale now ws j
      (if missed_heartbeats now w then handle_disconnect w.worker_id h else h)
    ∙ (ground (arith, get-dropped now w j h))

abbrev pub drops : ℕ → WorkerInfo → Bool
drops now w = is_online w && missed_heartbeats now w

abbrev pub unless_dropped : ℕ → Option WorkerInfo → Option WorkerInfo
unless_dropped now none = none
unless_dropped now (some w) = if drops now w then none else some w

contains-dropped_absent :
    (now : ℕ) (j : String) (m : Map String WorkerInfo)
    → IsKeyed m
    → lookup j m ≡ none
    → contains j (dropped now (filter is_online (values m))) ≡ false
unfolding contains lookup
contains-dropped_absent now j [] k e = refl
contains-dropped_absent now j ((i, w) ∷ m) k e =
    ground (arith, ==_iff i j, contains-dropped_absent now j m k.2)

lookup-dropped :
    (now : ℕ) (j : String) (m : Map String WorkerInfo)
    → IsKeyed m
    → (if contains j (dropped now (filter is_online (values m))) then none else lookup j m)
      ≡ unless_dropped now (lookup j m)
unfolding contains lookup
lookup-dropped now j [] k = refl
lookup-dropped now j ((i, w) ∷ m) k =
    ground (arith, ==_iff i j, lookup-dropped now j m k.2, contains-dropped_absent now i m k.2 k.1)

checked :
    (now : ℕ) (j : String) (h : Hub)
    → IsKeyed h.registry.workers
    → get j (check_workers_connected now h).registry ≡ unless_dropped now (get j h.registry)
unfolding check_workers_connected
checked now j h k =
    get-disconnect_stale now (get_online_workers h.registry) j h
    ∙ lookup-dropped now j h.registry.workers k

-- The last heartbeat lies more than 90 seconds, 90000000000 nanoseconds, back.
abbrev pub IsSilent : ℕ → WorkerInfo → Type 0
IsSilent now w = w.last_heartbeat + 90000000000 < now

kept-or_dropped :
    (now : ℕ) (o : Option WorkerInfo) (w : WorkerInfo)
    → o ≡ some w
    → (unless_dropped now o ≡ none) ↔ ((is_online w ≡ true) × IsSilent now w)
kept-or_dropped now none w e = absurd (ground arith)
kept-or_dropped now (some v) w e =
    rw (sym (some-injective _ _ e)) (λ h. ground (arith, h), λ h. ground (arith, h))

dropped-or_same :
    (now : ℕ) (o : Option WorkerInfo) → (unless_dropped now o ≡ none) ⊎ (unless_dropped now o ≡ o)
dropped-or_same now none = inl refl
dropped-or_same now (some v) = elim (Bool-cases (drops now v)) [
  | inl k ↦ rw k (inl refl)
  | inr k ↦ rw k (inr refl)
]

-- In a table that lists each worker under its own id, once, the check drops a registered worker if and
-- only if it is online and its last heartbeat lies more than 90 seconds back, and leaves every other
-- as it was.
pub check_exact :
    (now : ℕ) (j : String) (w : WorkerInfo) (h : Hub)
    → IsKeyed h.registry.workers
    → get j h.registry ≡ some w
    → let after = get j (check_workers_connected now h).registry in
      ((after ≡ none) ↔ ((is_online w ≡ true) × IsSilent now w))
      × ((after ≡ none) ⊎ (after ≡ some w))
check_exact now j w h k found = rw (checked now j h k) (
  kept-or_dropped now (get j h.registry) w found,
  subst
      (λ o.
        (unless_dropped now (get j h.registry) ≡ none)
        ⊎ (unless_dropped now (get j h.registry) ≡ o))
      found (dropped-or_same now (get j h.registry)),
)
