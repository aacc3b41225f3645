-- ===== src/Router/Selection.antt =====
-- relay-engine/src/inference_router.rs: `select_worker`.
use cozmio.Prelude.{
  ◌<◌, ◌≡◌, refl, ◌⊎◌, inl, inr, Bool, true, none, some, List, [], ◌∷◌, String, In, filter, length,
  arith, Option-cases, Bool-cases,
}
use cozmio.Prelude.Results.{ok, err}
use cozmio.Workers.{
  WorkerInfo, WorkerRegistry, is_online, is_idle, values, get_idle_workers, get_online_workers,
  idle_count, online_count,
}
use cozmio.Router.{protocol, first_id, select_worker}

first_id-some :
    (p : WorkerInfo → Bool) (ws : List WorkerInfo) (id : String)
    → first_id (filter p ws) ≡ some id
    → (w : WorkerInfo) × In w ws × (w.worker_id ≡ id) × (p w ≡ true)
first_id-some p [] id e = absurd (cc)
first_id-some p (w ∷ ws) id e = elim (Bool-cases (p w)) [
  | inl found ↦ (w, inl refl, ground arith, found)
  | inr skipped ↦
      let (v, at, same, holds) = first_id-some p ws id (ground arith) in (v, inr at, same, holds)
]

first_id-none :
    (p : WorkerInfo → Bool) (ws : List WorkerInfo)
    → first_id (filter p ws) ≡ none
    → length (filter p ws) ≡ 0
first_id-none p ws e = ground arith

idle-is_online : (w : WorkerInfo) → is_idle w ≡ true → is_online w ≡ true
idle-is_online w h = ground arith

none_idle :
    (ws : List WorkerInfo)
    → first_id (filter is_online ws) ≡ none
    → first_id (filter is_idle ws) ≡ none
none_idle [] h = refl
none_idle (w ∷ ws) h = ground (arith, none_idle ws)

-- The worker that is chosen is registered and online, and it is idle unless no worker is.
pub select_worker_ok :
    (r : WorkerRegistry) (id : String)
    → select_worker r ≡ ok id
    → (w : WorkerInfo) × In w (values r.workers)
      × (w.worker_id ≡ id)
      × (is_online w ≡ true)
      × ((is_idle w ≡ true) ⊎ (idle_count r ≡ 0))
unfolding select_worker
select_worker_ok r id h = elim (Option-cases (first_id (get_idle_workers r))) [
  | inl busy_all ↦
      let (w, at, same, up) = first_id-some is_online (values r.workers) id (ground arith) in
      (w, at, same, up, inr (first_id-none is_idle (values r.workers) busy_all))
  | inr (j, chosen) ↦
      let (w, at, same, free) = first_id-some is_idle (values r.workers) id (ground arith) in
      (w, at, same, idle-is_online w free, inl free)
]

-- A worker is chosen exactly when one is online.
pub select_worker_total :
    (r : WorkerRegistry)
    → ((online_count r ≡ 0) × (select_worker r ≡ err (protocol "No available workers")))
      ⊎ ((0 < online_count r) × ((id : String) × (select_worker r ≡ ok id)))
unfolding select_worker
select_worker_total r = elim (Option-cases (first_id (get_online_workers r))) [
  | inl down ↦ inl (
    first_id-none is_online (values r.workers) down,
    rw (none_idle (values r.workers) down) (rw down),
  )
  | inr (j, up) ↦ inr (
    ground arith,
    elim (Option-cases (first_id (get_idle_workers r))) [
      | inl none_free ↦ (j, rw none_free (rw up))
      | inr (k, free) ↦ (k, rw free)
    ],
  )
]
