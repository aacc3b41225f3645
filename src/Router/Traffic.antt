-- ===== src/Router/Traffic.antt =====
-- relay-engine/src/inference_router.rs: all the requests under way, as any sequence of what their tasks,
-- the workers' connections and the command processor do.
use cozmio.Prelude.{
  ℕ, ◌≡◌, refl, subst, ◌⊎◌, inl, inr, Bool, true, false, none, List, [], ◌∷◌, ◌++◌, map, String, In,
  arith, ◌==◌, ==_iff, ==_refl, string_key, Option-cases,
}
use cozmio.Prelude.Int.{ℤ}
use cozmio.Prelude.Results.{ok}
use cozmio.Prelude.Maps.{Map, lookup, insert, lookup-insert, lookup-remove}
use cozmio.Workers.{WorkerRegistry, is_some}
use cozmio.Router.{
  InferenceRouter, InferenceRequest, InferenceResponse, PendingRequest, empty, WorkerCommand,
  begin_request, finish_request, handle_response, cancel_request, cancelled, cancel_all,
  cleanup_stale_requests, stale_requests, answer,
}
use cozmio.Router.Pending.{lookup-answer}

pub record Traffic : Type 0 where
  pub router : InferenceRouter
  -- the tasks that wait for a response: the request and the worker of each
  pub waiting : List (String × String)
  -- the responses that workers have sent, with the ids that they bear
  pub answers : List (String × InferenceResponse)

pub data Step (t : Traffic) : Traffic → Type 0 where
  begin :
      (request : InferenceRequest) (now : ℕ) (r : InferenceRouter)
      → begin_request request now t.router ≡ (r, ok tt)
      → Step t
          (record t { router = r; waiting = (request.request_id, request.worker_id) ∷ t.waiting })
  respond :
      (id : String) (response : InferenceResponse)
      → Step t (record t {
        router = (handle_response id response t.router).0;
        answers = (id, response) ∷ t.answers;
      })
  cancel : (id : String) → Step t (record t { router = (cancel_request id t.router).0 })
  cleanup :
      (max_age_secs : ℤ) (now : ℕ)
      → Step t (record t { router = cleanup_stale_requests max_age_secs now t.router })
  finish :
      (before after : List (String × String)) (id worker_id : String)
      → t.waiting ≡ before ++ (id, worker_id) ∷ after
      → Step t (record t {
        router = (finish_request id worker_id t.router).0;
        waiting = before ++ after;
      })
  -- the registry and the queue of commands change by other hands
  outside :
      (registry : WorkerRegistry) (commands : List WorkerCommand)
      → Step t (record t { router = record t.router { registry = registry; worker_tx = commands } })

-- Reached from a router that holds no request.
pub data Reach : Traffic → Type 0 where
  quiet :
      (r : InferenceRouter)
      → r.pending_requests ≡ []
      → r.oneshots ≡ []
      → Reach (record { router = r; waiting = []; answers = [] })
  next : {t u : Traffic} → Reach t → Step t u → Reach u

abbrev ids : List (String × String) → List String
ids = map λ w. w.0

abbrev is_pending : String → InferenceRouter → Bool
is_pending id r = is_some (lookup id r.pending_requests)

-- Every pending request has a task that waits for it.
abbrev Waited : Traffic → Type 0
Waited t = (id : String) → is_pending id t.router ≡ true → In id (ids t.waiting)

In-ids_drop :
    (before after : List (String × String)) (id j worker_id : String)
    → (id == j) ≡ false
    → In j (ids (before ++ (id, worker_id) ∷ after))
    → In j (ids (before ++ after))
In-ids_drop [] after id j worker_id ne (inl e) = ground (arith, ==_iff id j)
In-ids_drop [] after id j worker_id ne (inr i) = i
In-ids_drop (b ∷ before) after id j worker_id ne (inl e) = inl e
In-ids_drop (b ∷ before) after id j worker_id ne (inr i) =
    inr (In-ids_drop before after id j worker_id ne i)

answer-pending :
    (id j : String) (a : InferenceResponse) (r : InferenceRouter)
    → is_pending j (answer id a r).0 ≡ true
    → is_pending j r ≡ true
answer-pending id j a r h = ground (arith, lookup-answer id j a r)

cancel_all-pending :
    (cancels : List String) (j : String) (r : InferenceRouter)
    → is_pending j (cancel_all cancels r) ≡ true
    → is_pending j r ≡ true
unfolding cancel_all cancel_request
cancel_all-pending [] j r h = h
cancel_all-pending (id ∷ cancels) j r h =
    answer-pending id j (cancelled id) r
      (cancel_all-pending cancels j (answer id (cancelled id) r).0 h)

pub begin_ok :
    (request : InferenceRequest) (now : ℕ) (r r' : InferenceRouter)
    → begin_request request now r ≡ (r', ok tt)
    → (r'.pending_requests
        ≡ insert request.request_id
            (record { request = request; created_at = now })
            r.pending_requests)
      × (r'.oneshots ≡ insert request.request_id empty r.oneshots)
unfolding begin_request
begin_ok request now r r' e = ground arith

begin-pending :
    (request : InferenceRequest) (now : ℕ) (r r' : InferenceRouter) (j : String)
    → begin_request request now r ≡ (r', ok tt)
    → is_pending j r' ≡ true
    → (j ≡ request.request_id) ⊎ (is_pending j r ≡ true)
begin-pending request now r r' j e h = ground (
  arith,
  begin_ok request now r r' e,
  ==_iff request.request_id j,
  lookup-insert request.request_id j (record { request = request; created_at = now })
      r.pending_requests,
)

finish-pending :
    (id worker_id j : String) (r : InferenceRouter)
    → is_pending j (finish_request id worker_id r).0 ≡ true
    → ((id == j) ≡ false) × (is_pending j r ≡ true)
unfolding finish_request
finish-pending id worker_id j r h = ground (arith, lookup-remove id j r.pending_requests)

Step-Waited : {t u : Traffic} → Waited t → Step t u → Waited u
unfolding handle_response cancel_request cleanup_stale_requests
Step-Waited {t} w (begin request now r e) j h = elim (begin-pending request now t.router r j e h) [
  | inl new ↦ inl new
  | inr old ↦ inr (w j old)
]
Step-Waited {t} w (respond id response) j h = w j (answer-pending id j response t.router h)
Step-Waited {t} w (cancel id) j h = w j (answer-pending id j (cancelled id) t.router h)
Step-Waited {t} w (cleanup max_age_secs now) j h =
    w j
      (cancel_all-pending (stale_requests max_age_secs now t.router.pending_requests) j t.router h)
Step-Waited {t} w (finish before after id worker_id at) j h =
    let (other, old) = finish-pending id worker_id j t.router h in
    In-ids_drop before after id j worker_id other (subst (λ ws. In j (ids ws)) at (w j old))
Step-Waited {t} w (outside registry commands) j h = w j h

Reach-Waited : {t : Traffic} → Reach t → Waited t
unfolding lookup
Reach-Waited (quiet r e f) j h = absurd (ground arith)
Reach-Waited (next rs st) j h = Step-Waited (Reach-Waited rs) st j h

none_pending : (m : Map String PendingRequest) → ((id : String) → lookup id m ≡ none) → m ≡ []
unfolding lookup
none_pending [] h = refl
none_pending ((k, p) ∷ m) h = absurd (ground (arith, h k, ==_refl k))

-- When no task waits any more the table of pending requests is empty: none is left behind by an answer, a
-- cancellation, a clean-up or a timeout, in any order of them, as long as the command could be sent.
pub no_request_left : (t : Traffic) → Reach t → t.waiting ≡ [] → t.router.pending_requests ≡ []
no_request_left t rs done = none_pending t.router.pending_requests λ id.
    elim (Option-cases (lookup id t.router.pending_requests)) [
      | inl e ↦ e
      | inr (p, e) ↦ absurd (subst (λ ws. In id (ids ws)) done (Reach-Waited rs id (rw e)))
    ]
