-- ===== src/Router/Pending.antt =====
-- relay-engine/src/inference_router.rs: the pending requests.
use cozmio.Prelude.{
  ℕ, ◌≡◌, refl, ◌∙◌, inl, inr, Bool, false, Option, none, some, List, [], ◌∷◌, String, arith, ◌==◌,
  ==_iff, string_key, if◌then◌else◌, contains, Option-cases,
}
use cozmio.Prelude.Int.{ℤ, ltb_ℤ, num_seconds}
use cozmio.Prelude.Maps.{Map, lookup, lookup-remove}
use cozmio.Workers.{is_some}
use cozmio.Router.{
  InferenceRouter, InferenceResponse, PendingRequest, answer, handle_response, cancel_request,
  cancelled, stale_requests, cancel_all, cleanup_stale_requests,
}

-- An answer, or a cancellation, takes its request out of the table and leaves the others.
pub lookup-answer :
    (id j : String) (a : InferenceResponse) (r : InferenceRouter)
    → lookup j (answer id a r).0.pending_requests
      ≡ (if id == j then none else lookup j r.pending_requests)
lookup-answer id j a r = elim (Option-cases (lookup id r.pending_requests)) [
  | inl e ↦ rw e (ground (arith, ==_iff id j))
  | inr (p, e) ↦ rw e (lookup-remove id j r.pending_requests)
]

answer_flag :
    (id : String) (a : InferenceResponse) (r : InferenceRouter)
    → (answer id a r).1 ≡ is_some (lookup id r.pending_requests)
answer_flag id a r = ground arith

-- A request is answered at most once: after a first answer every other finds nothing pending, while
-- the requests with other ids are answered as before.
pub handle_response_once :
    (id other : String) (a b : InferenceResponse) (r : InferenceRouter)
    → (handle_response other b (handle_response id a r).0).1
      ≡ (if id == other then false else (handle_response other b r).1)
unfolding handle_response
handle_response_once id other a b r =
    answer_flag other b (answer id a r).0 ∙ (rw (lookup-answer id other a r) (ground arith))

lookup-cancel_all :
    (ids : List String) (j : String) (r : InferenceRouter)
    → lookup j (cancel_all ids r).pending_requests
      ≡ (if contains j ids then none else lookup j r.pending_requests)
unfolding cancel_all contains cancel_request
lookup-cancel_all [] j r = refl
lookup-cancel_all (id ∷ ids) j r =
    lookup-cancel_all ids j (answer id (cancelled id) r).0
    ∙ (rw (lookup-answer id j (cancelled id) r) (ground arith))

-- The keys of a table are distinct.
abbrev pub HasDistinctKeys : {V : Type 0} → Map String V → Type 0
HasDistinctKeys [] = Unit
HasDistinctKeys ((k, v) ∷ m) = (lookup k m ≡ none) × HasDistinctKeys m

abbrev pub is_stale : ℤ → ℕ → PendingRequest → Bool
is_stale max_age_secs now p = ltb_ℤ max_age_secs (num_seconds now p.created_at)

abbrev pub unless_stale : ℤ → ℕ → Option PendingRequest → Option PendingRequest
unless_stale max_age_secs now none = none
unless_stale max_age_secs now (some p) = if is_stale max_age_secs now p then none else some p

contains-stale :
    (max_age_secs : ℤ) (now : ℕ) (j : String) (m : Map String PendingRequest)
    → lookup j m ≡ none
    → contains j (stale_requests max_age_secs now m) ≡ false
unfolding contains stale_requests lookup
contains-stale max_age_secs now j [] e = refl
contains-stale max_age_secs now j ((k, p) ∷ m) e =
    ground (arith, contains-stale max_age_secs now j m)

stale-lookup :
    (max_age_secs : ℤ) (now : ℕ) (j : String) (m : Map String PendingRequest)
    → HasDistinctKeys m
    → (if contains j (stale_requests max_age_secs now m) then none else lookup j m)
      ≡ unless_stale max_age_secs now (lookup j m)
unfolding contains stale_requests lookup
stale-lookup max_age_secs now j [] d = refl
stale-lookup max_age_secs now j ((k, p) ∷ m) d = ground (
  arith,
  ==_iff k j,
  stale-lookup max_age_secs now j m d.1,
  contains-stale max_age_secs now k m d.0,
)

-- The clean-up drops exactly the requests that are older than the limit, in whole seconds.
pub cleanup_exact :
    (max_age_secs : ℤ) (now : ℕ) (j : String) (r : InferenceRouter)
    → HasDistinctKeys r.pending_requests
    → lookup j (cleanup_stale_requests max_age_secs now r).pending_requests
      ≡ unless_stale max_age_secs now (lookup j r.pending_requests)
unfolding cleanup_stale_requests
cleanup_exact max_age_secs now j r d =
    lookup-cancel_all (stale_requests max_age_secs now r.pending_requests) j r
    ∙ stale-lookup max_age_secs now j r.pending_requests d
