-- ===== src/Router/Answers.antt =====
-- relay-engine/src/inference_router.rs: whose response a request gets.
use cozmio.Prelude.{
  ◌≡◌, sym, ◌∙◌, ap, ◌⊎◌, inl, inr, some, List, [], ◌∷◌, String, In, arith, ==_iff, string_key,
}
use cozmio.Prelude.Results.{ok}
use cozmio.Prelude.Maps.{lookup, lookup-insert, lookup-remove, lookup-modify}
use cozmio.Router.{
  InferenceRouter, InferenceResponse, empty, sent, finish_request, handle_response, cancel_request,
  cancelled, cancel_all, cleanup_stale_requests, stale_requests, answer,
}
use cozmio.Router.Traffic.{
  Traffic, Step, begin, respond, cancel, cleanup, finish, outside, Reach, quiet, next, begin_ok,
}

-- A response that waits for its receiver was sent under the receiver's id, or is its cancellation.
abbrev Own : Traffic → Type 0
Own t =
    (id : String) (response : InferenceResponse)
    → lookup id t.router.oneshots ≡ some (sent response)
    → In (id, response) t.answers ⊎ (response ≡ cancelled id)

answer-oneshot :
    (id j : String) (a response : InferenceResponse) (r : InferenceRouter)
    → lookup j (answer id a r).0.oneshots ≡ some (sent response)
    → ((id ≡ j) × (response ≡ a)) ⊎ (lookup j r.oneshots ≡ some (sent response))
answer-oneshot id j a response r h =
    ground (arith, ==_iff id j, lookup-modify id j (λ _. sent a) r.oneshots)

cancel_all-oneshot :
    (cancels : List String) (j : String) (response : InferenceResponse) (r : InferenceRouter)
    → lookup j (cancel_all cancels r).oneshots ≡ some (sent response)
    → (response ≡ cancelled j) ⊎ (lookup j r.oneshots ≡ some (sent response))
unfolding cancel_all cancel_request
cancel_all-oneshot [] j response r h = inr h
cancel_all-oneshot (id ∷ cancels) j response r h =
    elim (cancel_all-oneshot cancels j response (answer id (cancelled id) r).0 h) [
      | inl own ↦ inl own
      | inr later ↦ elim (answer-oneshot id j (cancelled id) response r later) [
        | inl (same, a) ↦ inl (a ∙ ap cancelled same)
        | inr old ↦ inr old
      ]
    ]

Step-Own : {t u : Traffic} → Own t → Step t u → Own u
unfolding handle_response cancel_request cleanup_stale_requests finish_request
Step-Own {t} w (begin request now r e) j a h = w j a (
    ground (
      arith,
      begin_ok request now t.router r e,
      lookup-insert request.request_id j empty t.router.oneshots,
    ))
Step-Own {t} w (respond id response) j a h = elim (answer-oneshot id j response a t.router h) [
  | inl (same, own) ↦ inl (inl (λ i. (sym same i, own i)))
  | inr old ↦ elim (w j a old) [ inl i ↦ inl (inr i) | inr c ↦ inr c ]
]
Step-Own {t} w (cancel id) j a h = elim (answer-oneshot id j (cancelled id) a t.router h) [
  | inl (same, own) ↦ inr (own ∙ ap cancelled same)
  | inr old ↦ w j a old
]
Step-Own {t} w (cleanup max_age_secs now) j a h =
    elim (cancel_all-oneshot (stale_requests max_age_secs now t.router.pending_requests) j a
      t.router h) [ inl own ↦ inr own | inr old ↦ w j a old ]
Step-Own {t} w (finish before after id worker_id at) j a h =
    w j a (ground (arith, lookup-remove id j t.router.oneshots))
Step-Own {t} w (outside registry commands) j a h = w j a h

Reach-Own : {t : Traffic} → Reach t → Own t
unfolding lookup
Reach-Own (quiet r e f) j a h = absurd (ground arith)
Reach-Own (next rs st) j a h = Step-Own (Reach-Own rs) st j a h

-- What a request returns as its response was sent by a worker under the request's own id, or tells
-- that the request was cancelled: no request gets the response of another.
pub response_is_own :
    (t : Traffic) (id worker_id : String) (response : InferenceResponse)
    → Reach t
    → (finish_request id worker_id t.router).1 ≡ ok response
    → In (id, response) t.answers ⊎ (response ≡ cancelled id)
unfolding finish_request
response_is_own t id worker_id response rs e = Reach-Own rs id response (ground arith)
