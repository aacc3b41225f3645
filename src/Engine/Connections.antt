-- ===== src/Engine/Connections.antt =====
-- relay-engine/src/main.rs: requests and events over a connection.
use mathlib.Core.List.{append-nil}
use cozmio.Prelude.{
  ℕ, ◌≤◌, ◌<◌, String, ◌≡◌, refl, List, [], ◌∷◌, ◌++◌, length, arith, Option, none, some, true,
  subst, false, ◌≢◌, le→ltb_false, ltb, nat_eq, inl, inr, Bool-cases, if◌then◌else◌, lt→ltb_true,
}
use cozmio.Prelude.Results.{ok, err}
use cozmio.Frames.{
  send_request_to_stream, recv_response_from_stream, max_message_size, send_prefixed,
  split_typed_request, read_len, read_exact, io,
}
use cozmio.Frames.Requests.{recv_request-frame, response_roundtrip}
use cozmio.Session.{
  SessionManager, SessionStatus, ProgressEntry, on_progress, on_terminal, status_from_i32,
  level_from_i32, Delivery,
}
use cozmio.Session.Status.{codes_roundtrip}
use cozmio.Engine.{
  AgentRegistry, respond, handle_connection, event_of, handle_status, handle_progress,
  handle_result, decoded, unchanged, handle_subscribe, Runtime, infer, sent, respond_always,
  subscribe_decoded,
}
use cozmio.Engine.Messages.{Wire, InferenceRequest, Response}

decoded-unchanged :
    {A : Type 0} (m : SessionManager) (f : A → Response) (o : Option A)
    → (decoded m (λ req. unchanged m (f req)) o).1 ≡ (m, [])
decoded-unchanged m f none = refl
decoded-unchanged m f (some req) = refl

infer-unchanged :
    (m : SessionManager) (runtime : Runtime) (o : Option InferenceRequest)
    → (infer m runtime o).1 ≡ (m, [])
infer-unchanged m runtime none = refl
infer-unchanged m none (some req) = refl
infer-unchanged m (some route) (some req) = refl

module _ (wire : Wire) (agents : AgentRegistry) (runtime : Runtime) (kind : ℕ)
    (payload rest : List ℕ) (id : String) (now : ℕ) (m : SessionManager) where
  -- A request that is not too long is answered with what `respond` gives, or not at all.
  connection_answer :
      length (kind ∷ payload) ≤ max_message_size
      → handle_connection wire agents runtime (send_request_to_stream kind payload ++ rest) id now m
        ≡ sent wire agents runtime (respond wire agents runtime (kind, payload) id now m)
  unfolding handle_connection send_request_to_stream split_typed_request
  connection_answer h = rw (
    recv_request-frame (kind ∷ payload) rest (omega arith),
    le→ltb_false (length (kind ∷ payload)) max_message_size h,
  )

  respond-other :
      kind ≢ 7
      → respond wire agents runtime (kind, payload) id now m ≡ (
        some (respond_always wire agents runtime (kind, payload) id now m).0,
        (respond_always wire agents runtime (kind, payload) id now m).1,
      )
  unfolding respond
  respond-other other = elim (Bool-cases (nat_eq kind 7)) [
    | inl k ↦ absurd (ground (arith, other))
    | inr k ↦ rw k
  ]

  -- A client that sends one request of another kind than an inference request, of at most a million
  -- bytes with its kind, reads the encoded response to it, and the engine's sessions change as that
  -- response says; what follows the request on the connection has no effect. The response is taken
  -- to be shorter than four gigabytes.
  pub request_answered :
      kind ≢ 7
      → length (kind ∷ payload) ≤ max_message_size
      → length (wire.encode (respond_always wire agents runtime (kind, payload) id now m).0)
        < 4294967296
      → let answer =
          handle_connection wire agents runtime
            (send_request_to_stream kind payload ++ rest)
            id
            now
            m in
        (r : Response) × (e : SessionManager × List Delivery) × (respond wire agents runtime
            (kind, payload)
            id
            now
            m
          ≡ (some r, e))
        × (recv_response_from_stream answer.0 ≡ ok (wire.encode r, []))
        × (answer.1 ≡ e)
  request_answered other h k =
      let given = respond_always wire agents runtime (kind, payload) id now m in
      (
        given.0,
        given.1,
        respond-other other,
        rw (connection_answer h, respond-other other)
            (subst (λ bytes. recv_response_from_stream bytes ≡ ok (wire.encode given.0, []))
              (append-nil (send_prefixed (wire.encode given.0)))
              (response_roundtrip (wire.encode given.0) [] k)),
        rw (connection_answer h, respond-other other) refl,
      )

  -- A longer one is not answered, and has no effect.
  pub long_request_refused :
      max_message_size < length (kind ∷ payload)
      → length (kind ∷ payload) < 4294967296
      → handle_connection wire agents runtime (send_request_to_stream kind payload ++ rest) id now m
        ≡ ([], (m, []))
  unfolding handle_connection send_request_to_stream
  long_request_refused h k = rw (
    recv_request-frame (kind ∷ payload) rest k,
    lt→ltb_true max_message_size (length (kind ∷ payload)) h,
  )

  -- Requests for status, progress or result, inferences and requests of unknown kinds change no
  -- session and are heard of by no subscriber, answered or not.
  pub queries_keep_sessions :
      kind ≢ 1 → kind ≢ 5 → (respond wire agents runtime (kind, payload) id now m).1 ≡ (m, [])
  unfolding respond respond_always
  queries_keep_sessions h k = ground (
    arith,
    decoded-unchanged m (λ req. handle_status req m) (wire.decode_session payload),
    decoded-unchanged m (λ req. handle_progress req m) (wire.decode_session payload),
    decoded-unchanged m (λ req. handle_result req m) (wire.decode_session payload),
    infer-unchanged m runtime (wire.decode_inference payload),
  )

-- On a thread that is in no runtime, as those of the accept loop are, an inference request of at most a
-- million bytes with its kind that can be decoded gets no answer: the connection is closed, and the
-- client's read of the response fails. The sessions stay as they were.
pub inference_unanswered :
    (wire : Wire) (agents : AgentRegistry) (payload rest : List ℕ) (id : String) (now : ℕ)
    (m : SessionManager) (req : InferenceRequest)
    → length (7 ∷ payload) ≤ max_message_size
    → wire.decode_inference payload ≡ some req
    → let answer =
        handle_connection wire agents none (send_request_to_stream 7 payload ++ rest) id now m in
      (recv_response_from_stream answer.0 ≡ err io) × (answer.1 ≡ (m, []))
unfolding respond recv_response_from_stream read_len read_exact
inference_unanswered wire agents payload rest id now m req h read =
    rw (connection_answer wire agents none 7 payload rest id now m h, read) (refl, refl)

-- A request on the subscription port subscribes its connection to the session that it names, and is
-- ignored if it is of another kind, cannot be decoded or is longer than a million bytes with its kind.
pub subscription_request :
    (wire : Wire) (kind : ℕ) (payload rest : List ℕ) (sub : String) (m : SessionManager)
    → length (kind ∷ payload) < 4294967296
    → handle_subscribe wire (send_request_to_stream kind payload ++ rest) sub m ≡ (
        if ltb max_message_size (length (kind ∷ payload))
        then (m, [])
        else if nat_eq kind 6
        then subscribe_decoded wire (wire.decode_session payload) sub m
        else (m, []))
unfolding handle_subscribe send_request_to_stream split_typed_request
subscription_request wire kind payload rest sub m h =
    rw (recv_request-frame (kind ∷ payload) rest h)
      (elim (Bool-cases (ltb max_message_size (length (kind ∷ payload)))) [
        | inl big ↦ rw big
        | inr fits ↦ rw fits
      ])

-- The client reads from an event the session, and the level of the entry or the status that it was
-- told of.
pub event_codes :
    (show : SessionStatus → String) (now : ℕ) (sub id : String) (e : ProgressEntry)
    (s : SessionStatus)
    → let progress =
        event_of show now (record { subscriber = sub; session_id = id; notice = on_progress e }) in
      let end =
        event_of show now (record { subscriber = sub; session_id = id; notice = on_terminal s }) in
      (progress.session_id ≡ id)
      × (progress.terminal ≡ false)
      × (level_from_i32 progress.level ≡ e.level)
      × (end.session_id ≡ id)
      × (end.terminal ≡ true)
      × (status_from_i32 end.terminal_status ≡ s)
unfolding event_of
event_codes show now sub id e s =
    (refl, refl, (codes_roundtrip s e.level).1, refl, refl, (codes_roundtrip s e.level).0)
