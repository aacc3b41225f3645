-- ===== src/Incoming/Routed.antt =====
-- What the message loop does with the messages of a worker until the connection is closed.
use cozmio.Prelude.{
  ℕ, zero, suc, ◌≤◌, ◌<◌, ◌≡◌, refl, ◌∙◌, ap, String, true, Option, none, some, List, [], ◌∷◌, ◌++◌,
  length, nat_eq, if◌then◌else◌, Bool-cases, Option-cases, inl, inr, arith, le→ltb_false,
  string_key,
}
use cozmio.Frames.{build_request, read_frame, read_len, read_exact, max_message_size}
use cozmio.Frames.Typed.{frame_roundtrip}
use cozmio.Links.{get_stream_arc}
use cozmio.Router.{InferenceResponse}
use cozmio.Incoming.{
  Engine, disconnect, route, handle_message, next_message, inference_response,
  handle_worker_messages_for_worker,
}

-- The bytes of a connection on which these messages were sent before it was closed.
unfoldable pub stream_of : List (ℕ × List ℕ) → List ℕ
stream_of [] = []
stream_of ((kind, payload) ∷ ms) = build_request kind payload ++ stream_of ms

-- No message is above the limit.
unfoldable pub AreSmall : List (ℕ × List ℕ) → Type 0
AreSmall [] = Unit
AreSmall ((kind, payload) ∷ ms) = (length payload ≤ max_message_size) × AreSmall ms

-- The responses are routed one after the other.
unfoldable pub route_all : List InferenceResponse → Engine → Engine
route_all [] e = e
route_all (r ∷ rs) e = route_all rs (route r e)

abbrev pub also : Option InferenceResponse → List InferenceResponse → List InferenceResponse
also none rs = rs
also (some r) rs = r ∷ rs

module _ (decode : List ℕ → Option InferenceResponse) where
  -- The messages that are responses and can be decoded.
  unfoldable pub responses : List (ℕ × List ℕ) → List InferenceResponse
  responses [] = []
  responses ((kind, payload) ∷ ms) =
      let rest = responses ms in
      if nat_eq kind inference_response then also (decode payload) rest else rest

  handle-route :
      (kind : ℕ) (payload : List ℕ) (ms : List (ℕ × List ℕ)) (e : Engine)
      → route_all (responses ms) (handle_message decode kind payload e)
        ≡ route_all (responses ((kind, payload) ∷ ms)) e
  unfolding route_all responses
  handle-route kind payload ms e = elim (Bool-cases (nat_eq kind inference_response)) [
    | inl response ↦ elim (Option-cases (decode payload)) [
      | inl bad ↦ rw (response, bad) refl
      | inr (r, good) ↦ rw (response, good) refl
    ]
    | inr other ↦ rw other refl
  ]

  handle-keeps :
      (kind : ℕ) (payload : List ℕ) (e : Engine)
      → (handle_message decode kind payload e).session_manager ≡ e.session_manager
  unfolding route
  handle-keeps kind payload e = elim (Bool-cases (nat_eq kind inference_response)) [
    | inl response ↦ elim (Option-cases (decode payload)) [
      | inl bad ↦ rw (response, bad) refl
      | inr (r, good) ↦ rw (response, good) refl
    ]
    | inr other ↦ rw other refl
  ]

  next_message-read :
      (id : String) (stream kind : ℕ) (payload rest : List ℕ) (e : Engine)
      → get_stream_arc id e.session_manager ≡ some stream
      → length payload ≤ max_message_size
      → next_message decode id (build_request kind payload ++ rest) e
        ≡ (handle_message decode kind payload e, some rest)
  unfolding next_message
  next_message-read id stream kind payload rest e held small = rw held (
      rw (frame_roundtrip kind payload rest (omega arith))
        (rw (le→ltb_false (length payload) max_message_size small)))

  next_message-closed :
      (id : String) (stream : ℕ) (e : Engine)
      → get_stream_arc id e.session_manager ≡ some stream
      → next_message decode id [] e ≡ (disconnect id e, none)
  unfolding next_message read_frame read_len read_exact
  next_message-closed id stream e held = rw held refl

  loop-left :
      (fuel : ℕ) (id : String) (bytes : List ℕ) (e e' : Engine)
      → next_message decode id bytes e ≡ (e', none)
      → handle_worker_messages_for_worker decode (suc fuel) id bytes e ≡ (e', true)
  unfolding handle_worker_messages_for_worker
  loop-left fuel id bytes e e' h =
      rw (ap (λ p. p.1) h, handle_worker_messages_for_worker) (ap (λ p. (p.0, true)) h)

  loop-on :
      (fuel : ℕ) (id : String) (bytes rest : List ℕ) (e e' : Engine)
      → next_message decode id bytes e ≡ (e', some rest)
      → handle_worker_messages_for_worker decode (suc fuel) id bytes e
        ≡ handle_worker_messages_for_worker decode fuel id rest e'
  unfolding handle_worker_messages_for_worker
  loop-on fuel id bytes rest e e' h =
      rw (ap (λ p. p.1) h, handle_worker_messages_for_worker)
        (ap (λ p. handle_worker_messages_for_worker decode fuel id rest p.0) h)

  -- A connected worker that sends any messages, none above a million bytes, and closes the connection
  -- has each response among them that can be decoded routed, in the order sent, and nothing else,
  -- and is then disconnected. One round per message and one for the end are enough.
  pub messages_routed :
      (fuel : ℕ) (id : String) (stream : ℕ) (ms : List (ℕ × List ℕ)) (e : Engine)
      → get_stream_arc id e.session_manager ≡ some stream
      → AreSmall ms
      → length ms < fuel
      → handle_worker_messages_for_worker decode fuel id (stream_of ms) e
        ≡ (disconnect id (route_all (responses ms) e), true)
  unfolding stream_of route_all responses AreSmall
  messages_routed zero id stream ms e held small h = elim h [ ]
  messages_routed (suc fuel) id stream [] e held small h =
      loop-left fuel id [] e (disconnect id e) (next_message-closed id stream e held)
  messages_routed (suc fuel) id stream ((kind, payload) ∷ ms) e held small h =
      loop-on fuel id (stream_of ((kind, payload) ∷ ms)) (stream_of ms) e
        (handle_message decode kind payload e)
        (next_message-read id stream kind payload (stream_of ms) e held small.0)
      ∙ messages_routed fuel id stream ms (handle_message decode kind payload e)
          (rw (handle-keeps kind payload e) held) small.1 (omega arith)
      ∙ rw (handle-route kind payload ms e) refl
