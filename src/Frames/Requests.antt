-- ===== src/Frames/Requests.antt =====
-- Frames of requests and responses between clients and the engine.
use cozmio.Prelude.{
  ℕ, ◌+◌, ◌≤◌, ◌<◌, ◌≡◌, List, ◌∷◌, ◌++◌, length, arith, ltb, Bool-cases, inl, inr, le→ltb_false,
  if◌then◌else◌,
}
use cozmio.Prelude.Results.{Result, ok, err, ◌>>=◌}
use cozmio.Frames.{
  FrameError, too_large, send_request_to_stream, split_typed_request, recv_request, send_prefixed,
  recv_response_from_stream, recv_registration, max_message_size, max_response_size, as_u32,
  to_be_bytes,
}
use cozmio.Frames.Words.{read_len-to_be_bytes, read_exact-append, as_u32-small}

-- What the engine makes of the bytes of a connection: the kind and the payload of the first request.
abbrev pub recv_typed : List ℕ → Result FrameError (ℕ × List ℕ)
recv_typed bytes = recv_request bytes >>= λ r. split_typed_request r.0

pub recv_request-frame :
    (frame rest : List ℕ)
    → length frame < 4294967296
    → recv_request (to_be_bytes (as_u32 (length frame)) ++ (frame ++ rest)) ≡ (
        if ltb max_message_size (length frame)
        then err (too_large (length frame))
        else ok (frame, rest))
unfolding recv_request
recv_request-frame frame rest h = rw (as_u32-small (length frame) h) (
    rw (read_len-to_be_bytes (length frame) (frame ++ rest) h)
      (elim (Bool-cases (ltb max_message_size (length frame))) [
        | inl big ↦ rw big
        | inr fits ↦ rw fits (read_exact-append frame rest)
      ]))

-- The engine reads a client's request of at most a million bytes, its kind included, as it was sent,
-- whatever follows it on the connection; a longer one, below four gigabytes, it refuses by its length.
pub request_roundtrip :
    (kind : ℕ) (payload rest : List ℕ)
    → 1 + length payload < 4294967296
    → recv_typed (send_request_to_stream kind payload ++ rest) ≡ (
        if ltb max_message_size (1 + length payload)
        then err (too_large (1 + length payload))
        else ok (kind, payload))
unfolding send_request_to_stream split_typed_request
request_roundtrip kind payload rest h =
    rw (recv_request-frame (kind ∷ payload) rest (omega arith)) (ground arith)

-- A client reads the response that the engine sent, and the rest of the connection stays.
pub response_roundtrip :
    (response rest : List ℕ)
    → length response < 4294967296
    → recv_response_from_stream (send_prefixed response ++ rest) ≡ ok (response, rest)
unfolding recv_response_from_stream send_prefixed
response_roundtrip response rest h = rw (as_u32-small (length response) h) (
    rw (read_len-to_be_bytes (length response) (response ++ rest) h)
      (read_exact-append response rest))

-- A worker reads the registration response that the engine sent it.
pub registration_roundtrip :
    (response rest : List ℕ)
    → length response ≤ max_response_size
    → recv_registration (send_prefixed response ++ rest) ≡ ok (response, rest)
unfolding recv_registration send_prefixed
registration_roundtrip response rest h = rw (as_u32-small (length response) (omega arith)) (
    rw (read_len-to_be_bytes (length response) (response ++ rest) (omega arith))
      (rw (le→ltb_false (length response) max_response_size h) (read_exact-append response rest)))
