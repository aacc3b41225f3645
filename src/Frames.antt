-- ===== src/Frames.antt =====
-- The length-prefixed frames of the relay protocols, over the bytes of a connection.
--
-- A stream is the list of the bytes still to be read, each a number below 256. A read that finds too few
-- of them fails (`read_exact` at the end of the stream, `recv_exact` when `read` returns 0). Two
-- formats are in use. Requests of clients and all responses carry the length of everything behind it
-- (relay-client/src/client.rs, relay-engine/src/main.rs). Frames between engine and worker carry the
-- length of the payload only, with the type byte between the two
-- (cozmio-box-worker/src/protocol.rs and worker.rs, relay-engine/src/worker_session.rs).
pub mod Words
pub mod Requests
pub mod Typed
mod Tests
use cozmio.Prelude.{
  ℕ, zero, suc, ◌+◌, ◌*◌, ◌/◌, ◌%◌, ◌^◌, List, [], ◌∷◌, ◌++◌, Option, none, some, Bool, ltb, leb,
  nat_eq, length, if◌then◌else◌,
}
use cozmio.Prelude.Results.{Result, ok, err, ◌>>=◌}

-- `u32::to_be_bytes` and `u32::from_be_bytes`
unfoldable pub to_be_bytes : ℕ → List ℕ
to_be_bytes n = (n / 16777216 % 256) ∷ (n / 65536 % 256) ∷ (n / 256 % 256) ∷ (n % 256) ∷ []

unfoldable pub from_be_bytes : List ℕ → ℕ
from_be_bytes (a ∷ b ∷ c ∷ d ∷ []) = a * 16777216 + b * 65536 + c * 256 + d
from_be_bytes _ = 0

-- `as u32`
abbrev pub as_u32 : ℕ → ℕ
as_u32 n = n % 4294967296

pub data FrameError : Type 0 where
  -- the stream ended
  io : FrameError
  -- the declared length is above the limit
  too_large : ℕ → FrameError
  -- `split_typed_request`: "empty request frame"
  empty_frame : FrameError

-- `read_exact` into a buffer of `n` bytes: the bytes, and what is left.
unfoldable pub read_exact : ℕ → List ℕ → Result FrameError (List ℕ × List ℕ)
read_exact zero bytes = ok ([], bytes)
read_exact (suc n) [] = err io
read_exact (suc n) (b ∷ bytes) = do (taken, rest) ← read_exact n bytes; ok (b ∷ taken, rest)

abbrev pub max_message_size : ℕ
max_message_size = 1000000

abbrev guard_size : ℕ → ℕ → Result FrameError ℕ
guard_size limit len = if ltb limit len then err (too_large len) else ok len

-- The four bytes of a length, and what is left.
unfoldable pub read_len : List ℕ → Result FrameError (ℕ × List ℕ)
unfolding read_exact from_be_bytes
read_len bytes = do (len_bytes, rest) ← read_exact 4 bytes; ok (from_be_bytes len_bytes, rest)

-- `send_request_to_stream` of the client.
unfoldable pub send_request_to_stream : ℕ → List ℕ → List ℕ
unfolding to_be_bytes
send_request_to_stream kind payload =
    let frame = kind ∷ payload in to_be_bytes (as_u32 (length frame)) ++ frame

unfoldable pub split_typed_request : List ℕ → Result FrameError (ℕ × List ℕ)
split_typed_request [] = err empty_frame
split_typed_request (kind ∷ payload) = ok (kind, payload)

-- The reading part of `handle_connection` and of `handle_subscribe`.
unfoldable pub recv_request : List ℕ → Result FrameError (List ℕ × List ℕ)
recv_request bytes = do
  (len, rest) ← read_len bytes
  n ← guard_size max_message_size len
  read_exact n rest

-- The writing part of `handle_connection`, of `send_progress_event` and of `handle_new_worker`.
unfoldable pub send_prefixed : List ℕ → List ℕ
unfolding to_be_bytes
send_prefixed response = to_be_bytes (as_u32 (length response)) ++ response

-- `recv_response_from_stream` of the client, before it decodes. It has no limit.
unfoldable pub recv_response_from_stream : List ℕ → Result FrameError (List ℕ × List ℕ)
recv_response_from_stream bytes = do (len, rest) ← read_len bytes; read_exact len rest

-- `build_request`, `send_response` and the writing part of both `send_request`s: the length counts
-- the payload alone.
unfoldable pub build_request : ℕ → List ℕ → List ℕ
unfolding to_be_bytes
build_request kind payload = to_be_bytes (as_u32 (length payload)) ++ (kind ∷ payload)

-- `read_typed_request` of the engine, `read_frame` of the worker and the reading part of
-- `handle_worker_messages_for_worker`.
unfoldable pub read_frame : List ℕ → Result FrameError ((ℕ × List ℕ) × List ℕ)
unfolding read_exact
read_frame bytes = do
  (len, rest) ← read_len bytes
  n ← guard_size max_message_size len
  (type_byte, rest') ← read_exact 1 rest
  (payload, rest'') ← read_exact n rest'
  split ← split_typed_request type_byte
  ok ((split.0, payload), rest'')

-- The reading part of the worker's `send_request`.
abbrev pub max_response_size : ℕ
max_response_size = 10000000

unfoldable pub recv_registration : List ℕ → Result FrameError (List ℕ × List ℕ)
recv_registration bytes = do
  (len, rest) ← read_len bytes
  n ← guard_size max_response_size len
  read_exact n rest
