-- ===== src/Links/Registering.antt =====
-- relay-engine/src/worker_session.rs against cozmio-box-worker: a new connection.
use cozmio.Prelude.{
  ℕ, ◌≤◌, ◌≡◌, ◌≢◌, refl, subst, ◌∙◌, Bool, true, not, String, if◌then◌else◌, none, some, List, [],
  ◌++◌, arith, length, le→ltb_false, ==_refl, string_key,
}
use mathlib.Core.List.{append-nil}
use cozmio.Prelude.Results.{Result, ok, err}
use cozmio.Prelude.Maps.{lookup-insert}
use cozmio.Frames.{
  build_request, send_prefixed, recv_registration, max_message_size, max_response_size,
}
use cozmio.Frames.Typed.{frame_roundtrip}
use cozmio.Frames.Requests.{registration_roundtrip}
use cozmio.Workers.{get, get_by_registration_id, new_info}
use cozmio.Workers.Registration.{IsFresh, register_found}
use cozmio.Workers
use cozmio.Links.Codecs.{Codec, IsFaithful, WorkerRegisterRequest, WorkerRegisterResponse}
use cozmio.Links.{
  Hub, worker_register, registered, handle_new_worker, expected_register, get_stream_arc,
}

-- What the worker makes of the response: its `send_request`, the decoding in `connect` and the test of
-- `success`. The outcome is the registration id that it stores. The texts of the errors of the
-- connection and of prost are left out of its own.
pub data WorkerError : Type 0 where
  connection_failed registration_failed protocol config : String → WorkerError

abbrev pub accepted : WorkerRegisterResponse → Result WorkerError ℕ
accepted response =
    if not response.success
    then err (registration_failed response.error)
    else ok response.registration_id

unfoldable pub registration_answer : Codec → List ℕ → Result WorkerError ℕ
registration_answer c bytes = elim (recv_registration bytes) [
  | ok (payload, rest) ↦ elim (c.decode_registered payload) [
    | none ↦ err (protocol "Failed to decode register response")
    | some response ↦ accepted response
  ]
  | err e ↦ err (protocol "Send request failed")
]

answer_read :
    (c : Codec) (rid : ℕ)
    → c.decode_registered (c.encode_registered (registered rid)) ≡ some (registered rid)
    → length (c.encode_registered (registered rid)) ≤ max_response_size
    → registration_answer c (send_prefixed (c.encode_registered (registered rid))) ≡ ok rid
unfolding registration_answer
answer_read c rid codec small =
    let m = registered rid in
    let read =
      subst (λ bytes. recv_registration bytes ≡ ok (c.encode_registered m, []))
        (append-nil (send_prefixed (c.encode_registered m)))
        (registration_roundtrip (c.encode_registered m) [] small) in
    rw (read, registration_answer) (rw codec)

-- A worker that sends its registration as the first frame is registered: the engine stores the stream
-- and finds the worker as online by its id and by the registration id, and the worker takes the bytes
-- that it is answered as a success with that registration id.
pub registration_end_to_end :
    (c : Codec) (req : WorkerRegisterRequest) (rest : List ℕ) (stream now : ℕ) (h : Hub)
    → IsFaithful c req (registered h.registry.next_registration_id)
    → IsFresh h.registry
    → length (c.encode_register req) ≤ max_message_size
    → length (c.encode_registered (registered h.registry.next_registration_id)) ≤ max_response_size
    → let (h', result) =
        handle_new_worker c
          (build_request worker_register (c.encode_register req) ++ rest)
          true
          stream
          now
          h in
      let rid = h.registry.next_registration_id in
      let info =
        new_info req.worker_id req.worker_type req.endpoint req.heartbeat_interval_secs rid now in
      (get req.worker_id h'.registry ≡ some info)
      × (get_by_registration_id rid h'.registry ≡ some info)
      × (get_stream_arc req.worker_id h' ≡ some stream)
      × ((bytes : List ℕ) × (result ≡ ok (req.worker_id, bytes))
          × (registration_answer c bytes ≡ ok rid))
unfolding handle_new_worker Workers.register
registration_end_to_end c req rest stream now h codec fresh small small' =
    let found =
      register_found h.registry req.worker_id req.worker_type req.endpoint req.worker_id
        req.heartbeat_interval_secs now fresh in
    rw (frame_roundtrip worker_register (c.encode_register req) rest (omega arith)) (
      rw (le→ltb_false (length (c.encode_register req)) max_message_size small) (
        rw codec.register (
          found.1 ∙ (rw (==_refl req.worker_id)),
          found.0,
          lookup-insert req.worker_id req.worker_id stream h.worker_streams
              ∙ (rw (==_refl req.worker_id)),
          (_, refl, answer_read c h.registry.next_registration_id codec.registered small'),
        )))

-- A connection whose first frame is of another type is refused by that type and changes nothing. So is
-- each heartbeat, which the worker sends on a connection of its own.
pub other_frame_refused :
    (c : Codec) (kind : ℕ) (payload rest : List ℕ) (writes : Bool) (stream now : ℕ) (h : Hub)
    → length payload ≤ max_message_size
    → kind ≢ worker_register
    → handle_new_worker c (build_request kind payload ++ rest) writes stream now h
      ≡ (h, err (expected_register kind))
unfolding handle_new_worker
other_frame_refused c kind payload rest writes stream now h small other =
    rw (frame_roundtrip kind payload rest (omega arith))
      (rw (le→ltb_false (length payload) max_message_size small) (ground arith))
