-- ===== src/Incoming/Lost.antt =====
-- What becomes of a worker that registers: its thread is in no runtime, and panics at the monitor.
use cozmio.Prelude.{
  ℕ, ◌+◌, ◌≤◌, ◌<◌, ◌≡◌, refl, ◌∙◌, true, false, Option, none, some, List, ◌++◌, length, arith,
  string_key, ==_refl, le→ltb_false,
}
use cozmio.Frames.{build_request, max_message_size}
use cozmio.Workers.{WorkerInfo, get, new_info}
use cozmio.Workers
use cozmio.Workers.Keyed.{IsKeyed, change-IsKeyed}
use cozmio.Workers.Registration.{IsFresh, change, register, register_found}
use cozmio.Links.{
  Hub, worker_register, handle_new_worker, get_stream_arc, check_workers_connected,
  start_heartbeat_monitor, enlist, respond,
}
use cozmio.Links.Codecs.{Codec, WorkerRegisterRequest}
use cozmio.Frames.Typed.{frame_roundtrip}
use cozmio.Prelude.Maps.{lookup-insert}
use cozmio.Links.Heartbeats.{check_exact}
use cozmio.Router.{InferenceResponse}
use cozmio.Incoming.{Engine, with_hub, known, handle_worker_connection}

new_worker :
    (c : Codec) (req : WorkerRegisterRequest) (rest : List ℕ) (stream now : ℕ) (h : Hub)
    → c.decode_register (c.encode_register req) ≡ some req
    → length (c.encode_register req) ≤ max_message_size
    → handle_new_worker c
        (build_request worker_register (c.encode_register req) ++ rest)
        true
        stream
        now
        h
      ≡ respond c true req (enlist req stream now h)
unfolding handle_new_worker
new_worker c req rest stream now h reads small =
    rw (frame_roundtrip worker_register (c.encode_register req) rest (omega arith))
      (rw (le→ltb_false (length (c.encode_register req)) max_message_size small) (rw reads refl))

module _ (codec : Codec) (decode : List ℕ → Option InferenceResponse) (req : WorkerRegisterRequest)
    (stream now : ℕ) where
  abbrev enlisted : Hub → Hub
  enlisted h = (enlist req stream now h).0

  enlisted-found :
      (h : Hub)
      → IsFresh h.registry
      → get req.worker_id (enlisted h).registry
        ≡ some (
            new_info req.worker_id req.worker_type req.endpoint req.heartbeat_interval_secs
              h.registry.next_registration_id now)
  unfolding Workers.register
  enlisted-found h fresh =
      (register_found h.registry req.worker_id req.worker_type req.endpoint req.worker_id
        req.heartbeat_interval_secs now fresh).1
      ∙ (rw (==_refl req.worker_id) refl)

  enlisted-held : (h : Hub) → get_stream_arc req.worker_id (enlisted h) ≡ some stream
  enlisted-held h =
      lookup-insert req.worker_id req.worker_id stream h.worker_streams
      ∙ (rw (==_refl req.worker_id) refl)

  enlisted-IsKeyed : (h : Hub) → IsKeyed h.registry.workers → IsKeyed (enlisted h).registry.workers
  unfolding change
  enlisted-IsKeyed h k =
      change-IsKeyed h.registry now
        (register req.worker_id req.worker_type req.endpoint req.heartbeat_interval_secs) k

  -- Once the worker is registered, the thread ends at the monitor.
  stopped :
      (fuel task : ℕ) (rest : List ℕ) (e : Engine)
      → IsFresh e.session_manager.registry
      → known codec decode false fuel task req.worker_id rest
          (enlisted e.session_manager)
          (get req.worker_id (enlisted e.session_manager).registry)
          e
        ≡ (with_hub (enlisted e.session_manager) e, true)
  unfolding start_heartbeat_monitor
  stopped fuel task rest e fresh =
      rw (enlisted-found e.session_manager fresh) (rw (enlisted-held e.session_manager) refl)

  connection_ends :
      (fuel task : ℕ) (rest : List ℕ) (e : Engine)
      → codec.decode_register (codec.encode_register req) ≡ some req
      → IsFresh e.session_manager.registry
      → length (codec.encode_register req) ≤ max_message_size
      → handle_worker_connection codec decode false fuel task
          (build_request worker_register (codec.encode_register req) ++ rest)
          true
          stream
          now
          e
        ≡ (with_hub (enlisted e.session_manager) e, true)
  unfolding handle_worker_connection
  connection_ends fuel task rest e reads fresh small =
      rw (new_worker codec req rest stream now e.session_manager reads small)
        (stopped fuel task _ e fresh)

  -- A worker that registers on a thread that is in no tokio runtime, as those of the accept loop are,
  -- and whose response is written, is registered, and its thread ends without routing any of the messages that follow on the
  -- connection: the requests and their receivers are as before. A check more than 90 seconds later drops
  -- the worker, whatever it sent. The table lists each worker under its own id, once.
  pub worker_lost :
      (fuel task later : ℕ) (rest : List ℕ) (e : Engine)
      → codec.decode_register (codec.encode_register req) ≡ some req
      → IsFresh e.session_manager.registry
      → IsKeyed e.session_manager.registry.workers
      → length (codec.encode_register req) ≤ max_message_size
      → now + 90000000000 < later
      → let (e', ended) =
          handle_worker_connection codec decode false fuel task
            (build_request worker_register (codec.encode_register req) ++ rest)
            true
            stream
            now
            e in
        (ended ≡ true)
        × (get req.worker_id e'.session_manager.registry
            ≡ some (
                new_info req.worker_id req.worker_type req.endpoint req.heartbeat_interval_secs
                  e.session_manager.registry.next_registration_id now))
        × (e'.inference_router.pending_requests ≡ e.inference_router.pending_requests)
        × (e'.inference_router.oneshots ≡ e.inference_router.oneshots)
        × (get req.worker_id (check_workers_connected later e'.session_manager).registry ≡ none)
  worker_lost fuel task later rest e reads fresh keyed small late =
      rw (connection_ends fuel task rest e reads fresh small) (
        refl,
        enlisted-found e.session_manager fresh,
        refl,
        refl,
        (check_exact later req.worker_id _ (enlisted e.session_manager)
              (enlisted-IsKeyed e.session_manager keyed)
              (enlisted-found e.session_manager fresh)).0.1
            (refl, late),
      )
