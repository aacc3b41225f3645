-- ===== src/Incoming/Tests.antt =====
-- Message loops at concrete bytes, and the theorems at inputs that meet their hypotheses.
use cozmio.Prelude.{
  ℕ, ◌≡◌, refl, true, false, ◌++◌, Option, none, some, List, [], ◌∷◌, arith, string_key,
}
use cozmio.Prelude.Maps.{lookup}
use cozmio.Prelude.Int.{pos}
use cozmio.Frames.{build_request}
use cozmio.Workers.{WorkerRegistry, get, new_info}
use cozmio.Links.{check_workers_connected}
use cozmio.Links.Codecs.{Codec, WorkerRegisterRequest}
use cozmio.Incoming.Lost.{worker_lost}
use cozmio.Router.{InferenceResponse}
use cozmio.Incoming.{
  Engine, disconnect, handle_worker_connection, handle_worker_messages_for_worker,
}
use cozmio.Incoming.Ended.{messages_end}
use cozmio.Incoming.Routed.{AreSmall, stream_of, route_all, responses, messages_routed}

abbrev reply : InferenceResponse
reply = record { request_id = "a"; success = true; payload_text = "yes"; error = "" }

-- A codec that knows one message.
abbrev toy : List ℕ → Option InferenceResponse
toy [] = none
toy (b ∷ bs) = some reply

abbrev no_workers : WorkerRegistry
no_workers = record { workers = []; next_registration_id = 1 }

abbrev engine : Engine
engine = record {
  session_manager = record {
    registry = no_workers;
    worker_streams = ("box", 4) ∷ [];
    heartbeat_tasks = [];
  };
  inference_router = record {
    registry = no_workers;
    pending_requests = [];
    worker_tx = [];
    worker_rx_alive = true;
    oneshots = [];
  };
}

-- A heartbeat, a response that cannot be decoded, and a response.
abbrev sent : List (ℕ × List ℕ)
sent = (101, 7 ∷ []) ∷ (103, []) ∷ (103, 1 ∷ 2 ∷ []) ∷ []

one_response : responses toy sent ≡ reply ∷ []
unfolding responses
one_response = refl

messages_end_example :
    (handle_worker_messages_for_worker toy 9 "box" (0 ∷ 0 ∷ 0 ∷ 1 ∷ 101 ∷ 7 ∷ 0 ∷ 0 ∷ []) engine).1
    ≡ true
messages_end_example =
    messages_end toy 9 "box" (0 ∷ 0 ∷ 0 ∷ 1 ∷ 101 ∷ 7 ∷ 0 ∷ 0 ∷ []) engine (omega arith)

messages_routed_example :
    handle_worker_messages_for_worker toy 4 "box" (stream_of sent) engine
    ≡ (disconnect "box" (route_all (responses toy sent) engine), true)
unfolding lookup AreSmall
messages_routed_example =
    messages_routed toy 4 "box" 4 sent engine refl (omega arith, (omega arith, (omega arith, tt)))
      (omega arith)

abbrev box : WorkerRegisterRequest
box = record {
  worker_id = "gpu";
  worker_type = "gpu";
  endpoint = "0.0.0.0:0";
  heartbeat_interval_secs = pos 30;
}

abbrev registrar : Codec
registrar = record {
  encode_register = λ m. 1 ∷ [];
  decode_register = λ bytes. some box;
  encode_registered = λ m. [];
  decode_registered = λ bytes. none;
}

worker_lost_example :
    let (e', ended) =
      handle_worker_connection registrar toy false 9 5
        (build_request 100 (1 ∷ []) ++ stream_of sent)
        true
        6
        0
        engine in
    (ended ≡ true)
    × (get "gpu" e'.session_manager.registry ≡ some (new_info "gpu" "gpu" "0.0.0.0:0" (pos 30) 1 0))
    × (e'.inference_router.pending_requests ≡ engine.inference_router.pending_requests)
    × (e'.inference_router.oneshots ≡ engine.inference_router.oneshots)
    × (get "gpu" (check_workers_connected 90000000001 e'.session_manager).registry ≡ none)
worker_lost_example =
    worker_lost registrar toy box 6 0 9 5 90000000001 (stream_of sent) engine refl
      (record { below = tt }) tt (omega arith) (omega arith)
