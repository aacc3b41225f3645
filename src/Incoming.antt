-- ===== src/Incoming.antt =====
-- relay-engine/src/main.rs: the connection of a worker, and the loop that reads its messages.
--
-- The loop looks its stream up before each message, and ends when the stream is gone, when a read
-- fails, or at a message that is too large. The bytes that are still to be read are an argument, and the
-- threads that run beside the loop are left out. The engine's parts share one registry, so a change of
-- the connections is a change of the router's registry as well. `decode` of prost is a parameter.
pub mod Ended
pub mod Routed
pub mod Lost
mod Tests
use cozmio.Prelude.{
  ℕ, zero, suc, String, Bool, true, false, Option, none, some, List, [], nat_eq, if◌then◌else◌,
  string_key,
}
use cozmio.Prelude.Results.{Result, ok, err}
use cozmio.Frames.{FrameError, io, too_large, empty_frame, read_frame}
use cozmio.Workers.{WorkerInfo, get}
use cozmio.Links.Codecs.{Codec}
use cozmio.Links.{
  Hub, SessionError, get_stream_arc, handle_disconnect, handle_new_worker, start_heartbeat_monitor,
}
use cozmio.Router.{InferenceRouter, InferenceResponse, handle_response}

-- proto/mod.rs
abbrev pub inference_response : ℕ
inference_response = 103

pub record Engine : Type 0 where
  pub session_manager : Hub
  pub inference_router : InferenceRouter

-- The worker is disconnected, in the registry that both parts share.
unfoldable pub disconnect : String → Engine → Engine
disconnect worker_id e =
    let h = handle_disconnect worker_id e.session_manager in
    record {
      session_manager = h;
      inference_router = record e.inference_router { registry = h.registry };
    }

unfoldable pub route : InferenceResponse → Engine → Engine
route response e = record e {
  inference_router = (handle_response response.request_id response e.inference_router).0;
}

module _ (decode : List ℕ → Option InferenceResponse) where
  abbrev pub on_response : Option InferenceResponse → Engine → Engine
  on_response none e = e
  on_response (some response) e = route response e

  abbrev pub handle_message : ℕ → List ℕ → Engine → Engine
  handle_message msg_type payload e =
      if nat_eq msg_type inference_response then on_response (decode payload) e else e

  -- What is left to read, or `none` when the loop is left.
  abbrev pub on_read :
      String → Result FrameError ((ℕ × List ℕ) × List ℕ) → Engine → Engine × Option (List ℕ)
  on_read worker_id (ok ((msg_type, payload), rest)) e =
      (handle_message msg_type payload e, some rest)
  on_read worker_id (err (too_large n)) e = (e, none)
  on_read worker_id (err io) e = (disconnect worker_id e, none)
  on_read worker_id (err empty_frame) e = (disconnect worker_id e, none)

  abbrev pub on_stream : String → List ℕ → Option ℕ → Engine → Engine × Option (List ℕ)
  on_stream worker_id bytes none e = (disconnect worker_id e, none)
  on_stream worker_id bytes (some stream) e = on_read worker_id (read_frame bytes) e

  -- One round of the loop.
  unfoldable pub next_message : String → List ℕ → Engine → Engine × Option (List ℕ)
  next_message worker_id bytes e =
      on_stream worker_id bytes (get_stream_arc worker_id e.session_manager) e

  -- The rounds that the fuel allows, and whether the loop was left.
  unfoldable pub handle_worker_messages_for_worker : ℕ → String → List ℕ → Engine → Engine × Bool
  handle_worker_messages_for_worker zero worker_id bytes e = (e, false)
  handle_worker_messages_for_worker (suc fuel) worker_id bytes e =
      let (e', rest) = next_message worker_id bytes e in
      elim rest [
        | none ↦ (e', true)
        | some bytes' ↦ handle_worker_messages_for_worker fuel worker_id bytes' e'
      ]

-- The connections, with the registry that both parts share.
abbrev pub with_hub : Hub → Engine → Engine
with_hub h e = record {
  session_manager = h;
  inference_router = record e.inference_router { registry = h.registry };
}

-- What is left on the stream behind its first frame.
abbrev pub behind : Result FrameError ((ℕ × List ℕ) × List ℕ) → List ℕ
behind (ok (request, rest)) = rest
behind (err e) = []

module _ (codec : Codec) (decode : List ℕ → Option InferenceResponse) where
  -- The message loop, on the thread that started the monitor, or nothing, if that panicked.
  abbrev pub monitored : ℕ → String → List ℕ → Hub → Option Hub → Engine → Engine × Bool
  monitored fuel worker_id rest h none e = (with_hub h e, true)
  monitored fuel worker_id rest h (some h') e =
      handle_worker_messages_for_worker decode fuel worker_id rest (with_hub h' e)

  abbrev pub streamed : Bool → ℕ → ℕ → String → List ℕ → Hub → Option ℕ → Engine → Engine × Bool
  streamed runtime fuel task worker_id rest h none e =
      handle_worker_messages_for_worker decode fuel worker_id rest (with_hub h e)
  streamed runtime fuel task worker_id rest h (some stream) e =
      monitored fuel worker_id rest h (start_heartbeat_monitor runtime worker_id task h) e

  abbrev pub known :
      Bool → ℕ → ℕ → String → List ℕ → Hub → Option WorkerInfo → Engine → Engine × Bool
  known runtime fuel task worker_id rest h none e = (with_hub h e, true)
  known runtime fuel task worker_id rest h (some info) e =
      streamed runtime fuel task worker_id rest h (get_stream_arc worker_id h) e

  abbrev pub accepted :
      Bool → ℕ → ℕ → List ℕ → Hub × Result SessionError (String × List ℕ) → Engine → Engine × Bool
  accepted runtime fuel task rest (h, err problem) e = (with_hub h e, true)
  accepted runtime fuel task rest (h, ok (worker_id, response)) e =
      known runtime fuel task worker_id rest h (get worker_id h.registry) e

  -- `runtime` tells whether the thread is in a tokio runtime. The connections of workers are handled on
  -- threads of `std::thread::spawn`, which are in none.
  unfoldable pub handle_worker_connection :
      Bool → ℕ → ℕ → List ℕ → Bool → ℕ → ℕ → Engine → Engine × Bool
  handle_worker_connection runtime fuel task bytes writes stream now e =
      accepted runtime fuel task (behind (read_frame bytes))
        (handle_new_worker codec bytes writes stream now e.session_manager) e
