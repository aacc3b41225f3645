-- ===== src/Links/Tests.antt =====
-- Connections at concrete bytes, and the theorems at inputs that meet their hypotheses.
use cozmio.Prelude.{
  ℕ, ◌≡◌, ◌↔◌, ◌⊎◌, refl, true, none, some, List, [], ◌∷◌, ◌++◌, arith, string_key,
}
use cozmio.Prelude.Int.{pos}
use cozmio.Prelude.Maps.{lookup}
use cozmio.Prelude.Results.{ok}
use cozmio.Frames.{build_request}
use cozmio.Workers.{WorkerInfo, new_info, is_online, get, get_by_registration_id}
use cozmio.Links.Codecs.{Codec, WorkerRegisterRequest}
use cozmio.Links.{Hub, registered, handle_new_worker, get_stream_arc, check_workers_connected}
use cozmio.Links.Registering.{registration_answer, registration_end_to_end}
use cozmio.Links.Heartbeats.{IsSilent, check_exact}

abbrev box : WorkerRegisterRequest
box = record {
  worker_id = "box";
  worker_type = "gpu";
  endpoint = "0.0.0.0:0";
  heartbeat_interval_secs = pos 30;
}

-- A codec that knows these two messages.
abbrev toy : Codec
toy = record {
  encode_register = λ m. 1 ∷ [];
  decode_register = λ bytes. some box;
  encode_registered = λ m. m.registration_id ∷ [];
  decode_registered = λ bytes. elim bytes [ [] ↦ none | b ∷ bs ↦ some (registered b) ];
}

abbrev start : Hub
start = record {
  registry = record { workers = []; next_registration_id = 1 };
  worker_streams = [];
  heartbeat_tasks = [];
}

registration_end_to_end_example :
    let (h', result) =
      handle_new_worker toy (build_request 100 (1 ∷ []) ++ 9 ∷ []) true 4 7 start in
    let info = new_info "box" "gpu" "0.0.0.0:0" (pos 30) 1 7 in
    (get "box" h'.registry ≡ some info)
    × (get_by_registration_id 1 h'.registry ≡ some info)
    × (get_stream_arc "box" h' ≡ some 4)
    × ((bytes : List ℕ) × (result ≡ ok ("box", bytes)) × (registration_answer toy bytes ≡ ok 1))
registration_end_to_end_example =
    registration_end_to_end toy box (9 ∷ []) 4 7 start
      (record { register = refl; registered = refl }) (record { below = tt }) (omega arith)
      (omega arith)

abbrev box_info : WorkerInfo
box_info = new_info "box" "gpu" "0.0.0.0:0" (pos 30) 1 7

abbrev linked : Hub
linked = record {
  registry = record { workers = ("box", box_info) ∷ []; next_registration_id = 2 };
  worker_streams = ("box", 4) ∷ [];
  heartbeat_tasks = ("box", 5) ∷ [];
}

check_exact_example :
    let after = get "box" (check_workers_connected 90000000008 linked).registry in
    ((after ≡ none) ↔ ((is_online box_info ≡ true) × IsSilent 90000000008 box_info))
    × ((after ≡ none) ⊎ (after ≡ some box_info))
unfolding lookup
check_exact_example = check_exact 90000000008 "box" box_info linked (refl, refl, tt) refl
