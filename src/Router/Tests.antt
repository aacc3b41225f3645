-- ===== src/Router/Tests.antt =====
-- Requests at concrete routers, and the theorems at inputs that meet their hypotheses.
use cozmio.Prelude.{
  ◌≡◌, refl, ◌⊎◌, true, false, none, [], ◌∷◌, String, In, if◌then◌else◌, string_key,
}
use cozmio.Prelude.Int.{pos}
use cozmio.Prelude.Results.{ok}
use cozmio.Prelude.Maps.{lookup, insert, remove, modify}
use cozmio.Workers.{
  WorkerInfo, WorkerRegistry, new_info, with_state, idle, busy, values, is_online, is_idle,
  idle_count, online_count, get,
}
use cozmio.Workers
use cozmio.Router.{
  InferenceRouter, InferenceRequest, InferenceResponse, select_worker, begin_request,
  finish_request, handle_response, cancelled, cleanup_stale_requests,
}
use cozmio.Router.Pending.{handle_response_once, cleanup_exact}
use cozmio.Router.Traffic.{Traffic, Step, Reach, no_request_left}
use cozmio.Router.Traffic
use cozmio.Router.Answers.{response_is_own}

abbrev box : WorkerInfo
box = new_info "box" "gpu" "0.0.0.0:0" (pos 30) 1 0

abbrev free_box : WorkerInfo
free_box = with_state idle (new_info "free" "gpu" "0.0.0.0:0" (pos 30) 2 0)

abbrev two_workers : WorkerRegistry
two_workers = record { workers = ("box", box) ∷ ("free", free_box) ∷ []; next_registration_id = 3 }

abbrev router : InferenceRouter
router = record {
  registry = two_workers;
  pending_requests = [];
  worker_tx = [];
  worker_rx_alive = true;
  oneshots = [];
}

abbrev asked : String → InferenceRequest
asked id = record {
  request_id = id;
  worker_id = "box";
  context_bundle = "ctx";
  timeout_secs = pos 5;
}

abbrev reply : InferenceResponse
reply = record { request_id = "a"; success = true; payload_text = "yes"; error = "" }

idle_first : select_worker two_workers ≡ ok "free"
unfolding select_worker
idle_first = refl

abbrev asked_a : InferenceRouter
asked_a = (begin_request (asked "a") 0 router).0

answered : (finish_request "a" "box" (handle_response "a" reply asked_a).0).1 ≡ ok reply
unfolding finish_request handle_response begin_request lookup insert remove modify Workers.mark_busy
answered = refl

handle_response_once_example :
    (handle_response "b" reply (handle_response "a" reply asked_a).0).1
    ≡ (if string_key.same "a" "b" then false else (handle_response "b" reply asked_a).1)
handle_response_once_example = handle_response_once "a" "b" reply reply asked_a

abbrev aged : InferenceRouter
aged = record router {
  pending_requests =
      ("a", record { request = asked "a"; created_at = 0 })
      ∷ ("b", record { request = asked "b"; created_at = 50000000000 })
      ∷ [];
}

cleanup_exact_example :
    lookup "a" (cleanup_stale_requests (pos 30) 60000000000 aged).pending_requests ≡ none
unfolding lookup
cleanup_exact_example = cleanup_exact (pos 30) 60000000000 "a" aged (refl, (refl, tt))

abbrev answered_traffic : Traffic
answered_traffic = record {
  router = (handle_response "a" reply asked_a).0;
  waiting = ("a", "box") ∷ [];
  answers = ("a", reply) ∷ [];
}

answered-Reach : Reach answered_traffic
unfolding begin_request
answered-Reach =
    Reach.next
      (Reach.next (Reach.quiet router refl refl) (Traffic.begin (asked "a") 0 asked_a refl))
      (Traffic.respond "a" reply)

response_is_own_example : In ("a", reply) answered_traffic.answers ⊎ (reply ≡ cancelled "a")
response_is_own_example = response_is_own answered_traffic "a" "box" reply answered-Reach answered

abbrev done : Traffic
done = record {
  router = (finish_request "a" "box" (handle_response "a" reply asked_a).0).0;
  waiting = [];
  answers = ("a", reply) ∷ [];
}

done-Reach : Reach done
done-Reach = Reach.next answered-Reach (Traffic.finish [] [] "a" "box" refl)

no_request_left_example : done.router.pending_requests ≡ []
no_request_left_example = no_request_left done done-Reach refl

abbrev stopped : InferenceRouter
stopped = record router { worker_rx_alive = false }
