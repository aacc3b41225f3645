-- ===== src/Consolidation/Ended.antt =====
-- src-tauri/src/memory_consolidation.rs: the status that a consolidation run is left in.
use cozmio.Prelude.{
  ℕ, suc, ◌≤◌, String, ◌≡◌, refl, false, Option, none, some, List, [], ◌∷◌, ◌++◌, map, arith,
  nat_eq, if◌then◌else◌, Bool-cases, inl, inr, All, ap, ◌∙◌,
}
use mathlib.Core.Option
use cozmio.Prelude.Results.{Result, ok, err}
use cozmio.Prelude.Text.{is_blank, is_whitespace}
use cozmio.Memories.{ConsolidationRun, Database, validate_non_empty, is_nil}
use cozmio.Memories.Sources.{
  get_run, new_run, add_run, create_consolidation_run, complete_consolidation_run,
  fail_consolidation_run, completed, failed,
}
use cozmio.Experience.{Problem}
use cozmio.Consolidation.{Externals, ConsolidationPacket, MemoryOperationInput}
use cozmio.Consolidation.Applying.{Moment, ApplyMemoryOperationResult, Step}
use cozmio.Consolidation.Runs.{
  ConsolidationRunDto, problem_text, apply_all, finish_run, run_manual_consolidation,
}
use cozmio.Consolidation.Steady.{apply_all-runs}

abbrev status_of : ℕ → Database → Option String
status_of id db = Option.map (λ r. r.status) (get_run id db.runs)

-- The status that a result of a run stands for: a run whose error has no text cannot be failed.
abbrev pub status_after : String → Result Problem ConsolidationRunDto → String
status_after database (ok dto) = "completed"
status_after database (err e) = if is_blank (problem_text database e) then "running" else "failed"

-- No run has a number past the last one given.
abbrev pub IsNumbered : Database → Type 0
IsNumbered db = All (λ r. r.id ≤ db.last_run_id) db.runs

get_run-last :
    (n : ℕ) (rs : List ConsolidationRun) (r : ConsolidationRun)
    → All (λ q. q.id ≤ n) rs
    → r.id ≡ suc n
    → get_run (suc n) (rs ++ r ∷ []) ≡ some r
unfolding get_run
get_run-last n [] r a e = ground (arith, e)
get_run-last n (q ∷ qs) r a e = ground (arith, a.0, get_run-last n qs r a.1 e)

get_run-update :
    (id : ℕ) (f : ConsolidationRun → ConsolidationRun) (rs : List ConsolidationRun)
    → ((r : ConsolidationRun) → (f r).id ≡ r.id)
    → get_run id (map (λ r. if nat_eq r.id id then f r else r) rs) ≡ Option.map f (get_run id rs)
unfolding get_run
get_run-update id f [] h = refl
get_run-update id f (r ∷ rs) h = elim (Bool-cases (nat_eq r.id id)) [
  | inl k ↦ rw (k, h r, k) refl
  | inr k ↦ rw (k, k) (get_run-update id f rs h)
]

module _ (results_json : List ApplyMemoryOperationResult → String) (database : String)
    (packet : ConsolidationPacket) (id : ℕ) (now : String) (run : ConsolidationRun) where
  finish-status :
      (x : Externals) (pj : ConsolidationPacket → String)
      (o : Step (List ApplyMemoryOperationResult))
      → get_run id o.0.runs ≡ some run
      → run.status ≡ "running"
      → let r = finish_run x pj results_json database packet id now o in
        status_of id r.0 ≡ some (status_after database r.1)
  unfolding finish_run complete_consolidation_run fail_consolidation_run validate_non_empty
  finish-status x pj (d, ok rs) g h =
      rw (g, get_run-update id (completed (results_json rs) now) d.runs (λ r. refl), g) refl
  finish-status x pj (d, err e) g h = elim (Bool-cases (is_blank (problem_text database e))) [
    | inl k ↦ rw (k, g) (ap some h)
    | inr k ↦
        rw (k, g, get_run-update id (failed (problem_text database e) now) d.runs (λ r. refl), g)
          refl
  ]

local_named : is_blank "local-manual" ≡ false
unfolding is_blank is_whitespace
local_named = refl

-- A run over some operations, with a trigger and a packet that are not blank, is left "completed"
-- when the call succeeds; when it returns an error, the run is left "failed", or "running" if the
-- text of the error is blank.
pub run-status :
    (x : Externals) (packet_json : ConsolidationPacket → String)
    (results_json : List ApplyMemoryOperationResult → String) (database trigger : String)
    (packet : ConsolidationPacket) (operations : List (MemoryOperationInput × Moment))
    (start end : String) (db : Database)
    → IsNumbered db
    → is_nil operations ≡ false
    → is_blank trigger ≡ false
    → is_blank (packet_json packet) ≡ false
    → let r =
        run_manual_consolidation x packet_json results_json database trigger packet operations start
          end db in
      status_of (suc db.last_run_id) r.0 ≡ some (status_after database r.1)
unfolding run_manual_consolidation create_consolidation_run validate_non_empty
run-status x packet_json results_json database trigger packet operations start end db n o t p =
    let id = suc db.last_run_id in
    let run = new_run id trigger "local-manual" (packet_json packet) none start in
    let d = add_run run db in
    rw (o, t, p, local_named)
      (finish-status results_json database packet id end run x packet_json
        (apply_all x packet_json results_json database packet operations d)
        (ap (get_run id)
            (apply_all-runs d.runs x packet_json results_json database packet operations d refl)
          ∙ get_run-last db.last_run_id db.runs run n refl)
        refl)
