-- ===== src/Memories/Sources.antt =====
-- cozmio_memory/src/agent_memory.rs: the methods of `AgentMemoryStore` on experience sources and
-- consolidation runs.
use cozmio.Prelude.{
  ℕ, suc, String, Bool, ◌&&◌, ◌||◌, Option, none, some, List, [], ◌∷◌, ◌++◌, map, nat_eq,
  if◌then◌else◌, find, take, ◌==◌, string_key,
}
use cozmio.Prelude.Results.{ok, err}
use cozmio.Prelude.Text.{str_ltb}
use cozmio.Memories.{
  ExperienceSource, ConsolidationRun, Database, Outcome, Done, not_found, constraint,
  validate_non_empty, guarded, is_some,
}
use cozmio.Memories.Writes.{or_blank}

unfoldable pub get_source : String → List ExperienceSource → Option ExperienceSource
get_source r = find (λ s. s.source_ref == r)

abbrev pub time_or : String → Option String → String
time_or now none = now
time_or now (some t) = t

abbrev pub stored_source : String → ExperienceSource → ExperienceSource
stored_source now s = record s {
  timestamp = some (time_or now s.timestamp);
  artifact_refs_json = or_blank "[]" s.artifact_refs_json;
}

-- `INSERT INTO experience_sources`: `source_ref` is the primary key of the table.
unfoldable pub add_source : ExperienceSource → String → Database → Outcome String
unfolding get_source
add_source s now db =
    if is_some (get_source s.source_ref db.sources)
    then (db, err constraint)
    else (record db { sources = db.sources ++ stored_source now s ∷ [] }, ok s.source_ref)

unfoldable pub insert_experience_source : ExperienceSource → String → Database → Outcome String
unfolding add_source
insert_experience_source s now db = guarded (validate_non_empty "source ref" s.source_ref) db (
    guarded (validate_non_empty "event kind" s.event_kind) db
      (guarded (validate_non_empty "factual text" s.factual_text) db (add_source s now db)))

-- `ORDER BY timestamp DESC, source_ref DESC`: whether the first comes before the second.
abbrev pub is_later : ExperienceSource → ExperienceSource → Bool
is_later a b =
    let x = time_or "" a.timestamp in
    let y = time_or "" b.timestamp in str_ltb y x || ((x == y) && str_ltb b.source_ref a.source_ref)

unfoldable pub insert_source : ExperienceSource → List ExperienceSource → List ExperienceSource
insert_source s [] = s ∷ []
insert_source s (t ∷ ts) = if is_later t s then t ∷ insert_source s ts else s ∷ t ∷ ts

unfoldable pub by_time : List ExperienceSource → List ExperienceSource
unfolding insert_source
by_time [] = []
by_time (s ∷ ss) = insert_source s (by_time ss)

unfoldable pub recent_experience_sources : ℕ → Database → List ExperienceSource
unfolding by_time
recent_experience_sources limit db = take limit (by_time db.sources)

unfoldable pub get_run : ℕ → List ConsolidationRun → Option ConsolidationRun
get_run id = find (λ r. nat_eq r.id id)

abbrev pub new_run : ℕ → String → String → String → Option String → String → ConsolidationRun
new_run id trigger_kind route packet_json model_name now = record {
  id = id;
  trigger_kind = trigger_kind;
  route = route;
  packet_json = packet_json;
  model_name = model_name;
  output_text = none;
  status = "running";
  error_text = none;
  created_at = now;
  completed_at = none;
}

abbrev pub add_run : ConsolidationRun → Database → Database
add_run r db = record db { runs = db.runs ++ r ∷ []; last_run_id = suc db.last_run_id }

unfoldable pub create_consolidation_run :
    String → String → String → Option String → String → Database → Outcome ℕ
create_consolidation_run trigger_kind route packet_json model_name now db =
    let id = suc db.last_run_id in
    guarded (validate_non_empty "trigger kind" trigger_kind) db (
      guarded (validate_non_empty "route" route) db (
        guarded (validate_non_empty "packet json" packet_json) db
          (add_run (new_run id trigger_kind route packet_json model_name now) db, ok id)))

abbrev pub update_run : ℕ → (ConsolidationRun → ConsolidationRun) → Database → Outcome Done
update_run id f db =
    if is_some (get_run id db.runs)
    then (record db { runs = map (λ r. if nat_eq r.id id then f r else r) db.runs }, ok tt)
    else (db, err (not_found "consolidation run" id))

abbrev pub completed : String → String → ConsolidationRun → ConsolidationRun
completed output now r = record r {
  output_text = some output;
  status = "completed";
  error_text = none;
  completed_at = some now;
}

abbrev pub failed : String → String → ConsolidationRun → ConsolidationRun
failed error now r = record r {
  status = "failed";
  error_text = some error;
  completed_at = some now;
}

unfoldable pub complete_consolidation_run : ℕ → String → String → Database → Outcome Done
unfolding get_run
complete_consolidation_run id output now = update_run id (completed output now)

unfoldable pub fail_consolidation_run : ℕ → String → String → Database → Outcome Done
unfolding get_run
fail_consolidation_run id error now db =
    guarded (validate_non_empty "error text" error) db (update_run id (failed error now) db)

abbrev pub get_consolidation_run : ℕ → Database → Option ConsolidationRun
get_consolidation_run id db = get_run id db.runs
