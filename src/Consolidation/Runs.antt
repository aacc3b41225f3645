-- ===== src/Consolidation/Runs.antt =====
-- src-tauri/src/memory_consolidation.rs: a consolidation run over a list of operations.
--
-- The JSON texts and the text of a database error are parameters. Each operation comes with the
-- moment at which it is applied.
use cozmio.Prelude.{ℕ, String, Option, none, some, List, [], ◌∷◌, if◌then◌else◌}
use cozmio.Prelude.Results.{Result, ok, err}
use cozmio.Prelude.Numerals.{show_nat}
use cozmio.Memories.{not_found, import_error, constraint, ConsolidationRun, Database, is_nil}
use cozmio.Memories.Sources.{
  create_consolidation_run, complete_consolidation_run, fail_consolidation_run,
  get_consolidation_run,
}
use cozmio.Experience.{◌<+>◌, Problem, message, store, of_store}
use cozmio.Consolidation.{Externals, ConsolidationPacket, MemoryOperationInput}
use cozmio.Consolidation.Applying.{Moment, ApplyMemoryOperationResult, Step, and_then}
use cozmio.Consolidation.Operations.{apply_memory_operation}

pub record ConsolidationRunDto : Type 0 where
  pub run_id : String
  pub trigger_kind : String
  pub route : String
  pub status : String
  pub output_text : Option String
  pub error_text : Option String
  pub operations : List ApplyMemoryOperationResult
  pub packet : ConsolidationPacket

unfoldable pub run_to_dto :
    ConsolidationRun → ConsolidationPacket → List ApplyMemoryOperationResult → ConsolidationRunDto
unfolding show_nat
run_to_dto r packet operations = record {
  run_id = show_nat r.id;
  trigger_kind = r.trigger_kind;
  route = r.route;
  status = r.status;
  output_text = r.output_text;
  error_text = r.error_text;
  operations = operations;
  packet = packet;
}

-- `to_string` of the errors.
unfoldable pub problem_text : String → Problem → String
unfolding show_nat
problem_text database (message s) = s
problem_text database (store (not_found entity id)) =
    "Not found: " <+> entity <+> " " <+> show_nat id
problem_text database (store (import_error s)) = "Import error: " <+> s
problem_text database (store constraint) = "Database error: " <+> database

module _ (x : Externals) (packet_json : ConsolidationPacket → String)
    (results_json : List ApplyMemoryOperationResult → String) (database : String) where
  -- The operations in order, up to the first that fails.
  unfoldable pub apply_all :
      ConsolidationPacket
      → List (MemoryOperationInput × Moment)
      → Database
      → Step (List ApplyMemoryOperationResult)
  unfolding apply_memory_operation
  apply_all packet [] db = (db, ok [])
  apply_all packet ((i, now) ∷ is) db =
      and_then (apply_memory_operation x packet i now db)
        (λ r d. and_then (apply_all packet is d) (λ rs d'. (d', ok (r ∷ rs))))

  unfoldable pub dto_of_run :
      ConsolidationPacket
      → List ApplyMemoryOperationResult
      → ℕ
      → Option ConsolidationRun
      → Result Problem ConsolidationRunDto
  unfolding run_to_dto
  dto_of_run packet rs id none = err (message ("consolidation run not found: " <+> show_nat id))
  dto_of_run packet rs id (some r) = ok (run_to_dto r packet rs)

  unfoldable pub finish_run :
      ConsolidationPacket
      → ℕ
      → String
      → Step (List ApplyMemoryOperationResult)
      → Step ConsolidationRunDto
  unfolding problem_text dto_of_run complete_consolidation_run fail_consolidation_run
  finish_run packet id now (d, err e) =
      ((fail_consolidation_run id (problem_text database e) now d).0, err e)
  finish_run packet id now (d, ok rs) =
      and_then (of_store (complete_consolidation_run id (results_json rs) now d))
        (λ _ d'. (d', dto_of_run packet rs id (get_consolidation_run id d')))

  unfoldable pub run_manual_consolidation :
      String
      → ConsolidationPacket
      → List (MemoryOperationInput × Moment)
      → String
      → String
      → Database
      → Step ConsolidationRunDto
  unfolding apply_all finish_run create_consolidation_run
  run_manual_consolidation trigger packet operations start end db =
      if is_nil operations
      then (db, err (message "operations must be non-empty"))
      else and_then
          (of_store
            (create_consolidation_run trigger "local-manual" (packet_json packet) none start db))
          (λ id d. finish_run packet id end (apply_all packet operations d))
