-- ===== src/Consolidation/Operations.antt =====
-- src-tauri/src/memory_consolidation.rs: the operations as they are applied, the user's rejection of a
-- memory, and the use count of a procedure.
use cozmio.Prelude.{ℕ, String, Option, none, some, List, [], if◌then◌else◌, ◌==◌, string_key}
use cozmio.Prelude.Int.{ℤ}
use cozmio.Prelude.Results.{Result, ok, err}
use cozmio.Prelude.Text.{trim}
use cozmio.Prelude.Numerals.{show_int, parse_i64}
use cozmio.Memories.{AgentMemory, Database, Done, get}
use cozmio.Memories.Writes.{reject_with_reason, mark_used}
use cozmio.Experience.{◌<+>◌, Problem, message, of_store, record_memory_feedback_with_store}
use cozmio.Consolidation.{
  Externals, ConsolidationPacket, MemoryOperationInput, Validated, validate_memory_operation,
  remove_or_supersede, abstain,
}
use cozmio.Consolidation.Applying.{
  Moment, AgentMemoryDto, MemoryOperationDto, ApplyMemoryOperationResult, Step, and_then, row_id,
  stable_id, create_memory, supersede_memory,
}

module _ (x : Externals) where
  unfoldable pub accepted : MemoryOperationInput → Validated → Moment → MemoryOperationDto
  unfolding stable_id
  accepted i v now = record {
    operation_id = stable_id x "op" now.seconds (
        i.operation_type
        <+> ":"
        <+> x.debug_option i.target_memory_id
        <+> ":"
        <+> x.debug_option v.body
        <+> ":"
        <+> x.debug_list v.source_refs);
    created_at = now.seconds;
    operation_type = i.operation_type;
    target_memory_id = i.target_memory_id;
    resulting_memory_id = none;
    body = v.body;
    source_refs = v.source_refs;
    status = "accepted";
    error_text = none;
    producer = v.producer;
  }

  abbrev pub resulting : MemoryOperationDto → AgentMemoryDto → ApplyMemoryOperationResult
  resulting o m = record {
    operation = record o { resulting_memory_id = some m.memory_id };
    memory = some m;
  }

  abbrev pub without_memory : MemoryOperationDto → ApplyMemoryOperationResult
  without_memory o = record { operation = o; memory = none }

  -- The feedback that follows a change, then the result.
  unfoldable pub with_feedback :
      {A : Type 0} → String → String → String → List String → A → String → Database → Step A
  unfolding record_memory_feedback_with_store
  with_feedback kind memory_id text refs a now db =
      and_then
        (record_memory_feedback_with_store x.digest x.to_json kind memory_id text refs now db)
        (λ _ d. (d, ok a))

  unfoldable pub reject_target :
      ℤ → Validated → MemoryOperationDto → String → Database → Step ApplyMemoryOperationResult
  unfolding with_feedback reject_with_reason show_int
  reject_target target v o now db =
      and_then
        (of_store (
          reject_with_reason (row_id target)
            (some "remove_or_supersede operation without successor body") v.producer now db))
        (λ _ d.
          with_feedback "memory_rejected" (show_int target)
            ("remove_or_supersede operation rejected memory_id="
              <+> show_int target
              <+> " without successor body")
            v.source_refs (without_memory o) now d)

  -- A successor needs a layer and a body; otherwise the target is rejected.
  unfoldable pub remove_target :
      ℤ
      → Option String
      → Option String
      → Validated
      → MemoryOperationDto
      → String
      → Database
      → Step ApplyMemoryOperationResult
  unfolding supersede_memory with_feedback reject_target
  remove_target target (some layer) (some body) v o now db =
      and_then (supersede_memory x (row_id target) body layer v.source_refs v.producer now db)
        (λ m d.
          with_feedback "memory_superseded" (show_int target)
            ("remove_or_supersede operation superseded memory_id="
              <+> show_int target
              <+> " resulting_memory_id="
              <+> m.memory_id)
            v.source_refs (resulting o m) now d)
  remove_target target none body v o now db = reject_target target v o now db
  remove_target target (some layer) none v o now db = reject_target target v o now db

  -- The target is parsed as it was given, with its blanks.
  unfoldable pub remove_parsed :
      Option ℤ
      → Validated
      → MemoryOperationDto
      → String
      → Database
      → Step ApplyMemoryOperationResult
  unfolding remove_target
  remove_parsed none v o now db = (db, err (message "invalid digit found in string"))
  remove_parsed (some target) v o now db = remove_target target v.layer v.body v o now db

  unfoldable pub remove_given :
      Option String
      → Validated
      → MemoryOperationDto
      → String
      → Database
      → Step ApplyMemoryOperationResult
  unfolding remove_parsed
  remove_given none v o now db =
      (db, err (message "target_memory_id is required for remove_or_supersede"))
  remove_given (some t) v o now db = remove_parsed (parse_i64 t) v o now db

  unfoldable pub create_given :
      Option String
      → Option String
      → Validated
      → MemoryOperationDto
      → String
      → Database
      → Step ApplyMemoryOperationResult
  unfolding create_memory
  create_given none body v o now db = (db, err (message "layer is required for memory creation"))
  create_given (some layer) none v o now db =
      (db, err (message "body is required for memory creation"))
  create_given (some layer) (some body) v o now db =
      and_then (create_memory x body layer v.source_refs v.producer now db)
        (λ m d. (d, ok (resulting o m)))

  unfoldable pub apply_validated :
      MemoryOperationInput
      → Result Problem Validated
      → Moment
      → Database
      → Step ApplyMemoryOperationResult
  unfolding accepted remove_given create_given
  apply_validated i (err e) now db = (db, err e)
  apply_validated i (ok v) now db =
      let o = accepted i v now in
      if i.operation_type == abstain
      then (db, ok (without_memory o))
      else if i.operation_type == remove_or_supersede
      then remove_given i.target_memory_id v o now.text db
      else create_given v.layer v.body v o now.text db

  unfoldable pub apply_memory_operation :
      ConsolidationPacket
      → MemoryOperationInput
      → Moment
      → Database
      → Step ApplyMemoryOperationResult
  unfolding apply_validated
  apply_memory_operation packet i now db =
      apply_validated i (validate_memory_operation i packet) now db

  abbrev pub reason_or : Option String → String
  reason_or none = "agent memory rejected"
  reason_or (some r) = r

  unfoldable pub reject_parsed : Option ℤ → String → Option String → String → Database → Step Done
  unfolding with_feedback reject_with_reason
  reject_parsed none memory_id reason now db = (db, err (message "memory_id must be numeric"))
  reject_parsed (some id) memory_id reason now db =
      and_then (of_store (reject_with_reason (row_id id) reason "user" now db))
        (λ _ d. with_feedback "memory_rejected" memory_id (reason_or reason) [] tt now d)

  unfoldable pub reject_agent_memory : String → Option String → String → Database → Step Done
  unfolding reject_parsed
  reject_agent_memory memory_id reason now db =
      reject_parsed (parse_i64 (trim memory_id)) memory_id reason now db

abbrev pub count_after : Option AgentMemory → Database → Step ℤ
count_after none db = (db, err (message "Memory not found after update"))
count_after (some m) db = (db, ok m.used_count)

unfoldable pub count_use : ℕ → Option AgentMemory → String → Database → Step ℤ
unfolding mark_used
count_use id none now db = (db, err (message "Memory not found"))
count_use id (some m) now db =
    let marked = and_then (of_store (mark_used id now db)) (λ _ d. count_after (get id d) d) in
    if m.layer == "procedure" then marked else (db, err (message "expected 'procedure'"))

abbrev pub count_parsed : Option ℤ → String → Database → Step ℤ
count_parsed none now db = (db, err (message "memory_id must be numeric"))
count_parsed (some id) now db = count_use (row_id id) (get (row_id id) db) now db

unfoldable pub increment_procedure_use_count : String → String → Database → Step ℤ
increment_procedure_use_count memory_id now db = count_parsed (parse_i64 (trim memory_id)) now db
