-- ===== src/Consolidation/Steady.antt =====
-- src-tauri/src/memory_consolidation.rs: applying operations leaves the consolidation runs as they are.
use cozmio.Prelude.{
  ℕ, String, ◌≡◌, Option, none, some, List, [], ◌∷◌, Bool-cases, Option-cases, inl, inr, ◌==◌,
  string_key,
}
use cozmio.Prelude.Int.{ℤ}
use cozmio.Prelude.Results.{Result, ok, err}
use cozmio.Prelude.Numerals.{parse_i64}
use cozmio.Memories.{
  MemoryError, AgentMemory, MemoryWrite, ExperienceSource, ConsolidationRun, Database,
}
use cozmio.Memories.Writes.{remember_memory, reject_with_reason}
use cozmio.Memories.Writes
use cozmio.Memories.Sources.{insert_experience_source}
use cozmio.Memories.Steady.{remember-runs, supersede-runs, reject-runs, insert_source-runs}
use cozmio.Experience.{
  Problem, of_store, insert_built, record_experience_with_store, record_memory_feedback_with_store,
}
use cozmio.Experience.Facts.{of_store-fst}
use cozmio.Consolidation.{
  Externals, ConsolidationPacket, MemoryOperationInput, Validated, validate_memory_operation,
  abstain, remove_or_supersede,
}
use cozmio.Consolidation.Applying.{
  Moment, MemoryOperationDto, ApplyMemoryOperationResult, Step, and_then, create_memory,
  create_unless, find_exact_active_memory, supersede_memory, memory_by_id, row_id, new_write,
}
use cozmio.Consolidation.Operations.{
  with_feedback, reject_target, apply_memory_operation, apply_validated, remove_target,
  remove_parsed, remove_given, create_given,
}
use cozmio.Consolidation.Runs.{apply_all}

module _ (rs : List ConsolidationRun) (x : Externals) where
  abbrev Holds : Database → Type 0
  Holds db = db.runs ≡ rs

  and_then-runs :
      {A B : Type 0} (m : Step A) (k : A → Database → Step B)
      → Holds m.0
      → ((a : A) (d : Database) → Holds d → Holds (k a d).0)
      → Holds (and_then m k).0
  and_then-runs (db, ok a) k h f = f a db h
  and_then-runs (db, err e) k h f = h

  of_store-runs :
      {A : Type 0} (o : Database × Result MemoryError A) → Holds o.0 → Holds (of_store o).0
  of_store-runs o h = rw (of_store-fst o) h

  memory_by_id-runs : (id : ℕ) (d : Database) → Holds d → Holds (memory_by_id x id d).0
  unfolding memory_by_id
  memory_by_id-runs id d h = h

  built-runs :
      (now : String) (db : Database) (b : Result Problem ExperienceSource)
      → Holds db
      → Holds (insert_built now db b).0
  built-runs now db (ok s) h =
      of_store-runs (insert_experience_source s now db) (insert_source-runs rs s now db h)
  built-runs now db (err e) h = h

  feedback-runs :
      (kind id text : String) (refs : List String) (now : String) (db : Database)
      → Holds db
      → Holds (record_memory_feedback_with_store x.digest x.to_json kind id text refs now db).0
  unfolding record_memory_feedback_with_store record_experience_with_store
  feedback-runs kind id text refs now db h = built-runs now db _ h

  create_unless-runs :
      (f : Result Problem (Option AgentMemory)) (w : MemoryWrite) (now : String) (db : Database)
      → Holds db
      → Holds (create_unless x f w now db).0
  unfolding create_unless
  create_unless-runs (err e) w now db h = h
  create_unless-runs (ok (some m)) w now db h = h
  create_unless-runs (ok none) w now db h =
      and_then-runs (of_store (remember_memory x.to_json w now db)) (memory_by_id x)
        (of_store-runs _ (remember-runs rs x.to_json w now db h)) memory_by_id-runs

  supersede_memory-runs :
      (old : ℕ) (body layer : String) (refs : List String) (p now : String) (db : Database)
      → Holds db
      → Holds (supersede_memory x old body layer refs p now db).0
  unfolding supersede_memory
  supersede_memory-runs old body layer refs p now db h =
      let w = new_write x body layer refs (some old) p in
      and_then-runs (of_store (Writes.supersede_memory x.to_json old w now db)) (memory_by_id x)
        (of_store-runs (Writes.supersede_memory x.to_json old w now db)
          (supersede-runs rs x.to_json old w now db h))
        memory_by_id-runs

  with_feedback-runs :
      {A : Type 0} (kind id text : String) (refs : List String) (a : A) (now : String)
      (db : Database)
      → Holds db
      → Holds (with_feedback x kind id text refs a now db).0
  unfolding with_feedback
  with_feedback-runs kind id text refs a now db h =
      and_then-runs (record_memory_feedback_with_store x.digest x.to_json kind id text refs now db)
        (λ _ d. (d, ok a)) (feedback-runs kind id text refs now db h) (λ _ d k. k)

  reject_target-runs :
      (target : ℤ) (v : Validated) (o : MemoryOperationDto) (now : String) (db : Database)
      → Holds db
      → Holds (reject_target x target v o now db).0
  unfolding reject_target
  reject_target-runs target v o now db h =
      let r =
        reject_with_reason (row_id target)
          (some "remove_or_supersede operation without successor body") v.producer now db in
      and_then-runs (of_store r) _
        (of_store-runs r (reject-runs rs (row_id target) _ v.producer now db h))
        (λ _ d k. with_feedback-runs _ _ _ v.source_refs _ now d k)

  remove_target-runs :
      (target : ℤ) (layer body : Option String) (v : Validated) (o : MemoryOperationDto)
      (now : String) (db : Database)
      → Holds db
      → Holds (remove_target x target layer body v o now db).0
  unfolding remove_target
  remove_target-runs target (some layer) (some body) v o now db h =
      and_then-runs (supersede_memory x (row_id target) body layer v.source_refs v.producer now db)
        _ (supersede_memory-runs (row_id target) body layer v.source_refs v.producer now db h)
        (λ m d k. with_feedback-runs _ _ _ v.source_refs _ now d k)
  remove_target-runs target none body v o now db h = reject_target-runs target v o now db h
  remove_target-runs target (some layer) none v o now db h = reject_target-runs target v o now db h

  remove_given-runs :
      (target : Option String) (v : Validated) (o : MemoryOperationDto) (now : String)
      (db : Database)
      → Holds db
      → Holds (remove_given x target v o now db).0
  unfolding remove_given remove_parsed
  remove_given-runs none v o now db h = h
  remove_given-runs (some t) v o now db h = elim (Option-cases (parse_i64 t)) [
    | inl e ↦ rw e h
    | inr (n, e) ↦ rw e (remove_target-runs n v.layer v.body v o now db h)
  ]

  create_given-runs :
      (layer body : Option String) (v : Validated) (o : MemoryOperationDto) (now : String)
      (db : Database)
      → Holds db
      → Holds (create_given x layer body v o now db).0
  unfolding create_given create_memory
  create_given-runs none body v o now db h = h
  create_given-runs (some layer) none v o now db h = h
  create_given-runs (some layer) (some body) v o now db h =
      and_then-runs
        (create_unless x _ (new_write x body layer v.source_refs none v.producer) now db) _
        (create_unless-runs (find_exact_active_memory x layer body v.source_refs now db)
          (new_write x body layer v.source_refs none v.producer) now db h)
        (λ m d k. k)

  apply_validated-runs :
      (i : MemoryOperationInput) (v : Result Problem Validated) (now : Moment) (db : Database)
      → Holds db
      → Holds (apply_validated x i v now db).0
  unfolding apply_validated
  apply_validated-runs i (err e) now db h = h
  apply_validated-runs i (ok v) now db h = elim (Bool-cases (i.operation_type == abstain)) [
    | inl a ↦ rw a h
    | inr a ↦ elim (Bool-cases (i.operation_type == remove_or_supersede)) [
      | inl b ↦ rw (a, b) (remove_given-runs i.target_memory_id v _ now.text db h)
      | inr b ↦ rw (a, b) (create_given-runs v.layer v.body v _ now.text db h)
    ]
  ]

  pub apply_all-runs :
      (pj : ConsolidationPacket → String) (rj : List ApplyMemoryOperationResult → String)
      (text : String) (packet : ConsolidationPacket) (is : List (MemoryOperationInput × Moment))
      (db : Database)
      → Holds db
      → Holds (apply_all x pj rj text packet is db).0
  unfolding apply_all apply_memory_operation
  apply_all-runs pj rj text packet [] db h = h
  apply_all-runs pj rj text packet ((i, now) ∷ is) db h =
      and_then-runs (apply_validated x i (validate_memory_operation i packet) now db) _
        (apply_validated-runs i (validate_memory_operation i packet) now db h)
        (λ r d k.
          and_then-runs (apply_all x pj rj text packet is d) _
            (apply_all-runs pj rj text packet is d k) (λ r d k. k))
