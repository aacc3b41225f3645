-- ===== src/Memories/Steady.antt =====
-- cozmio_memory/src/agent_memory.rs: the calls on memories and sources leave the consolidation runs.
use cozmio.Prelude.{ℕ, String, ◌≡◌, Option, List, arith, Bool-cases, inl, inr}
use cozmio.Prelude.Results.{Result, ok, err, ◌>>=◌}
use cozmio.Memories.{
  MemoryError, AgentMemory, MemoryWrite, ExperienceSource, ConsolidationRun, Database, Outcome,
  Done, guarded, commit, transaction, validate_write, validate_non_empty, has_memory,
}
use cozmio.Memories.Writes.{
  Operation, insert_row, row_of, remembered, insert_operation_row, log_current_with_type,
  log_inserted, update_row, rejected, replaced, remember_memory, supersede_memory,
  reject_with_reason,
}
use cozmio.Memories.Sources.{add_source, insert_experience_source}

module _ (rs : List ConsolidationRun) where
  abbrev Holds : Database → Type 0
  Holds db = db.runs ≡ rs

  abbrev OnOk {ℓ} : {A : Type ℓ} → (A → Type 0) → Result MemoryError A → Type 0
  OnOk P (ok a) = P a
  OnOk P (err e) = Unit

  insert_row-runs : (m : AgentMemory) (db : Database) → Holds db → OnOk Holds (insert_row m db)
  unfolding insert_row
  insert_row-runs m db h = ground (arith, h)

  insert_operation_row-runs :
      (o : Operation) (now : String) (db : Database)
      → Holds db
      → OnOk Holds (insert_operation_row o now db)
  unfolding insert_operation_row
  insert_operation_row-runs o now db h = ground (arith, h)

  update_row-runs :
      (id : ℕ) (f : AgentMemory → AgentMemory) (db : Database)
      → Holds db
      → OnOk Holds (update_row id f db)
  unfolding update_row
  update_row-runs id f db h = ground (arith, h)

  log-runs :
      (id : ℕ) (t p now : String) (db : Database)
      → Holds db
      → Holds (log_current_with_type id t p now db)
  unfolding log_current_with_type
  log-runs id t p now db h = ground (arith, h)

  guarded-runs :
      {A : Type 0} (c : Result MemoryError Done) (db : Database) (o : Outcome A)
      → Holds db
      → Holds o.0
      → Holds (guarded c db o).0
  guarded-runs (ok _) db o h k = k
  guarded-runs (err e) db o h k = h

  commit-runs :
      {A : Type 0} (r : Result MemoryError Database) (db : Database) (k : Database → Outcome A)
      → Holds db
      → OnOk Holds r
      → ((d : Database) → Holds d → Holds (k d).0)
      → Holds (commit r db k).0
  commit-runs (ok d) db k h g f = f d g
  commit-runs (err e) db k h g f = h

  transaction-runs :
      {A : Type 0} (r : Result MemoryError (Database × A)) (db : Database)
      → Holds db
      → OnOk (λ p. Holds p.0) r
      → Holds (transaction r db).0
  transaction-runs (ok p) db h k = k
  transaction-runs (err e) db h k = h

  bind-runs :
      (r : Result MemoryError Database) (f : Database → Result MemoryError (Database × ℕ))
      → OnOk Holds r
      → ((d : Database) → Holds d → OnOk (λ p. Holds p.0) (f d))
      → OnOk (λ p. Holds p.0) (r >>= f)
  bind-runs (ok a) f p k = k a p
  bind-runs (err e) f p k = tt

  replaced-runs :
      (to_json : List String → String) (old : ℕ) (w : MemoryWrite) (now : String) (db : Database)
      → Holds db
      → OnOk (λ p. Holds p.0) (replaced to_json old w now db)
  unfolding replaced
  replaced-runs to_json old w now db h = elim (Bool-cases (has_memory old db.memories)) [
    | inl k ↦
        rw k (
          search (bind-runs, insert_row-runs, insert_operation_row-runs, update_row-runs, log-runs))
    | inr k ↦ rw k tt
  ]

  log_inserted-runs :
      (o : Operation) (now : String) (db : Database) → Holds db → Holds (log_inserted o now db).0
  unfolding log_inserted
  log_inserted-runs o now db h =
      commit-runs (insert_operation_row o now db) db (λ d. (d, ok db.last_memory_id)) h
        (insert_operation_row-runs o now db h) (λ d k. k)

  pub remember-runs :
      (to_json : List String → String) (w : MemoryWrite) (now : String) (db : Database)
      → Holds db
      → Holds (remember_memory to_json w now db).0
  unfolding remember_memory
  remember-runs to_json w now db h = guarded-runs (validate_write w) db _ h (
      commit-runs _ db _ h (insert_row-runs (row_of to_json w w.supersedes_id now) db h)
        (λ d k. log_inserted-runs (remembered to_json w w.supersedes_id d.last_memory_id) now d k))

  pub supersede-runs :
      (to_json : List String → String) (old : ℕ) (w : MemoryWrite) (now : String) (db : Database)
      → Holds db
      → Holds (supersede_memory to_json old w now db).0
  unfolding supersede_memory
  supersede-runs to_json old w now db h =
      guarded-runs (validate_write w) db _ h
        (transaction-runs _ db h (replaced-runs to_json old w now db h))

  pub reject-runs :
      (id : ℕ) (reason : Option String) (p now : String) (db : Database)
      → Holds db
      → Holds (reject_with_reason id reason p now db).0
  unfolding reject_with_reason
  reject-runs id reason p now db h = guarded-runs (validate_non_empty "producer" p) db _ h (
      commit-runs _ db _ h (update_row-runs id (rejected reason now) db h)
        (λ d k. log-runs id "rejected" p now d k))

  add_source-runs :
      (s : ExperienceSource) (now : String) (db : Database)
      → Holds db
      → Holds (add_source s now db).0
  unfolding add_source
  add_source-runs s now db h = ground (arith, h)

  pub insert_source-runs :
      (s : ExperienceSource) (now : String) (db : Database)
      → Holds db
      → Holds (insert_experience_source s now db).0
  unfolding insert_experience_source
  insert_source-runs s now db h =
      guarded-runs (validate_non_empty "source ref" s.source_ref) db _ h (
        guarded-runs (validate_non_empty "event kind" s.event_kind) db _ h (
          guarded-runs (validate_non_empty "factual text" s.factual_text) db _ h
            (add_source-runs s now db h)))
