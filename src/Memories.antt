-- ===== src/Memories.antt =====
-- cozmio_memory/src/agent_memory.rs and the tables of schema.rs it writes: the store of agent
-- memories with its log of operations, its experience sources and its consolidation runs.
--
-- A table is the list of its rows in the order of their ids, with the number that AUTOINCREMENT gave
-- last; no statement of the code deletes a row. An id is the natural number of a row (an argument
-- that is negative names no row). The bundled SQLite checks foreign keys at the end of a statement,
-- and a statement that fails changes nothing. `datetime('now')` is an argument, and the JSON text of
-- a list of source refs is a parameter. Failures of the database file are left out.
pub mod Writes
pub mod Sound
pub mod Kept
pub mod Superseding
pub mod Sources
pub mod Steady
pub mod Recall
pub mod Ranking
mod Tests
use Prim.Native.String
use cozmio.Prelude.{
  ℕ, suc, String, Bool, true, false, ◌&&◌, ◌||◌, Option, none, some, List, [], ◌∷◌, ◌++◌, map,
  nat_eq, if◌then◌else◌, find, filter, ◌==◌, string_key,
}
use cozmio.Prelude.Int.{ℤ, pos}
pub use cozmio.Prelude.Results.{Done}
use cozmio.Prelude.Results.{Result, ok, err, ◌>>=◌}
use cozmio.Prelude.Text.{is_blank, is_empty, str_ltb}

pub data MemoryError : Type 0 where
  not_found : String → ℕ → MemoryError
  import_error : String → MemoryError
  constraint : MemoryError

pub record AgentMemory : Type 0 where
  pub id : ℕ
  pub body : String
  pub layer : String
  pub lifecycle : String
  pub source_refs_json : String
  pub supersedes_id : Option ℕ
  pub producer : String
  pub used_count : ℤ
  pub last_used_at : Option String
  pub created_at : String
  pub updated_at : String
  pub rejected_reason : Option String
  pub expires_at : Option String

-- A row of `memory_operations`.
pub record OperationRow : Type 0 where
  pub id : ℕ
  pub memory_id : ℕ
  pub operation : String
  pub layer : String
  pub lifecycle : String
  pub body : String
  pub operation_type : String
  pub target_memory_id : Option ℕ
  pub resulting_memory_id : Option ℕ
  pub source_refs_json : String
  pub status : String
  pub error_text : Option String
  pub producer : String
  pub created_at : String

pub record ExperienceSource : Type 0 where
  pub source_ref : String
  pub timestamp : Option String
  pub trace_id : Option String
  pub session_id : Option String
  pub event_kind : String
  pub window_title : Option String
  pub process_name : Option String
  pub factual_text : String
  pub raw_ref : Option String
  pub artifact_refs_json : String

pub record ConsolidationRun : Type 0 where
  pub id : ℕ
  pub trigger_kind : String
  pub route : String
  pub packet_json : String
  pub model_name : Option String
  pub output_text : Option String
  pub status : String
  pub error_text : Option String
  pub created_at : String
  pub completed_at : Option String

pub record MemoryWrite : Type 0 where
  pub body : String
  pub layer : String
  pub lifecycle : String
  pub source_refs : List String
  pub supersedes_id : Option ℕ
  pub producer : String
  pub expires_at : Option String

pub record Database : Type 0 where
  pub memories : List AgentMemory
  pub last_memory_id : ℕ
  pub operations : List OperationRow
  pub last_operation_id : ℕ
  pub sources : List ExperienceSource
  pub runs : List ConsolidationRun
  pub last_run_id : ℕ

abbrev pub Outcome : Type 0 → Type 0
Outcome A = Database × Result MemoryError A

unfoldable pub validate_non_empty : String → String → Result MemoryError Done
validate_non_empty field value =
    if is_blank value then err (import_error (String.◌++◌ field " must not be empty")) else ok tt

abbrev pub any_blank : List String → Bool
any_blank [] = false
any_blank (s ∷ ss) = is_blank s || any_blank ss

abbrev pub is_nil {ℓ} : {A : Type ℓ} → List A → Bool
is_nil [] = true
is_nil (x ∷ xs) = false

unfoldable pub validate_source_refs : List String → Result MemoryError Done
validate_source_refs refs =
    if is_nil refs || any_blank refs
    then err (import_error "new memory writes require at least one non-empty source ref")
    else ok tt

-- The checks that `remember_memory` and `supersede_memory` begin with.
unfoldable pub validate_write : MemoryWrite → Result MemoryError Done
validate_write w = validate_non_empty "memory body" w.body >>= λ _.
    validate_non_empty "memory layer" w.layer >>= λ _.
    validate_non_empty "memory lifecycle" w.lifecycle >>= λ _.
    validate_non_empty "memory producer" w.producer >>= λ _. validate_source_refs w.source_refs

-- A check that fails returns before the database is touched.
abbrev pub guarded : {A : Type 0} → Result MemoryError Done → Database → Outcome A → Outcome A
guarded (ok _) db o = o
guarded (err e) db o = (db, err e)

-- A statement outside a transaction is committed when it succeeds, whatever follows.
abbrev pub commit :
    {A : Type 0} → Result MemoryError Database → Database → (Database → Outcome A) → Outcome A
commit (ok d) db k = k d
commit (err e) db k = (db, err e)

-- `conn.transaction()` is rolled back when it is dropped before `commit`.
abbrev pub transaction : {A : Type 0} → Result MemoryError (Database × A) → Database → Outcome A
transaction (ok (d, a)) db = (d, ok a)
transaction (err e) db = (db, err e)

unfoldable pub get_memory : ℕ → List AgentMemory → Option AgentMemory
get_memory id = find (λ m. nat_eq m.id id)

abbrev pub is_some {ℓ} : {A : Type ℓ} → Option A → Bool
is_some none = false
is_some (some a) = true

unfoldable pub has_memory : ℕ → List AgentMemory → Bool
unfolding get_memory
has_memory id ms = is_some (get_memory id ms)

-- A column that REFERENCES agent_memories(id).
unfoldable pub refers : Option ℕ → List AgentMemory → Bool
refers none ms = true
refers (some id) ms = has_memory id ms

-- `SELECT … FROM agent_memories WHERE id = ?1`
abbrev pub get : ℕ → Database → Option AgentMemory
get id db = get_memory id db.memories
