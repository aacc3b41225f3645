-- ===== src/Consolidation/Applying.antt =====
-- src-tauri/src/memory_consolidation.rs: applying a memory operation to the store, and rejecting a
-- memory for the user.
--
-- A memory id that parses to a negative number names no row.
use cozmio.Prelude.{
  ℕ, String, Bool, true, false, ◌&&◌, Option, none, some, List, [], ◌∷◌, if◌then◌else◌, ◌==◌,
  string_key,
}
use mathlib.Core.Option
use cozmio.Prelude.Int.{ℤ, pos, negsuc}
use cozmio.Prelude.Results.{Result, ok, err}
use cozmio.Prelude.Text.{take_chars}
use cozmio.Prelude.Numerals.{show_nat, show_int}
use cozmio.Memories.{AgentMemory, MemoryWrite, Database, get}
use cozmio.Memories.Writes.{remember_memory, list_active}
use cozmio.Memories.Writes
use cozmio.Experience.{◌<+>◌, Problem, message, of_store}
use cozmio.Consolidation.{Externals, normalize_source_refs}

-- The two readings of the clock: the text of `datetime('now')` and seconds since the epoch.
pub record Moment : Type 0 where
  pub text : String
  pub seconds : ℤ

pub record AgentMemoryDto : Type 0 where
  pub memory_id : String
  pub created_at : ℤ
  pub updated_at : ℤ
  pub layer : String
  pub lifecycle : String
  pub body : String
  pub source_refs : List String
  pub supersedes : Option String
  pub last_used_at : Option ℤ
  pub use_count : ℤ
  pub producer : String

pub record MemoryOperationDto : Type 0 where
  pub operation_id : String
  pub created_at : ℤ
  pub operation_type : String
  pub target_memory_id : Option String
  pub resulting_memory_id : Option String
  pub body : Option String
  pub source_refs : List String
  pub status : String
  pub error_text : Option String
  pub producer : String

pub record ApplyMemoryOperationResult : Type 0 where
  pub operation : MemoryOperationDto
  pub memory : Option AgentMemoryDto

abbrev pub Step : Type 0 → Type 0
Step A = Database × Result Problem A

-- `?` after a call that changes the database.
abbrev pub and_then : {A B : Type 0} → Step A → (A → Database → Step B) → Step B
and_then (db, ok a) k = k a db
and_then (db, err e) k = (db, err e)

abbrev pub or_default {ℓ} : {A : Type ℓ} → A → Option A → A
or_default d none = d
or_default d (some a) = a

abbrev pub option_bind : {A B : Type 0} → Option A → (A → Option B) → Option B
option_bind none f = none
option_bind (some a) f = f a

abbrev pub row_id : ℤ → ℕ
row_id (pos n) = n
row_id (negsuc n) = 0

abbrev pub same_list : List String → List String → Bool
same_list [] [] = true
same_list [] (t ∷ ts) = false
same_list (s ∷ ss) [] = false
same_list (s ∷ ss) (t ∷ ts) = (s == t) && same_list ss ts

module _ (x : Externals) where
  unfoldable pub stable_id : String → ℤ → String → String
  unfolding show_int
  stable_id prefix created_at material =
      let hash = x.digest (prefix <+> ":" <+> show_int created_at <+> ":" <+> material) in
      prefix <+> "_" <+> take_chars 16 hash

  unfoldable pub agent_memory_to_dto : AgentMemory → AgentMemoryDto
  unfolding show_nat
  agent_memory_to_dto m =
      let created = or_default (pos 0) (x.sqlite_time m.created_at) in
      record {
        memory_id = show_nat m.id;
        created_at = created;
        updated_at = or_default created (x.sqlite_time m.updated_at);
        layer = m.layer;
        lifecycle = m.lifecycle;
        body = m.body;
        source_refs = or_default [] (x.from_json m.source_refs_json);
        supersedes = Option.map show_nat m.supersedes_id;
        last_used_at = option_bind m.last_used_at x.sqlite_time;
        use_count = m.used_count;
        producer = m.producer;
      }

  unfoldable pub dto_or_missing : ℕ → Option AgentMemory → Result Problem AgentMemoryDto
  unfolding agent_memory_to_dto show_nat
  dto_or_missing id none = err (message ("Inserted memory was not found: " <+> show_nat id))
  dto_or_missing id (some m) = ok (agent_memory_to_dto m)

  unfoldable pub memory_by_id : ℕ → Database → Step AgentMemoryDto
  unfolding dto_or_missing
  memory_by_id id db = (db, dto_or_missing id (get id db))

  -- The refs of a memory with the same layer and body decide; refs that do not decode are an error.
  abbrev pub compared :
      Option (List String)
      → List String
      → AgentMemory
      → Result Problem (Option AgentMemory)
      → Result Problem (Option AgentMemory)
  compared none refs m rest = err (message "failed to decode memory source refs")
  compared (some stored) refs m rest =
      if same_list (normalize_source_refs stored) refs then ok (some m) else rest

  unfoldable pub find_exact :
      String → String → List String → List AgentMemory → Result Problem (Option AgentMemory)
  find_exact layer body refs [] = ok none
  find_exact layer body refs (m ∷ ms) =
      let rest = find_exact layer body refs ms in
      if (m.layer == layer) && (m.body == body)
      then compared (x.from_json m.source_refs_json) refs m rest
      else rest

  unfoldable pub find_exact_active_memory :
      String → String → List String → String → Database → Result Problem (Option AgentMemory)
  unfolding find_exact
  find_exact_active_memory layer body refs now db =
      find_exact layer body (normalize_source_refs refs) (list_active now db)

  abbrev pub new_write : String → String → List String → Option ℕ → String → MemoryWrite
  new_write body layer refs supersedes producer = record {
    body = body;
    layer = layer;
    lifecycle = "active";
    source_refs = refs;
    supersedes_id = supersedes;
    producer = producer;
    expires_at = none;
  }

  unfoldable pub create_unless :
      Result Problem (Option AgentMemory) → MemoryWrite → String → Database → Step AgentMemoryDto
  unfolding agent_memory_to_dto memory_by_id
  create_unless (err e) w now db = (db, err e)
  create_unless (ok (some m)) w now db = (db, ok (agent_memory_to_dto m))
  create_unless (ok none) w now db =
      and_then (of_store (remember_memory x.to_json w now db)) (λ id d. memory_by_id id d)

  unfoldable pub create_memory :
      String → String → List String → String → String → Database → Step AgentMemoryDto
  unfolding find_exact_active_memory create_unless
  create_memory body layer refs producer now db =
      create_unless (find_exact_active_memory layer body refs now db)
        (new_write body layer refs none producer) now db

  unfoldable pub supersede_memory :
      ℕ → String → String → List String → String → String → Database → Step AgentMemoryDto
  unfolding memory_by_id
  supersede_memory old body layer refs producer now db =
      and_then
        (of_store (
          Writes.supersede_memory x.to_json old (new_write body layer refs (some old) producer) now
            db))
        (λ id d. memory_by_id id d)
