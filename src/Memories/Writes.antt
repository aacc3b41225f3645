-- ===== src/Memories/Writes.antt =====
-- cozmio_memory/src/agent_memory.rs: the methods of `AgentMemoryStore` on memories and operations.
use cozmio.Prelude.{
  ℕ, zero, suc, String, Bool, true, ◌&&◌, Option, none, some, List, [], ◌∷◌, ◌++◌, map, nat_eq,
  if◌then◌else◌, filter, ◌==◌, string_key,
}
use cozmio.Prelude.Int.{ℤ, pos, negsuc}
use cozmio.Prelude.Results.{Result, ok, err, ◌>>=◌}
use cozmio.Prelude.Text.{is_blank, str_ltb}
use cozmio.Memories.{
  MemoryError, AgentMemory, OperationRow, MemoryWrite, Database, Outcome, Done, not_found,
  constraint, validate_non_empty, validate_write, guarded, commit, transaction, get_memory,
  has_memory, refers,
}

-- `INSERT INTO agent_memories`: the columns but the id, which is the next one.
unfoldable pub insert_row : AgentMemory → Database → Result MemoryError Database
insert_row m db =
    let id = suc db.last_memory_id in
    let rows = db.memories ++ (record m { id = id }) ∷ [] in
    if refers m.supersedes_id rows
    then ok (record db { memories = rows; last_memory_id = id })
    else err constraint

abbrev pub or_else : Option ℕ → Option ℕ → ℕ
or_else (some r) t = r
or_else none (some t) = t
or_else none none = 0

abbrev pub text_or : String → Option String → String
text_or d none = d
text_or d (some s) = s

abbrev pub add_operation : OperationRow → Database → Database
add_operation o db = record db {
  operations = db.operations ++ (record o { id = suc db.last_operation_id }) ∷ [];
  last_operation_id = suc db.last_operation_id;
}

-- What `record_operation` and the other methods write to the log.
pub record Operation : Type 0 where
  pub operation_type : String
  pub target_memory_id : Option ℕ
  pub resulting_memory_id : Option ℕ
  pub body : Option String
  pub layer : Option String
  pub source_refs_json : Option String
  pub status : String
  pub error_text : Option String
  pub producer : String

abbrev pub operation_row : Operation → String → OperationRow
operation_row o now = record {
  id = 0;
  memory_id = or_else o.resulting_memory_id o.target_memory_id;
  operation = o.operation_type;
  layer = text_or "" o.layer;
  lifecycle = "active";
  body = text_or "" o.body;
  operation_type = o.operation_type;
  target_memory_id = o.target_memory_id;
  resulting_memory_id = o.resulting_memory_id;
  source_refs_json = text_or "[]" o.source_refs_json;
  status = o.status;
  error_text = o.error_text;
  producer = o.producer;
  created_at = now;
}

unfoldable pub insert_operation_row : Operation → String → Database → Result MemoryError Database
insert_operation_row o now db =
    if refers o.target_memory_id db.memories && refers o.resulting_memory_id db.memories
    then ok (add_operation (operation_row o now) db)
    else err constraint

abbrev pub logged_row : String → String → String → AgentMemory → OperationRow
logged_row operation_type producer now m = record {
  id = 0;
  memory_id = m.id;
  operation = operation_type;
  layer = m.layer;
  lifecycle = m.lifecycle;
  body = m.body;
  operation_type = operation_type;
  target_memory_id = some m.id;
  resulting_memory_id = some m.id;
  source_refs_json = m.source_refs_json;
  status = "applied";
  error_text = none;
  producer = producer;
  created_at = now;
}

abbrev pub log_found : String → String → String → Option AgentMemory → Database → Database
log_found operation_type producer now none db = db
log_found operation_type producer now (some m) db =
    add_operation (logged_row operation_type producer now m) db

unfoldable pub log_current_with_type : ℕ → String → String → String → Database → Database
log_current_with_type id operation_type producer now db =
    log_found operation_type producer now (get_memory id db.memories) db

-- `UPDATE agent_memories SET … WHERE id = ?1` and `ensure_rows_affected`.
unfoldable pub update_row : ℕ → (AgentMemory → AgentMemory) → Database → Result MemoryError Database
update_row id f db =
    if has_memory id db.memories
    then ok (record db { memories = map (λ m. if nat_eq m.id id then f m else m) db.memories })
    else err (not_found "agent memory" id)

-- The row that a write asks for.
abbrev pub row_of : (List String → String) → MemoryWrite → Option ℕ → String → AgentMemory
row_of to_json w supersedes now = record {
  id = 0;
  body = w.body;
  layer = w.layer;
  lifecycle = w.lifecycle;
  source_refs_json = to_json w.source_refs;
  supersedes_id = supersedes;
  producer = w.producer;
  used_count = pos 0;
  last_used_at = none;
  created_at = now;
  updated_at = now;
  rejected_reason = none;
  expires_at = w.expires_at;
}

abbrev pub remembered : (List String → String) → MemoryWrite → Option ℕ → ℕ → Operation
remembered to_json w supersedes id = record {
  operation_type = "remembered";
  target_memory_id = supersedes;
  resulting_memory_id = some id;
  body = some w.body;
  layer = some w.layer;
  source_refs_json = some (to_json w.source_refs);
  status = "applied";
  error_text = none;
  producer = w.producer;
}

-- The operation row of the row inserted last, and its id.
unfoldable pub log_inserted : Operation → String → Database → Outcome ℕ
unfolding insert_operation_row
log_inserted o now d = commit (insert_operation_row o now d) d (λ d'. (d', ok d.last_memory_id))

-- Two statements, each committed by itself.
unfoldable pub remember_memory :
    (List String → String) → MemoryWrite → String → Database → Outcome ℕ
unfolding insert_row log_inserted
remember_memory to_json w now db = guarded (validate_write w) db (
    commit (insert_row (row_of to_json w w.supersedes_id now) db) db
      (λ d. log_inserted (remembered to_json w w.supersedes_id d.last_memory_id) now d))

-- The compatibility path for rows without provenance.
abbrev pub or_blank : String → String → String
or_blank d s = if is_blank s then d else s

abbrev pub imported : AgentMemory → String → AgentMemory
imported m now = record m {
  source_refs_json = or_blank "[]" m.source_refs_json;
  producer = or_blank "legacy" m.producer;
  created_at = now;
  updated_at = now;
}

abbrev pub inserted : AgentMemory → ℕ → Operation
inserted m id = record {
  operation_type = "inserted";
  target_memory_id = some id;
  resulting_memory_id = some id;
  body = some m.body;
  layer = some m.layer;
  source_refs_json = some (or_blank "[]" m.source_refs_json);
  status = "applied";
  error_text = none;
  producer = or_blank "legacy" m.producer;
}

unfoldable pub insert : AgentMemory → String → Database → Outcome ℕ
unfolding insert_row log_inserted
insert m now db =
    commit (insert_row (imported m now) db) db
      (λ d. log_inserted (inserted m d.last_memory_id) now d)

-- `WHERE lifecycle = 'active' AND (expires_at IS NULL OR expires_at > datetime('now'))`
abbrev pub is_live : String → Option String → Bool
is_live now none = true
is_live now (some t) = str_ltb now t

unfoldable pub is_active : String → AgentMemory → Bool
is_active now m = (m.lifecycle == "active") && is_live now m.expires_at

unfoldable pub list_active : String → Database → List AgentMemory
list_active now db = filter (is_active now) db.memories

abbrev pub rejected : Option String → String → AgentMemory → AgentMemory
rejected reason now m = record m {
  lifecycle = "rejected";
  rejected_reason = reason;
  updated_at = now;
}

abbrev pub superseded : String → AgentMemory → AgentMemory
superseded now m = record m { lifecycle = "superseded"; updated_at = now }

abbrev pub succ_ℤ : ℤ → ℤ
succ_ℤ (pos n) = pos (suc n)
succ_ℤ (negsuc zero) = pos 0
succ_ℤ (negsuc (suc n)) = negsuc n

abbrev pub used : String → AgentMemory → AgentMemory
used now m = record m {
  used_count = succ_ℤ m.used_count;
  last_used_at = some now;
  updated_at = now;
}

unfoldable pub reject_with_reason : ℕ → Option String → String → String → Database → Outcome Done
unfolding update_row log_current_with_type
reject_with_reason id reason producer now db = guarded (validate_non_empty "producer" producer) db (
    commit (update_row id (rejected reason now) db) db
      (λ d. (log_current_with_type id "rejected" producer now d, ok tt)))

unfoldable pub mark_used : ℕ → String → Database → Outcome Done
unfolding update_row log_current_with_type
mark_used id now db =
    commit (update_row id (used now) db) db
      (λ d. (log_current_with_type id "used" "system" now d, ok tt))

-- The statements of `supersede_memory` between the start of its transaction and its commit.
unfoldable pub replaced :
    (List String → String) → ℕ → MemoryWrite → String → Database → Result MemoryError (Database × ℕ)
unfolding insert_row insert_operation_row update_row log_current_with_type
replaced to_json old w now db =
    if has_memory old db.memories
    then (insert_row (row_of to_json w (some old) now) db >>= λ d.
        insert_operation_row (remembered to_json w (some old) d.last_memory_id) now d >>= λ d'.
        update_row old (superseded now) d' >>= λ d''.
        ok (log_current_with_type old "superseded" "system" now d'', d.last_memory_id))
    else err (not_found "agent memory" old)

unfoldable pub supersede_memory :
    (List String → String) → ℕ → MemoryWrite → String → Database → Outcome ℕ
unfolding replaced
supersede_memory to_json old w now db =
    guarded (validate_write w) db (transaction (replaced to_json old w now db) db)

unfoldable pub record_operation : Operation → String → Database → Outcome ℕ
unfolding insert_operation_row
record_operation o now db = guarded (validate_non_empty "operation type" o.operation_type) db (
    guarded (validate_non_empty "operation status" o.status) db (
      guarded (validate_non_empty "producer" o.producer) db
        (commit (insert_operation_row o now db) db (λ d. (d, ok d.last_operation_id)))))

abbrev pub operations : ℕ → Database → List OperationRow
operations memory_id db = filter (λ o. nat_eq o.memory_id memory_id) db.operations
