-- ===== src/Memories/Superseding.antt =====
-- cozmio_memory/src/agent_memory.rs: what rejecting and superseding do to the active memories.
use cozmio.Prelude.{
  ℕ, suc, ◌≤◌, String, ◌≡◌, refl, Bool, true, false, not, Option, some, List, [], ◌∷◌, ◌++◌, map,
  arith, nat_eq, filter, filter-append, Bool-cases, inl, inr, string_key, ap, ◌∙◌,
}
use cozmio.Prelude.Results.{Result, ok, err}
use cozmio.Memories.{
  MemoryError, AgentMemory, MemoryWrite, Database, Done, guarded, transaction, validate_write,
  validate_non_empty, get_memory, has_memory, refers,
}
use cozmio.Memories.Writes.{
  insert_row, row_of, add_operation, operation_row, remembered, insert_operation_row,
  log_current_with_type, update_row, rejected, superseded, replaced, is_active, list_active,
  supersede_memory, reject_with_reason,
}
use cozmio.Memories.Sound.{IsSound, Between, at, has_memory-append}

abbrev pub other_than : ℕ → AgentMemory → Bool
other_than id m = not (nat_eq m.id id)

-- The abstract view: the active memories as they were, without one.
abbrev pub without : ℕ → List AgentMemory → List AgentMemory
without id = filter (other_than id)

module _ (t : String) (id : ℕ) (f : AgentMemory → AgentMemory) where
  active-at :
      (ms : List AgentMemory)
      → ((m : AgentMemory) → is_active t (f m) ≡ false)
      → filter (is_active t) (map (at id f) ms) ≡ without id (filter (is_active t) ms)
  active-at [] h = refl
  active-at (m ∷ ms) h = ground (arith, h m, active-at ms h)

superseded-inactive : (t now : String) (m : AgentMemory) → is_active t (superseded now m) ≡ false
unfolding is_active
superseded-inactive t now m = refl

rejected-inactive :
    (t now : String) (reason : Option String) (m : AgentMemory)
    → is_active t (rejected reason now m) ≡ false
unfolding is_active
rejected-inactive t now reason m = refl

log-memories :
    (id : ℕ) (o p now : String) (db : Database)
    → (log_current_with_type id o p now db).memories ≡ db.memories
unfolding log_current_with_type
log-memories id o p now db = ground (arith)

-- Rejecting a memory that is there, by a named producer, takes it and nothing else out of the active
-- memories of every later time.
pub reject_removes :
    (id : ℕ) (reason : Option String) (p now t : String) (db : Database)
    → validate_non_empty "producer" p ≡ ok tt
    → has_memory id db.memories ≡ true
    → let r = reject_with_reason id reason p now db in
      (r.1 ≡ ok tt) × (list_active t r.0 ≡ without id (list_active t db))
unfolding reject_with_reason update_row list_active
reject_removes id reason p now t db v h =
    rw (v, h)
      (
        refl,
        ap (filter (is_active t)) (log-memories id "rejected" p now _)
            ∙ active-at t id (rejected reason now) db.memories (rejected-inactive t now reason),
      )

pub has_memory-last :
    (id : ℕ) (ms : List AgentMemory) (m : AgentMemory)
    → m.id ≡ id
    → has_memory id (ms ++ m ∷ []) ≡ true
unfolding has_memory get_memory
has_memory-last id [] m e = ground (arith, e)
has_memory-last id (n ∷ ms) m e = ground (arith, has_memory-last id ms m e)

Between-le : (lo hi : ℕ) (ms : List AgentMemory) → Between lo ms hi → lo ≤ hi
Between-le lo hi [] b = b
Between-le lo hi (m ∷ ms) b = omega (arith, Between-le m.id hi ms b.1, b.0)

pub has_memory-le :
    (lo hi id : ℕ) (ms : List AgentMemory)
    → Between lo ms hi
    → has_memory id ms ≡ true
    → (lo ≤ hi) × (id ≤ hi)
unfolding has_memory get_memory
has_memory-le lo hi id [] b h = absurd (ground (arith, h))
has_memory-le lo hi id (m ∷ ms) b h = elim (Bool-cases (nat_eq m.id id)) [
  | inl k ↦ ground (arith, k, Between-le m.id hi ms b.1, b.0)
  | inr k ↦ ground (arith, has_memory-le m.id hi id ms b.1 (rw k at h), b.0)
]

module _ (to_json : List String → String) (old : ℕ) (w : MemoryWrite) (now : String)
    (db : Database) where
  -- The row that takes the place of `old`.
  abbrev pub successor : AgentMemory
  successor = record (row_of to_json w (some old) now) { id = suc db.last_memory_id }

  abbrev grown : Database
  grown = record db {
    memories = db.memories ++ successor ∷ [];
    last_memory_id = suc db.last_memory_id;
  }

  inserted_ok :
      has_memory old db.memories ≡ true → insert_row (row_of to_json w (some old) now) db ≡ ok grown
  unfolding insert_row refers
  inserted_ok h = rw (has_memory-append old db.memories (successor ∷ []) h) refl

  logged_ok :
      has_memory old db.memories ≡ true
      → let o = remembered to_json w (some old) (suc db.last_memory_id) in
        insert_operation_row o now grown ≡ ok (add_operation (operation_row o now) grown)
  unfolding insert_operation_row refers
  logged_ok h =
      rw
        (
          has_memory-append old db.memories (successor ∷ []) h,
          has_memory-last (suc db.last_memory_id) db.memories successor refl,
        )
        refl

  -- Superseding a memory that is there by a valid write gives the next id, takes the old memory and
  -- nothing else out of the active ones of any time, and adds its successor after them when the
  -- successor is active then.
  pub supersede_replaces :
      (t : String)
      → IsSound db
      → validate_write w ≡ ok tt
      → has_memory old db.memories ≡ true
      → let r = supersede_memory to_json old w now db in
        (r.1 ≡ ok (suc db.last_memory_id))
        × (list_active t r.0
            ≡ without old (list_active t db) ++ filter (is_active t) (successor ∷ []))
  unfolding supersede_memory replaced update_row list_active
  supersede_replaces t s v h =
      rw (v, h, inserted_ok h, logged_ok h, has_memory-append old db.memories (successor ∷ []) h)
        (
          refl,
          ap (filter (is_active t)) (log-memories old "superseded" "system" now _)
              ∙ active-at t old (superseded now) (db.memories ++ successor ∷ [])
                  (superseded-inactive t now)
              ∙ ap (without old) (filter-append (is_active t) db.memories (successor ∷ []))
              ∙ filter-append (other_than old) (filter (is_active t) db.memories) _
              ∙ ap (λ ms. without old (list_active t db) ++ ms) successor-stays,
        )
    where
      successor-stays :
          without old (filter (is_active t) (successor ∷ []))
          ≡ filter (is_active t) (successor ∷ [])
      successor-stays =
          ground (arith, has_memory-le 0 db.last_memory_id old db.memories s.ordered h)

-- A superseding that fails, on any branch, leaves the whole database as it was.
pub supersede_failed :
    (to_json : List String → String) (old : ℕ) (w : MemoryWrite) (now : String) (db : Database)
    (e : MemoryError)
    → (supersede_memory to_json old w now db).1 ≡ err e
    → (supersede_memory to_json old w now db).0 ≡ db
unfolding supersede_memory
supersede_failed to_json old w now db e h =
    kept (validate_write w) (replaced to_json old w now db) h
  where
    kept :
        (c : Result MemoryError Done) (r : Result MemoryError (Database × ℕ))
        → (guarded c db (transaction r db)).1 ≡ err e
        → (guarded c db (transaction r db)).0 ≡ db
    kept (err x) r h = refl
    kept (ok _) (err x) h = refl
    kept (ok _) (ok p) h = absurd (ground (arith, h))
