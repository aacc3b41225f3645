-- ===== src/Memories/Kept.antt =====
-- cozmio_memory/src/agent_memory.rs: no call of the store, failing ones included, breaks its tables.
use cozmio.Prelude.{
  ℕ, suc, String, ◌≡◌, refl, true, Option, none, some, List, [], ◌∷◌, ◌++◌, arith, nat_eq,
  nat_eq_iff, Bool-cases, Option-cases, subst, ap, inl, inr, All, All-append,
}
use cozmio.Prelude.Results.{Result, ok, err, ◌>>=◌}
use cozmio.Memories.{
  MemoryError, AgentMemory, OperationRow, MemoryWrite, Database, Outcome, Done, guarded, commit,
  transaction, validate_write, validate_non_empty, get_memory, has_memory, refers,
}
use cozmio.Memories.Writes.{
  Operation, insert_row, row_of, remembered, operation_row, logged_row, add_operation,
  insert_operation_row, log_found, log_current_with_type, update_row, rejected, used, superseded,
  replaced, log_inserted, imported,
}
use cozmio.Memories.Writes
use cozmio.Memories.Sound.{
  IsSound, Between-append, Between-map, Refers, Refers-map, Resolves, Resolves-map, Keeps, at,
  at-Keeps, refers-append,
}

abbrev OnOk {ℓ} : {A : Type ℓ} → (A → Type 0) → Result MemoryError A → Type 0
OnOk P (ok a) = P a
OnOk P (err e) = Unit

module _ (ns : List AgentMemory) where
  Refers-append : (ms os : List AgentMemory) → All (Refers ms) os → All (Refers (ms ++ ns)) os
  Refers-append ms [] a = tt
  Refers-append ms (o ∷ os) a = (refers-append o.supersedes_id ms ns a.0, Refers-append ms os a.1)

  Resolves-append :
      (ms : List AgentMemory) (os : List OperationRow)
      → All (Resolves ms) os
      → All (Resolves (ms ++ ns)) os
  Resolves-append ms [] a = tt
  Resolves-append ms (o ∷ os) a = (
    (refers-append o.target_memory_id ms ns a.0.0, refers-append o.resulting_memory_id ms ns a.0.1),
    Resolves-append ms os a.1,
  )

insert_row-IsSound : (m : AgentMemory) (db : Database) → IsSound db → OnOk IsSound (insert_row m db)
unfolding insert_row
insert_row-IsSound m db s = elim (Bool-cases (refers m.supersedes_id rows)) [
  | inl k ↦ rw k record {
    ordered = Between-append 0 db.last_memory_id db.memories new s.ordered refl;
    linked =
        All-append (Refers rows) db.memories (new ∷ [])
          (Refers-append (new ∷ []) db.memories db.memories s.linked) (k, tt);
    resolved = Resolves-append (new ∷ []) db.memories db.operations s.resolved;
  }
  | inr k ↦ rw k tt
]
  where
    new : AgentMemory
    new = record m { id = suc db.last_memory_id }

    rows : List AgentMemory
    rows = db.memories ++ new ∷ []

add_operation-IsSound :
    (o : OperationRow) (db : Database)
    → Resolves db.memories o
    → IsSound db
    → IsSound (add_operation o db)
add_operation-IsSound o db r s = record {
  ordered = s.ordered;
  linked = s.linked;
  resolved = All-append (Resolves db.memories) db.operations (_ ∷ []) s.resolved (r, tt);
}

insert_operation_row-IsSound :
    (o : Operation) (now : String) (db : Database)
    → IsSound db
    → OnOk IsSound (insert_operation_row o now db)
unfolding insert_operation_row
insert_operation_row-IsSound o now db s =
    elim (Bool-cases (refers o.target_memory_id db.memories)) [
      | inl t ↦ elim (Bool-cases (refers o.resulting_memory_id db.memories)) [
        | inl r ↦ rw (t, r) (add_operation-IsSound (operation_row o now) db (t, r) s)
        | inr r ↦ rw (t, r) tt
      ]
      | inr t ↦ rw t tt
    ]

abbrev some_or : AgentMemory → Option AgentMemory → AgentMemory
some_or n none = n
some_or n (some m) = m

get_memory-id :
    (id : ℕ) (ms : List AgentMemory) (m : AgentMemory) → get_memory id ms ≡ some m → m.id ≡ id
unfolding get_memory
get_memory-id id [] m e = absurd (ground (arith, e))
get_memory-id id (n ∷ ms) m e = elim (Bool-cases (nat_eq n.id id)) [
  | inl k ↦ subst (λ o. o.id ≡ id) (ap (some_or n) (rw k at e)) ((nat_eq_iff n.id id).0 k)
  | inr k ↦ get_memory-id id ms m (rw k at e)
]

get_memory-has :
    (id : ℕ) (ms : List AgentMemory) (m : AgentMemory)
    → get_memory id ms ≡ some m
    → refers (some m.id) ms ≡ true
unfolding refers has_memory
get_memory-has id ms m e = rw (get_memory-id id ms m e, e) refl

log-IsSound :
    (id : ℕ) (t p now : String) (db : Database)
    → IsSound db
    → IsSound (log_current_with_type id t p now db)
unfolding log_current_with_type
log-IsSound id t p now db s = elim (Option-cases (get_memory id db.memories)) [
  | inl e ↦ rw e s
  | inr (m, e) ↦ rw e (
      add_operation-IsSound (logged_row t p now m) db
        (get_memory-has id db.memories m e, get_memory-has id db.memories m e) s)
]

update_row-IsSound :
    (id : ℕ) (f : AgentMemory → AgentMemory) (db : Database)
    → Keeps f
    → IsSound db
    → OnOk IsSound (update_row id f db)
unfolding update_row
update_row-IsSound id f db k s = elim (Bool-cases (has_memory id db.memories)) [
  | inl h ↦ rw h record {
    ordered = Between-map (at id f) keeps 0 db.last_memory_id db.memories s.ordered;
    linked = Refers-map (at id f) keeps db.memories db.memories s.linked;
    resolved = Resolves-map (at id f) keeps db.operations db.memories s.resolved;
  }
  | inr h ↦ rw h tt
]
  where
    keeps : Keeps (at id f)
    keeps = at-Keeps id f k

-- The calls that write memories and operations, with the times they read and their arguments.
pub data Change : Type 0 where
  remember : MemoryWrite → Change
  insert : AgentMemory → Change
  supersede : ℕ → MemoryWrite → Change
  reject : ℕ → Option String → String → Change
  use_memory : ℕ → Change
  record_operation : Operation → Change

abbrev pub change : (List String → String) → Change → String → Database → Database
change to_json (remember w) now db = (Writes.remember_memory to_json w now db).0
change to_json (insert m) now db = (Writes.insert m now db).0
change to_json (supersede old w) now db = (Writes.supersede_memory to_json old w now db).0
change to_json (reject id reason p) now db = (Writes.reject_with_reason id reason p now db).0
change to_json (use_memory id) now db = (Writes.mark_used id now db).0
change to_json (record_operation o) now db = (Writes.record_operation o now db).0

module _ {A : Type 0} (db : Database) where
  guarded-IsSound :
      (c : Result MemoryError Done) (o : Outcome A)
      → IsSound db
      → IsSound o.0
      → IsSound (guarded c db o).0
  guarded-IsSound (ok _) o s t = t
  guarded-IsSound (err e) o s t = s

  commit-IsSound :
      (r : Result MemoryError Database) (k : Database → Outcome A)
      → IsSound db
      → OnOk IsSound r
      → ((d : Database) → IsSound d → IsSound (k d).0)
      → IsSound (commit r db k).0
  commit-IsSound (ok d) k s t f = f d t
  commit-IsSound (err e) k s t f = s

  transaction-IsSound :
      (r : Result MemoryError (Database × A))
      → IsSound db
      → OnOk (λ p. IsSound p.0) r
      → IsSound (transaction r db).0
  transaction-IsSound (ok p) s t = t
  transaction-IsSound (err e) s t = s

bind-IsSound :
    (r : Result MemoryError Database) (f : Database → Result MemoryError (Database × ℕ))
    → OnOk IsSound r
    → ((d : Database) → IsSound d → OnOk (λ p. IsSound p.0) (f d))
    → OnOk (λ p. IsSound p.0) (r >>= f)
bind-IsSound (ok a) f p k = k a p
bind-IsSound (err e) f p k = tt

superseded-Keeps : (now : String) → Keeps (superseded now)
superseded-Keeps now = record { same_id = λ m. refl; same_link = λ m. refl }

rejected-Keeps : (reason : Option String) (now : String) → Keeps (rejected reason now)
rejected-Keeps reason now = record { same_id = λ m. refl; same_link = λ m. refl }

used-Keeps : (now : String) → Keeps (used now)
used-Keeps now = record { same_id = λ m. refl; same_link = λ m. refl }

replaced-IsSound :
    (to_json : List String → String) (old : ℕ) (w : MemoryWrite) (now : String) (db : Database)
    → IsSound db
    → OnOk (λ p. IsSound p.0) (replaced to_json old w now db)
unfolding replaced
replaced-IsSound to_json old w now db s = elim (Bool-cases (has_memory old db.memories)) [
  | inl k ↦ rw k (
      search (
        bind-IsSound, insert_row-IsSound, insert_operation_row-IsSound, update_row-IsSound,
        superseded-Keeps, log-IsSound,
      ))
  | inr k ↦ rw k tt
]

log_inserted-IsSound :
    (o : Operation) (now : String) (db : Database) → IsSound db → IsSound (log_inserted o now db).0
unfolding log_inserted
log_inserted-IsSound o now db s =
    commit-IsSound db (insert_operation_row o now db) (λ d. (d, ok db.last_memory_id)) s
      (insert_operation_row-IsSound o now db s) (λ d t. t)

-- Every call that writes memories or operations keeps the ids in order, every superseded id that of
-- a row, and every logged operation about rows of the table, also when it returns an error.
pub change-IsSound :
    (to_json : List String → String) (c : Change) (now : String) (db : Database)
    → IsSound db
    → IsSound (change to_json c now db)
unfolding Writes.remember_memory Writes.insert Writes.supersede_memory Writes.reject_with_reason
    Writes.mark_used Writes.record_operation
change-IsSound to_json (remember w) now db s = guarded-IsSound db (validate_write w) _ s (
    commit-IsSound db _ _ s (insert_row-IsSound (row_of to_json w w.supersedes_id now) db s)
      (λ d t. log_inserted-IsSound (remembered to_json w w.supersedes_id d.last_memory_id) now d t))
change-IsSound to_json (insert m) now db s =
    commit-IsSound db _ _ s (insert_row-IsSound (imported m now) db s)
      (λ d t. log_inserted-IsSound (Writes.inserted m d.last_memory_id) now d t)
change-IsSound to_json (supersede old w) now db s =
    guarded-IsSound db (validate_write w) _ s
      (transaction-IsSound db _ s (replaced-IsSound to_json old w now db s))
change-IsSound to_json (reject id reason p) now db s =
    guarded-IsSound db (validate_non_empty "producer" p) _ s (
      commit-IsSound db _ _ s
        (update_row-IsSound id (rejected reason now) db (rejected-Keeps reason now) s)
        (λ d t. log-IsSound id "rejected" p now d t))
change-IsSound to_json (use_memory id) now db s =
    commit-IsSound db _ _ s (update_row-IsSound id (used now) db (used-Keeps now) s)
      (λ d t. log-IsSound id "used" "system" now d t)
change-IsSound to_json (record_operation o) now db s =
    guarded-IsSound db (validate_non_empty "operation type" o.operation_type) _ s (
      guarded-IsSound db (validate_non_empty "operation status" o.status) _ s (
        guarded-IsSound db (validate_non_empty "producer" o.producer) _ s (
          commit-IsSound db (insert_operation_row o now db) (λ d. (d, ok d.last_operation_id)) s
            (insert_operation_row-IsSound o now db s) (λ d t. t))))
