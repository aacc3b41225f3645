-- ===== src/Consolidation/Repeating.antt =====
-- src-tauri/src/memory_consolidation.rs: creating the same memory again.
use cozmio.Prelude.{
  ℕ, suc, ◌≤◌, String, ◌≡◌, refl, true, ◌&&◌, Option, none, some, List, [], ◌∷◌, ◌++◌, arith,
  filter, filter-append, Bool-cases, Option-cases, ◌⊎◌, inl, inr, ◌==◌, ==_refl, string_key, ap,
}
use cozmio.Prelude.Results.{Result, ok, err}
use cozmio.Memories.{
  AgentMemory, MemoryWrite, Database, Done, MemoryError, validate_write, get_memory, refers,
}
use cozmio.Memories.Writes.{
  insert_row, row_of, remembered, operation_row, add_operation, insert_operation_row, log_inserted,
  remember_memory, is_active, list_active,
}
use cozmio.Memories.Sound.{IsSound, Between}
use cozmio.Memories.Superseding.{has_memory-last}
use cozmio.Experience.{Problem}
use cozmio.Consolidation.{Externals, normalize_source_refs}
use cozmio.Consolidation.Applying.{
  AgentMemoryDto, dto_or_missing, memory_by_id, same_list, find_exact, find_exact_active_memory,
  new_write, create_unless, create_memory,
}

Check-cases : (r : Result MemoryError Done) → (r ≡ ok tt) ⊎ ((e : MemoryError) × (r ≡ err e))
Check-cases (ok _) = inl refl
Check-cases (err e) = inr (e, refl)

same_list_refl : (ss : List String) → same_list ss ss ≡ true
same_list_refl [] = refl
same_list_refl (s ∷ ss) = rw (==_refl s) (same_list_refl ss)

get_memory-last :
    (lo hi : ℕ) (ms : List AgentMemory) (m : AgentMemory)
    → Between lo ms hi
    → m.id ≡ suc hi
    → get_memory (suc hi) (ms ++ m ∷ []) ≡ some m
unfolding get_memory
get_memory-last lo hi [] m b e = ground (arith, e)
get_memory-last lo hi (n ∷ ns) m b e =
    ground (arith, bounded n.id ns b.1, get_memory-last n.id hi ns m b.1 e)
  where
    bounded : (k : ℕ) (os : List AgentMemory) → Between k os hi → k ≤ hi
    bounded k [] c = c
    bounded k (o ∷ os) c = omega (arith, c.0, bounded o.id os c.1)

module _ (x : Externals) (body layer producer now : String) (refs : List String)
    (db : Database) where
  abbrev write : MemoryWrite
  write = new_write x body layer refs none producer

  abbrev row : AgentMemory
  row = record (row_of x.to_json write none now) { id = suc db.last_memory_id }

  abbrev stored : Database
  stored =
      add_operation (operation_row (remembered x.to_json write none (suc db.last_memory_id)) now)
        (record db { memories = db.memories ++ row ∷ []; last_memory_id = suc db.last_memory_id })

  remember_ok :
      validate_write write ≡ ok tt
      → remember_memory x.to_json write now db ≡ (stored, ok (suc db.last_memory_id))
  unfolding remember_memory log_inserted insert_row insert_operation_row refers
  remember_ok v = rw (v, has_memory-last (suc db.last_memory_id) db.memories row refl) refl

  remember_err :
      (e : MemoryError)
      → validate_write write ≡ err e
      → remember_memory x.to_json write now db ≡ (db, err e)
  unfolding remember_memory
  remember_err e v = rw v refl

  find_exact-append :
      (ms : List AgentMemory)
      → find_exact x layer body (normalize_source_refs refs) ms ≡ ok none
      → x.from_json (x.to_json refs) ≡ some refs
      → find_exact x layer body (normalize_source_refs refs) (ms ++ row ∷ []) ≡ ok (some row)
  unfolding find_exact
  find_exact-append [] h j =
      rw (==_refl layer, ==_refl body, j, same_list_refl (normalize_source_refs refs)) refl
  find_exact-append (m ∷ ms) h j = elim (Bool-cases ((m.layer == layer) && (m.body == body))) [
    | inr c ↦ rw c (find_exact-append ms (rw c at h) j)
    | inl c ↦ elim (Option-cases (x.from_json m.source_refs_json)) [
      | inl n ↦ absurd (ground (arith, rw (c, n) at h))
      | inr (r, e) ↦
          elim (Bool-cases (same_list (normalize_source_refs r) (normalize_source_refs refs))) [
            | inl q ↦ absurd (ground (arith, rw (c, e, q) at h))
            | inr q ↦ rw (c, e, q) (find_exact-append ms (rw (c, e, q) at h) j)
          ]
    ]
  ]

  row_active : is_active now row ≡ true
  unfolding is_active
  row_active = refl

  found_again :
      find_exact_active_memory x layer body refs now db ≡ ok none
      → x.from_json (x.to_json refs) ≡ some refs
      → find_exact_active_memory x layer body refs now stored ≡ ok (some row)
  unfolding find_exact_active_memory list_active
  found_again h j =
      rw (filter-append (is_active now) db.memories (row ∷ []), row_active)
        (find_exact-append (filter (is_active now) db.memories) h j)

  -- Creating a memory that was created in the same second gives the same memory and changes nothing,
  -- when JSON reads back the refs it wrote.
  pub create_again :
      (m : AgentMemoryDto)
      → IsSound db
      → x.from_json (x.to_json refs) ≡ some refs
      → let r = create_memory x body layer refs producer now db in
        r.1 ≡ ok m → create_memory x body layer refs producer now r.0 ≡ (r.0, ok m)
  unfolding create_memory create_unless memory_by_id dto_or_missing
  create_again m s j = again (find_exact_active_memory x layer body refs now db) refl
    where
      again :
          (f : Result Problem (Option AgentMemory))
          → find_exact_active_memory x layer body refs now db ≡ f
          → let r = create_unless x f write now db in
            r.1 ≡ ok m
            → create_unless x (find_exact_active_memory x layer body refs now r.0) write now r.0
              ≡ (r.0, ok m)
      again (err e) q h = absurd (ground (arith, h))
      again (ok (some k)) q h = rw q (ap (λ r. (db, r)) h)
      again (ok none) q h = elim (Check-cases (validate_write write)) [
        | inl v ↦
            rw (remember_ok v, found_again q j)
              (ap (λ r. (stored, r)) (rw (remember_ok v, last_row) at h))
        | inr (e, v) ↦ absurd (ground (arith, rw (remember_err e v) at h))
      ]
        where
          last_row : get_memory (suc db.last_memory_id) stored.memories ≡ some row
          last_row = get_memory-last 0 db.last_memory_id db.memories row s.ordered refl
