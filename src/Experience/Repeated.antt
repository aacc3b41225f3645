-- ===== src/Experience/Repeated.antt =====
-- src-tauri/src/experience_recorder.rs: the same event recorded again.
use cozmio.Prelude.{
  String, ◌≡◌, refl, true, List, [], ◌∷◌, ◌++◌, arith, Bool-cases, inl, inr, ==_refl, string_key,
  ap,
}
use cozmio.Prelude.Results.{Result, ok, err}
use cozmio.Memories.{
  MemoryError, ExperienceSource, Database, Done, constraint, guarded, is_some, validate_non_empty,
}
use cozmio.Memories.Sources.{get_source, add_source, stored_source, insert_experience_source}
use cozmio.Experience.Facts.{of_store-fst}
use cozmio.Experience.{
  Problem, store, ExperienceEventInput, build_experience_source, insert_built, of_store,
  record_experience_with_store,
}

get_source-append :
    (s : ExperienceSource) (ss : List ExperienceSource)
    → is_some (get_source s.source_ref (ss ++ s ∷ [])) ≡ true
unfolding get_source
get_source-append s [] = rw (==_refl s.source_ref) refl
get_source-append s (t ∷ ts) = ground (arith, get_source-append s ts)

add_source-again :
    (s : ExperienceSource) (now later r : String) (db : Database)
    → (add_source s now db).1 ≡ ok r
    → add_source s later (add_source s now db).0 ≡ ((add_source s now db).0, err constraint)
unfolding add_source
add_source-again s now later r db h =
    elim (Bool-cases (is_some (get_source s.source_ref db.sources))) [
      | inl k ↦ rw (k, k) refl
      | inr k ↦ rw (k, get_source-append (stored_source now s) db.sources) refl
    ]

module _ (s : ExperienceSource) (now later r : String) (db : Database) where
  checked_again :
      (a b c : Result MemoryError Done)
      → let o = guarded a db (guarded b db (guarded c db (add_source s now db))) in
        o.1 ≡ ok r
        → guarded a o.0 (guarded b o.0 (guarded c o.0 (add_source s later o.0)))
          ≡ (o.0, err constraint)
  checked_again (ok _) (ok _) (ok _) h = add_source-again s now later r db h
  checked_again (ok _) (ok _) (err e) h = absurd (ground (arith, h))
  checked_again (ok _) (err e) c h = absurd (ground (arith, h))
  checked_again (err e) b c h = absurd (ground (arith, h))

  insert_again :
      let o = insert_experience_source s now db in
      o.1 ≡ ok r → insert_experience_source s later o.0 ≡ (o.0, err constraint)
  unfolding insert_experience_source
  insert_again =
      checked_again (validate_non_empty "source ref" s.source_ref)
        (validate_non_empty "event kind" s.event_kind)
        (validate_non_empty "factual text" s.factual_text)

abbrev as_stored : Result Problem String → Result MemoryError String
as_stored (ok a) = ok a
as_stored (err e) = err constraint

of_store-ok :
    (o : Database × Result MemoryError String) (r : String) → (of_store o).1 ≡ ok r → o.1 ≡ ok r
of_store-ok (d, ok a) r h = ap as_stored h
of_store-ok (d, err e) r h = absurd (ground (arith, h))

built_again :
    (now later r : String) (db : Database) (b : Result Problem ExperienceSource)
    → let o = insert_built now db b in
      o.1 ≡ ok r → insert_built later o.0 b ≡ (o.0, err (store constraint))
built_again now later r db (err e) h = absurd (ground (arith, h))
built_again now later r db (ok s) h =
    rw
      (
        of_store-fst (insert_experience_source s now db),
        insert_again s now later r db (of_store-ok (insert_experience_source s now db) r h),
      )
      refl

-- An event that was recorded cannot be recorded again: its ref is taken, so the second call returns
-- the store's error and leaves the database as it was, whatever the time.
pub record_again :
    (digest : String → String) (to_json : List String → String) (i : ExperienceEventInput)
    (now later r : String) (db : Database)
    → let o = record_experience_with_store digest to_json i now db in
      o.1 ≡ ok r
      → record_experience_with_store digest to_json i later o.0 ≡ (o.0, err (store constraint))
unfolding record_experience_with_store
record_again digest to_json i now later r db =
    built_again now later r db (build_experience_source digest to_json i)
