-- ===== src/Ledger/Rebuilt.antt =====
-- src-tauri/src/ledger.rs: rebuilding the table from the log finds every event of it again.
use mathlib.Core.Option.{some-injective}
use cozmio.Prelude.{
  ℕ, suc, String, ◌≡◌, refl, ◌∙◌, sym, ◌++◌, Bool, true, false, inl, inr, Option, none, some, List,
  [], ◌∷◌, arith, if◌then◌else◌, Bool-cases, Option-cases, In, ◌==◌, ==_iff, ==_refl, string_key,
  subst, ap,
}
use cozmio.Prelude.Results.{ok}
use cozmio.Prelude.Maps.{Map, lookup, lookup-insert}
use cozmio.Prelude.Text.{is_empty, trim}
use cozmio.Ledger.{
  ContentRef, LedgerEvent, Externals, Row, LedgerManager, option_map, bind_option, metadata_column,
  or_default, without_row, find_row, row_of, row_to_event, ingest, append, record_event,
  rebuild_event, rebuild_line, rebuild_lines, rebuild_from_jsonl, rebuild_files, rebuild_projection,
  Answers,
}
use cozmio.Ledger.Indexed.{all_lines, In-left, In-right}

-- The answers under which a rebuild reads all of the file of a date.
pub record Restores (a : Answers) (date : String) : Type 0 where
  pub exists : a.exists ≡ true
  pub listed : a.listed ≡ true
  pub entry : (d : String) → a.entry d ≡ true
  pub present : a.present date ≡ true
  pub opened : a.opened date ≡ true
  pub line_read : (i : ℕ) → a.line_read date i ≡ true
  pub ingested : (i : ℕ) → a.ingested date i ≡ true

module _ (x : Externals) where
  row_id : (e : LedgerEvent) → (row_of x e).event_id ≡ e.event_id
  unfolding row_of
  row_id e = refl

  find-ingest :
      (id : String) (e : LedgerEvent) (rows : List Row)
      → find_row id (ingest x e rows)
        ≡ (if e.event_id == id then some (row_of x e) else find_row id rows)
  unfolding ingest find_row without_row
  find-ingest id e [] = rw (row_id e) refl
  find-ingest id e (r ∷ rs) = ground (
    arith,
    ==_iff e.event_id id,
    ==_iff r.event_id id,
    ==_iff r.event_id e.event_id,
    find-ingest id e rs,
    row_id e,
  )

  lookup-append :
      (e : LedgerEvent) (log : Map String (List String))
      → lookup (x.date_of e.timestamp) (append x e log)
        ≡ some (or_default [] (lookup (x.date_of e.timestamp) log) ++ x.event_json e ∷ [])
  unfolding append
  lookup-append e log =
      lookup-insert (x.date_of e.timestamp) (x.date_of e.timestamp) _ log
      ∙ (rw (==_refl (x.date_of e.timestamp)) refl)

  log-record_event :
      (e : LedgerEvent) (indexed : Bool) (m : LedgerManager)
      → (record_event x e true indexed m).0.log ≡ append x e m.log
  unfolding record_event
  log-record_event e true m = refl
  log-record_event e false m = refl

  module _ (e : LedgerEvent) where
    abbrev Found : List Row → Type 0
    Found rows = find_row e.event_id rows ≡ some (row_of x e)

    -- A line that parses to another event of the same id would replace the row.
    line-keeps :
        (read ingested : Bool) (l : String) (s : List Row × ℕ)
        → ((f : LedgerEvent) → x.parse_event (trim l) ≡ some f → f.event_id ≡ e.event_id → f ≡ e)
        → Found s.0
        → Found (rebuild_line x read ingested l s).0
    unfolding rebuild_line rebuild_event
    line-keeps false ingested l s same h = h
    line-keeps true ingested l s same h = elim (Bool-cases (is_empty (trim l))) [
      | inl k ↦ rw k h
      | inr k ↦ elim (Option-cases (x.parse_event (trim l))) [
        | inl n ↦ rw (k, n) h
        | inr (f, p) ↦ rw (k, p) (added ingested f (same f p))
      ]
    ]
      where
        added :
            (b : Bool) (f : LedgerEvent)
            → (f.event_id ≡ e.event_id → f ≡ e)
            → Found (rebuild_event x b (some f) s).0
        added false f same = h
        added true f same =
            rw (find-ingest e.event_id f s.0) (elim (Bool-cases (f.event_id == e.event_id)) [
              | inl q ↦
                  rw q (ap (λ g. some (row_of x g)) (same ((==_iff f.event_id e.event_id).0 q)))
              | inr q ↦ rw q h
            ])

    line-finds :
        (l : String) (s : List Row × ℕ)
        → is_empty (trim l) ≡ false
        → x.parse_event (trim l) ≡ some e
        → Found (rebuild_line x true true l s).0
    unfolding rebuild_line rebuild_event
    line-finds l s k p = rw (k, p, find-ingest e.event_id e s.0, ==_refl e.event_id) refl

    abbrev Same : List String → Type 0
    Same ls =
        (l : String) (f : LedgerEvent)
        → In l ls
        → x.parse_event (trim l) ≡ some f
        → f.event_id ≡ e.event_id
        → f ≡ e

    module _ (a : Answers) where
      lines-keep :
          (date : String) (i : ℕ) (ls : List String) (s : List Row × ℕ)
          → Same ls
          → Found s.0
          → Found (rebuild_lines x a date i ls s).0
      unfolding rebuild_lines
      lines-keep date i [] s same h = h
      lines-keep date i (l ∷ ls) s same h =
          lines-keep date (suc i) ls (rebuild_line x (a.line_read date i) (a.ingested date i) l s)
            (λ k f j. same k f (inr j))
            (line-keeps (a.line_read date i) (a.ingested date i) l s (λ f. same l f (inl refl)) h)

      file-keeps :
          (date : String) (ls : List String) (rows : List Row)
          → Same ls
          → Found rows
          → Found (rebuild_from_jsonl x a date ls rows).0
      unfolding rebuild_from_jsonl
      file-keeps date ls rows same h = elim (Bool-cases (a.present date)) [
        | inl k ↦ elim (Bool-cases (a.opened date)) [
          | inl q ↦ rw (k, q) (lines-keep date 0 ls (rows, 0) same h)
          | inr q ↦ rw (k, q) h
        ]
        | inr k ↦ rw k h
      ]

      files-keep :
          (log : Map String (List String)) (rows : List Row) (total : ℕ)
          → Same (all_lines log)
          → Found rows
          → Found (rebuild_files x a log rows total).0
      unfolding rebuild_files
      files-keep [] rows total same h = h
      files-keep ((date, ls) ∷ files) rows total same h = elim (Bool-cases (a.entry date)) [
        | inl k ↦ rw k (
            files-keep files _ _ (λ l f i. same l f (In-right l ls _ i))
              (file-keeps date ls rows (λ l f i. same l f (In-left l ls _ i)) h))
        | inr k ↦ rw k h
      ]

      module _ (date : String) (restores : Restores a date) (l : String)
          (n : is_empty (trim l) ≡ false) (p : x.parse_event (trim l) ≡ some e) where
        lines-find :
            (i : ℕ) (ls : List String) (s : List Row × ℕ)
            → Same ls
            → In l ls
            → Found (rebuild_lines x a date i ls s).0
        unfolding rebuild_lines
        lines-find i [] s same j = elim j [ ]
        lines-find i (k ∷ ls) s same (inl q) =
            lines-keep date (suc i) ls (rebuild_line x (a.line_read date i) (a.ingested date i) k s)
              (λ j f h. same j f (inr h))
              (rw (restores.line_read i, restores.ingested i)
                (line-finds k s (subst (λ w. is_empty (trim w) ≡ false) q n)
                  (subst (λ w. x.parse_event (trim w) ≡ some e) q p)))
        lines-find i (k ∷ ls) s same (inr j) =
            lines-find (suc i) ls (rebuild_line x (a.line_read date i) (a.ingested date i) k s)
              (λ k f h. same k f (inr h)) j

        file-finds :
            (ls : List String) (rows : List Row)
            → Same ls
            → In l ls
            → Found (rebuild_from_jsonl x a date ls rows).0
        unfolding rebuild_from_jsonl
        file-finds ls rows same j =
            rw (restores.present, restores.opened) (lines-find 0 ls (rows, 0) same j)

        files-find :
            (ls : List String) (log : Map String (List String)) (rows : List Row) (total : ℕ)
            → Same (all_lines log)
            → lookup date log ≡ some ls
            → In l ls
            → Found (rebuild_files x a log rows total).0
        unfolding rebuild_files lookup
        files-find ls [] rows total same h j = ground arith
        files-find ls ((d, ks) ∷ files) rows total same h j = elim (Bool-cases (d == date)) [
          | inl k ↦ rw (restores.entry d) (
              files-keep files _ _ (λ l f i. same l f (In-right l ks _ i))
                (subst (λ w. Found (rebuild_from_jsonl x a w ks rows).0) (sym ((==_iff d date).0 k))
                  (file-finds ks rows (λ l f i. same l f (In-left l ks _ i))
                    (subst (λ w. In l w) (sym (some-injective _ _ (rw k at h))) j))))
          | inr k ↦
              rw (restores.entry d)
                (files-find ls files _ _ (λ l f i. same l f (In-right l ks _ i)) (rw k at h) j)
        ]

  entries-ok :
      (a : Answers) (log : Map String (List String)) (rows : List Row) (total : ℕ)
      → ((d : String) → a.entry d ≡ true)
      → (n : ℕ) × ((rebuild_files x a log rows total).1 ≡ ok n)
  unfolding rebuild_files
  entries-ok a [] rows total h = (total, refl)
  entries-ok a ((date, ls) ∷ files) rows total h = rw (h date) (entries-ok a files _ _ h)

  -- An event whose line was written is in the table after a rebuild, also when the statement that
  -- was to add it failed, and the rebuild succeeds, provided that the directory and its entries are
  -- read, that the file of the event's date is there and opens, that its lines are read and their
  -- statements succeed, that the JSON of the event is read back, and that no line of the log holds
  -- another event of the same id. Other files and their lines may fail.
  pub record_rebuilt :
      (a : Answers) (e : LedgerEvent) (indexed : Bool) (m : LedgerManager)
      → Restores a (x.date_of e.timestamp)
      → is_empty (trim (x.event_json e)) ≡ false
      → x.parse_event (trim (x.event_json e)) ≡ some e
      → ((l : String) (f : LedgerEvent)
          → In l (all_lines (append x e m.log))
          → x.parse_event (trim l) ≡ some f
          → f.event_id ≡ e.event_id
          → f ≡ e)
      → let r = rebuild_projection x a (record_event x e true indexed m).0 in
        (find_row e.event_id r.0.rows ≡ some (row_of x e)) × ((n : ℕ) × (r.1 ≡ ok n))
  unfolding rebuild_projection
  record_rebuilt a e indexed m restores n p same =
      rw (restores.exists, restores.listed, logged)
        (
          files-find e a (x.date_of e.timestamp) restores (x.event_json e) n p _ (append x e m.log)
              (record_event x e true indexed m).0.rows 0 same (lookup-append e m.log)
              (In-right (x.event_json e) _ (x.event_json e ∷ []) (inl refl)),
          entries-ok a (append x e m.log) (record_event x e true indexed m).0.rows 0 restores.entry,
        )
    where
      logged : (record_event x e true indexed m).0.log ≡ append x e m.log
      logged = log-record_event e indexed m

  ref_back :
      (o : Option ContentRef)
      → ((c : ContentRef) → o ≡ some c → x.parse_ref (x.ref_json c) ≡ some c)
      → bind_option (option_map x.ref_json o) x.parse_ref ≡ o
  ref_back none f = refl
  ref_back (some c) f = f c refl

  metadata_back :
      (d : Map String String)
      → x.parse_metadata (x.metadata_json d) ≡ some d
      → or_default [] (bind_option (metadata_column x d) x.parse_metadata) ≡ d
  metadata_back [] g = refl
  metadata_back (kv ∷ d) g = rw g refl

  -- An event read back from its row is the event, when JSON reads back its reference, if it has one,
  -- and its metadata.
  pub row_roundtrip :
      (e : LedgerEvent)
      → ((c : ContentRef) → e.content_ref ≡ some c → x.parse_ref (x.ref_json c) ≡ some c)
      → x.parse_metadata (x.metadata_json e.metadata) ≡ some e.metadata
      → row_to_event x (row_of x e) ≡ e
  unfolding row_to_event row_of
  row_roundtrip e f g = rw (ref_back e.content_ref f, metadata_back e.metadata g) refl
