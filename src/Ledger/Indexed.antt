-- ===== src/Ledger/Indexed.antt =====
-- src-tauri/src/ledger.rs: every row of the table comes from a line of the log.
use cozmio.Prelude.{
  ℕ, suc, String, ◌≡◌, refl, Bool, true, false, ◌⊎◌, inl, inr, some, List, [], ◌∷◌, ◌++◌,
  Bool-cases, Option-cases, All, All-append, In, ◌==◌, string_key, subst,
}
use cozmio.Prelude.Maps.{Map, lookup, insert}
use cozmio.Prelude.Text.{is_empty, trim}
use cozmio.Ledger.{
  LedgerEvent, Externals, Row, LedgerManager, or_default, without_row, row_of, ingest, append,
  record_event, rebuild_event, rebuild_line, rebuild_lines, rebuild_from_jsonl, rebuild_files,
  rebuild_projection, Answers,
}

abbrev pub all_lines : Map String (List String) → List String
all_lines [] = []
all_lines ((date, lines) ∷ files) = lines ++ all_lines files

module _ {A : Type 0} where
  pub In-left : (z : A) (xs ys : List A) → In z xs → In z (xs ++ ys)
  In-left z [] ys h = elim h [ ]
  In-left z (x ∷ xs) ys (inl e) = inl e
  In-left z (x ∷ xs) ys (inr h) = inr (In-left z xs ys h)

  pub In-right : (z : A) (xs ys : List A) → In z ys → In z (xs ++ ys)
  In-right z [] ys h = h
  In-right z (x ∷ xs) ys h = inr (In-right z xs ys h)

  pub In-either : (z : A) (xs ys : List A) → In z (xs ++ ys) → In z xs ⊎ In z ys
  In-either z [] ys h = inr h
  In-either z (x ∷ xs) ys (inl e) = inl (inl e)
  In-either z (x ∷ xs) ys (inr h) = elim (In-either z xs ys h) [
    | inl k ↦ inl (inr k)
    | inr k ↦ inr k
  ]

-- Adding a line to the file of a date, whose lines are `ks`.
module _ (date line : String) (ks : List String) where
  In-added :
      (l : String) (log : Map String (List String))
      → or_default [] (lookup date log) ≡ ks
      → In l (all_lines log)
      → In l (all_lines (insert date (ks ++ line ∷ []) log))
  unfolding insert lookup
  In-added l [] e h = elim h [ ]
  In-added l ((d, ls) ∷ files) e h = elim (Bool-cases (d == date)) [
    | inl k ↦ rw k (
        subst (λ q. In l ((q ++ line ∷ []) ++ all_lines files)) (rw k at e)
          (elim (In-either l ls (all_lines files) h) [
            | inl a ↦ In-left l (ls ++ line ∷ []) (all_lines files) (In-left l ls (line ∷ []) a)
            | inr b ↦ In-right l (ls ++ line ∷ []) (all_lines files) b
          ]))
    | inr k ↦ rw k (elim (In-either l ls (all_lines files) h) [
      | inl a ↦ In-left l ls _ a
      | inr b ↦ In-right l ls _ (In-added l files (rw k at e) b)
    ])
  ]

  In-new :
      (log : Map String (List String)) → In line (all_lines (insert date (ks ++ line ∷ []) log))
  unfolding insert
  In-new [] = In-left line (ks ++ line ∷ []) [] (In-right line ks (line ∷ []) (inl refl))
  In-new ((d, ls) ∷ files) = elim (Bool-cases (d == date)) [
    | inl k ↦
        rw k (
          In-left line (ks ++ line ∷ []) (all_lines files)
            (In-right line ks (line ∷ []) (inl refl)))
    | inr k ↦ rw k (In-right line ls _ (In-new files))
  ]

module _ (x : Externals) where
  -- The row is that of an event that some line of the log parses to.
  abbrev pub Logged : Map String (List String) → Row → Type 0
  Logged log r =
      (l : String) × (e : LedgerEvent) × In l (all_lines log)
      × (x.parse_event (trim l) ≡ some e)
      × (r ≡ row_of x e)

  abbrev pub IsIndexed : LedgerManager → Type 0
  IsIndexed m = All (Logged m.log) m.rows

  pub In-append :
      (l : String) (e : LedgerEvent) (log : Map String (List String))
      → In l (all_lines log)
      → In l (all_lines (append x e log))
  unfolding append
  In-append l e log h = In-added (x.date_of e.timestamp) (x.event_json e) _ l log refl h

  pub append-In :
      (e : LedgerEvent) (log : Map String (List String))
      → In (x.event_json e) (all_lines (append x e log))
  unfolding append
  append-In e log = In-new (x.date_of e.timestamp) (x.event_json e) _ log

  Logged-append :
      (e : LedgerEvent) (log : Map String (List String)) (rows : List Row)
      → All (Logged log) rows
      → All (Logged (append x e log)) rows
  Logged-append e log [] a = tt
  Logged-append e log (r ∷ rs) a =
      ((a.0.0, a.0.1, In-append a.0.0 e log a.0.2, a.0.3, a.0.4), Logged-append e log rs a.1)

  All-without :
      (P : Row → Type 0) (id : String) (rows : List Row) → All P rows → All P (without_row id rows)
  unfolding without_row
  All-without P id [] a = tt
  All-without P id (r ∷ rs) a = elim (Bool-cases (r.event_id == id)) [
    | inl k ↦ rw k (All-without P id rs a.1)
    | inr k ↦ rw k (a.0, All-without P id rs a.1)
  ]

  All-ingest :
      (P : Row → Type 0) (e : LedgerEvent) (rows : List Row)
      → P (row_of x e)
      → All P rows
      → All P (ingest x e rows)
  unfolding ingest
  All-ingest P e rows p a =
      All-append P (without_row e.event_id rows) (row_of x e ∷ []) (All-without P e.event_id rows a)
        (p, tt)

  -- Recording an event keeps every row of the table that of a line of the log, whatever the write and
  -- the statement come to, when the JSON of the event is read back as the event.
  pub record-IsIndexed :
      (e : LedgerEvent) (written indexed : Bool) (m : LedgerManager)
      → x.parse_event (trim (x.event_json e)) ≡ some e
      → IsIndexed m
      → IsIndexed (record_event x e written indexed m).0
  unfolding record_event
  record-IsIndexed e false indexed m p i = i
  record-IsIndexed e true false m p i = Logged-append e m.log m.rows i
  record-IsIndexed e true true m p i =
      All-ingest (Logged (append x e m.log)) e m.rows
        (x.event_json e, e, append-In e m.log, p, refl) (Logged-append e m.log m.rows i)

  module _ (P : Row → Type 0) (a : Answers) where
    All-rebuild_line :
        (read ingested : Bool) (l : String) (s : List Row × ℕ)
        → ((e : LedgerEvent) → x.parse_event (trim l) ≡ some e → P (row_of x e))
        → All P s.0
        → All P (rebuild_line x read ingested l s).0
    unfolding rebuild_line rebuild_event
    All-rebuild_line false ingested l s f h = h
    All-rebuild_line true ingested l s f h = elim (Bool-cases (is_empty (trim l))) [
      | inl k ↦ rw k h
      | inr k ↦ elim (Option-cases (x.parse_event (trim l))) [
        | inl n ↦ rw (k, n) h
        | inr (e, p) ↦ rw (k, p) (added ingested e (f e p))
      ]
    ]
      where
        added :
            (b : Bool) (e : LedgerEvent) → P (row_of x e) → All P (rebuild_event x b (some e) s).0
        added true e p = All-ingest P e s.0 p h
        added false e p = h

    abbrev Each : List String → Type 0
    Each ls =
        (l : String) (e : LedgerEvent) → In l ls → x.parse_event (trim l) ≡ some e → P (row_of x e)

    All-rebuild_lines :
        (date : String) (i : ℕ) (ls : List String) (s : List Row × ℕ)
        → Each ls
        → All P s.0
        → All P (rebuild_lines x a date i ls s).0
    unfolding rebuild_lines
    All-rebuild_lines date i [] s f h = h
    All-rebuild_lines date i (l ∷ ls) s f h =
        All-rebuild_lines date (suc i) ls
          (rebuild_line x (a.line_read date i) (a.ingested date i) l s) (λ k e j p. f k e (inr j) p)
          (All-rebuild_line (a.line_read date i) (a.ingested date i) l s (λ e p. f l e (inl refl) p)
            h)

    All-rebuild_files :
        (log : Map String (List String)) (rows : List Row) (total : ℕ)
        → Each (all_lines log)
        → All P rows
        → All P (rebuild_files x a log rows total).0
    unfolding rebuild_files rebuild_from_jsonl
    All-rebuild_files [] rows total f h = h
    All-rebuild_files ((date, ls) ∷ files) rows total f h = elim (Bool-cases (a.entry date)) [
      | inl k ↦ rw k (All-rebuild_files files _ _ (λ l e i p. f l e (In-right l ls _ i) p) read)
      | inr k ↦ rw k h
    ]
      where
        read : All P (rebuild_from_jsonl x a date ls rows).0
        read = elim (Bool-cases (a.present date)) [
          | inl k ↦ elim (Bool-cases (a.opened date)) [
            | inl q ↦
                rw (k, q)
                  (All-rebuild_lines date 0 ls (rows, 0) (λ l e i p. f l e (In-left l ls _ i) p) h)
            | inr q ↦ rw (k, q) h
          ]
          | inr k ↦ rw k h
        ]

  -- Rebuilding the table keeps every row of it that of a line of the log, whatever fails.
  pub rebuild-IsIndexed :
      (a : Answers) (m : LedgerManager) → IsIndexed m → IsIndexed (rebuild_projection x a m).0
  unfolding rebuild_projection
  rebuild-IsIndexed a m i = elim (Bool-cases a.exists) [
    | inl k ↦ elim (Bool-cases a.listed) [
      | inl q ↦
          rw (k, q)
            (All-rebuild_files (Logged m.log) a m.log m.rows 0 (λ l e h p. (l, e, h, p, refl)) i)
      | inr q ↦ rw (k, q) i
    ]
    | inr k ↦ rw k i
  ]
