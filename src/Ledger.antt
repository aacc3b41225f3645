-- ===== src/Ledger.antt =====
-- src-tauri/src/ledger.rs: events appended to a log of JSON lines, one file per date, and indexed in
-- a table that can be rebuilt from the log.
--
-- JSON, the digest, the date of a timestamp and UTF-8 are parameters. The metadata of an event is the
-- association list of its table. A file system call, or a statement on the table, that fails is given
-- as the outcome of that call.
pub mod Contents
pub mod Queries
pub mod Timeline
pub mod Stored
pub mod Indexed
pub mod Rebuilt
mod Tests
use cozmio.Prelude.{
  ℕ, suc, ◌+◌, String, Bool, true, false, Option, none, some, List, [], ◌∷◌, ◌++◌, if◌then◌else◌,
  find, filter, not, ◌==◌, string_key,
}
use cozmio.Prelude.Int.{ℤ}
use cozmio.Prelude.Results.{Result, Done, ok, err}
use cozmio.Prelude.Maps.{Map, lookup, insert}
use cozmio.Prelude.Text.{is_empty, trim}

pub record ContentRef : Type 0 where
  pub content_ref : String
  pub content_type : String
  pub storage_backend : String
  pub path_or_key : String
  pub content_hash : String
  pub created_at : ℤ
  pub producer : String
  pub byte_range : Option (ℕ × ℕ)
  pub line_range : Option (ℕ × ℕ)

pub record LedgerEvent : Type 0 where
  pub event_id : String
  pub trace_id : Option String
  pub session_id : Option String
  pub timestamp : ℤ
  pub event_type : String
  pub source : String
  pub window_title : Option String
  pub process_name : Option String
  pub raw_text : Option String
  pub content_ref : Option ContentRef
  pub parent_event_id : Option String
  pub metadata : Map String String

-- What the code takes from other crates; `utf8` reads bytes as text.
pub record Externals : Type 0 where
  pub event_json : LedgerEvent → String
  pub parse_event : String → Option LedgerEvent
  pub ref_json : ContentRef → String
  pub parse_ref : String → Option ContentRef
  pub metadata_json : Map String String → String
  pub parse_metadata : String → Option (Map String String)
  pub date_of : ℤ → String
  pub digest : List ℕ → String
  pub utf8 : List ℕ → Option String

-- A row of `ledger_events`.
pub record Row : Type 0 where
  pub event_id : String
  pub trace_id : Option String
  pub session_id : Option String
  pub timestamp : ℤ
  pub event_type : String
  pub source : String
  pub window_title : Option String
  pub process_name : Option String
  pub raw_text : Option String
  pub content_ref_json : Option String
  pub parent_event_id : Option String
  pub metadata_json : Option String

-- The log by date, the table, whether the content store is configured, and its files by path.
pub record LedgerManager : Type 0 where
  pub log : Map String (List String)
  pub rows : List Row
  pub has_content_store : Bool
  pub contents : Map String (List ℕ)

pub data LedgerError : Type 0 where
  io_error : LedgerError
  sqlite_error : LedgerError
  not_configured : LedgerError
  unsupported_backend : String → LedgerError
  hash_mismatch : String → LedgerError
  invalid_byte_range : LedgerError
  invalid_utf8 : LedgerError
  invalid_line_range : LedgerError

abbrev pub option_map {ℓ κ} : {A : Type ℓ} {B : Type κ} → (A → B) → Option A → Option B
option_map f none = none
option_map f (some a) = some (f a)

abbrev pub bind_option {ℓ κ} : {A : Type ℓ} {B : Type κ} → Option A → (A → Option B) → Option B
bind_option none f = none
bind_option (some a) f = f a

abbrev pub or_default {ℓ} : {A : Type ℓ} → A → Option A → A
or_default d none = d
or_default d (some a) = a

-- What the file system and the table answer to a rebuild: whether the directory is there and can be
-- listed; by the date of a file, whether its entry is read, and whether it is there and opens; and by
-- the date and the number of a line, whether the line is read and its statement succeeds.
pub record Answers : Type 0 where
  pub exists : Bool
  pub listed : Bool
  pub entry : String → Bool
  pub present : String → Bool
  pub opened : String → Bool
  pub line_read : String → ℕ → Bool
  pub ingested : String → ℕ → Bool

abbrev counted : Result LedgerError ℕ → ℕ
counted (ok n) = n
counted (err e) = 0

unfoldable pub without_row : String → List Row → List Row
without_row id = filter (λ r. not (r.event_id == id))

unfoldable pub find_row : String → List Row → Option Row
find_row id = find (λ r. r.event_id == id)

module _ (x : Externals) where
  abbrev pub metadata_column : Map String String → Option String
  metadata_column [] = none
  metadata_column (kv ∷ m) = some (x.metadata_json (kv ∷ m))

  unfoldable pub row_of : LedgerEvent → Row
  row_of e = record {
    event_id = e.event_id;
    trace_id = e.trace_id;
    session_id = e.session_id;
    timestamp = e.timestamp;
    event_type = e.event_type;
    source = e.source;
    window_title = e.window_title;
    process_name = e.process_name;
    raw_text = e.raw_text;
    content_ref_json = option_map x.ref_json e.content_ref;
    parent_event_id = e.parent_event_id;
    metadata_json = metadata_column e.metadata;
  }

  unfoldable pub row_to_event : Row → LedgerEvent
  row_to_event r = record {
    event_id = r.event_id;
    trace_id = r.trace_id;
    session_id = r.session_id;
    timestamp = r.timestamp;
    event_type = r.event_type;
    source = r.source;
    window_title = r.window_title;
    process_name = r.process_name;
    raw_text = r.raw_text;
    content_ref = bind_option r.content_ref_json x.parse_ref;
    parent_event_id = r.parent_event_id;
    metadata = or_default [] (bind_option r.metadata_json x.parse_metadata);
  }

  -- `INSERT OR REPLACE`: the row of the same event id is replaced by a new one.
  unfoldable pub ingest : LedgerEvent → List Row → List Row
  unfolding without_row row_of
  ingest e rows = without_row e.event_id rows ++ row_of e ∷ []

  unfoldable pub append : LedgerEvent → Map String (List String) → Map String (List String)
  append e log =
      let date = x.date_of e.timestamp in
      insert date (or_default [] (lookup date log) ++ x.event_json e ∷ []) log

  -- `record_event`, with the outcome of the write to the log and of the statement.
  unfoldable pub record_event :
      LedgerEvent → Bool → Bool → LedgerManager → LedgerManager × Result LedgerError Done
  unfolding append ingest
  record_event e written indexed m =
      let logged = record m { log = append e m.log } in
      if written
      then if indexed
        then (record logged { rows = ingest e m.rows }, ok tt)
        else (logged, err sqlite_error)
      else (m, err io_error)

  -- The call of `ingest` on one line, and whether its statement succeeds.
  unfoldable pub rebuild_event : Bool → Option LedgerEvent → List Row × ℕ → List Row × ℕ
  unfolding ingest
  rebuild_event ingested none (rows, n) = (rows, n)
  rebuild_event ingested (some e) (rows, n) = if ingested then (ingest e rows, suc n) else (rows, n)

  -- One line of `rebuild_from_jsonl`; the count is of the events ingested.
  unfoldable pub rebuild_line : Bool → Bool → String → List Row × ℕ → List Row × ℕ
  unfolding rebuild_event
  rebuild_line read ingested line s =
      let line = trim line in
      if read
      then (if is_empty line then s else rebuild_event ingested (x.parse_event line) s)
      else s

  unfoldable pub rebuild_lines : Answers → String → ℕ → List String → List Row × ℕ → List Row × ℕ
  unfolding rebuild_line
  rebuild_lines a date i [] s = s
  rebuild_lines a date i (l ∷ ls) s =
      rebuild_lines a date (suc i) ls (rebuild_line (a.line_read date i) (a.ingested date i) l s)

  unfoldable pub rebuild_from_jsonl :
      Answers → String → List String → List Row → List Row × Result LedgerError ℕ
  unfolding rebuild_lines
  rebuild_from_jsonl a date lines rows =
      let (rows', count) = rebuild_lines a date 0 lines (rows, 0) in
      if a.present date
      then (if a.opened date then (rows', ok count) else (rows, err io_error))
      else (rows, ok 0)

  -- A file that fails is passed over with a warning; an entry that fails ends the rebuild.
  unfoldable pub rebuild_files :
      Answers → Map String (List String) → List Row → ℕ → List Row × Result LedgerError ℕ
  unfolding rebuild_from_jsonl
  rebuild_files a [] rows total = (rows, ok total)
  rebuild_files a ((date, lines) ∷ files) rows total =
      let (rows', count) = rebuild_from_jsonl a date lines rows in
      let rest = rebuild_files a files rows' (total + counted count) in
      if a.entry date then rest else (rows, err io_error)

  -- Every file of the log in the order of the directory, into the table as it is.
  unfoldable pub rebuild_projection : Answers → LedgerManager → LedgerManager × Result LedgerError ℕ
  unfolding rebuild_files
  rebuild_projection a m =
      let (rows, total) = rebuild_files a m.log m.rows 0 in
      if a.exists
      then (if a.listed then (record m { rows = rows }, total) else (m, err io_error))
      else (m, ok 0)
