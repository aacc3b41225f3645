-- ===== src/Ledger/Tests.antt =====
-- The ledger at concrete events and contents, and its theorems at inputs that meet their hypotheses.
use cozmio.Prelude.{
  ℕ, ◌≡◌, refl, true, false, ◌↔◌, Option, none, some, List, [], ◌∷◌, length, In, ap, sym,
  string_key, ◌==◌,
}
use cozmio.Prelude.Int.{pos}
use cozmio.Prelude.Results.{ok}
use cozmio.Prelude.Maps.{lookup}
use cozmio.Prelude.Text.{is_empty, is_blank, is_whitespace, trim, trim_start, trim_end}
use cozmio.Ledger.{
  ContentRef, LedgerEvent, Externals, Row, LedgerManager, or_default, find_row, row_of,
  record_event, rebuild_projection, Answers,
}
use cozmio.Ledger.Contents.{
  checked_bytes, slice_bytes, slice_lines, Surroundings, new_ref, record_event_with_content,
  resolve,
}
use cozmio.Ledger.Queries.{range_rows}
use cozmio.Ledger.Timeline.{◌≤ℤ◌, IsLatestFirst, range_exact}
use cozmio.Ledger.Stored.{InRange, stored-resolve, resolve_checked}
use cozmio.Ledger.Indexed.{IsIndexed, record-IsIndexed}
use cozmio.Ledger.Rebuilt.{record_rebuilt}

abbrev event : LedgerEvent
event = record {
  event_id = "e1";
  trace_id = some "t1";
  session_id = none;
  timestamp = pos 60;
  event_type = "model_called";
  source = "main";
  window_title = none;
  process_name = none;
  raw_text = some "hi";
  content_ref = none;
  parent_event_id = none;
  metadata = [];
}

abbrev no_ref : ContentRef
no_ref = record {
  content_ref = "c";
  content_type = "text";
  storage_backend = "file";
  path_or_key = "d/c.txt";
  content_hash = "h";
  created_at = pos 60;
  producer = "main";
  byte_range = some (1, 2);
  line_range = none;
}

-- Every line is read as the event, every digest is "h", and bytes are read as "text".
abbrev outside : Externals
outside = record {
  event_json = λ e. "{}";
  parse_event = λ s. some event;
  ref_json = λ c. "{}";
  parse_ref = λ s. some no_ref;
  metadata_json = λ d. "{}";
  parse_metadata = λ s. some [];
  date_of = λ t. "1970-01-01";
  digest = λ bytes. "h";
  utf8 = λ bytes. some "text";
}

abbrev empty : LedgerManager
empty = record { log = []; rows = []; has_content_store = true; contents = [] }

abbrev row : Row
row = row_of outside event

range_exact_example :
    (In row (range_rows (pos 0) (pos 60) (row ∷ []))
      ↔ (In row (row ∷ []) × (pos 0 ≤ℤ row.timestamp) × (row.timestamp ≤ℤ pos 60)))
    × IsLatestFirst (range_rows (pos 0) (pos 60) (row ∷ []))
range_exact_example = range_exact (pos 0) (pos 60) (row ∷ []) row

abbrev surroundings : Surroundings
surroundings = record { uuid = "u"; now = pos 60; directory = "d" }

stored-resolve_example :
    let c =
      new_ref outside surroundings
        (1 ∷ 2 ∷ [])
        (or_default "binary" (lookup "content_type" event.metadata))
        event.source in
    let r =
      record_event_with_content outside surroundings true false false event (1 ∷ 2 ∷ []) empty in
    resolve outside c r.0 ≡ ok record { content_ref = "u"; text = "text" }
stored-resolve_example =
    stored-resolve outside surroundings false false event (1 ∷ 2 ∷ []) "text" empty refl refl

abbrev with_file : LedgerManager
with_file = record empty { contents = ("d/c.txt", 7 ∷ 8 ∷ []) ∷ [] }

resolved : resolve outside no_ref with_file ≡ ok record { content_ref = "c"; text = "text" }
unfolding resolve lookup checked_bytes slice_bytes slice_lines
resolved = refl

resolve_checked_example :
    (bytes : List ℕ) × (lookup "d/c.txt" with_file.contents ≡ some bytes)
    × (outside.digest bytes ≡ no_ref.content_hash)
    × InRange outside (some (1, 2)) (length bytes)
    × (no_ref.content_ref ≡ no_ref.content_ref)
resolve_checked_example =
    resolve_checked outside no_ref with_file record { content_ref = "c"; text = "text" } resolved

record-IsIndexed_example : IsIndexed outside (record_event outside event true true empty).0
record-IsIndexed_example = record-IsIndexed outside event true true empty refl tt

abbrev event_or : LedgerEvent → Option LedgerEvent → LedgerEvent
event_or d none = d
event_or d (some e) = e

json_written : is_empty (trim "{}") ≡ false
unfolding trim trim_start trim_end is_blank is_whitespace
json_written = refl

-- The file of another date does not open.
abbrev one_bad_file : Answers
one_bad_file = record {
  exists = true;
  listed = true;
  entry = λ d. true;
  present = λ d. true;
  opened = λ d. d == "1970-01-01";
  line_read = λ d i. true;
  ingested = λ d i. true;
}

abbrev with_bad_file : LedgerManager
with_bad_file = record empty { log = ("1969-12-31", "{}" ∷ []) ∷ [] }

record_rebuilt_example :
    let r =
      rebuild_projection outside one_bad_file
        (record_event outside event true false with_bad_file).0 in
    (find_row "e1" r.0.rows ≡ some row) × ((n : ℕ) × (r.1 ≡ ok n))
record_rebuilt_example =
    record_rebuilt outside one_bad_file event false with_bad_file
      (record {
        exists = refl;
        listed = refl;
        entry = λ d. refl;
        present = refl;
        opened = refl;
        line_read = λ i. refl;
        ingested = λ i. refl;
      })
      json_written refl (λ l f i p q. sym (ap (event_or event) p))

abbrev with_ref : LedgerEvent
with_ref = record event { content_ref = some no_ref; metadata = ("k", "v") ∷ [] }

abbrev reading : Externals
reading = record outside { parse_metadata = λ s. some (("k", "v") ∷ []) }
