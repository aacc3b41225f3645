-- ===== src/Experience/Tests.antt =====
-- The recorder at concrete events, and its theorems at inputs that meet their hypotheses.

use cozmio.Prelude.{String, ◌≡◌, refl, true, List, [], All, string_key}
use cozmio.Prelude.Results.{ok, err}
use cozmio.Prelude.Text.{
  is_blank, is_whitespace, trim, trim_start, trim_end, map_chars, trim_matches, skip_chars,
  skip_end, take_chars,
}
use cozmio.Memories.{Database, validate_non_empty, constraint}
use cozmio.Memories.Sources.{insert_experience_source, add_source, get_source}
use cozmio.Experience.{
  store, ExperienceEventInput, new_input, stable_source_ref, safe_ref_part, one_line,
  normalize_required, reject_labels, mentions, is_ref_char, safe_char, starts_lower,
  record_experience_with_store,
}
use cozmio.Experience.Facts.{IsFactual, record-IsFactual}
use cozmio.Experience.Repeated.{record_again}

abbrev no_rows : Database
no_rows = record {
  memories = [];
  last_memory_id = 0;
  operations = [];
  last_operation_id = 0;
  sources = [];
  runs = [];
  last_run_id = 0;
}

abbrev digest : String → String
digest s = "0123456789abcdef"

abbrev to_json : List String → String
to_json refs = "[]"

abbrev event : ExperienceEventInput
event = new_input "popup" " shown "

label_found : mentions "intent" "the user INTENT" ≡ true
unfolding mentions starts_lower
label_found = refl

ref_part : safe_ref_part "-a b/c-" ≡ "a-b-c"
unfolding safe_ref_part safe_char is_ref_char map_chars trim_matches skip_chars skip_end take_chars
ref_part = refl

record-IsFactual_example :
    All IsFactual (record_experience_with_store digest to_json event "t" no_rows).0.sources
record-IsFactual_example = record-IsFactual digest to_json event "t" no_rows tt

recorded :
    (record_experience_with_store digest to_json event "t" no_rows).1
    ≡ ok "experience:no-trace:popup:0123456789ab"
unfolding record_experience_with_store new_input normalize_required one_line map_chars trim
    trim_start trim_end is_whitespace is_blank reject_labels mentions starts_lower stable_source_ref
    safe_ref_part trim_matches skip_chars skip_end take_chars insert_experience_source
    validate_non_empty add_source get_source
recorded = refl

record_again_example :
    let o = record_experience_with_store digest to_json event "t" no_rows in
    record_experience_with_store digest to_json event "u" o.0 ≡ (o.0, err (store constraint))
record_again_example =
    record_again digest to_json event "t" "u" "experience:no-trace:popup:0123456789ab" no_rows
      recorded
