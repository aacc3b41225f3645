-- ===== src/Experience.antt =====
-- src-tauri/src/experience_recorder.rs: facts recorded as experience sources of the memory store.
--
-- The digest and the JSON text of a list are parameters (`sha256::digest` gives 64 hexadecimal
-- digits). The configuration's switch is an argument. The wrappers that only open the database and
-- log are left out.
pub mod Facts
pub mod Repeated
mod Tests
use Prim.Native.Char.{Char, code}
use Prim.Native.String
use cozmio.Prelude.{
  ℕ, ◌+◌, String, Bool, true, false, ◌&&◌, ◌||◌, Option, none, some, List, [], ◌∷◌, nat_eq, leb,
  ltb, if◌then◌else◌,
}
use cozmio.Prelude.Results.{Result, ok, err, ◌>>=◌}
use cozmio.Prelude.Text.{
  is_empty, is_blank, trim, map_chars, trim_matches, take_chars, char_count, contains_text,
}
use cozmio.Memories.{MemoryError, ExperienceSource, Database, Done}
use cozmio.Memories.Sources.{insert_experience_source}

-- The errors of this module, as texts, and those of the store.
pub data Problem : Type 0 where
  message : String → Problem
  store : MemoryError → Problem

pub record ExperienceEventInput : Type 0 where
  pub event_kind : String
  pub trace_id : Option String
  pub session_id : Option String
  pub window_title : Option String
  pub process_name : Option String
  pub factual_text : String
  pub raw_ref : Option String
  pub artifact_refs : List String
  pub timestamp : Option String

unfoldable pub new_input : String → String → ExperienceEventInput
new_input event_kind factual_text = record {
  event_kind = event_kind;
  trace_id = none;
  session_id = none;
  window_title = none;
  process_name = none;
  factual_text = factual_text;
  raw_ref = none;
  artifact_refs = [];
  timestamp = none;
}

infixr 60 ◌<+>◌
abbrev pub ◌<+>◌ : String → String → String
s <+> t = String.◌++◌ s t

abbrev pub unlined : Char → Char
unlined c = if nat_eq (code c) 10 then " " else c

-- `replace('\n', " ")`
unfoldable pub one_line : String → String
one_line = map_chars unlined

unfoldable pub normalize_required : String → String → Result Problem String
unfolding one_line
normalize_required field value =
    let value = trim value in
    if is_empty value then err (message (field <+> " must not be empty")) else ok (one_line value)

unfoldable pub clean_optional : Option String → Option String
clean_optional none = none
clean_optional (some v) = let v = trim v in if is_empty v then none else some v

-- `is_ascii_alphanumeric`, a dash or an underscore.
unfoldable pub is_ref_char : Char → Bool
is_ref_char c =
    let n = code c in
    (leb 48 n && leb n 57)
    || (leb 65 n && leb n 90)
    || (leb 97 n && leb n 122)
    || nat_eq n 45
    || nat_eq n 95

unfoldable pub safe_char : Char → Char
unfolding is_ref_char
safe_char c = if is_ref_char c then c else "-"

unfoldable pub safe_ref_part : String → String
unfolding safe_char
safe_ref_part value =
    take_chars 80 (trim_matches (λ c. nat_eq (code c) 45) (map_chars safe_char value))

unfoldable pub clip : String → ℕ → String
unfolding one_line
clip value max_chars =
    let clipped = take_chars max_chars (one_line (trim value)) in
    if ltb max_chars (char_count (trim value)) then clipped <+> "..." else clipped

-- The code of a character of `A` to `Z` goes up by 32.
abbrev pub lower_code : ℕ → ℕ
lower_code n = if leb 65 n && leb n 90 then n + 32 else n

-- `to_ascii_lowercase().contains(label)`, for a label of lower-case characters.
unfoldable pub starts_lower : String → String → Bool
starts_lower String.[] t = true
starts_lower (String.◌∷◌ c s) String.[] = false
starts_lower (String.◌∷◌ c s) (String.◌∷◌ d t) =
    nat_eq (code c) (lower_code (code d)) && starts_lower s t

unfoldable pub mentions : String → String → Bool
unfolding starts_lower
mentions label String.[] = starts_lower label ""
mentions label (String.◌∷◌ d t) = starts_lower label (String.◌∷◌ d t) || mentions label t

abbrev pub forbidden : List String
forbidden =
    "user_intent" ∷ "task_phase" ∷ "task_stage" ∷ "stuckness" ∷ "stuck" ∷ "poor_timing"
    ∷ "helpfulness" ∷ "user is stuck" ∷ "poorly timed" ∷ "semantic_user_state" ∷ "is_oscillating"
    ∷ "just_arrived" ∷ "last_switch_direction" ∷ "intent" ∷ "confidence" ∷ "next_step"
    ∷ "workflow_stage" ∷ "mode: continue" ∷ "mode: abstain" ∷ "negative_feedback" ∷ []

unfoldable pub reject_labels : List String → String → Result Problem Done
unfolding mentions
reject_labels [] value = ok tt
reject_labels (l ∷ ls) value =
    if mentions l value
    then err (message ("forbidden semantic label in experience source: " <+> l))
    else reject_labels ls value

abbrev pub reject_forbidden_semantic_labels : String → Result Problem Done
reject_forbidden_semantic_labels = reject_labels forbidden

abbrev pub text_or_empty : Option String → String
text_or_empty none = ""
text_or_empty (some s) = s

abbrev pub nonempty_or : String → String → String
nonempty_or d s = if is_empty s then d else s

abbrev pub of_store : {A : Type 0} → Database × Result MemoryError A → Database × Result Problem A
of_store (db, ok a) = (db, ok a)
of_store (db, err e) = (db, err (store e))

abbrev pub insert_built :
    String → Database → Result Problem ExperienceSource → Database × Result Problem String
insert_built now db (ok s) = of_store (insert_experience_source s now db)
insert_built now db (err e) = (db, err e)

unfoldable pub feedback_input : String → String → String → List String → ExperienceEventInput
unfolding new_input clip
feedback_input event_kind memory_id factual_text artifact_refs =
    record (new_input event_kind (
      "Memory feedback event_kind="
      <+> event_kind
      <+> " memory_id="
      <+> memory_id
      <+> " factual_text=\""
      <+> clip factual_text 900
      <+> "\".")) { raw_ref = some ("agent_memory:" <+> memory_id); artifact_refs = artifact_refs }

unfoldable pub build_relay_dispatch_event :
    Option String
    → Option String
    → String
    → String
    → String
    → String
    → Option String
    → ExperienceEventInput
unfolding new_input clip
build_relay_dispatch_event trace_id session_id event_kind window_title process_name task_text
      detail =
    record (new_input event_kind (
      "Relay event event_kind="
      <+> event_kind
      <+> " trace_id="
      <+> text_or_empty trace_id
      <+> " session_id="
      <+> text_or_empty session_id
      <+> " task_text=\""
      <+> clip task_text 900
      <+> "\" detail=\""
      <+> clip (text_or_empty detail) 900
      <+> "\".")) {
        trace_id = trace_id;
        session_id = session_id;
        window_title = some window_title;
        process_name = some process_name;
      }

module _ (digest : String → String) where
  unfoldable pub stable_source_ref :
      Option String → Option String → String → String → Option String → String → String
  unfolding safe_ref_part
  stable_source_ref trace_id session_id event_kind factual_text raw_ref artifact_refs_json =
      let trace_part = nonempty_or "no-trace" (safe_ref_part (text_or_empty trace_id)) in
      let session_part = safe_ref_part (text_or_empty session_id) in
      let hash = take_chars 12 (
        digest (
          text_or_empty trace_id
          <+> ":"
          <+> text_or_empty session_id
          <+> ":"
          <+> event_kind
          <+> ":"
          <+> factual_text
          <+> ":"
          <+> text_or_empty raw_ref
          <+> ":"
          <+> artifact_refs_json)) in
      if is_empty session_part
      then "experience:" <+> trace_part <+> ":" <+> event_kind <+> ":" <+> hash
      else "experience:" <+> trace_part <+> ":" <+> session_part <+> ":" <+> event_kind <+> ":"
        <+> hash

  abbrev pub source_of :
      (List String → String) → ExperienceEventInput → String → String → ExperienceSource
  source_of to_json input event_kind factual_text = record {
    source_ref =
        stable_source_ref input.trace_id input.session_id event_kind factual_text input.raw_ref
          (to_json input.artifact_refs);
    timestamp = input.timestamp;
    trace_id = clean_optional input.trace_id;
    session_id = clean_optional input.session_id;
    event_kind = event_kind;
    window_title = clean_optional input.window_title;
    process_name = clean_optional input.process_name;
    factual_text = factual_text;
    raw_ref = clean_optional input.raw_ref;
    artifact_refs_json = to_json input.artifact_refs;
  }

  unfoldable pub build_experience_source :
      (List String → String) → ExperienceEventInput → Result Problem ExperienceSource
  build_experience_source to_json input =
      normalize_required "event_kind" input.event_kind >>= λ event_kind.
      normalize_required "factual_text" input.factual_text >>= λ factual_text.
      reject_forbidden_semantic_labels event_kind >>= λ _.
      reject_forbidden_semantic_labels factual_text >>= λ _.
      ok (source_of to_json input event_kind factual_text)

  unfoldable pub record_experience_with_store :
      (List String → String)
      → ExperienceEventInput
      → String
      → Database
      → Database × Result Problem String
  unfolding build_experience_source
  record_experience_with_store to_json input now db =
      insert_built now db (build_experience_source to_json input)

  unfoldable pub record_experience_with_store_if_enabled :
      (List String → String)
      → ExperienceEventInput
      → Bool
      → String
      → Database
      → Database × Result Problem (Option String)
  unfolding record_experience_with_store
  record_experience_with_store_if_enabled to_json input enabled now db =
      let r = record_experience_with_store to_json input now db in
      if enabled then (r.0, r.1 >>= λ s. ok (some s)) else (db, ok none)

  unfoldable pub record_memory_feedback_with_store :
      (List String → String)
      → String
      → String
      → String
      → List String
      → String
      → Database
      → Database × Result Problem String
  unfolding feedback_input record_experience_with_store
  record_memory_feedback_with_store to_json event_kind memory_id factual_text refs now db =
      record_experience_with_store to_json (feedback_input event_kind memory_id factual_text refs)
        now db
