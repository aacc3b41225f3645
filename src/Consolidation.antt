-- ===== src/Consolidation.antt =====
-- src-tauri/src/memory_consolidation.rs: the checks of a memory operation against the packet of
-- sources it cites. Child modules apply operations and run consolidations.
--
-- JSON, the digest, `{:?}` of texts and the parser of SQLite times are parameters.
pub mod Grounded
pub mod Applying
pub mod Repeating
pub mod Operations
pub mod Runs
pub mod Steady
pub mod Ended
mod Tests
use cozmio.Prelude.{
  ℕ, String, Bool, true, false, not, ◌&&◌, ◌||◌, Option, none, some, List, [], ◌∷◌, map, filter,
  if◌then◌else◌, contains, ◌==◌, string_key,
}
use cozmio.Prelude.Int.{ℤ}
use cozmio.Prelude.Results.{Result, ok, err, ◌>>=◌}
use cozmio.Prelude.Text.{is_empty, trim, str_ltb}
use cozmio.Prelude.Numerals.{parse_i64}
use cozmio.Memories.{Done, is_nil, is_some}
use cozmio.Experience.{◌<+>◌, Problem, message, clean_optional}

-- What the code takes from other crates.
pub record Externals : Type 0 where
  pub to_json : List String → String
  pub from_json : String → Option (List String)
  pub digest : String → String
  pub debug_option : Option String → String
  pub debug_list : List String → String
  pub sqlite_time : String → Option ℤ

pub record ConsolidationSource : Type 0 where
  pub source_ref : String
  pub source_kind : String
  pub source_text : String
  pub timestamp : String

pub record RelatedMemory : Type 0 where
  pub memory_id : String
  pub layer : String
  pub body : String
  pub source_refs : List String
  pub use_count : Option ℤ
  pub last_used_at : Option ℤ

pub record ConsolidationPacket : Type 0 where
  pub packet_id : String
  pub created_at : ℤ
  pub sources : List ConsolidationSource
  pub related_memories : List RelatedMemory
  pub current_hot_context : String

pub record MemoryOperationInput : Type 0 where
  pub operation_type : String
  pub layer : Option String
  pub body : Option String
  pub source_refs : List String
  pub target_memory_id : Option String
  pub producer : Option String

abbrev pub creating : List String
creating = "remember_episode" ∷ "remember_reflection" ∷ "remember_skill" ∷ "update_hot_context" ∷ []

unfoldable pub is_creating : String → Bool
is_creating t = contains t creating

abbrev pub remove_or_supersede : String
remove_or_supersede = "remove_or_supersede"

abbrev pub abstain : String
abstain = "abstain"

-- A set of texts in the order of their bytes, as its values.
unfoldable pub insert_set : String → List String → List String
insert_set s [] = s ∷ []
insert_set s (t ∷ ts) =
    if s == t then t ∷ ts else if str_ltb s t then s ∷ t ∷ ts else t ∷ insert_set s ts

unfoldable pub set_of : List String → List String
unfolding insert_set
set_of [] = []
set_of (s ∷ ss) = insert_set s (set_of ss)

unfoldable pub normalize_source_refs : List String → List String
unfolding set_of
normalize_source_refs refs = set_of (filter (λ s. not (is_empty s)) (map trim refs))

unfoldable pub validate_operation_type : String → Result Problem Done
validate_operation_type t =
    if is_creating t || (t == remove_or_supersede) || (t == abstain)
    then ok tt
    else err (message ("Unsupported operation_type: " <+> t))

abbrev pub layers : List String
layers = "episode" ∷ "reflection" ∷ "procedure" ∷ "hot_context_proposal" ∷ []

unfoldable pub validate_layer : String → Result Problem Done
validate_layer layer =
    if contains layer layers then ok tt else err (message ("Unsupported layer: " <+> layer))

unfoldable pub required_layer_for_operation : String → Option String
required_layer_for_operation t =
    if t == "remember_episode"
    then some "episode"
    else if t == "remember_reflection"
    then some "reflection"
    else if t == "remember_skill"
    then some "procedure"
    else if t == "update_hot_context"
    then some "hot_context_proposal"
    else none

-- A layer that is given must be the required one.
abbrev pub agreed_layer : String → String → Option String → Result Problem Done
agreed_layer t required none = ok tt
agreed_layer t required (some l) = validate_layer l >>= λ _.
    if l == required
    then ok tt
    else err
        (message ("operation_type " <+> t <+> " requires layer " <+> required <+> ", got " <+> l))

abbrev pub given_layer : Option String → Result Problem (Option String)
given_layer none = ok none
given_layer (some l) = validate_layer l >>= λ _. ok (some l)

abbrev pub creating_layer : String → Option String → Option String → Result Problem (Option String)
creating_layer t none layer = err (message ("Unsupported operation_type: " <+> t))
creating_layer t (some r) layer = agreed_layer t r layer >>= λ _. ok (some r)

unfoldable pub layer_for_operation : MemoryOperationInput → Result Problem (Option String)
layer_for_operation i =
    let layer = clean_optional i.layer in
    if is_creating i.operation_type
    then creating_layer i.operation_type (required_layer_for_operation i.operation_type) layer
    else if i.operation_type == remove_or_supersede
    then given_layer layer
    else if i.operation_type == abstain
    then ok none
    else err (message ("Unsupported operation_type: " <+> i.operation_type))

abbrev pub body_or_error : String → Option String → Result Problem (Option String)
body_or_error t none = err (message ("body is required for " <+> t))
body_or_error t (some b) = ok (some b)

unfoldable pub required_body : MemoryOperationInput → Result Problem (Option String)
required_body i =
    let body = clean_optional i.body in
    if is_creating i.operation_type
    then body_or_error i.operation_type body
    else if (i.operation_type == remove_or_supersede) || (i.operation_type == abstain)
    then ok body
    else err (message ("Unsupported operation_type: " <+> i.operation_type))

abbrev pub packet_refs : ConsolidationPacket → List String
packet_refs p = map (λ s. s.source_ref) p.sources

unfoldable pub known_refs : List String → List String → Result Problem Done
known_refs [] known = ok tt
known_refs (r ∷ rs) known =
    if contains r known then known_refs rs known else err (message ("Unknown source_ref: " <+> r))

unfoldable pub validate_source_refs_against_packet :
    List String → ConsolidationPacket → Result Problem (List String)
unfolding normalize_source_refs known_refs
validate_source_refs_against_packet refs packet =
    let normalized = normalize_source_refs refs in
    known_refs normalized (packet_refs packet) >>= λ _. ok normalized

-- `remove_or_supersede` needs the number of a memory.
abbrev pub numeric_target : Option String → Result Problem Done
numeric_target none = err (message "target_memory_id is required for remove_or_supersede")
numeric_target (some t) =
    if is_some (parse_i64 t)
    then ok tt
    else err (message ("target_memory_id must be numeric: " <+> t))

abbrev pub producer_or_default : Option String → String
producer_or_default none = "local-popup-agent"
producer_or_default (some p) = p

pub record Validated : Type 0 where
  pub layer : Option String
  pub body : Option String
  pub source_refs : List String
  pub producer : String

abbrev pub cited : String → List String → Result Problem Done
cited t refs =
    if not (t == abstain) && is_nil refs
    then err (message "source_refs must be non-empty except for abstain")
    else ok tt

abbrev pub targeted : MemoryOperationInput → Result Problem Done
targeted i =
    if i.operation_type == remove_or_supersede
    then numeric_target (clean_optional i.target_memory_id)
    else ok tt

unfoldable pub validate_memory_operation :
    MemoryOperationInput → ConsolidationPacket → Result Problem Validated
unfolding validate_operation_type layer_for_operation required_body
    validate_source_refs_against_packet
validate_memory_operation i packet = validate_operation_type i.operation_type >>= λ _.
    layer_for_operation i >>= λ layer. required_body i >>= λ body.
    validate_source_refs_against_packet i.source_refs packet >>= λ refs.
    cited i.operation_type refs >>= λ _. targeted i >>= λ _. ok record {
      layer = layer;
      body = body;
      source_refs = refs;
      producer = producer_or_default (clean_optional i.producer);
    }
