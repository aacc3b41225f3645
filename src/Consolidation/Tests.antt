-- ===== src/Consolidation/Tests.antt =====
-- Consolidation at concrete packets and operations, and its theorems at inputs that meet their
-- hypotheses.
use cozmio.Prelude.{String, ◌≡◌, refl, none, some, List, [], ◌∷◌, arith, string_key, contains}
use mathlib.Core.Option
use cozmio.Prelude.Int.{pos}
use cozmio.Prelude.Results.{ok}
use cozmio.Prelude.Text.{is_blank, is_whitespace, trim, trim_start, trim_end}
use cozmio.Prelude.Numerals.{show_nat, digits}
use cozmio.Memories.{
  Database, validate_write, validate_non_empty, validate_source_refs, refers, has_memory,
  get_memory,
}
use cozmio.Memories.Writes.{remember_memory, insert_row, log_inserted, list_active}
use cozmio.Memories.Sources.{get_run}
use cozmio.Experience.{clean_optional}
use cozmio.Consolidation.{
  Externals, ConsolidationPacket, MemoryOperationInput, validate_memory_operation,
  validate_operation_type, layer_for_operation, required_body, required_layer_for_operation,
  validate_source_refs_against_packet, known_refs, normalize_source_refs, set_of, insert_set,
  is_creating,
}
use cozmio.Consolidation.Grounded.{IsGrounded, validate-IsGrounded}
use cozmio.Consolidation.Applying.{
  Moment, AgentMemoryDto, dto_or_missing, ApplyMemoryOperationResult, agent_memory_to_dto,
  create_memory, create_unless, find_exact, find_exact_active_memory, memory_by_id,
}
use cozmio.Consolidation.Repeating.{create_again}
use cozmio.Consolidation.Runs.{run_manual_consolidation}
use cozmio.Consolidation.Ended.{status_after, run-status}

abbrev no_rows : Database
no_rows = record {
  memories = [];
  last_memory_id = 0;
  operations = [];
  last_operation_id = 0;
  sources = [];
  runs = [];
  last_run_id = 0;
}

abbrev outside : Externals
outside = record {
  to_json = λ refs. "[]";
  from_json = λ s. some ("a" ∷ []);
  digest = λ s. "0123456789abcdef0123";
  debug_option = λ o. "o";
  debug_list = λ l. "l";
  sqlite_time = λ s. none;
}

abbrev packet : ConsolidationPacket
packet = record {
  packet_id = "p";
  created_at = pos 1;
  sources = record { source_ref = "a"; source_kind = "k"; source_text = "t"; timestamp = "1" } ∷ [];
  related_memories = [];
  current_hot_context = "";
}

abbrev episode : MemoryOperationInput
episode = record {
  operation_type = "remember_episode";
  layer = none;
  body = some " hi ";
  source_refs = "a " ∷ "a" ∷ [];
  target_memory_id = none;
  producer = none;
}

valid :
    validate_memory_operation episode packet
    ≡ ok record {
      layer = some "episode";
      body = some "hi";
      source_refs = "a" ∷ [];
      producer = "local-popup-agent";
    }
unfolding validate_memory_operation validate_operation_type layer_for_operation required_body
    validate_source_refs_against_packet is_creating contains required_layer_for_operation known_refs
    clean_optional trim trim_start trim_end is_blank is_whitespace normalize_source_refs set_of
    insert_set
valid = refl

validate-IsGrounded_example : IsGrounded packet episode record {
  layer = some "episode";
  body = some "hi";
  source_refs = "a" ∷ [];
  producer = "local-popup-agent";
}
validate-IsGrounded_example = validate-IsGrounded packet episode _ valid

abbrev dto : AgentMemoryDto
dto = record {
  memory_id = "1";
  created_at = pos 0;
  updated_at = pos 0;
  layer = "episode";
  lifecycle = "active";
  body = "hi";
  source_refs = "a" ∷ [];
  supersedes = none;
  last_used_at = none;
  use_count = pos 0;
  producer = "me";
}

created : (create_memory outside "hi" "episode" ("a" ∷ []) "me" "t" no_rows).1 ≡ ok dto
unfolding create_memory create_unless find_exact_active_memory find_exact list_active
    remember_memory validate_write validate_non_empty validate_source_refs is_blank is_whitespace
    insert_row refers log_inserted has_memory get_memory memory_by_id dto_or_missing
    agent_memory_to_dto show_nat digits
created = refl

create_again_example :
    let r = create_memory outside "hi" "episode" ("a" ∷ []) "me" "t" no_rows in
    create_memory outside "hi" "episode" ("a" ∷ []) "me" "t" r.0 ≡ (r.0, ok dto)
create_again_example =
    create_again outside "hi" "episode" "me" "t" ("a" ∷ []) no_rows dto
      record { ordered = omega arith; linked = tt; resolved = tt } refl created

abbrev results_json : List ApplyMemoryOperationResult → String
results_json rs = "[]"

abbrev moment : Moment
moment = record { text = "t"; seconds = pos 5 }

run-status_example :
    let r =
      run_manual_consolidation outside
        (λ p. "{}")
        results_json
        "db"
        "manual"
        packet
        ((episode, moment) ∷ [])
        "s"
        "e"
        no_rows in
    Option.map (λ q. q.status) (get_run 1 r.0.runs) ≡ some (status_after "db" r.1)
unfolding is_blank is_whitespace
run-status_example =
    run-status outside (λ p. "{}") results_json "db" "manual" packet ((episode, moment) ∷ []) "s"
      "e" no_rows tt refl refl refl
