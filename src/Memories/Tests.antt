-- ===== src/Memories/Tests.antt =====
-- The store at concrete memories, and its theorems at inputs that meet their hypotheses.
use Prim.Native.Char.{Char, code}
use cozmio.Prelude.{
  ◌≤◌, ◌<◌, ◌≡◌, refl, String, Bool, true, ◌++◌, none, List, [], ◌∷◌, arith, leb, length, All, In,
  contains, ◌⊎◌, inl, filter, string_key, ◌&&◌,
}
use cozmio.Prelude.Results.{ok}
use cozmio.Prelude.Text.{
  is_blank, is_whitespace, contains_text, starts_with, trim, trim_start, trim_end,
}
use cozmio.Memories.{
  AgentMemory, MemoryWrite, Database, validate_write, validate_non_empty, validate_source_refs,
  has_memory, refers,
}
use cozmio.Memories.Writes.{
  insert_row, log_inserted, list_active, is_active, reject_with_reason, supersede_memory,
  remember_memory,
}
use cozmio.Memories.Sound.{IsSound}
use cozmio.Memories.Kept.{Change, change, change-IsSound}
use cozmio.Memories.Kept
use cozmio.Memories.Superseding.{without, successor, reject_removes, supersede_replaces}
use cozmio.Memories.Recall.{
  split_first, distinct, recall_terms, recall_score, recall_active_by_text,
}
use cozmio.Memories.Ranking.{IsAhead, recall-IsRanked, recall_best}
use cozmio.Prelude.Members.{IsSorted}
use cozmio.Prelude.Int.{pos}

abbrev no_rows : Database
no_rows = record {
  memories = [];
  last_memory_id = 0;
  operations = [];
  last_operation_id = 0;
  sources = [];
  runs = [];
  last_run_id = 0;
}

abbrev to_json : List String → String
to_json refs = "[\"a\"]"

abbrev fact : MemoryWrite
fact = record {
  body = "uses vim";
  layer = "episode";
  lifecycle = "active";
  source_refs = "a" ∷ [];
  supersedes_id = none;
  producer = "p";
  expires_at = none;
}

abbrev other_fact : MemoryWrite
other_fact = record fact { body = "uses emacs" }

abbrev one : Database
one = change to_json (Kept.remember fact) "t1" no_rows

no_rows-IsSound : IsSound no_rows
no_rows-IsSound = record { ordered = omega arith; linked = tt; resolved = tt }

change-IsSound_example : IsSound one
change-IsSound_example = change-IsSound to_json (Kept.remember fact) "t1" no_rows no_rows-IsSound

fact_valid : validate_write other_fact ≡ ok tt
unfolding validate_write validate_non_empty validate_source_refs is_blank is_whitespace
fact_valid = refl

one_has : has_memory 1 one.memories ≡ true
unfolding remember_memory validate_write validate_non_empty validate_source_refs is_blank
    is_whitespace has_memory refers insert_row
one_has = refl

reject_removes_example :
    ((reject_with_reason 1 none "user" "t2" one).1 ≡ ok tt)
    × (list_active "t3" (reject_with_reason 1 none "user" "t2" one).0
        ≡ without 1 (list_active "t3" one))
unfolding validate_non_empty is_blank is_whitespace
reject_removes_example = reject_removes 1 none "user" "t2" "t3" one refl one_has

supersede_replaces_example :
    ((supersede_memory to_json 1 other_fact "t2" one).1 ≡ ok 2)
    × (list_active "t3" (supersede_memory to_json 1 other_fact "t2" one).0
        ≡ without 1 (list_active "t3" one)
          ++ filter (is_active "t3") (successor to_json 1 other_fact "t2" one ∷ []))
unfolding remember_memory validate_write validate_non_empty validate_source_refs is_blank
    is_whitespace refers insert_row log_inserted has_memory
supersede_replaces_example =
    supersede_replaces to_json 1 other_fact "t2" one "t3" change-IsSound_example fact_valid one_has

-- ASCII, as far as the example needs it.
abbrev is_letter : Char → Bool
is_letter c = leb 97 (code c) && leb (code c) 122

abbrev same_text : String → String
same_text s = s

recall-IsRanked_example :
    let r = recall_active_by_text same_text is_letter "vim, please" 3 "t2" one in
    (length r ≤ 3)
    × All
        (λ m.
          In m one.memories
          × (is_active "t2" m ≡ true)
          × (0 < recall_score same_text is_letter m.body "vim, please"))
        r
    × IsSorted (IsAhead same_text is_letter "vim, please") r
recall-IsRanked_example = recall-IsRanked same_text is_letter "vim, please" 3 "t2" one

-- The memory of `one`, with a body that the text has a term of.
abbrev vim_memory : AgentMemory
vim_memory = record {
  id = 1;
  body = "user likes vim";
  layer = "l";
  lifecycle = "active";
  source_refs_json = "[]";
  supersedes_id = none;
  producer = "p";
  used_count = pos 0;
  last_used_at = none;
  created_at = "t";
  updated_at = "t";
  rejected_reason = none;
  expires_at = none;
}

abbrev with_vim : Database
with_vim = record no_rows { memories = vim_memory ∷ []; last_memory_id = 1 }

vim_active : is_active "t2" vim_memory ≡ true
unfolding is_active
vim_active = refl

vim_scored : recall_score same_text is_letter "user likes vim" "vim, please" ≡ 1
unfolding recall_score recall_terms split_first distinct contains_text starts_with trim trim_start
    trim_end is_whitespace is_blank contains
vim_scored = refl

recall_best_example :
    let r = recall_active_by_text same_text is_letter "vim, please" 3 "t2" with_vim in
    In vim_memory r
    ⊎ ((length r ≡ 3) × All (λ n. IsAhead same_text is_letter "vim, please" n vim_memory) r)
recall_best_example =
    recall_best same_text is_letter "vim, please" 3 "t2" with_vim vim_memory (inl refl) vim_active
      (rw vim_scored (omega arith))
