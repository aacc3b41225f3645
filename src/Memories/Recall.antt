-- ===== src/Memories/Recall.antt =====
-- cozmio_memory/src/agent_memory.rs: recalling active memories by a text.
--
-- `to_lowercase` and `is_alphanumeric` follow the tables of Unicode and are parameters.
use Prim.Native.Char.{Char, code}
use cozmio.Prelude.{
  ℕ, String, Bool, true, false, not, ◌||◌, List, [], ◌∷◌, map, nat_eq, leb, ltb, if◌then◌else◌,
  filter, length, take, contains, string_key,
}
use cozmio.Prelude.Int.{ℤ, ltb_ℤ}
use cozmio.Prelude.Text.{trim, char_count, contains_text}
use cozmio.Memories.{AgentMemory, Database}
use cozmio.Memories.Writes.{list_active}

-- The pieces of a text between the characters of a class, as `split` gives them: the first piece and
-- the rest.
unfoldable pub split_first : (Char → Bool) → String → String × List String
split_first p String.[] = ("", [])
split_first p (String.◌∷◌ c s) =
    let rest = split_first p s in
    if p c then ("", rest.0 ∷ rest.1) else (String.◌∷◌ c rest.0, rest.1)

abbrev pub split : (Char → Bool) → String → List String
split p s = let r = split_first p s in r.0 ∷ r.1

-- The values of a set: each text once.
unfoldable pub distinct : List String → List String
distinct [] = []
distinct (s ∷ ss) = let rest = distinct ss in if contains s rest then rest else s ∷ rest

-- The order of `sort_by`, on the scores, the uses and the ids of two memories: a higher score, then
-- more uses, then the earlier id.
unfoldable pub is_ahead : ℕ → ℕ → ℤ → ℤ → ℕ → ℕ → Bool
is_ahead a b u v i j =
    if nat_eq a b
    then (if ltb_ℤ v u then true else if ltb_ℤ u v then false else leb i j)
    else ltb b a

module _ (to_lowercase : String → String) (is_alphanumeric : Char → Bool) where
  abbrev pub is_separator : Char → Bool
  is_separator c = not (is_alphanumeric c || nat_eq (code c) 95 || ltb 0x7f (code c))

  unfoldable pub recall_terms : String → List String
  unfolding split_first distinct
  recall_terms text =
      distinct
        (map to_lowercase (filter (λ t. leb 2 (char_count t)) (map trim (split is_separator text))))

  unfoldable pub recall_score : String → String → ℕ
  unfolding recall_terms
  recall_score body text =
      length (filter (λ t. contains_text t (to_lowercase body)) (recall_terms text))

  unfoldable pub comes_before : String → AgentMemory → AgentMemory → Bool
  unfolding recall_score is_ahead
  comes_before text l r =
      is_ahead (recall_score l.body text) (recall_score r.body text) l.used_count r.used_count l.id
        r.id

  unfoldable pub insert_ranked : String → AgentMemory → List AgentMemory → List AgentMemory
  unfolding comes_before
  insert_ranked text m [] = m ∷ []
  insert_ranked text m (n ∷ ns) =
      if comes_before text m n then m ∷ n ∷ ns else n ∷ insert_ranked text m ns

  unfoldable pub rank : String → List AgentMemory → List AgentMemory
  unfolding insert_ranked
  rank text [] = []
  rank text (m ∷ ms) = insert_ranked text m (rank text ms)

  unfoldable pub recall_active_by_text : String → ℕ → String → Database → List AgentMemory
  unfolding recall_score rank
  recall_active_by_text text limit now db =
      take limit (rank text (filter (λ m. ltb 0 (recall_score m.body text)) (list_active now db)))
