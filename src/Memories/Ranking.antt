-- ===== src/Memories/Ranking.antt =====
-- cozmio_memory/src/agent_memory.rs: which memories are recalled, and in which order.
use Prim.Native.Char.{Char}
use cozmio.Prelude.{
  ℕ, ◌≤◌, ◌<◌, String, ◌≡◌, refl, ◌∙◌, ap, sym, nat_eq, subst, Bool, true, false, ◌⊎◌, List, [],
  ◌∷◌, arith, ltb, filter, length, take, Bool-cases, inl, inr, All, In,
}
use cozmio.Prelude.Sorting.{insert_by, sort_by, sort_by-IsOrdered, length-take-le}
use cozmio.Prelude.Members.{
  IsSorted, All-In, In-take, In-sort_by, In-filter, take-IsSorted, first_or_behind,
  ordered-IsSorted,
}
use cozmio.Prelude.Int.{ℤ, pos, negsuc, ltb_ℤ}
use cozmio.Memories.{AgentMemory, Database}
use cozmio.Memories.Writes.{is_active, list_active}
use cozmio.Memories.Recall.{
  is_ahead, recall_score, comes_before, insert_ranked, rank, recall_active_by_text,
}

is_ahead-total :
    (a b : ℕ) (u v : ℤ) (i j : ℕ) → is_ahead a b u v i j ≡ false → is_ahead b a v u j i ≡ true
unfolding is_ahead
is_ahead-total a b u v i j h = ground (arith, h)

-- A higher score; or the same, and more uses; or as many, and the same or an earlier id.
abbrev pub Outranks : ℕ → ℕ → ℤ → ℤ → ℕ → ℕ → Type 0
Outranks a b u v i j = (b < a) ⊎ ((a ≡ b) × ((ltb_ℤ v u ≡ true) ⊎ ((u ≡ v) × (i ≤ j))))

same_uses : (u v : ℤ) → ltb_ℤ v u ≡ false → ltb_ℤ u v ≡ false → u ≡ v
same_uses (pos a) (pos b) h k = ap pos (ground (arith, h, k))
same_uses (pos a) (negsuc b) h k = absurd (ground (arith, h, k))
same_uses (negsuc a) (pos b) h k = absurd (ground (arith, h, k))
same_uses (negsuc a) (negsuc b) h k = ap negsuc (ground (arith, h, k))

ahead-Outranks : (a b : ℕ) (u v : ℤ) (i j : ℕ) → is_ahead a b u v i j ≡ true → Outranks a b u v i j
unfolding is_ahead
ahead-Outranks a b u v i j h = elim (Bool-cases (nat_eq a b)) [
  | inr k ↦ inl (ground (arith, h, k))
  | inl k ↦ elim (Bool-cases (ltb_ℤ v u)) [
    | inl more ↦ inr (ground (arith, k), inl more)
    | inr not_more ↦ elim (Bool-cases (ltb_ℤ u v)) [
      | inl less ↦ absurd (ground (arith, h, k, not_more, less))
      | inr not_less ↦ inr (
        ground (arith, k),
        inr (same_uses u v not_more not_less, ground (arith, h, k, not_more, not_less)),
      )
    ]
  ]
]

uses_trans : (u v w : ℤ) → ltb_ℤ v u ≡ true → ltb_ℤ w v ≡ true → ltb_ℤ w u ≡ true
uses_trans (pos a) (pos b) (pos c) h k = ground (arith, h, k)
uses_trans (pos a) (pos b) (negsuc c) h k = refl
uses_trans (pos a) (negsuc b) (pos c) h k = absurd (ground (arith, k))
uses_trans (pos a) (negsuc b) (negsuc c) h k = refl
uses_trans (negsuc a) (pos b) w h k = absurd (ground (arith, h))
uses_trans (negsuc a) (negsuc b) (pos c) h k = absurd (ground (arith, k))
uses_trans (negsuc a) (negsuc b) (negsuc c) h k = ground (arith, h, k)

uses_asym : (u v : ℤ) → ltb_ℤ u v ≡ true → ltb_ℤ v u ≡ false
uses_asym (pos a) (pos b) h = ground (arith, h)
uses_asym (pos a) (negsuc b) h = absurd (ground (arith, h))
uses_asym (negsuc a) (pos b) h = refl
uses_asym (negsuc a) (negsuc b) h = ground (arith, h)

uses_irrefl : (u : ℤ) → ltb_ℤ u u ≡ false
uses_irrefl (pos a) = ground arith
uses_irrefl (negsuc a) = ground arith

Outranks-ahead : (a b : ℕ) (u v : ℤ) (i j : ℕ) → Outranks a b u v i j → is_ahead a b u v i j ≡ true
unfolding is_ahead
Outranks-ahead a b u v i j (inl h) = ground (arith, h)
Outranks-ahead a b u v i j (inr (e, inl h)) = ground (arith, e, h)
Outranks-ahead a b u v i j (inr (e, inr (same, h))) =
    subst (λ w. is_ahead a b u w i j ≡ true) same (ground (arith, e, h, uses_irrefl u))

Outranks-trans :
    (a b c : ℕ) (u v w : ℤ) (i j k : ℕ)
    → Outranks a b u v i j
    → Outranks b c v w j k
    → Outranks a c u w i k
Outranks-trans a b c u v w i j k (inl h) (inl g) = inl (omega arith)
Outranks-trans a b c u v w i j k (inl h) (inr (e, g)) = inl (omega (arith, e))
Outranks-trans a b c u v w i j k (inr (e, h)) (inl g) = inl (omega (arith, e))
Outranks-trans a b c u v w i j k (inr (e, inl h)) (inr (d, inl g)) =
    inr (e ∙ d, inl (uses_trans u v w h g))
Outranks-trans a b c u v w i j k (inr (e, inl h)) (inr (d, inr (same, g))) =
    inr (e ∙ d, inl (subst (λ x. ltb_ℤ x u ≡ true) same h))
Outranks-trans a b c u v w i j k (inr (e, inr (same, h))) (inr (d, inl g)) =
    inr (e ∙ d, inl (subst (λ x. ltb_ℤ w x ≡ true) (sym same) g))
Outranks-trans a b c u v w i j k (inr (e, inr (same, h))) (inr (d, inr (same', g))) =
    inr (e ∙ d, inr (same ∙ same', omega arith))

module _ (to_lowercase : String → String) (is_alphanumeric : Char → Bool) (text : String) where
  abbrev score : AgentMemory → ℕ
  score m = recall_score to_lowercase is_alphanumeric m.body text

  abbrev pub IsAhead : AgentMemory → AgentMemory → Type 0
  IsAhead m n = Outranks (score m) (score n) m.used_count n.used_count m.id n.id

  abbrev before : AgentMemory → AgentMemory → Bool
  before = comes_before to_lowercase is_alphanumeric text

  before-total : (m n : AgentMemory) → before m n ≡ false → before n m ≡ true
  unfolding comes_before
  before-total m n h = is_ahead-total (score m) (score n) m.used_count n.used_count m.id n.id h

  before-IsAhead : (m n : AgentMemory) → before m n ≡ true → IsAhead m n
  unfolding comes_before
  before-IsAhead m n h = ahead-Outranks (score m) (score n) m.used_count n.used_count m.id n.id h

  before_trans : (l m n : AgentMemory) → before l m ≡ true → before m n ≡ true → before l n ≡ true
  unfolding comes_before
  before_trans l m n h k = Outranks-ahead (score l) (score n) l.used_count n.used_count l.id n.id (
      Outranks-trans (score l) (score m) (score n) l.used_count m.used_count n.used_count l.id m.id
        n.id (before-IsAhead l m h) (before-IsAhead m n k))

  insert_sorts :
      (m : AgentMemory) (ms : List AgentMemory)
      → insert_ranked to_lowercase is_alphanumeric text m ms ≡ insert_by before m ms
  unfolding insert_ranked insert_by
  insert_sorts m [] = refl
  insert_sorts m (n ∷ ns) = rw (insert_sorts m ns) refl

  rank_sorts :
      (ms : List AgentMemory) → rank to_lowercase is_alphanumeric text ms ≡ sort_by before ms
  unfolding rank sort_by
  rank_sorts [] = refl
  rank_sorts (m ∷ ms) =
      ap (insert_ranked to_lowercase is_alphanumeric text m) (rank_sorts ms)
      ∙ insert_sorts m (sort_by before ms)

  abbrev found : String → Database → List AgentMemory
  found now db = filter (λ m. ltb 0 (score m)) (filter (is_active now) db.memories)

  recalled :
      (limit : ℕ) (now : String) (db : Database)
      → recall_active_by_text to_lowercase is_alphanumeric text limit now db
        ≡ take limit (sort_by before (found now db))
  unfolding recall_active_by_text list_active
  recalled limit now db = ap (take limit) (rank_sorts (found now db))

  found-IsSorted : (now : String) (db : Database) → IsSorted IsAhead (sort_by before (found now db))
  found-IsSorted now db =
      ordered-IsSorted before IsAhead before-IsAhead before_trans _
        (sort_by-IsOrdered before before-total (found now db))

  -- Recalling gives at most `limit` memories of the store, each active at the time and with a positive
  -- score, and each outranks all that follow it: by a higher score, at the same score by more uses,
  -- and at as many uses by the earlier id.
  pub recall-IsRanked :
      (limit : ℕ) (now : String) (db : Database)
      → let r = recall_active_by_text to_lowercase is_alphanumeric text limit now db in
        (length r ≤ limit)
        × All
            (λ m.
              In m db.memories
              × (is_active now m ≡ true)
              × (0 < recall_score to_lowercase is_alphanumeric m.body text))
            r
        × IsSorted IsAhead r
  recall-IsRanked limit now db = rw (recalled limit now db) (
    length-take-le limit _,
    All-In _ _ (λ m i. held m (In-take limit m _ i)),
    take-IsSorted IsAhead limit _ (found-IsSorted now db),
  )
    where
      held :
          (m : AgentMemory)
          → In m (sort_by before (found now db))
          → In m db.memories
            × (is_active now m ≡ true)
            × (0 < recall_score to_lowercase is_alphanumeric m.body text)
      held m i =
          let scored =
            (In-filter (λ n. ltb 0 (score n)) m (filter (is_active now) db.memories)).0
              ((In-sort_by before m (found now db)).0 i) in
          let active = (In-filter (is_active now) m db.memories).0 scored.0 in
          (active.0, active.1, ground (arith, scored.1))

  -- A memory of the store that is active at the time and has a positive score is recalled, or `limit`
  -- memories are, which all outrank it.
  pub recall_best :
      (limit : ℕ) (now : String) (db : Database) (m : AgentMemory)
      → In m db.memories
      → is_active now m ≡ true
      → 0 < recall_score to_lowercase is_alphanumeric m.body text
      → let r = recall_active_by_text to_lowercase is_alphanumeric text limit now db in
        In m r ⊎ ((length r ≡ limit) × All (λ n. IsAhead n m) r)
  recall_best limit now db m i active scored = rw (recalled limit now db) (
      first_or_behind IsAhead limit m _ (found-IsSorted now db) (
        (In-sort_by before m (found now db)).1 (
          (In-filter (λ n. ltb 0 (score n)) m (filter (is_active now) db.memories)).1
            ((In-filter (is_active now) m db.memories).1 (i, active), ground (arith, scored)))))
