-- ===== src/Session/Race/Loss.antt =====
-- relay-engine/src/session.rs: no interleaving of `add_progress` and `subscribe` loses an entry.
use cozmio.Prelude.{String, ◌≡◌, subst, ◌⊎◌, inl, inr, List, [], ◌∷◌, ◌++◌, In}
use cozmio.Session.{ProgressEntry}
use cozmio.Session.Race.{
  Task, notify, deliver, replay, World, start, Step, push, read, call, register, catch_up,
  delivered, replayed, Reach, begin, then,
}

-- The task will still send `e` to `s`.
abbrev Owes : String → ProgressEntry → Task → Type 0
Owes s e (notify e') = e ≡ e'
Owes s e (deliver e' rest) = (e ≡ e') × In s rest
Owes s e (replay s' es) = (s ≡ s') × In e es

abbrev Pending : String → ProgressEntry → List Task → Type 0
Pending s e [] = ⊥
Pending s e (t ∷ ts) = Owes s e t ⊎ Pending s e ts

-- Every registered subscriber has been sent each entry of the log, or some thread will send it.
abbrev Covered : World → Type 0
Covered w =
    (s : String) (e : ProgressEntry)
    → In s w.subscribers
    → In e w.progress_logs
    → In (s, e) w.sent ⊎ Pending s e w.tasks

In-snoc : {A : Type 0} (x y : A) (xs : List A) → In x (xs ++ y ∷ []) → In x xs ⊎ (x ≡ y)
In-snoc x y [] (inl e) = inr e
In-snoc x y [] (inr h) = elim h [ ]
In-snoc x y (z ∷ xs) (inl e) = inl (inl e)
In-snoc x y (z ∷ xs) (inr h) = elim (In-snoc x y xs h) [ inl i ↦ inl (inr i) | inr e ↦ inr e ]

module _ (s : String) (e : ProgressEntry) where
  -- One task of a list is replaced by another that owes what it owed, unless that is settled.
  Pending-replace :
      {X : Type 0} (before after : List Task) (t t' : Task)
      → (Owes s e t → X ⊎ Owes s e t')
      → Pending s e (before ++ t ∷ after)
      → X ⊎ Pending s e (before ++ t' ∷ after)
  Pending-replace [] after t t' k (inl o) = elim (k o) [ inl x ↦ inl x | inr o' ↦ inr (inl o') ]
  Pending-replace [] after t t' k (inr p) = inr (inr p)
  Pending-replace (u ∷ before) after t t' k (inl o) = inr (inl o)
  Pending-replace (u ∷ before) after t t' k (inr p) = elim (Pending-replace before after t t' k p) [
    | inl x ↦ inl x
    | inr q ↦ inr (inr q)
  ]

  -- A task that owes nothing may go.
  Pending-drop :
      (before after : List Task) (t : Task)
      → (Owes s e t → ⊥)
      → Pending s e (before ++ t ∷ after)
      → Pending s e (before ++ after)
  Pending-drop [] after t k (inl o) = absurd (k o)
  Pending-drop [] after t k (inr p) = p
  Pending-drop (u ∷ before) after t k (inl o) = inl o
  Pending-drop (u ∷ before) after t k (inr p) = inr (Pending-drop before after t k p)

-- A call settles what it was owed for: the entry to that one subscriber.
call_settles :
    {s s' : String} {e e' : ProgressEntry} (rest : List String)
    (sent : List (String × ProgressEntry))
    → Owes s e (deliver e' (s' ∷ rest))
    → In (s, e) ((s', e') ∷ sent) ⊎ Owes s e (deliver e' rest)
call_settles rest sent (p, inl q) = inl (inl (λ i. (q i, p i)))
call_settles rest sent (p, inr o) = inr (p, o)

replay_settles :
    {s s' : String} {e e' : ProgressEntry} (rest : List ProgressEntry)
    (sent : List (String × ProgressEntry))
    → Owes s e (replay s' (e' ∷ rest))
    → In (s, e) ((s', e') ∷ sent) ⊎ Owes s e (replay s' rest)
replay_settles rest sent (q, inl p) = inl (inl (λ i. (q i, p i)))
replay_settles rest sent (q, inr o) = inr (q, o)

-- Every step of every thread keeps the log covered.
Step-Covered : {v w : World} → Covered v → Step v w → Covered w
Step-Covered {v} c (push e') s e i j = elim (In-snoc e e' v.progress_logs j) [
  | inl old ↦ elim (c s e i old) [ inl sent ↦ inl sent | inr p ↦ inr (inr p) ]
  | inr same ↦ inr (inl same)
]
Step-Covered {v} c (read before after e' at) s e i j = elim (c s e i j) [
  | inl sent ↦ inl sent
  | inr p ↦
      Pending-replace s e before after (notify e') (deliver e' v.subscribers) (λ o. inr (o, i))
        (subst (Pending s e) at p)
]
Step-Covered {v} c (call before after e' s' rest at) s e i j = elim (c s e i j) [
  | inl sent ↦ inl (inr sent)
  | inr p ↦
      Pending-replace s e before after (deliver e' (s' ∷ rest)) (deliver e' rest)
        (call_settles rest v.sent) (subst (Pending s e) at p)
]
Step-Covered {v} c (register s') s e i j = elim (In-snoc s s' v.subscribers i) [
  | inl old ↦ elim (c s e old j) [ inl sent ↦ inl sent | inr p ↦ inr (inr p) ]
  | inr same ↦ inr (inl (same, j))
]
Step-Covered {v} c (catch_up before after s' e' rest at) s e i j = elim (c s e i j) [
  | inl sent ↦ inl (inr sent)
  | inr p ↦
      Pending-replace s e before after (replay s' (e' ∷ rest)) (replay s' rest)
        (replay_settles rest v.sent) (subst (Pending s e) at p)
]
Step-Covered {v} c (delivered before after e' at) s e i j = elim (c s e i j) [
  | inl sent ↦ inl sent
  | inr p ↦
      inr (Pending-drop s e before after (deliver e' []) (λ o. o.1) (subst (Pending s e) at p))
]
Step-Covered {v} c (replayed before after s' at) s e i j = elim (c s e i j) [
  | inl sent ↦ inl sent
  | inr p ↦ inr (Pending-drop s e before after (replay s' []) (λ o. o.1) (subst (Pending s e) at p))
]

start-Covered : Covered start
start-Covered s e i j = absurd i

Reach-Covered : {w : World} → Reach w → Covered w
Reach-Covered begin = start-Covered
Reach-Covered (then r st) = Step-Covered (Reach-Covered r) st

settled :
    {X : Type 0} (s : String) (e : ProgressEntry) (ts : List Task)
    → ts ≡ []
    → X ⊎ Pending s e ts
    → X
settled s e ts q (inl x) = x
settled s e ts q (inr p) = absurd (subst (Pending s e) q p)

-- However the threads of `add_progress` and `subscribe` interleave, once all of them have returned each
-- registered subscriber has been sent each entry of the session's log.
pub no_entry_lost :
    (w : World) (s : String) (e : ProgressEntry)
    → Reach w
    → w.tasks ≡ []
    → In s w.subscribers
    → In e w.progress_logs
    → In (s, e) w.sent
no_entry_lost w s e r done i j = settled s e w.tasks done (Reach-Covered r s e i j)
