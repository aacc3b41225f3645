-- ===== src/Memories/Sound.antt =====
-- cozmio_memory/src/agent_memory.rs: what every method keeps true of the tables.
use cozmio.Prelude.{
  ℕ, suc, ◌≤◌, ◌<◌, ◌≡◌, refl, true, Option, none, some, List, [], ◌∷◌, ◌++◌, map, arith, nat_eq,
  if◌then◌else◌, Bool-cases, inl, inr, All,
}
use cozmio.Memories.{AgentMemory, OperationRow, Database, get_memory, has_memory, refers}

-- The ids go up, from above the first number to at most the second.
abbrev pub Between : ℕ → List AgentMemory → ℕ → Type 0
Between lo [] hi = lo ≤ hi
Between lo (m ∷ ms) hi = (lo < m.id) × Between m.id ms hi

abbrev pub Refers : List AgentMemory → AgentMemory → Type 0
Refers ms m = refers m.supersedes_id ms ≡ true

abbrev pub Resolves : List AgentMemory → OperationRow → Type 0
Resolves ms o = (refers o.target_memory_id ms ≡ true) × (refers o.resulting_memory_id ms ≡ true)

-- Ids are in order and not past the last one given; a superseded id, and the ids of a logged
-- operation, are those of rows.
pub record IsSound (db : Database) : Type 0 where
  pub ordered : Between 0 db.memories db.last_memory_id
  pub linked : All (Refers db.memories) db.memories
  pub resolved : All (Resolves db.memories) db.operations

pub Between-append :
    (lo hi : ℕ) (ms : List AgentMemory) (m : AgentMemory)
    → Between lo ms hi
    → m.id ≡ suc hi
    → Between lo (ms ++ m ∷ []) (suc hi)
Between-append lo hi [] m b e = omega (arith, b, e)
Between-append lo hi (x ∷ ms) m b e = (b.0, Between-append x.id hi ms m b.1 e)

pub has_memory-append :
    (id : ℕ) (ms ns : List AgentMemory) → has_memory id ms ≡ true → has_memory id (ms ++ ns) ≡ true
unfolding has_memory get_memory
has_memory-append id [] ns h = absurd (ground (arith, h))
has_memory-append id (m ∷ ms) ns h = elim (Bool-cases (nat_eq m.id id)) [
  | inl k ↦ rw k refl
  | inr k ↦ rw k (has_memory-append id ms ns (rw k at h))
]

pub refers-append :
    (o : Option ℕ) (ms ns : List AgentMemory) → refers o ms ≡ true → refers o (ms ++ ns) ≡ true
unfolding refers
refers-append none ms ns h = refl
refers-append (some id) ms ns h = has_memory-append id ms ns h

-- A change of rows that keeps ids and links.
pub record Keeps (f : AgentMemory → AgentMemory) : Type 0 where
  pub same_id : (m : AgentMemory) → (f m).id ≡ m.id
  pub same_link : (m : AgentMemory) → (f m).supersedes_id ≡ m.supersedes_id

abbrev pub at : ℕ → (AgentMemory → AgentMemory) → AgentMemory → AgentMemory
at id f m = if nat_eq m.id id then f m else m

pub at-Keeps : (id : ℕ) (f : AgentMemory → AgentMemory) → Keeps f → Keeps (at id f)
at-Keeps id f k = record {
  same_id =
      λ m. elim (Bool-cases (nat_eq m.id id)) [ inl e ↦ rw e (k.same_id m) | inr e ↦ rw e refl ];
  same_link =
      λ m. elim (Bool-cases (nat_eq m.id id)) [ inl e ↦ rw e (k.same_link m) | inr e ↦ rw e refl ];
}

module _ (f : AgentMemory → AgentMemory) (k : Keeps f) where
  pub Between-map :
      (lo hi : ℕ) (ms : List AgentMemory) → Between lo ms hi → Between lo (map f ms) hi
  Between-map lo hi [] b = b
  Between-map lo hi (m ∷ ms) b = rw (k.same_id m) (b.0, Between-map m.id hi ms b.1)

  has_memory-map : (id : ℕ) (ms : List AgentMemory) → has_memory id (map f ms) ≡ has_memory id ms
  unfolding has_memory get_memory
  has_memory-map id [] = refl
  has_memory-map id (m ∷ ms) = ground (arith, k.same_id m, has_memory-map id ms)

  refers-map : (o : Option ℕ) (ms : List AgentMemory) → refers o (map f ms) ≡ refers o ms
  unfolding refers
  refers-map none ms = refl
  refers-map (some id) ms = has_memory-map id ms

  pub Refers-map :
      (ms ns : List AgentMemory) → All (Refers ns) ms → All (Refers (map f ns)) (map f ms)
  Refers-map [] ns a = tt
  Refers-map (m ∷ ms) ns a =
      (rw (refers-map (f m).supersedes_id ns, k.same_link m) a.0, Refers-map ms ns a.1)

  pub Resolves-map :
      (os : List OperationRow) (ns : List AgentMemory)
      → All (Resolves ns) os
      → All (Resolves (map f ns)) os
  Resolves-map [] ns a = tt
  Resolves-map (o ∷ os) ns a = (
    (rw (refers-map o.target_memory_id ns) a.0.0, rw (refers-map o.resulting_memory_id ns) a.0.1),
    Resolves-map os ns a.1,
  )
