-- ===== src/Experience/Facts.antt =====
-- src-tauri/src/experience_recorder.rs: what a recorded source holds, and recording twice.
use Prim.Native.Char.{Char, code}
use cozmio.Prelude.{
  String, ◌≡◌, refl, false, ◌&&◌, List, [], ◌∷◌, nat_eq, nat_eq_iff, Bool-cases, inl, inr, All,
  All-append, string_key, sym, ◌∙◌,
}
use cozmio.Prelude.Results.{Result, ok, err, ◌>>=◌}
use cozmio.Prelude.Text.{
  is_empty, is_blank, is_whitespace, trim, trim_end, trim_start, map_chars, is_blank-trim_end,
}
use cozmio.Memories.{
  MemoryError, ExperienceSource, Database, Done, guarded, is_some, validate_non_empty,
}
use cozmio.Memories.Sources.{get_source, add_source, stored_source, insert_experience_source}
use cozmio.Experience.{
  source_of, Problem, ExperienceEventInput, unlined, one_line, normalize_required, mentions,
  reject_labels, reject_forbidden_semantic_labels, forbidden, build_experience_source, insert_built,
  of_store, record_experience_with_store,
}

-- The event kind and the text are there, and name no state of the user that is only inferred.
pub record IsFactual (s : ExperienceSource) : Type 0 where
  pub named : is_blank s.event_kind ≡ false
  pub told : is_blank s.factual_text ≡ false
  pub neutral_kind : All (λ l. mentions l s.event_kind ≡ false) forbidden
  pub neutral_text : All (λ l. mentions l s.factual_text ≡ false) forbidden

whitespace-unlined : (c : Char) → is_whitespace (code (unlined c)) ≡ is_whitespace (code c)
unfolding is_whitespace
whitespace-unlined c = elim (Bool-cases (nat_eq (code c) 10)) [
  | inl k ↦ rw (k, (nat_eq_iff (code c) 10).0 k) refl
  | inr k ↦ rw k refl
]

is_blank-one_line : (s : String) → is_blank (one_line s) ≡ is_blank s
unfolding is_blank one_line map_chars
is_blank-one_line String.[] = refl
is_blank-one_line (String.◌∷◌ c s) = rw (whitespace-unlined c, is_blank-one_line s) refl

is_empty-trim_end : (s : String) → is_empty (trim_end s) ≡ is_blank s
unfolding trim_end is_blank
is_empty-trim_end String.[] = refl
is_empty-trim_end (String.◌∷◌ c s) = elim (Bool-cases (is_whitespace (code c) && is_blank s)) [
  | inl b ↦ rw b refl
  | inr b ↦ rw b refl
]

pub is_blank-empty : (s : String) → is_empty (trim s) ≡ false → is_blank (trim s) ≡ false
unfolding trim
is_blank-empty s h = is_blank-trim_end (trim_start s) ∙ sym (is_empty-trim_end (trim_start s)) ∙ h

-- `P` holds of what a call gives when it gives something.
abbrev OnOk {ℓ} : {A : Type ℓ} → (A → Type 0) → Result Problem A → Type 0
OnOk P (ok a) = P a
OnOk P (err e) = Unit

OnOk-mono {ℓ} :
    {A : Type ℓ} (P Q : A → Type 0) (r : Result Problem A)
    → ((a : A) → P a → Q a)
    → OnOk P r
    → OnOk Q r
OnOk-mono P Q (ok a) f p = f a p
OnOk-mono P Q (err e) f p = tt

normalize-told : (f v : String) → OnOk (λ s. is_blank s ≡ false) (normalize_required f v)
unfolding normalize_required
normalize-told f v = elim (Bool-cases (is_empty (trim v))) [
  | inl k ↦ rw k tt
  | inr k ↦ rw k (is_blank-one_line (trim v) ∙ is_blank-empty v k)
]

labels-neutral :
    (ls : List String) (v : String)
    → OnOk (λ _. All (λ l. mentions l v ≡ false) ls) (reject_labels ls v)
unfolding reject_labels
labels-neutral [] v = tt
labels-neutral (l ∷ ls) v = elim (Bool-cases (mentions l v)) [
  | inl k ↦ rw k tt
  | inr k ↦ rw k (OnOk-mono _ _ (reject_labels ls v) (λ _ a. (refl, a)) (labels-neutral ls v))
]

labelled :
    (a b : Result Problem Done) (s : ExperienceSource)
    → is_blank s.event_kind ≡ false
    → is_blank s.factual_text ≡ false
    → OnOk (λ _. All (λ l. mentions l s.event_kind ≡ false) forbidden) a
    → OnOk (λ _. All (λ l. mentions l s.factual_text ≡ false) forbidden) b
    → OnOk IsFactual (a >>= λ _. b >>= λ _. ok s)
labelled (ok _) (ok _) s k t a b = record {
  named = k;
  told = t;
  neutral_kind = a;
  neutral_text = b;
}
labelled (ok _) (err e) s k t a b = tt
labelled (err e) b s k t a c = tt

built :
    (k t : Result Problem String) (make : String → String → ExperienceSource)
    → ((a b : String) → (make a b).event_kind ≡ a)
    → ((a b : String) → (make a b).factual_text ≡ b)
    → OnOk (λ s. is_blank s ≡ false) k
    → OnOk (λ s. is_blank s ≡ false) t
    → OnOk IsFactual (
        k >>= λ a. t >>= λ b. reject_forbidden_semantic_labels a >>= λ _.
        reject_forbidden_semantic_labels b >>= λ _. ok (make a b))
built (ok a) (ok b) make f g k t =
    labelled (reject_forbidden_semantic_labels a) (reject_forbidden_semantic_labels b) (make a b)
      (rw (f a b) k) (rw (g a b) t) (rw (f a b) (labels-neutral forbidden a))
      (rw (g a b) (labels-neutral forbidden b))
built (ok a) (err e) make f g k t = tt
built (err e) t make f g k u = tt

build-IsFactual :
    (digest : String → String) (to_json : List String → String) (i : ExperienceEventInput)
    → OnOk IsFactual (build_experience_source digest to_json i)
unfolding build_experience_source
build-IsFactual digest to_json i =
    built _ _ (source_of digest to_json i) (λ a b. refl) (λ a b. refl)
      (normalize-told "event_kind" i.event_kind) (normalize-told "factual_text" i.factual_text)

stored-IsFactual :
    (now : String) (s : ExperienceSource) → IsFactual s → IsFactual (stored_source now s)
stored-IsFactual now s f = record {
  named = f.named;
  told = f.told;
  neutral_kind = f.neutral_kind;
  neutral_text = f.neutral_text;
}

guarded-sources :
    {A : Type 0} (P : Database → Type 0) (c : Result MemoryError Done) (db : Database)
    (o : Database × Result MemoryError A)
    → P db
    → P o.0
    → P (guarded c db o).0
guarded-sources P (ok _) db o p q = q
guarded-sources P (err e) db o p q = p

add_source-facts :
    (s : ExperienceSource) (now : String) (db : Database)
    → IsFactual s
    → All IsFactual db.sources
    → All IsFactual (add_source s now db).0.sources
unfolding add_source
add_source-facts s now db f a = elim (Bool-cases (is_some (get_source s.source_ref db.sources))) [
  | inl k ↦ rw k a
  | inr k ↦ rw k (All-append IsFactual db.sources _ a (stored-IsFactual now s f, tt))
]

insert-facts :
    (s : ExperienceSource) (now : String) (db : Database)
    → IsFactual s
    → All IsFactual db.sources
    → All IsFactual (insert_experience_source s now db).0.sources
unfolding insert_experience_source
insert-facts s now db f a = keep (validate_non_empty "source ref" s.source_ref) _ (
    keep (validate_non_empty "event kind" s.event_kind) _ (
      keep (validate_non_empty "factual text" s.factual_text) (add_source s now db)
        (add_source-facts s now db f a)))
  where
    keep :
        (c : Result MemoryError Done) (o : Database × Result MemoryError String)
        → All IsFactual o.0.sources
        → All IsFactual (guarded c db o).0.sources
    keep c o = guarded-sources (λ d. All IsFactual d.sources) c db o a

pub of_store-fst : {A : Type 0} (o : Database × Result MemoryError A) → (of_store o).0 ≡ o.0
of_store-fst (d, ok a) = refl
of_store-fst (d, err e) = refl

inserted-facts :
    (now : String) (db : Database) (r : Result Problem ExperienceSource)
    → OnOk IsFactual r
    → All IsFactual db.sources
    → All IsFactual (insert_built now db r).0.sources
inserted-facts now db (ok s) f a =
    rw (of_store-fst (insert_experience_source s now db)) (insert-facts s now db f a)
inserted-facts now db (err e) f a = a

-- Whatever is recorded, every source in the store has a kind and a text that are not blank and name
-- none of the forbidden labels, if that held before.
pub record-IsFactual :
    (digest : String → String) (to_json : List String → String) (i : ExperienceEventInput)
    (now : String) (db : Database)
    → All IsFactual db.sources
    → All IsFactual (record_experience_with_store digest to_json i now db).0.sources
unfolding record_experience_with_store
record-IsFactual digest to_json i now db a =
    inserted-facts now db _ (build-IsFactual digest to_json i) a
