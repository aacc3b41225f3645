-- ===== src/Executors/Lookups.antt =====
-- src-tauri/src/executor_session_registry.rs: which session is found under an identifier.
use mathlib.Core.Option
use cozmio.Prelude.{
  ℕ, String, ◌≡◌, ◌≢◌, ◌↔◌, ◌∙◌, Bool-cases, Option-cases, inl, inr, refl, false, not, Option, none,
  some, [], ◌∷◌, ◌++◌, arith, leb, if◌then◌else◌, filter, ◌==◌, ==_iff, string_key,
}
use cozmio.Executors.{
  ExecutorSessionSummary, Sessions, insert_sorted, sort_by_activity, find_relay, modify_relay,
  record_dispatched_session, update_session_status, touch, ExecutorSessionStatus,
}
use cozmio.Prelude.Results.{ok}
use cozmio.Prelude.Text.{is_blank}

-- No two sessions of the list have the same identifier.
abbrev pub IsDistinct : Sessions → Type 0
IsDistinct [] = Unit
IsDistinct (s ∷ ss) = (find_relay s.relay_session_id ss ≡ none) × IsDistinct ss

find-insert_sorted :
    (j : String) (s : ExecutorSessionSummary) (ss : Sessions)
    → find_relay s.relay_session_id ss ≡ none
    → find_relay j (insert_sorted s ss)
      ≡ (if s.relay_session_id == j then some s else find_relay j ss)
unfolding find_relay insert_sorted
find-insert_sorted j s [] h = refl
find-insert_sorted j s (t ∷ ts) h = ground (
  arith,
  ==_iff s.relay_session_id j,
  ==_iff t.relay_session_id j,
  ==_iff t.relay_session_id s.relay_session_id,
  find-insert_sorted j s ts,
)

insert_sorted-IsDistinct :
    (s : ExecutorSessionSummary) (ss : Sessions)
    → find_relay s.relay_session_id ss ≡ none
    → IsDistinct ss
    → IsDistinct (insert_sorted s ss)
unfolding find_relay insert_sorted
insert_sorted-IsDistinct s [] h d = (refl, tt)
insert_sorted-IsDistinct s (t ∷ ts) h d =
    elim (Bool-cases (leb t.last_activity_at s.last_activity_at)) [
      | inl k ↦ rw k (h, d)
      | inr k ↦ rw k (kept, insert_sorted-IsDistinct s ts rest d.1)
    ]
  where
    rest : find_relay s.relay_session_id ts ≡ none
    rest = ground (arith, h)

    kept : find_relay t.relay_session_id (insert_sorted s ts) ≡ none
    kept = rw (find-insert_sorted t.relay_session_id s ts rest) (
        ground (
          arith,
          h,
          d.0,
          ==_iff s.relay_session_id t.relay_session_id,
          ==_iff t.relay_session_id s.relay_session_id,
        ))

pub find-sort :
    (j : String) (ss : Sessions)
    → IsDistinct ss
    → find_relay j (sort_by_activity ss) ≡ find_relay j ss
unfolding find_relay sort_by_activity
find-sort j [] d = refl
find-sort j (s ∷ ss) d = rw (
  find-insert_sorted j s (sort_by_activity ss) (find-sort s.relay_session_id ss d.1 ∙ d.0),
  find-sort j ss d.1,
)

pub sort-IsDistinct : (ss : Sessions) → IsDistinct ss → IsDistinct (sort_by_activity ss)
unfolding sort_by_activity
sort-IsDistinct [] d = tt
sort-IsDistinct (s ∷ ss) d =
    insert_sorted-IsDistinct s (sort_by_activity ss) (find-sort s.relay_session_id ss d.1 ∙ d.0)
      (sort-IsDistinct ss d.1)

abbrev replaced : ExecutorSessionSummary → Sessions → Sessions
replaced s ss = filter (λ t. not (t.relay_session_id == s.relay_session_id)) ss ++ s ∷ []

find-replaced :
    (j : String) (s : ExecutorSessionSummary) (ss : Sessions)
    → find_relay j (replaced s ss) ≡ (if s.relay_session_id == j then some s else find_relay j ss)
unfolding find_relay
find-replaced j s [] = refl
find-replaced j s (t ∷ ts) = ground (
  arith,
  ==_iff s.relay_session_id j,
  ==_iff t.relay_session_id j,
  ==_iff t.relay_session_id s.relay_session_id,
  find-replaced j s ts,
)

replaced-IsDistinct :
    (s : ExecutorSessionSummary) (ss : Sessions) → IsDistinct ss → IsDistinct (replaced s ss)
unfolding find_relay
replaced-IsDistinct s [] d = (refl, tt)
replaced-IsDistinct s (t ∷ ts) d = elim (Bool-cases (t.relay_session_id == s.relay_session_id)) [
  | inl k ↦ rw k (replaced-IsDistinct s ts d.1)
  | inr k ↦ rw k (kept k, replaced-IsDistinct s ts d.1)
]
  where
    kept :
        (t.relay_session_id == s.relay_session_id) ≡ false
        → find_relay t.relay_session_id (replaced s ts) ≡ none
    kept k = rw (find-replaced t.relay_session_id s ts) (
        ground (
          arith,
          k,
          d.0,
          ==_iff s.relay_session_id t.relay_session_id,
          ==_iff t.relay_session_id s.relay_session_id,
        ))

find-modify :
    (id j : String) (status : ExecutorSessionStatus) (r : Option String) (now : ℕ) (ss : Sessions)
    → find_relay j (modify_relay id (touch status r now) ss)
      ≡ (if id == j then Option.map (touch status r now) (find_relay j ss) else find_relay j ss)
unfolding find_relay modify_relay
find-modify id j status r now [] = ground arith
find-modify id j status r now (s ∷ ss) = ground (
  arith,
  ==_iff id j,
  ==_iff s.relay_session_id j,
  ==_iff s.relay_session_id id,
  find-modify id j status r now ss,
)

modify-IsDistinct :
    (id : String) (status : ExecutorSessionStatus) (r : Option String) (now : ℕ) (ss : Sessions)
    → IsDistinct ss
    → IsDistinct (modify_relay id (touch status r now) ss)
unfolding modify_relay
modify-IsDistinct id status r now [] d = tt
modify-IsDistinct id status r now (s ∷ ss) d = elim (Bool-cases (s.relay_session_id == id)) [
  | inl k ↦ rw k d
  | inr k ↦ rw k (kept, modify-IsDistinct id status r now ss d.1)
]
  where
    kept : find_relay s.relay_session_id (modify_relay id (touch status r now) ss) ≡ none
    kept = rw (find-modify id s.relay_session_id status r now ss, d.0) (ground arith)

-- A session that is recorded is found under its identifier, in place of an earlier one, and the others
-- are found as before; one with a blank identifier is refused. In any case no two sessions of the list
-- share an identifier, if they did not before.
pub record_lookup :
    (s : ExecutorSessionSummary) (ss : Sessions)
    → IsDistinct ss
    → let r = record_dispatched_session s ss in
      ((r.0 ≡ ok tt) ↔ (is_blank s.relay_session_id ≡ false))
      × IsDistinct r.1
      × ((j : String)
          → find_relay j r.1 ≡ (
              if is_blank s.relay_session_id
              then find_relay j ss
              else if s.relay_session_id == j
              then some s
              else find_relay j ss))
unfolding record_dispatched_session
record_lookup s ss d = elim (Bool-cases (is_blank s.relay_session_id)) [
  | inl k ↦ rw k ((λ h. ground arith, λ h. ground arith), d, λ j. refl)
  | inr k ↦ rw k (
    (λ h. refl, λ h. refl),
    sort-IsDistinct (replaced s ss) (replaced-IsDistinct s ss d),
    λ j. find-sort j (replaced s ss) (replaced-IsDistinct s ss d) ∙ find-replaced j s ss,
  )
]

-- An update changes the session with the identifier, and no other, and fails if there is none; no two
-- sessions of the list share an identifier, if they did not before.
pub update_lookup :
    (id : String) (status : ExecutorSessionStatus) (r : Option String) (now : ℕ) (ss : Sessions)
    → IsDistinct ss
    → let u = update_session_status id status r now ss in
      IsDistinct u.1
      × ((u.0 ≡ ok tt) ↔ (find_relay id ss ≢ none))
      × ((j : String)
          → find_relay j u.1 ≡ (
              if id == j
              then Option.map (touch status r now) (find_relay j ss)
              else find_relay j ss))
unfolding update_session_status
update_lookup id status r now ss d = elim (Option-cases (find_relay id ss)) [
  | inl k ↦ rw k (d, (λ h. ground arith, λ h. ground arith), λ j. missing k j)
  | inr (s, k) ↦ rw k (
    sort-IsDistinct changed (modify-IsDistinct id status r now ss d),
    (λ h. ground arith, λ h. refl),
    λ j.
        find-sort j changed (modify-IsDistinct id status r now ss d)
        ∙ find-modify id j status r now ss,
  )
]
  where
    changed : Sessions
    changed = modify_relay id (touch status r now) ss

    missing :
        find_relay id ss ≡ none
        → (j : String)
        → find_relay j ss
          ≡ (if id == j then Option.map (touch status r now) (find_relay j ss) else find_relay j ss)
    missing k j = ground (arith, ==_iff id j)
