-- ===== src/Executors/Order.antt =====
-- src-tauri/src/executor_session_registry.rs: the order of the list, and the labels of statuses.
use cozmio.Prelude.{
  ℕ, ◌≤◌, String, ◌≡◌, refl, true, Option, [], ◌∷◌, arith, leb, Bool-cases, inl, inr, string_key,
}
use cozmio.Executors.{
  ExecutorSessionSummary, ExecutorSessionStatus, dispatched, running, completed, failed,
  interrupted, unknown, Sessions, insert_sorted, sort_by_activity, record_dispatched_session,
  update_session_status, is_none, find_relay, status_label, status_from_relay_label,
}
use cozmio.Prelude.Text.{is_blank}

abbrev pub AllUntil : ℕ → Sessions → Type 0
AllUntil n [] = Unit
AllUntil n (s ∷ ss) = (s.last_activity_at ≤ n) × AllUntil n ss

-- The latest activity comes first.
abbrev pub IsSorted : Sessions → Type 0
IsSorted [] = Unit
IsSorted (s ∷ ss) = AllUntil s.last_activity_at ss × IsSorted ss

until_le : (a b : ℕ) (ss : Sessions) → a ≤ b → AllUntil a ss → AllUntil b ss
until_le a b [] h all = tt
until_le a b (s ∷ ss) h all = (omega (arith, h, all.0), until_le a b ss h all.1)

until-insert_sorted :
    (n : ℕ) (s : ExecutorSessionSummary) (ss : Sessions)
    → s.last_activity_at ≤ n
    → AllUntil n ss
    → AllUntil n (insert_sorted s ss)
unfolding insert_sorted
until-insert_sorted n s [] h all = (h, tt)
until-insert_sorted n s (t ∷ ts) h all =
    elim (Bool-cases (leb t.last_activity_at s.last_activity_at)) [
      | inl k ↦ rw k (h, all)
      | inr k ↦ rw k (all.0, until-insert_sorted n s ts h all.1)
    ]

insert_sorted-IsSorted :
    (s : ExecutorSessionSummary) (ss : Sessions) → IsSorted ss → IsSorted (insert_sorted s ss)
unfolding insert_sorted
insert_sorted-IsSorted s [] h = (tt, tt)
insert_sorted-IsSorted s (t ∷ ts) h =
    elim (Bool-cases (leb t.last_activity_at s.last_activity_at)) [
      | inl k ↦ rw k ((le k, until_le t.last_activity_at s.last_activity_at ts (le k) h.0), h)
      | inr k ↦ rw k (
        until-insert_sorted t.last_activity_at s ts (ground (arith, k)) h.0,
        insert_sorted-IsSorted s ts h.1,
      )
    ]
  where
    le : leb t.last_activity_at s.last_activity_at ≡ true → t.last_activity_at ≤ s.last_activity_at
    le k = ground (arith, k)

sort-IsSorted : (ss : Sessions) → IsSorted (sort_by_activity ss)
unfolding sort_by_activity
sort-IsSorted [] = tt
sort-IsSorted (s ∷ ss) = insert_sorted-IsSorted s (sort_by_activity ss) (sort-IsSorted ss)

-- Recording and updating keep the latest activity first, also when they fail.
pub tracked-IsSorted :
    (s : ExecutorSessionSummary) (id : String) (status : ExecutorSessionStatus) (r : Option String)
    (now : ℕ) (ss : Sessions)
    → IsSorted ss
    → IsSorted (record_dispatched_session s ss).1
      × IsSorted (update_session_status id status r now ss).1
unfolding record_dispatched_session update_session_status
tracked-IsSorted s id status r now ss h = (
  elim (Bool-cases (is_blank s.relay_session_id)) [
    | inl k ↦ rw k h
    | inr k ↦ rw k (sort-IsSorted _)
  ],
  elim (Bool-cases (is_none (find_relay id ss))) [
    | inl k ↦ rw k h
    | inr k ↦ rw k (sort-IsSorted _)
  ],
)

abbrev pub label_status : ExecutorSessionStatus → ExecutorSessionStatus
label_status dispatched = unknown
label_status s = s

-- The label of a status is read back as that status, but for "dispatched", which is read as unknown.
pub label_roundtrip :
    (s : ExecutorSessionStatus) → status_from_relay_label (status_label s) ≡ label_status s
unfolding status_from_relay_label status_label
label_roundtrip dispatched = refl
label_roundtrip running = refl
label_roundtrip completed = refl
label_roundtrip failed = refl
label_roundtrip interrupted = refl
label_roundtrip unknown = refl
