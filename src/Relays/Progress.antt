-- ===== src/Relays/Progress.antt =====
-- src-tauri/src/relay_bridge.rs: the progress that a snapshot shows.
use cozmio.Prelude.{
  ℕ, ◌≤◌, String, ◌≡◌, refl, Bool, true, false, List, [], ◌∷◌, ◌++◌, arith, ltb, if◌then◌else◌,
  length, Bool-cases, inl, inr, ap, sym, ◌∙◌,
}
use cozmio.Prelude.Results.{Result, ok, err}
use cozmio.Prelude.Tails.{
  tail_of, append-nil, append-one, length-tail_of, tail_of_short, tail_of_again,
}
use cozmio.Engine.Messages.{ProgressEvent}
use cozmio.Relays.{
  RelayProgressInfo, RelayExecutionInfo, RelayDispatchRequest, trim_progress, add_progress,
  progress_of, apply_progress_event, push_host_progress,
}
use cozmio.Relays.Tracking.{Followed, ended, broken, waiting, failure, follow}

-- The last twelve.
abbrev pub lasts : {A : Type 0} → List A → List A
lasts = tail_of 12

trim-lasts : (s : RelayExecutionInfo) → (trim_progress s).progress ≡ lasts s.progress
unfolding trim_progress
trim-lasts s = elim (Bool-cases (ltb 12 (length s.progress))) [
  | inl k ↦ rw k refl
  | inr k ↦ rw k (sym (tail_of_short 12 s.progress (ground (arith, k))))
]

apply-lasts :
    (e : ProgressEvent) (s : RelayExecutionInfo)
    → (apply_progress_event e s).progress ≡ lasts (s.progress ++ progress_of e ∷ [])
unfolding apply_progress_event
apply-lasts e s = trim-lasts (add_progress (progress_of e) s)

pub push-lasts :
    (now : ℕ) (m l : String) (s : RelayExecutionInfo)
    → length (push_host_progress now m l s).progress ≤ 12
unfolding push_host_progress
push-lasts now m l s =
    rw (trim-lasts (add_progress (record { timestamp = now; status_label = l; message = m }) s)) (
      length-tail_of 12
        (s.progress ++ record { timestamp = now; status_label = l; message = m } ∷ []))

pub apply-length :
    (e : ProgressEvent) (s : RelayExecutionInfo) → length (apply_progress_event e s).progress ≤ 12
apply-length e s = rw (apply-lasts e s) (length-tail_of 12 (s.progress ++ progress_of e ∷ []))

shown : (xs : List RelayProgressInfo) → length xs ≤ 12 → xs ≡ lasts (xs ++ [])
shown xs h = sym (ap lasts (append-nil xs) ∙ tail_of_short 12 xs h)

abbrev pub snapshot : Followed → RelayExecutionInfo
snapshot (ended s) = s
snapshot (broken s) = s
snapshot (waiting s) = s

-- The entries of the events up to a terminal one or an error.
abbrev pub seen : List (ℕ × Result String ProgressEvent) → List RelayProgressInfo
seen [] = []
seen ((now, err e) ∷ es) = []
seen ((now, ok e) ∷ es) =
    let rest = seen es in if e.terminal then progress_of e ∷ [] else progress_of e ∷ rest

-- Following a stream shows the last twelve of the entries shown before and those of its events.
pub follow_shows_last :
    (r : RelayDispatchRequest) (session_id : String) (es : List (ℕ × Result String ProgressEvent))
    (s : RelayExecutionInfo)
    → length s.progress ≤ 12
    → (snapshot (follow r session_id es s).1).progress ≡ lasts (s.progress ++ seen es)
unfolding follow failure
follow_shows_last r session_id [] s h = shown s.progress h
follow_shows_last r session_id ((now, err e) ∷ es) s h = shown s.progress h
follow_shows_last r session_id ((now, ok e) ∷ es) s h = cut e.terminal (
    follow_shows_last r session_id es (record (apply_progress_event e s) { updated_at = now })
      (apply-length e s))
  where
    cut :
        (b : Bool)
        → let t = record (apply_progress_event e s) { updated_at = now } in
          let rest = follow r session_id es t in
          (snapshot rest.1).progress ≡ lasts ((apply_progress_event e s).progress ++ seen es)
          → (snapshot (if b then ended t else rest.1)).progress
            ≡ lasts (s.progress ++ (if b then progress_of e ∷ [] else progress_of e ∷ seen es))
    cut true h = apply-lasts e s
    cut false h =
        h
        ∙ ap (λ q. lasts (q ++ seen es)) (apply-lasts e s)
        ∙ tail_of_again 12 (s.progress ++ progress_of e ∷ []) (seen es)
        ∙ ap lasts (append-one s.progress (progress_of e) (seen es))
