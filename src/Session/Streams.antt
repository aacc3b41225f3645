-- ===== src/Session/Streams.antt =====
-- relay-engine/src/session.rs: a subscription against the session's log, over any sequence of calls.
use cozmio.Prelude.{
  ℕ, String, ◌≡◌, refl, sym, ap, true, false, Option, some, List, [], ◌∷◌, ◌++◌, arith, ◌==◌,
  ==_iff, string_key, if◌then◌else◌, Bool-cases, Option-cases, ◌∙◌, filter, not, inl, inr, ◌&&◌,
}
use mathlib.Core.List.{append-nil}
use cozmio.Prelude.Maps.{lookup-insert, lookup-modify}
use cozmio.Session.{
  Session, SessionManager, SessionStatus, get_session, subscribers_of, is_terminal,
}
use cozmio.Session
use cozmio.Session.Runs.{
  Call, create_session, update_status, add_progress, set_result, register_process,
  unregister_process, mark_interrupt_requested, clear_interrupt_requested, subscribe, unsubscribe,
  step, heard, entry_of, ending_of, count, Leaves, heard-send_all, heard-other,
}

-- `s` is the session, and `sub` is registered once for it.
pub record Follows (sub id : String) (m : SessionManager) (s : Session) : Type 0 where
  pub found : get_session id m ≡ some s
  pub once : count sub (subscribers_of id m) ≡ 1

-- The last status of a list, after `t`.
abbrev pub last_or : Option SessionStatus → List SessionStatus → Option SessionStatus
last_or t [] = t
last_or t (x ∷ xs) = last_or (some x) xs

-- Whoever was last told `t` knows of the end of `s`, if it has ended.
abbrev pub Told : Option SessionStatus → Session → Type 0
Told t s = is_terminal s.status ≡ true → t ≡ some s.status

pub record FollowUp (sub id : String) (t : Option SessionStatus)
    (m : SessionManager × List Session.Delivery) (s s' : Session) : Type 0 where
  pub follows : Follows sub id m.0 s'
  pub logged : s'.progress_logs ≡ s.progress_logs ++ heard entry_of sub id m.1
  pub told : Told t s → Told (last_or t (heard ending_of sub id m.1)) s'

module _ (sub id : String) {m : SessionManager} {s : Session} (h : Follows sub id m s) where
  -- A notice to the subscribers of a session reaches each of them once.
  heard-notify {ℓ} :
      {A : Type ℓ} (f : Session.Notice → List A) (j : String) (n : Session.Notice)
      → heard f sub id (Session.send_all j n (subscribers_of j m)) ≡ (if j == id then f n else [])
  heard-notify f j n = ground (
    arith,
    h.once,
    append-nil (f n),
    heard-send_all f sub id j n (subscribers_of j m),
    ==_iff j id,
  )

  add_progress-follow :
      (t : Option SessionStatus) (j : String) (e : Session.ProgressEntry) (now : ℕ)
      → (s' : Session) × FollowUp sub id t (Session.add_progress j e now m) s s'
  unfolding Session.add_progress
  add_progress-follow t j e now = (
    if j == id then Session.with_progress e now s else s,
    record {
      follows = record {
        found =
            ground (arith, h.found, lookup-modify j id (Session.with_progress e now) m.sessions);
        once = h.once;
      };
      logged =
          ground
            (arith, append-nil s.progress_logs, heard-notify entry_of j (Session.on_progress e));
      told = ground (arith, heard-notify ending_of j (Session.on_progress e));
    },
  )

  heard-update_status {ℓ} :
      {A : Type ℓ} (f : Session.Notice → List A) (j : String) (status : SessionStatus) (now : ℕ)
      → heard f sub id (Session.update_status j status now m).1 ≡ (
          if Session.should_notify_terminal (get_session j m) status && (j == id)
          then f (Session.on_terminal status)
          else [])
  unfolding Session.update_status
  heard-update_status f j status now =
      elim (Bool-cases (Session.should_notify_terminal (get_session j m) status)) [
        | inl p ↦ rw p (heard-notify f j (Session.on_terminal status))
        | inr p ↦ rw p (unfold heard in refl)
      ]

  update_status-follow :
      (t : Option SessionStatus) (j : String) (status : SessionStatus) (now : ℕ)
      → (s' : Session) × FollowUp sub id t (Session.update_status j status now m) s s'
  update_status-follow t j status now = (
    if j == id then Session.with_status status now s else s,
    record {
      follows = record {
        found =
            unfold Session.update_status in
            ground (arith, h.found, lookup-modify j id (Session.with_status status now) m.sessions);
        once = unfold Session.update_status in h.once;
      };
      logged =
          rw (heard-update_status entry_of j status now)
            (ground (arith, append-nil s.progress_logs));
      told = rw (heard-update_status ending_of j status now) (ground (arith, h.found, ==_iff j id));
    },
  )

  -- A call that says nothing to `sub` of `id`.
  silent :
      (t : Option SessionStatus) (r : SessionManager × List Session.Delivery) (s' : Session)
      → Follows sub id r.0 s'
      → s'.progress_logs ≡ s.progress_logs
      → s'.status ≡ s.status
      → heard entry_of sub id r.1 ≡ []
      → heard ending_of sub id r.1 ≡ []
      → (s'' : Session) × FollowUp sub id t r s s''
  silent t r s' f logs status entries endings = (
    s',
    record {
      follows = f;
      logged = rw entries (logs ∙ sym (append-nil s.progress_logs));
      told = rw endings (rw status (λ k. k));
    },
  )

  -- A call that touches neither the session nor its subscribers, and calls no subscriber.
  aside :
      (t : Option SessionStatus) (m' : SessionManager)
      → get_session id m' ≡ get_session id m
      → subscribers_of id m' ≡ subscribers_of id m
      → (s' : Session) × FollowUp sub id t (m', []) s s'
  unfolding heard
  aside t m' same subs =
      silent t (m', []) s (record { found = same ∙ h.found; once = ap (count sub) subs ∙ h.once })
        refl refl refl refl

  count-filter_ne :
      (x : String) (xs : List String)
      → (x == sub) ≡ false
      → count sub (filter (λ y. not (y == x)) xs) ≡ count sub xs
  count-filter_ne x [] e = refl
  count-filter_ne x (y ∷ xs) e =
      ground (arith, ==_iff y x, ==_iff y sub, ==_iff x sub, count-filter_ne x xs e)

  count-append :
      (xs : List String) (x : String) → (x == sub) ≡ false → count sub (xs ++ x ∷ []) ≡ count sub xs
  count-append [] x e = ground arith
  count-append (y ∷ xs) x e = ground (arith, count-append xs x e)

  set_result-follow :
      (t : Option SessionStatus) (j : String) (result : Session.ExecutionResult) (now : ℕ)
      → (s' : Session) × FollowUp sub id t (Session.set_result j result now m, []) s s'
  unfolding Session.set_result heard
  set_result-follow t j result now =
      silent t (Session.set_result j result now m, [])
        (if j == id then Session.with_result result now s else s)
        (record {
          found =
              ground
                (arith, h.found, lookup-modify j id (Session.with_result result now) m.sessions);
          once = h.once;
        })
        (ground arith) (ground arith) refl refl

  unsubscribe-follow :
      (t : Option SessionStatus) (j x : String)
      → (x == sub) ≡ false
      → (s' : Session) × FollowUp sub id t (Session.unsubscribe j x m, []) s s'
  unfolding Session.unsubscribe heard
  unsubscribe-follow t j x e =
      silent t (Session.unsubscribe j x m, []) s
        (record {
          found = h.found;
          once = ground (
            arith,
            h.once,
            lookup-modify j id (filter (λ y. not (y == x))) m.subscribers,
            count-filter_ne x (subscribers_of id m) e,
          );
        })
        refl refl refl refl

  subscribe-follow :
      (t : Option SessionStatus) (j x : String)
      → (x == sub) ≡ false
      → (s' : Session) × FollowUp sub id t (Session.subscribe j x m) s s'
  unfolding Session.subscribe
  subscribe-follow t j x e = elim (Option-cases (get_session j m)) [
    | inl p ↦ rw (p, Session.subscribe) (aside t m refl refl)
    | inr (s₁, p) ↦
        rw (p, Session.subscribe)
          (silent t _ s
            (record {
              found = h.found;
              once = ground (
                arith,
                h.once,
                ==_iff j id,
                lookup-insert j id (subscribers_of j m ++ x ∷ []) m.subscribers,
                count-append (subscribers_of j m) x e,
              );
            })
            refl refl (heard-other entry_of sub id j x (Session.buffered s₁) e)
            (heard-other ending_of sub id j x (Session.buffered s₁) e))
  ]

  get_session-create :
      (j : String) (task : Session.ExecutionTask) (now : ℕ)
      → (j == id) ≡ false
      → get_session id (Session.create_session j task now m) ≡ get_session id m
  unfolding Session.create_session
  get_session-create j task now e = lookup-insert j id _ m.sessions ∙ (rw e)

  -- Every call keeps the subscriber up with the session's log and with its end.
  pub step-follow :
      (t : Option SessionStatus) (now : ℕ) (c : Call)
      → Leaves sub id c
      → (s' : Session) × FollowUp sub id t (step m (now, c)) s s'
  unfolding step Session.register_process Session.unregister_process
      Session.mark_interrupt_requested Session.clear_interrupt_requested
  step-follow t now (create_session j task) e =
      aside t _ (get_session-create j task now e) (unfold Session.create_session in refl)
  step-follow t now (update_status j status) e = update_status-follow t j status now
  step-follow t now (add_progress j entry) e = add_progress-follow t j entry now
  step-follow t now (set_result j result) e = set_result-follow t j result now
  step-follow t now (register_process pid j) e =
      aside t (Session.register_process pid j m) refl refl
  step-follow t now (unregister_process pid) e =
      aside t (Session.unregister_process pid m) refl refl
  step-follow t now (mark_interrupt_requested j) e =
      aside t (Session.mark_interrupt_requested j m) refl refl
  step-follow t now (clear_interrupt_requested j) e =
      aside t (Session.clear_interrupt_requested j m) refl refl
  step-follow t now (subscribe j x) e = subscribe-follow t j x e
  step-follow t now (unsubscribe j x) e = unsubscribe-follow t j x e
