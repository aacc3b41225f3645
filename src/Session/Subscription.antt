-- ===== src/Session/Subscription.antt =====
-- relay-engine/src/session.rs: what a subscription hears from its start to any later moment.
use cozmio.Prelude.{
  ℕ, String, ◌≡◌, refl, sym, ap, ◌∙◌, true, Option, none, some, List, [], ◌∷◌, ◌++◌, map, All,
  arith, ==_refl, string_key,
}
use mathlib.Core.List.{append_assoc, append-nil, flat_map}
use cozmio.Prelude.Maps.{insert, lookup-insert}
use cozmio.Session.{
  Session, SessionManager, SessionStatus, get_session, subscribers_of, is_terminal,
}
use cozmio.Session
use cozmio.Session.Runs.{
  Call, subscribe, step, run, heard, entry_of, ending_of, count, Leaves, heard-append, heard_self,
}
use cozmio.Session.Streams.{Follows, FollowUp, last_or, Told, step-follow}

last_or-append :
    (t : Option SessionStatus) (xs ys : List SessionStatus)
    → last_or t (xs ++ ys) ≡ last_or (last_or t xs) ys
last_or-append t [] ys = refl
last_or-append t (x ∷ xs) ys = last_or-append (some x) xs ys

run-follow :
    (sub id : String) (t : Option SessionStatus) (m : SessionManager) (s : Session)
    (cs : List (ℕ × Call))
    → Follows sub id m s
    → All (λ c. Leaves sub id c.1) cs
    → (s' : Session) × FollowUp sub id t (run m cs) s s'
unfolding run heard
run-follow sub id t m s [] h _ =
    (s, record { follows = h; logged = sym (append-nil s.progress_logs); told = λ k. k })
run-follow sub id t m s ((now, c) ∷ cs) h (e, es) =
    let (s₁, first) = step-follow sub id h t now c e in
    let t₁ = last_or t (heard ending_of sub id (step m (now, c)).1) in
    let (s₂, rest) = run-follow sub id t₁ (step m (now, c)).0 s₁ cs first.follows es in
    (
      s₂,
      record {
        follows = rest.follows;
        logged = rw (heard-append entry_of sub id (step m (now, c)).1) (
            rest.logged
            ∙ (rw first.logged
                (append_assoc s.progress_logs (heard entry_of sub id (step m (now, c)).1) _)));
        told = λ k.
            rw (heard-append ending_of sub id (step m (now, c)).1, last_or-append)
              (rest.told (first.told k));
      },
    )

count-append_self :
    (sub : String) (xs : List String) → count sub xs ≡ 0 → count sub (xs ++ sub ∷ []) ≡ 1
count-append_self sub [] h = ground (arith, ==_refl sub)
count-append_self sub (x ∷ xs) h = ground (arith, count-append_self sub xs)

entries-logs :
    (es : List Session.ProgressEntry) (rest : List Session.Notice)
    → flat_map entry_of rest ≡ []
    → flat_map entry_of (map Session.on_progress es ++ rest) ≡ es
unfolding flat_map
entries-logs [] rest h = h
entries-logs (e ∷ es) rest h = ap (◌∷◌ e) (entries-logs es rest h)

endings-logs :
    (es : List Session.ProgressEntry) (rest : List Session.Notice)
    → flat_map ending_of (map Session.on_progress es ++ rest) ≡ flat_map ending_of rest
unfolding flat_map
endings-logs [] rest = refl
endings-logs (e ∷ es) rest = endings-logs es rest

-- A new subscriber is told the log so far, and the end if it has come.
heard-replay :
    (sub id : String) (s : Session)
    → (heard entry_of sub id (Session.send_each sub id (Session.buffered s)) ≡ s.progress_logs)
      × Told
          (last_or none (heard ending_of sub id (Session.send_each sub id (Session.buffered s))))
          s
unfolding flat_map
heard-replay sub id s = (
  heard_self entry_of sub id (Session.buffered s) ∙ entries-logs s.progress_logs _ (ground arith),
  λ k.
      rw (heard_self ending_of sub id (Session.buffered s), endings-logs s.progress_logs)
        (ground arith),
)

subscribed : String → String → SessionManager → SessionManager
subscribed id sub m = record m {
  subscribers = insert id (subscribers_of id m ++ sub ∷ []) m.subscribers;
}

subscribe_found :
    (sub id : String) (m : SessionManager) (s : Session)
    → get_session id m ≡ some s
    → Session.subscribe id sub m
      ≡ (subscribed id sub m, Session.send_each sub id (Session.buffered s))
unfolding Session.subscribe subscribed
subscribe_found sub id m s found = rw (found, Session.subscribe)

subscribed-Follows :
    (sub id : String) (m : SessionManager) (s : Session)
    → get_session id m ≡ some s
    → count sub (subscribers_of id m) ≡ 0
    → Follows sub id (subscribed id sub m) s
unfolding subscribed
subscribed-Follows sub id m s found fresh = record {
  found = found;
  once = ground (
    arith,
    ==_refl id,
    lookup-insert id id (subscribers_of id m ++ sub ∷ []) m.subscribers,
    count-append_self sub (subscribers_of id m) fresh,
  );
}

-- From the moment it subscribes, a subscriber that was not registered for the session hears each of
-- its progress entries exactly once and in order: those logged before and those logged later, whatever
-- calls follow, short of opening the session anew and of (un)subscribing the same subscriber. If the
-- session has ended by then, the last ending that it heard is the session's status.
pub subscription_stream :
    (sub id : String) (m : SessionManager) (s : Session) (now : ℕ) (cs : List (ℕ × Call))
    → get_session id m ≡ some s
    → count sub (subscribers_of id m) ≡ 0
    → All (λ c. Leaves sub id c.1) cs
    → let r = run m ((now, subscribe id sub) ∷ cs) in
      (s' : Session) × (get_session id r.0 ≡ some s')
      × (heard entry_of sub id r.1 ≡ s'.progress_logs)
      × (is_terminal s'.status ≡ true → last_or none (heard ending_of sub id r.1) ≡ some s'.status)
unfolding run step
subscription_stream sub id m s now cs found fresh leaves =
    let ds = Session.send_each sub id (Session.buffered s) in
    let (s', f) =
      run-follow sub id (last_or none (heard ending_of sub id ds)) (subscribed id sub m) s cs
        (subscribed-Follows sub id m s found fresh) leaves in
    let (logs, told) = heard-replay sub id s in
    rw (subscribe_found sub id m s found) (
      s',
      f.follows.found,
      rw (heard-append entry_of sub id ds, logs) (sym f.logged),
      λ k. rw (heard-append ending_of sub id ds, last_or-append) (f.told told k),
    )
