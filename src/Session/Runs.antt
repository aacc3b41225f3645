-- ===== src/Session/Runs.antt =====
-- relay-engine/src/session.rs: sequences of calls on one manager, and what a subscriber hears of them.
use cozmio.Prelude.{
  ℕ, zero, suc, String, ◌≡◌, refl, false, ◌&&◌, List, [], ◌∷◌, ◌++◌, map, arith, ◌==◌, ==_refl,
  string_key, if◌then◌else◌,
}
use mathlib.Core.List.{append_assoc, flat_map}
use cozmio.Session

pub data Call : Type 0 where
  create_session : String → Session.ExecutionTask → Call
  update_status : String → Session.SessionStatus → Call
  add_progress : String → Session.ProgressEntry → Call
  set_result : String → Session.ExecutionResult → Call
  register_process : ℕ → String → Call
  unregister_process : ℕ → Call
  mark_interrupt_requested clear_interrupt_requested : String → Call
  subscribe unsubscribe : String → String → Call

-- One call, at the time `now`.
unfoldable pub step :
    Session.SessionManager → ℕ × Call → Session.SessionManager × List Session.Delivery
step m (now, create_session id task) = (Session.create_session id task now m, [])
step m (now, update_status id status) = Session.update_status id status now m
step m (now, add_progress id entry) = Session.add_progress id entry now m
step m (now, set_result id result) = (Session.set_result id result now m, [])
step m (now, register_process pid id) = (Session.register_process pid id m, [])
step m (now, unregister_process pid) = (Session.unregister_process pid m, [])
step m (now, mark_interrupt_requested id) = (Session.mark_interrupt_requested id m, [])
step m (now, clear_interrupt_requested id) = (Session.clear_interrupt_requested id m, [])
step m (now, subscribe id sub) = Session.subscribe id sub m
step m (now, unsubscribe id sub) = (Session.unsubscribe id sub m, [])

unfoldable pub run :
    Session.SessionManager → List (ℕ × Call) → Session.SessionManager × List Session.Delivery
run m [] = (m, [])
run m (c ∷ cs) = let (m', ds) = step m c in let (m'', es) = run m' cs in (m'', ds ++ es)

-- The entries and the terminal statuses that a notice carries.
abbrev pub entry_of : Session.Notice → List Session.ProgressEntry
entry_of (Session.on_progress e) = e ∷ []
entry_of (Session.on_terminal s) = []

abbrev pub ending_of : Session.Notice → List Session.SessionStatus
ending_of (Session.on_progress e) = []
ending_of (Session.on_terminal s) = s ∷ []

-- What the subscriber `sub` hears of the session `id`, as read by `f`.
unfoldable pub heard {ℓ} :
    {A : Type ℓ} → (Session.Notice → List A) → String → String → List Session.Delivery → List A
heard f sub id [] = []
heard f sub id (d ∷ ds) =
    (if d.session_id == id && d.subscriber == sub then f d.notice else []) ++ heard f sub id ds

abbrev pub count : String → List String → ℕ
count x [] = 0
count x (y ∷ ys) = let rest = count x ys in if y == x then suc rest else rest

-- The calls that neither open the session anew nor touch the subscription. Identifiers of sessions
-- and of subscribers are fresh UUIDs, so that the engine makes no other.
abbrev pub Leaves : String → String → Call → Type 0
Leaves sub id (create_session j task) = (j == id) ≡ false
Leaves sub id (subscribe j s) = (s == sub) ≡ false
Leaves sub id (unsubscribe j s) = (s == sub) ≡ false
Leaves sub id _ = Unit

module _ {ℓ} {A : Type ℓ} (f : Session.Notice → List A) where
  abbrev pub repeat : ℕ → List A → List A
  repeat zero xs = []
  repeat (suc n) xs = xs ++ repeat n xs

  pub heard-append :
      (sub id : String) (ds es : List Session.Delivery)
      → heard f sub id (ds ++ es) ≡ heard f sub id ds ++ heard f sub id es
  unfolding heard
  heard-append sub id [] es = refl
  heard-append sub id (d ∷ ds) es = simp (heard-append sub id ds es, append_assoc)

  -- A notice to all subscribers of a session is heard once for each registration.
  pub heard-send_all :
      (sub id j : String) (n : Session.Notice) (subs : List String)
      → heard f sub id (Session.send_all j n subs)
        ≡ (if j == id then repeat (count sub subs) (f n) else [])
  unfolding heard
  heard-send_all sub id j n [] = ground arith
  heard-send_all sub id j n (s ∷ subs) = ground (arith, heard-send_all sub id j n subs)

  -- Nothing is heard of what another subscriber is sent.
  pub heard-other :
      (sub id j other : String) (ns : List Session.Notice)
      → (other == sub) ≡ false
      → heard f sub id (map (λ n. record { subscriber = other; session_id = j; notice = n }) ns)
        ≡ []
  unfolding heard
  heard-other sub id j other [] h = refl
  heard-other sub id j other (n ∷ ns) h = ground (arith, heard-other sub id j other ns h)

  -- And all of what it is sent itself.
  pub heard_self :
      (sub id : String) (ns : List Session.Notice)
      → heard f sub id (map (λ n. record { subscriber = sub; session_id = id; notice = n }) ns)
        ≡ flat_map f ns
  unfolding heard flat_map
  heard_self sub id [] = refl
  heard_self sub id (n ∷ ns) = ground (arith, heard_self sub id ns, ==_refl id, ==_refl sub)
