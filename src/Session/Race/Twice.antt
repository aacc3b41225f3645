-- ===== src/Session/Race/Twice.antt =====
-- relay-engine/src/session.rs: an entry can reach one subscriber twice.
use cozmio.Prelude.{String, ◌≡◌, refl, List, [], ◌∷◌}
use cozmio.Session.{ProgressEntry}
use cozmio.Session.Race.{
  replay, World, Step, push, read, call, register, catch_up, delivered, replayed, Reach, begin,
  then,
}

abbrev end_of : ProgressEntry → String → World
end_of e s = record {
  progress_logs = e ∷ [];
  subscribers = s ∷ [];
  tasks = [];
  sent = (s, e) ∷ (s, e) ∷ [];
}

-- The entries that a run logs, and the subscribers that it registers, the last first.
abbrev pushed : {v w : World} → Step v w → List ProgressEntry → List ProgressEntry
pushed (push e) es = e ∷ es
pushed (read b a e p) es = es
pushed (call b a e s rest p) es = es
pushed (register s) es = es
pushed (catch_up b a s e rest p) es = es
pushed (delivered b a e p) es = es
pushed (replayed b a s p) es = es

abbrev joined : {v w : World} → Step v w → List String → List String
joined (push e) ss = ss
joined (read b a e p) ss = ss
joined (call b a e s rest p) ss = ss
joined (register s) ss = s ∷ ss
joined (catch_up b a s e rest p) ss = ss
joined (delivered b a e p) ss = ss
joined (replayed b a s p) ss = ss

unfoldable pub entries : {w : World} → Reach w → List ProgressEntry
entries begin = []
entries (then r st) = pushed st (entries r)

unfoldable pub registrations : {w : World} → Reach w → List String
registrations begin = []
registrations (then r st) = joined st (registrations r)

twice : (e : ProgressEntry) (s : String) → Reach (end_of e s)
twice e s =
    then
      (then
        (then
          (then
            (then (then (then begin (push e)) (register s))
              (read (replay s (e ∷ []) ∷ []) [] e refl))
            (call (replay s (e ∷ []) ∷ []) [] e s [] refl))
          (delivered (replay s (e ∷ []) ∷ []) [] e refl))
        (catch_up [] [] s e [] refl))
      (replayed [] [] s refl)

-- For every entry and every subscriber there is a run in which `add_progress` is called once, with
-- that entry, and `subscribe` once, by that subscriber, both return, and the subscriber is sent the
-- entry twice.
pub entry_sent_twice :
    (e : ProgressEntry) (s : String)
    → (w : World) × (r : Reach w) × (entries r ≡ e ∷ [])
      × (registrations r ≡ s ∷ [])
      × (w.tasks ≡ [])
      × (w.sent ≡ (s, e) ∷ (s, e) ∷ [])
unfolding twice entries registrations
entry_sent_twice e s = (end_of e s, twice e s, refl, refl, refl, refl)
