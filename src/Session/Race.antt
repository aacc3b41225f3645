-- ===== src/Session/Race.antt =====
-- relay-engine/src/session.rs: `add_progress` and `subscribe` of one session as they interleave.
--
-- `add_progress` pushes the entry under the lock of the sessions, releases it, reads the list of
-- subscribers under their lock, and calls them with no lock held. `subscribe` copies the log and
-- registers in one critical section, and replays the copy with no lock held. A task is what a thread
-- has yet to do; `Step` runs any one thread to its next lock or call.
pub mod Loss
pub mod Twice
use cozmio.Prelude.{◌≡◌, List, [], ◌∷◌, ◌++◌, String}
use cozmio.Session.{ProgressEntry}

-- A thread of `add_progress` before and while it calls the subscribers, and one of `subscribe` while
-- it replays.
pub data Task : Type 0 where
  notify : ProgressEntry → Task
  deliver : ProgressEntry → List String → Task
  replay : String → List ProgressEntry → Task

pub record World : Type 0 where
  pub progress_logs : List ProgressEntry
  pub subscribers : List String
  pub tasks : List Task
  -- Everything sent so far, the newest first.
  pub sent : List (String × ProgressEntry)

abbrev pub start : World
start = record { progress_logs = []; subscribers = []; tasks = []; sent = [] }

pub data Step (w : World) : World → Type 0 where
  -- `progress_logs.push` in `add_progress`
  push :
      (e : ProgressEntry)
      → Step w (record w { progress_logs = w.progress_logs ++ e ∷ []; tasks = notify e ∷ w.tasks })
  -- `subs.get(session_id).cloned()` in `notify_progress`
  read :
      (before after : List Task) (e : ProgressEntry)
      → w.tasks ≡ before ++ notify e ∷ after
      → Step w (record w { tasks = before ++ deliver e w.subscribers ∷ after })
  -- `sub.on_progress` in `notify_progress`
  call :
      (before after : List Task) (e : ProgressEntry) (s : String) (rest : List String)
      → w.tasks ≡ before ++ deliver e (s ∷ rest) ∷ after
      → Step w (record w { tasks = before ++ deliver e rest ∷ after; sent = (s, e) ∷ w.sent })
  -- the critical section of `subscribe`
  register :
      (s : String)
      → Step w (record w {
        subscribers = w.subscribers ++ s ∷ [];
        tasks = replay s w.progress_logs ∷ w.tasks;
      })
  -- `subscriber.on_progress` in `subscribe`
  catch_up :
      (before after : List Task) (s : String) (e : ProgressEntry) (rest : List ProgressEntry)
      → w.tasks ≡ before ++ replay s (e ∷ rest) ∷ after
      → Step w (record w { tasks = before ++ replay s rest ∷ after; sent = (s, e) ∷ w.sent })
  -- a thread that has called everyone returns
  delivered :
      (before after : List Task) (e : ProgressEntry)
      → w.tasks ≡ before ++ deliver e [] ∷ after
      → Step w (record w { tasks = before ++ after })
  replayed :
      (before after : List Task) (s : String)
      → w.tasks ≡ before ++ replay s [] ∷ after
      → Step w (record w { tasks = before ++ after })

pub data Reach : World → Type 0 where
  begin : Reach start
  then : {v w : World} → Reach v → Step v w → Reach w
