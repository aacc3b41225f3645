-- ===== src/Workers/Tests.antt =====
-- The registry at concrete workers, and its theorems at inputs that meet their hypotheses.
use cozmio.Prelude.{◌≡◌, refl, arith, string_key}
use cozmio.Prelude.Int.{pos}
use cozmio.Prelude.Maps.{lookup, insert}
use cozmio.Workers.{WorkerRegistry, new, register, state_from_str, busy, offline}
use cozmio.Workers.Registration.{IsFresh}
use cozmio.Workers.Keyed.{IsKeyed}

busy_text : state_from_str "busy" ≡ busy
unfolding state_from_str
busy_text = refl

other_text : state_from_str "ready" ≡ offline
unfolding state_from_str
other_text = refl

abbrev one : WorkerRegistry
one = (register "box" "gpu" "e" (pos 30) 7 new).0

one-IsFresh : IsFresh one
unfolding register new insert
one-IsFresh = record { below = omega arith }

one-IsKeyed : IsKeyed one.workers
unfolding register new insert lookup
one-IsKeyed = (refl, refl, tt)
