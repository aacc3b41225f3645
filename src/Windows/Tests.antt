-- ===== src/Windows/Tests.antt =====
-- The monitor at concrete windows, and its theorems at inputs that meet their hypotheses.
use cozmio.Prelude.{◌≡◌, refl, [], ◌∷◌, arith}
use cozmio.Prelude.Tails.{tail_of}
use cozmio.Windows.{BufferedEntry, ProcessBuffer, WindowMonitor, new, push_snapshot, seconds_u32}
use cozmio.Windows.Buffer.{push_all, push_all_keeps_latest}

abbrev editor : BufferedEntry
editor = record { window_title = "editor"; process_name = "p"; timestamp = 10 }

abbrev two_places : ProcessBuffer
two_places = record { entries = editor ∷ []; capacity = 2 }

-- A clock that went back one second.
clock_back : seconds_u32 9 10 ≡ 4294967295
unfolding seconds_u32
clock_back = refl

push_all_keeps_latest_example :
    (push_all (editor ∷ editor ∷ []) two_places).entries ≡ tail_of 2 (editor ∷ editor ∷ editor ∷ [])
push_all_keeps_latest_example =
    push_all_keeps_latest (editor ∷ editor ∷ []) two_places (omega arith) (omega arith)

abbrev monitor : WindowMonitor
monitor = push_snapshot "browser" "p" 12 (push_snapshot "editor" "p" 10 new)
