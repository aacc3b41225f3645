-- ===== src/Windows.antt =====
-- src-tauri/src/window_monitor.rs: the buffer of foreground windows and the context computed from it.
--
-- Times are seconds since the epoch, below 2^63; the wrap-around of `as u32` is written out.
-- `capture`, which takes the screenshot, is left out.
pub mod Buffer
pub mod Switches
mod Tests
use cozmio.Prelude.{
  ℕ, suc, ◌+◌, ◌-◌, ◌%◌, String, Bool, true, false, not, ◌&&◌, Option, none, some, List, [], ◌∷◌,
  ◌++◌, if◌then◌else◌, leb, ltb, length, drop, filter, ◌==◌, string_key,
}

pub record BufferedEntry : Type 0 where
  pub window_title : String
  pub process_name : String
  pub timestamp : ℕ

pub record ProcessBuffer : Type 0 where
  pub entries : List BufferedEntry
  pub capacity : ℕ

pub record ProcessContext : Type 0 where
  pub stay_duration_seconds : ℕ
  pub switches_in_last_minute : ℕ
  pub rapid_switch_intervals_under_5s : ℕ
  pub foreground_changed_within_5s : Bool

pub record WindowMonitor : Type 0 where
  pub last_window_title : String
  pub buffer : ProcessBuffer

unfoldable pub new_buffer : ℕ → ProcessBuffer
new_buffer capacity = record { entries = []; capacity = capacity }

-- `pop_front` when the buffer is full, then `push_back`.
unfoldable pub push : BufferedEntry → ProcessBuffer → ProcessBuffer
push e b =
    let kept = if leb b.capacity (length b.entries) then drop 1 b.entries else b.entries in
    record b { entries = kept ++ e ∷ [] }

unfoldable pub new : WindowMonitor
unfolding new_buffer
new = record { last_window_title = ""; buffer = new_buffer 1000 }

unfoldable pub push_snapshot : String → String → ℕ → WindowMonitor → WindowMonitor
unfolding push
push_snapshot window_title process_name timestamp m = record m {
  buffer =
      push
        (record { window_title = window_title; process_name = process_name; timestamp = timestamp })
        m.buffer;
}

abbrev pub has_changed : String → WindowMonitor → Bool
has_changed title m = not (title == m.last_window_title)

abbrev pub update_last_title : String → WindowMonitor → WindowMonitor
update_last_title title m = record m { last_window_title = title }

-- `last()`
abbrev pub last_of {ℓ} : {A : Type ℓ} → List A → Option A
last_of [] = none
last_of (x ∷ []) = some x
last_of (x ∷ y ∷ ys) = last_of (y ∷ ys)

-- `(later - earlier) as u32`
unfoldable pub seconds_u32 : ℕ → ℕ → ℕ
seconds_u32 later earlier =
    if leb earlier later
    then (later - earlier) % 4294967296
    else (4294967296 - (earlier - later) % 4294967296) % 4294967296

abbrev pub since_last : ℕ → Option BufferedEntry → ℕ
since_last now none = 0
since_last now (some e) = seconds_u32 now e.timestamp

-- The entries with `timestamp >= now - 60`.
abbrev pub recent : ℕ → List BufferedEntry → List BufferedEntry
recent now = filter (λ e. leb now (e.timestamp + 60))

abbrev pub differs : Option String → BufferedEntry → Bool
differs none e = false
differs (some p) e = not (e.window_title == p)

-- The loop that counts switches, from the title seen before.
unfoldable pub count_switches : Option String → List BufferedEntry → ℕ
count_switches prev [] = 0
count_switches prev (e ∷ es) =
    let rest = count_switches (some e.window_title) es in if differs prev e then suc rest else rest

-- The loop that collects the times of switches.
unfoldable pub switch_times : Option String → List BufferedEntry → List ℕ
switch_times prev [] = []
switch_times prev (e ∷ es) =
    let rest = switch_times (some e.window_title) es in
    if differs prev e then e.timestamp ∷ rest else rest

-- How many times lie less than five seconds after the one before.
unfoldable pub count_rapid : List ℕ → ℕ
count_rapid [] = 0
count_rapid (t ∷ []) = 0
count_rapid (t ∷ u ∷ us) =
    let rest = count_rapid (u ∷ us) in if ltb u (t + 5) then suc rest else rest

abbrev pub changed_since : String → ℕ → Option BufferedEntry → Bool
changed_since title now none = false
changed_since title now (some e) = not (e.window_title == title) && ltb now (e.timestamp + 5)

unfoldable pub compute_context : String → ℕ → WindowMonitor → ProcessContext
unfolding seconds_u32 count_switches switch_times count_rapid
compute_context window_title now m =
    let entries = m.buffer.entries in
    record {
      stay_duration_seconds =
          since_last now (last_of (filter (λ e. e.window_title == window_title) entries));
      switches_in_last_minute = count_switches none (recent now entries);
      rapid_switch_intervals_under_5s = count_rapid (switch_times none (recent now entries));
      foreground_changed_within_5s = changed_since window_title now (last_of entries);
    }
