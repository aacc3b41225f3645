-- ===== src/Windows/Switches.antt =====
-- src-tauri/src/window_monitor.rs: the counts of a context agree with each other.
use cozmio.Prelude.{
  ℕ, suc, ◌+◌, ◌-◌, ◌≤◌, ◌<◌, String, ◌≡◌, refl, Option, none, some, List, [], ◌∷◌, arith, leb, ltb,
  length, length-filter-le, filter, Bool-cases, inl, inr, ◌==◌, string_key, ap,
}
use cozmio.Windows.{
  BufferedEntry, WindowMonitor, count_switches, switch_times, count_rapid, seconds_u32, since_last,
  last_of, recent, differs, compute_context,
}

-- The two loops over the recent entries find the same switches.
count_switches-switch_times :
    (prev : Option String) (es : List BufferedEntry)
    → count_switches prev es ≡ length (switch_times prev es)
unfolding count_switches switch_times
count_switches-switch_times prev [] = refl
count_switches-switch_times prev (e ∷ es) = elim (Bool-cases (differs prev e)) [
  | inl k ↦ rw k (ap suc (count_switches-switch_times (some e.window_title) es))
  | inr k ↦ rw k (count_switches-switch_times (some e.window_title) es)
]

count_switches-le :
    (prev : Option String) (es : List BufferedEntry) → count_switches prev es ≤ length es
unfolding count_switches
count_switches-le prev [] = omega arith
count_switches-le prev (e ∷ es) = elim (Bool-cases (differs prev e)) [
  | inl k ↦ rw k (omega (arith, count_switches-le (some e.window_title) es))
  | inr k ↦ rw k (omega (arith, count_switches-le (some e.window_title) es))
]

count_rapid-le : (ts : List ℕ) → count_rapid ts ≤ length ts - 1
unfolding count_rapid
count_rapid-le [] = omega arith
count_rapid-le (t ∷ []) = omega arith
count_rapid-le (t ∷ u ∷ us) = elim (Bool-cases (ltb u (t + 5))) [
  | inl k ↦ rw k (omega (arith, count_rapid-le (u ∷ us)))
  | inr k ↦ rw k (omega (arith, count_rapid-le (u ∷ us)))
]

seconds_u32-lt : (a b : ℕ) → seconds_u32 a b < 4294967296
unfolding seconds_u32
seconds_u32-lt a b = elim (Bool-cases (leb b a)) [
  | inl k ↦ rw k (omega arith)
  | inr k ↦ rw k (omega arith)
]

since_last-lt : (now : ℕ) (e : Option BufferedEntry) → since_last now e < 4294967296
since_last-lt now none = omega arith
since_last-lt now (some e) = seconds_u32-lt now e.timestamp

-- In every context, rapid intervals are fewer than switches when there are switches, switches at most
-- the entries of the buffer, and the stay fits in 32 bits.
pub context_bounds :
    (title : String) (now : ℕ) (m : WindowMonitor)
    → let c = compute_context title now m in
      (c.rapid_switch_intervals_under_5s ≤ c.switches_in_last_minute - 1)
      × (c.switches_in_last_minute ≤ length m.buffer.entries)
      × (c.stay_duration_seconds < 4294967296)
unfolding compute_context
context_bounds title now m = (
  rw (count_switches-switch_times none (recent now m.buffer.entries))
      (count_rapid-le (switch_times none (recent now m.buffer.entries))),
  omega (
    arith,
    count_switches-le none (recent now m.buffer.entries),
    length-filter-le (λ e. leb now (e.timestamp + 60)) m.buffer.entries,
  ),
  since_last-lt now (last_of (filter (λ e. e.window_title == title) m.buffer.entries)),
)
