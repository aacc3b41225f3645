-- ===== src/Session/Status.antt =====
-- relay-engine/src/session.rs: the integer codes of statuses and levels.
use cozmio.Prelude.{ℕ, ◌≡◌, ◌≤◌, ◌↔◌, refl, true, false, arith}
use cozmio.Prelude.Int.{pos, negsuc}
use cozmio.Session.{
  SessionStatus, is_terminal, discriminant, status_from_i32, LogLevel, level_to_i32, level_from_i32,
}

-- A status sent as an `i32` is read back as itself, and a level likewise.
pub codes_roundtrip :
    (s : SessionStatus) (l : LogLevel)
    → (status_from_i32 (pos (discriminant s)) ≡ s) × (level_from_i32 (level_to_i32 l) ≡ l)
unfolding status_from_i32 level_to_i32 level_from_i32
codes_roundtrip s l = ground arith

-- A code is read as a terminal status exactly when it is 3, 4 or 5: no unknown code, and no negative
-- one, ends a session.
pub terminal_codes :
    (n : ℕ)
    → ((is_terminal (status_from_i32 (pos n)) ≡ true) ↔ ((3 ≤ n) × (n ≤ 5)))
      × (is_terminal (status_from_i32 (negsuc n)) ≡ false)
unfolding status_from_i32 is_terminal
terminal_codes n = ((λ h. ground arith, λ h. ground arith), refl)
