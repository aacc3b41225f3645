-- ===== src/Prelude/Int.antt =====
-- Signed integers over the native numbers, as far as the wire format and the clocks need them.
use Prim.Native.Nat.{ℕ, zero, suc, ◌-◌, ◌/◌}
use mathlib.Core.Bool.{Bool, true, false}
use cozmio.Prelude.Tests.{leb, ltb, if◌then◌else◌}

-- `negsuc n` is -(n + 1).
pub data ℤ : Type 0 where
  pos : ℕ → ℤ
  negsuc : ℕ → ℤ

-- a - b, as an integer.
abbrev pub sub_ℕ : ℕ → ℕ → ℤ
sub_ℕ a b = if leb b a then pos (a - b) else negsuc (b - a - 1)

abbrev pub ltb_ℤ : ℤ → ℤ → Bool
ltb_ℤ (pos a) (pos b) = ltb a b
ltb_ℤ (pos a) (negsuc b) = false
ltb_ℤ (negsuc a) (pos b) = true
ltb_ℤ (negsuc a) (negsuc b) = ltb b a

abbrev pub neg : ℕ → ℤ
neg zero = pos 0
neg (suc n) = negsuc n

-- `(later - earlier).num_seconds()` of two times in nanoseconds: whole seconds, towards zero.
abbrev pub num_seconds : ℕ → ℕ → ℤ
num_seconds later earlier =
    if leb earlier later
    then pos ((later - earlier) / 1000000000)
    else neg ((earlier - later) / 1000000000)
