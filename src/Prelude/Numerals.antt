-- ===== src/Prelude/Numerals.antt =====
-- Numbers as decimal texts: `to_string` and `parse::<i64>`.
use Prim.Native.Nat.{ℕ, zero, suc, ◌+◌, ◌-◌, ◌*◌, ◌/◌, ◌%◌}
use Prim.Native.Char.{Char, code}
use Prim.Native.String
use Prim.Native.String.{String}
use mathlib.Core.Bool.{◌&&◌}
use mathlib.Core.Option
use mathlib.Core.Option.{Option, none, some}
use cozmio.Prelude.Tests.{leb, ltb, nat_eq, if◌then◌else◌}
use cozmio.Prelude.Int.{ℤ, pos, negsuc, neg}

abbrev pub digit : ℕ → Char
digit n =
    if nat_eq n 0
    then "0"
    else if nat_eq n 1
    then "1"
    else if nat_eq n 2
    then "2"
    else if nat_eq n 3
    then "3"
    else if nat_eq n 4
    then "4"
    else if nat_eq n 5
    then "5"
    else if nat_eq n 6
    then "6"
    else if nat_eq n 7
    then "7"
    else if nat_eq n 8
    then "8"
    else "9"

-- The digits of a number before a text, on as many digits as the number counts at most.
unfoldable pub digits : ℕ → ℕ → String → String
digits zero n s = s
digits (suc fuel) n s =
    let rest = digits fuel (n / 10) (String.◌∷◌ (digit (n % 10)) s) in
    if ltb n 10 then String.◌∷◌ (digit n) s else rest

unfoldable pub show_nat : ℕ → String
unfolding digits
show_nat n = digits (suc n) n ""

unfoldable pub show_int : ℤ → String
unfolding show_nat
show_int (pos n) = show_nat n
show_int (negsuc n) = String.◌++◌ "-" (show_nat (suc n))

-- The number of a text of decimal digits, after a number read before.
unfoldable pub read_digits : ℕ → String → Option ℕ
read_digits n String.[] = some n
read_digits n (String.◌∷◌ c s) =
    let rest = read_digits (n * 10 + (code c - 48)) s in
    if leb 48 (code c) && leb (code c) 57 then rest else none

unfoldable nonempty_digits : String → Option ℕ
unfolding read_digits
nonempty_digits String.[] = none
nonempty_digits (String.◌∷◌ c s) = read_digits 0 (String.◌∷◌ c s)

abbrev pub at_most : ℕ → Option ℕ → Option ℕ
at_most b none = none
at_most b (some n) = if leb n b then some n else none

-- `parse::<i64>`: an optional sign, then digits, within 64 bits.
unfoldable pub parse_i64 : String → Option ℤ
unfolding nonempty_digits
parse_i64 String.[] = none
parse_i64 (String.◌∷◌ c s) =
    if nat_eq (code c) 45
    then Option.map neg (at_most 9223372036854775808 (nonempty_digits s))
    else if nat_eq (code c) 43
    then Option.map pos (at_most 9223372036854775807 (nonempty_digits s))
    else Option.map pos (at_most 9223372036854775807 (nonempty_digits (String.◌∷◌ c s)))
