-- ===== src/Prelude/Text.antt =====
-- What the program uses of `str`: trimming, substrings and characters of a text.
use Prim.Native.Nat.{ℕ, zero, suc, ◌≤◌}
use Prim.Native.Char.{Char, code}
use Prim.Native.String
use Prim.Native.String.{String}
use mathlib.Core.Path.{◌≡◌, refl, ap, ◌∙◌}
use mathlib.Core.Logic.{inl, inr}
use mathlib.Core.Bool.{Bool, true, false, ◌&&◌, ◌||◌}
use mathlib.Core.List.{List, [], ◌∷◌}
use native.Mathlib.Omega.{arith}
use cozmio.Prelude.Tests.{Bool-cases, leb, ltb, nat_eq, if◌then◌else◌}

-- `char::is_whitespace`: the Unicode property White_Space.
unfoldable pub is_whitespace : ℕ → Bool
is_whitespace c =
    (leb 9 c && leb c 13)
    || nat_eq c 32
    || nat_eq c 0x85
    || nat_eq c 0xa0
    || nat_eq c 0x1680
    || (leb 0x2000 c && leb c 0x200a)
    || nat_eq c 0x2028
    || nat_eq c 0x2029
    || nat_eq c 0x202f
    || nat_eq c 0x205f
    || nat_eq c 0x3000

abbrev pub is_empty : String → Bool
is_empty String.[] = true
is_empty (String.◌∷◌ c s) = false

-- `trim().is_empty()`
unfoldable pub is_blank : String → Bool
is_blank String.[] = true
is_blank (String.◌∷◌ c s) = is_whitespace (code c) && is_blank s

unfoldable pub trim_start : String → String
trim_start String.[] = ""
trim_start (String.◌∷◌ c s) =
    let rest = trim_start s in if is_whitespace (code c) then rest else String.◌∷◌ c s

unfoldable pub trim_end : String → String
trim_end String.[] = ""
trim_end (String.◌∷◌ c s) =
    let rest = trim_end s in if is_blank (String.◌∷◌ c s) then "" else String.◌∷◌ c rest

unfoldable pub trim : String → String
unfolding trim_start trim_end
trim s = trim_end (trim_start s)

-- `<` of texts by their code points, which is also the order of their bytes.
unfoldable pub str_ltb : String → String → Bool
str_ltb s String.[] = false
str_ltb String.[] (String.◌∷◌ d t) = true
str_ltb (String.◌∷◌ c s) (String.◌∷◌ d t) =
    let rest = str_ltb s t in
    if ltb (code c) (code d) then true else (if nat_eq (code c) (code d) then rest else false)

unfoldable pub starts_with : String → String → Bool
starts_with String.[] t = true
starts_with (String.◌∷◌ c s) String.[] = false
starts_with (String.◌∷◌ c s) (String.◌∷◌ d t) = nat_eq (code c) (code d) && starts_with s t

-- `t.contains(s)` of two texts, the piece first.
unfoldable pub contains_text : String → String → Bool
unfolding starts_with
contains_text s String.[] = starts_with s String.[]
contains_text s (String.◌∷◌ d t) = starts_with s (String.◌∷◌ d t) || contains_text s t

-- `chars().take(n).collect()`
unfoldable pub take_chars : ℕ → String → String
take_chars zero s = ""
take_chars (suc n) String.[] = ""
take_chars (suc n) (String.◌∷◌ c s) = String.◌∷◌ c (take_chars n s)

-- `chars().map(f).collect()`
unfoldable pub map_chars : (Char → Char) → String → String
map_chars f String.[] = ""
map_chars f (String.◌∷◌ c s) = String.◌∷◌ (f c) (map_chars f s)

-- `trim_start_matches` and `trim_matches` of a class of characters.
unfoldable pub skip_chars : (Char → Bool) → String → String
skip_chars p String.[] = ""
skip_chars p (String.◌∷◌ c s) = let rest = skip_chars p s in if p c then rest else String.◌∷◌ c s

unfoldable pub skip_end : (Char → Bool) → String → String
skip_end p String.[] = ""
skip_end p (String.◌∷◌ c s) =
    let rest = skip_end p s in if p c && is_empty rest then "" else String.◌∷◌ c rest

unfoldable pub trim_matches : (Char → Bool) → String → String
unfolding skip_chars skip_end
trim_matches p s = skip_end p (skip_chars p s)

abbrev starts_line : String → Bool
starts_line String.[] = false
starts_line (String.◌∷◌ c s) = nat_eq (code c) 10

abbrev cons_first : Char → List String → List String
cons_first c [] = String.◌∷◌ c "" ∷ []
cons_first c (l ∷ ls) = String.◌∷◌ c l ∷ ls

-- `lines()`: a line ends with a line feed, which may follow a carriage return.
unfoldable pub lines : String → List String
lines String.[] = []
lines (String.◌∷◌ c s) =
    let rest = lines s in
    if nat_eq (code c) 10
    then "" ∷ rest
    else if nat_eq (code c) 13 && starts_line s
    then rest
    else cons_first c rest

-- `join("\n")`
unfoldable pub join_lines : List String → String
join_lines [] = ""
join_lines (l ∷ []) = l
join_lines (l ∷ m ∷ ls) = String.◌++◌ l (String.◌++◌ "\n" (join_lines (m ∷ ls)))

-- `chars().count()`
abbrev pub char_count : String → ℕ
char_count String.[] = 0
char_count (String.◌∷◌ c s) = suc (char_count s)

pub is_blank-trim_end : (s : String) → is_blank (trim_end s) ≡ is_blank s
unfolding trim_end is_blank
is_blank-trim_end String.[] = refl
is_blank-trim_end (String.◌∷◌ c s) = elim (Bool-cases (is_whitespace (code c) && is_blank s)) [
  | inl b ↦ rw b refl
  | inr b ↦ rw (b, is_blank-trim_end s) b
]

pub is_blank-trim_start : (s : String) → is_blank (trim_start s) ≡ is_blank s
unfolding trim_start is_blank
is_blank-trim_start String.[] = refl
is_blank-trim_start (String.◌∷◌ c s) = ground (arith, is_blank-trim_start s)

pub trim_end_idem : (s : String) → trim_end (trim_end s) ≡ trim_end s
unfolding trim_end is_blank
trim_end_idem String.[] = refl
trim_end_idem (String.◌∷◌ c s) = elim (Bool-cases (is_whitespace (code c) && is_blank s)) [
  | inl b ↦ rw b refl
  | inr b ↦ rw (b, is_blank-trim_end s, b, trim_end_idem s) refl
]

char_count-trim_start : (s : String) → char_count (trim_start s) ≤ char_count s
unfolding trim_start
char_count-trim_start String.[] = omega arith
char_count-trim_start (String.◌∷◌ c s) = elim (Bool-cases (is_whitespace (code c))) [
  | inl w ↦ rw w (omega (arith, char_count-trim_start s))
  | inr w ↦ rw w (omega arith)
]

pub trim_start-trim_end : (s : String) → trim_start s ≡ s → trim_start (trim_end s) ≡ trim_end s
unfolding trim_start trim_end is_blank
trim_start-trim_end String.[] h = refl
trim_start-trim_end (String.◌∷◌ c s) h = elim (Bool-cases (is_whitespace (code c))) [
  | inl w ↦ absurd (omega (arith, char_count-trim_start s, ap char_count (rw w at h)))
  | inr w ↦ rw (w, w) refl
]

pub trim_start_idem : (s : String) → trim_start (trim_start s) ≡ trim_start s
unfolding trim_start
trim_start_idem String.[] = refl
trim_start_idem (String.◌∷◌ c s) = ground (arith, trim_start_idem s)

pub trim_idem : (s : String) → trim (trim s) ≡ trim s
unfolding trim
trim_idem s =
    rw (trim_start-trim_end (trim_start s) (trim_start_idem s)) (trim_end_idem (trim_start s))

pub is_blank-trim : (s : String) → is_blank (trim s) ≡ is_blank s
unfolding trim
is_blank-trim s = is_blank-trim_end (trim_start s) ∙ is_blank-trim_start s
