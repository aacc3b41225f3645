-- ===== src/Prelude/Tails.antt =====
-- The last entries of a list.
use Prim.Native.Nat.{ℕ, zero, suc, ◌+◌, ◌-◌, ◌≤◌}
use mathlib.Core.Path.{◌≡◌, refl, sym, ap, ◌∙◌}
use mathlib.Core.List.{List, [], ◌∷◌, ◌++◌}
use native.Mathlib.Omega.{arith}
use cozmio.Prelude.Lists.{length, length-append, drop}

abbrev pub tail_of : {A : Type 0} → ℕ → List A → List A
tail_of n xs = drop (length xs - n) xs

module _ {A : Type 0} where
  pub drop-append : (k : ℕ) (xs ys : List A) → k ≤ length xs → drop k (xs ++ ys) ≡ drop k xs ++ ys
  drop-append zero xs ys h = refl
  drop-append (suc k) [] ys h = absurd (omega (arith, h))
  drop-append (suc k) (x ∷ xs) ys h = drop-append k xs ys (omega (arith, h))

  drop-nil : (j : ℕ) → drop {A = A} j [] ≡ []
  drop-nil zero = refl
  drop-nil (suc j) = refl

  drop-drop : (j k n : ℕ) (xs : List A) → n ≡ k + j → drop j (drop k xs) ≡ drop n xs
  drop-drop j zero n xs e = ap (λ q. drop q xs) (omega (arith, e))
  drop-drop j (suc k) n [] e = drop-nil j ∙ sym (drop-nil n)
  drop-drop j (suc k) zero (x ∷ xs) e = absurd (omega (arith, e))
  drop-drop j (suc k) (suc n) (x ∷ xs) e = drop-drop j k n xs (omega (arith, e))

  pub append-nil : (xs : List A) → xs ++ [] ≡ xs
  append-nil [] = refl
  append-nil (x ∷ xs) = ap (◌∷◌ x) (append-nil xs)

  pub append-one : (xs : List A) (y : A) (ys : List A) → (xs ++ y ∷ []) ++ ys ≡ xs ++ y ∷ ys
  append-one [] y ys = refl
  append-one (x ∷ xs) y ys = ap (◌∷◌ x) (append-one xs y ys)

  pub length-drop : (k : ℕ) (xs : List A) → length (drop k xs) ≡ length xs - k
  length-drop zero xs = omega arith
  length-drop (suc k) [] = omega arith
  length-drop (suc k) (x ∷ xs) = omega (arith, length-drop k xs)

  pub length-tail_of : (n : ℕ) (xs : List A) → length (tail_of n xs) ≤ n
  length-tail_of n xs = omega (arith, length-drop (length xs - n) xs)

  pub tail_of_short : (n : ℕ) (xs : List A) → length xs ≤ n → tail_of n xs ≡ xs
  tail_of_short n xs h = ap (λ k. drop k xs) (zero_of (length xs) h)
    where
      zero_of : (k : ℕ) → k ≤ n → k - n ≡ 0
      zero_of k h = omega (arith, h)

  -- Older entries do not show again.
  pub tail_of_again :
      (n : ℕ) (xs ys : List A) → tail_of n (tail_of n xs ++ ys) ≡ tail_of n (xs ++ ys)
  tail_of_again n xs ys =
      ap (tail_of n) (sym (drop-append (length xs - n) xs ys (omega arith)))
      ∙ ap (λ k. drop k (drop (length xs - n) (xs ++ ys))) counted
      ∙ drop-drop _ (length xs - n) (length (xs ++ ys) - n) (xs ++ ys) summed
    where
      counted :
          length (drop (length xs - n) (xs ++ ys)) - n
          ≡ (length xs + length ys) - (length xs - n) - n
      counted = omega (arith, length-drop (length xs - n) (xs ++ ys), length-append xs ys)

      summed :
          length (xs ++ ys) - n ≡ (length xs - n) + ((length xs + length ys) - (length xs - n) - n)
      summed = omega (arith, length-append xs ys)
