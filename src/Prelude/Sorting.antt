-- ===== src/Prelude/Sorting.antt =====
-- Sorting by a Boolean order, stable: `sort_by`, and the ORDER BY of a query.
use Prim.Native.Nat.{ℕ, zero, suc, ◌≤◌}
use mathlib.Core.Path.{◌≡◌}
use mathlib.Core.Logic.{inl, inr}
use mathlib.Core.Bool.{Bool, true, false}
use mathlib.Core.List.{List, [], ◌∷◌}
use native.Mathlib.Omega.{arith}
use cozmio.Prelude.Tests.{Bool-cases, if◌then◌else◌}
use cozmio.Prelude.Lists.{length, take, drop, filter, All}

module _ {A : Type 0} where
  unfoldable pub insert_by : (A → A → Bool) → A → List A → List A
  insert_by before x [] = x ∷ []
  insert_by before x (y ∷ ys) = if before x y then x ∷ y ∷ ys else y ∷ insert_by before x ys

  unfoldable pub sort_by : (A → A → Bool) → List A → List A
  unfolding insert_by
  sort_by before [] = []
  sort_by before (x ∷ xs) = insert_by before x (sort_by before xs)

  abbrev pub Heads : (A → A → Bool) → A → List A → Type 0
  Heads before x [] = Unit
  Heads before x (y ∷ ys) = before x y ≡ true

  -- Each entry comes before the next.
  abbrev pub IsOrdered : (A → A → Bool) → List A → Type 0
  IsOrdered before [] = Unit
  IsOrdered before (x ∷ xs) = Heads before x xs × IsOrdered before xs

  module _ (before : A → A → Bool) where
    module _ (total : (x y : A) → before x y ≡ false → before y x ≡ true) where
      Heads-insert_by :
          (x y : A) (ys : List A)
          → before y x ≡ true
          → Heads before y ys
          → Heads before y (insert_by before x ys)
      unfolding insert_by
      Heads-insert_by x y [] h k = h
      Heads-insert_by x y (z ∷ zs) h k = elim (Bool-cases (before x z)) [
        | inl e ↦ rw e h
        | inr e ↦ rw e k
      ]

      insert_by-IsOrdered :
          (x : A) (ys : List A) → IsOrdered before ys → IsOrdered before (insert_by before x ys)
      unfolding insert_by
      insert_by-IsOrdered x [] o = (tt, tt)
      insert_by-IsOrdered x (y ∷ ys) o = elim (Bool-cases (before x y)) [
        | inl e ↦ rw e (e, o)
        | inr e ↦ rw e (Heads-insert_by x y ys (total x y e) o.0, insert_by-IsOrdered x ys o.1)
      ]

      pub sort_by-IsOrdered : (xs : List A) → IsOrdered before (sort_by before xs)
      unfolding sort_by
      sort_by-IsOrdered [] = tt
      sort_by-IsOrdered (x ∷ xs) = insert_by-IsOrdered x (sort_by before xs) (sort_by-IsOrdered xs)

    pub take-IsOrdered : (k : ℕ) (xs : List A) → IsOrdered before xs → IsOrdered before (take k xs)
    take-IsOrdered zero xs o = tt
    take-IsOrdered (suc k) [] o = tt
    take-IsOrdered (suc k) (x ∷ xs) o = (heads k xs o.0, take-IsOrdered k xs o.1)
      where
        heads : (j : ℕ) (ys : List A) → Heads before x ys → Heads before x (take j ys)
        heads zero ys h = tt
        heads (suc j) [] h = tt
        heads (suc j) (y ∷ ys) h = h

    pub drop-IsOrdered : (k : ℕ) (xs : List A) → IsOrdered before xs → IsOrdered before (drop k xs)
    drop-IsOrdered zero xs o = o
    drop-IsOrdered (suc k) [] o = tt
    drop-IsOrdered (suc k) (x ∷ xs) o = drop-IsOrdered k xs o.1

    All-insert_by :
        (P : A → Type 0) (x : A) (ys : List A) → P x → All P ys → All P (insert_by before x ys)
    unfolding insert_by
    All-insert_by P x [] p a = (p, tt)
    All-insert_by P x (y ∷ ys) p a = elim (Bool-cases (before x y)) [
      | inl e ↦ rw e (p, a)
      | inr e ↦ rw e (a.0, All-insert_by P x ys p a.1)
    ]

    pub All-sort_by : (P : A → Type 0) (xs : List A) → All P xs → All P (sort_by before xs)
    unfolding sort_by
    All-sort_by P [] a = tt
    All-sort_by P (x ∷ xs) a = All-insert_by P x (sort_by before xs) a.0 (All-sort_by P xs a.1)

  pub All-filter :
      (P : A → Type 0) (p : A → Bool) (xs : List A)
      → ((x : A) → p x ≡ true → P x)
      → All P (filter p xs)
  All-filter P p [] h = tt
  All-filter P p (x ∷ xs) h = elim (Bool-cases (p x)) [
    | inl k ↦ rw k (h x k, All-filter P p xs h)
    | inr k ↦ rw k (All-filter P p xs h)
  ]

  pub length-take-le : (k : ℕ) (xs : List A) → length (take k xs) ≤ k
  length-take-le zero xs = omega arith
  length-take-le (suc k) [] = omega arith
  length-take-le (suc k) (x ∷ xs) = omega (arith, length-take-le k xs)
