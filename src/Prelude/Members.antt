-- ===== src/Prelude/Members.antt =====
-- What a list holds after it was sorted, filtered or cut, and the order of a sorted list.
use Prim.Native.Nat.{ℕ, zero, suc}
use mathlib.Core.Path.{◌≡◌, refl, sym, subst, ap}
use mathlib.Core.Logic.{◌⊎◌, inl, inr, ◌↔◌}
use mathlib.Core.Bool.{Bool, true}
use mathlib.Core.List.{List, [], ◌∷◌}
use native.Mathlib.Omega.{arith}
use cozmio.Prelude.Tests.{Bool-cases}
use cozmio.Prelude.Lists.{length, take, filter, All, In}
use cozmio.Prelude.Sorting.{insert_by, sort_by, IsOrdered}

module _ {A : Type 0} where
  In-insert_by :
      (before : A → A → Bool) (x z : A) (ys : List A)
      → In z (insert_by before x ys) ↔ ((z ≡ x) ⊎ In z ys)
  unfolding insert_by
  In-insert_by before x z [] = (λ h. h, λ h. h)
  In-insert_by before x z (y ∷ ys) = elim (Bool-cases (before x y)) [
    | inl e ↦ rw e (λ h. h, λ h. h)
    | inr e ↦ rw e (swapped (In-insert_by before x z ys))
  ]
    where
      swapped : {P Q R S : Type 0} → (S ↔ (P ⊎ R)) → (Q ⊎ S) ↔ (P ⊎ (Q ⊎ R))
      swapped f = (
        λ h. elim h [
          | inl q ↦ inr (inl q)
          | inr k ↦ elim (f.0 k) [ inl p ↦ inl p | inr r ↦ inr (inr r) ]
        ],
        λ h. elim h [
          | inl p ↦ inr (f.1 (inl p))
          | inr k ↦ elim k [ inl q ↦ inl q | inr r ↦ inr (f.1 (inr r)) ]
        ],
      )

  pub In-sort_by :
      (before : A → A → Bool) (z : A) (xs : List A) → In z (sort_by before xs) ↔ In z xs
  unfolding sort_by
  In-sort_by before z [] = (λ h. h, λ h. h)
  In-sort_by before z (x ∷ xs) =
      let f = In-insert_by before x z (sort_by before xs) in
      let g = In-sort_by before z xs in
      (
        λ h. elim (f.0 h) [ inl e ↦ inl e | inr k ↦ inr (g.0 k) ],
        λ h. elim h [ inl e ↦ f.1 (inl e) | inr k ↦ f.1 (inr (g.1 k)) ],
      )

  pub In-filter :
      (p : A → Bool) (z : A) (xs : List A) → In z (filter p xs) ↔ (In z xs × (p z ≡ true))
  In-filter p z [] = (λ h. elim h [ ], λ h. h.0)
  In-filter p z (x ∷ xs) =
      let g = In-filter p z xs in
      elim (Bool-cases (p x)) [
        | inl k ↦ rw k (
          λ h. elim h [
            | inl e ↦ (inl e, subst (λ w. p w ≡ true) (sym e) k)
            | inr j ↦ (inr (g.0 j).0, (g.0 j).1)
          ],
          λ h. elim h.0 [ inl e ↦ inl e | inr j ↦ inr (g.1 (j, h.1)) ],
        )
        | inr k ↦ rw k (
          λ h. (inr (g.0 h).0, (g.0 h).1),
          λ h. elim h.0 [ inl e ↦ absurd (ground (arith, k, h.1, ap p e)) | inr j ↦ g.1 (j, h.1) ],
        )
      ]

  -- Each entry comes before all that follow it.
  abbrev pub IsSorted : (A → A → Type 0) → List A → Type 0
  IsSorted R [] = Unit
  IsSorted R (x ∷ xs) = All (R x) xs × IsSorted R xs

  pub All-In : (P : A → Type 0) (xs : List A) → ((x : A) → In x xs → P x) → All P xs
  All-In P [] f = tt
  All-In P (x ∷ xs) f = (f x (inl refl), All-In P xs (λ y i. f y (inr i)))

  In-All : (P : A → Type 0) (x : A) (xs : List A) → All P xs → In x xs → P x
  In-All P x [] a i = elim i [ ]
  In-All P x (y ∷ ys) a (inl e) = subst P (sym e) a.0
  In-All P x (y ∷ ys) a (inr i) = In-All P x ys a.1 i

  pub In-take : (k : ℕ) (x : A) (xs : List A) → In x (take k xs) → In x xs
  In-take zero x xs i = elim i [ ]
  In-take (suc k) x [] i = elim i [ ]
  In-take (suc k) x (y ∷ ys) (inl e) = inl e
  In-take (suc k) x (y ∷ ys) (inr i) = inr (In-take k x ys i)

  All-take : (P : A → Type 0) (k : ℕ) (xs : List A) → All P xs → All P (take k xs)
  All-take P zero xs a = tt
  All-take P (suc k) [] a = tt
  All-take P (suc k) (x ∷ xs) a = (a.0, All-take P k xs a.1)

  pub take-IsSorted :
      (R : A → A → Type 0) (k : ℕ) (xs : List A) → IsSorted R xs → IsSorted R (take k xs)
  take-IsSorted R zero xs s = tt
  take-IsSorted R (suc k) [] s = tt
  take-IsSorted R (suc k) (x ∷ xs) s = (All-take (R x) k xs s.0, take-IsSorted R k xs s.1)

  -- An entry of a sorted list is among its first, or all of these come before it.
  pub first_or_behind :
      (R : A → A → Type 0) (k : ℕ) (x : A) (xs : List A)
      → IsSorted R xs
      → In x xs
      → In x (take k xs) ⊎ ((length (take k xs) ≡ k) × All (λ y. R y x) (take k xs))
  first_or_behind R zero x xs s i = inr (refl, tt)
  first_or_behind R (suc k) x [] s i = elim i [ ]
  first_or_behind R (suc k) x (y ∷ ys) s (inl e) = inl (inl e)
  first_or_behind R (suc k) x (y ∷ ys) s (inr i) = elim (first_or_behind R k x ys s.1 i) [
    | inl j ↦ inl (inr j)
    | inr (full, behind) ↦ inr (ap suc full, (In-All (R y) x ys s.0 i, behind))
  ]

  module _ (before : A → A → Bool) (R : A → A → Type 0)
      (means : (x y : A) → before x y ≡ true → R x y)
      (trans : (x y z : A) → before x y ≡ true → before y z ≡ true → before x z ≡ true) where
    leads :
        (x y : A) (ys : List A) → before x y ≡ true → IsOrdered before (y ∷ ys) → All (R x) (y ∷ ys)
    leads x y [] h o = (means x y h, tt)
    leads x y (z ∷ zs) h o = (means x y h, leads x z zs (trans x y z h o.0) o.1)

    pub ordered-IsSorted : (xs : List A) → IsOrdered before xs → IsSorted R xs
    ordered-IsSorted [] o = tt
    ordered-IsSorted (x ∷ []) o = (tt, tt)
    ordered-IsSorted (x ∷ y ∷ ys) o = (leads x y ys o.0 o.1, ordered-IsSorted (y ∷ ys) o.1)
