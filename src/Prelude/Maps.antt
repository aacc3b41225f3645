-- ===== src/Prelude/Maps.antt =====
-- `HashMap` as an association list: `insert` overwrites in place or adds at the end, `remove` drops
-- a key, `modify` is a write through `get_mut`. The order of the list stands for the unspecified
-- iteration order of the table.
use mathlib.Core.Path.{◌≡◌, refl}
use mathlib.Core.Option
use mathlib.Core.Option.{Option, none, some}
use mathlib.Core.List.{List, [], ◌∷◌}
use native.Mathlib.Omega.{arith}
use cozmio.Prelude.Tests.{if◌then◌else◌}
use cozmio.Prelude.Keys.{Key, ◌==◌, ==_iff}

abbrev pub Map {ℓ κ} : Type ℓ → Type κ → Type (ℓ ⊔ κ)
Map K V = List (K × V)

module _ {ℓ κ} {K : Type ℓ} {V : Type κ} ⦃e : Key K⦄ where
  unfoldable pub lookup : K → Map K V → Option V
  lookup k [] = none
  lookup k ((j, v) ∷ d) = if j == k then some v else lookup k d

  unfoldable pub insert : K → V → Map K V → Map K V
  insert k v [] = (k, v) ∷ []
  insert k v ((j, u) ∷ d) = if j == k then (k, v) ∷ d else (j, u) ∷ insert k v d

  unfoldable pub remove : K → Map K V → Map K V
  remove k [] = []
  remove k ((j, v) ∷ d) = let rest = remove k d in if j == k then rest else (j, v) ∷ rest

  unfoldable pub modify : K → (V → V) → Map K V → Map K V
  modify k f [] = []
  modify k f ((j, v) ∷ d) = if j == k then (j, f v) ∷ d else (j, v) ∷ modify k f d

  pub lookup-insert :
      (k j : K) (v : V) (d : Map K V)
      → lookup j (insert k v d) ≡ (if k == j then some v else lookup j d)
  unfolding lookup insert
  lookup-insert k j v [] = refl
  lookup-insert k j v ((i, u) ∷ d) =
      ground (arith, ==_iff k j, ==_iff i k, ==_iff i j, lookup-insert k j v d)

  pub lookup-remove :
      (k j : K) (d : Map K V) → lookup j (remove k d) ≡ (if k == j then none else lookup j d)
  unfolding lookup remove
  lookup-remove k j [] = ground arith
  lookup-remove k j ((i, u) ∷ d) =
      ground (arith, ==_iff k j, ==_iff i k, ==_iff i j, lookup-remove k j d)

  pub lookup-modify :
      (k j : K) (f : V → V) (d : Map K V)
      → lookup j (modify k f d) ≡ (if k == j then Option.map f (lookup j d) else lookup j d)
  unfolding lookup modify
  lookup-modify k j f [] = ground arith
  lookup-modify k j f ((i, u) ∷ d) =
      ground (arith, ==_iff k j, ==_iff i k, ==_iff i j, lookup-modify k j f d)
