-- ===== src/Common/Sorting.antt =====
-- Sorting keeps the elements.
use mathlib.Core.Path.{◌≡◌, refl}
use mathlib.Core.Logic.{◌⊎◌, inl, inr}
use mathlib.Core.Bool.{Bool}
use mathlib.Core.List.{List, [], ◌∷◌, map}
use native.Mathlib.Omega.{arith}
use ruskery.Common.Lists.{In, insert_by, sort_by}

module _ {ℓ} {A : Type ℓ} (lt : A → A → Bool) where
  In-insert_by : (x y : A) (xs : List A) → In x (insert_by lt y xs) → (x ≡ y) ⊎ In x xs
  unfolding insert_by
  In-insert_by x y [] i = i
  In-insert_by x y (z ∷ zs) i = ground (arith, In-insert_by x y zs)

  In-insert_by_of : (x y : A) (xs : List A) → (x ≡ y) ⊎ In x xs → In x (insert_by lt y xs)
  unfolding insert_by
  In-insert_by_of x y [] i = i
  In-insert_by_of x y (z ∷ zs) i = ground (arith, In-insert_by_of x y zs)

  pub In-sort_by : (x : A) (xs : List A) → In x (sort_by lt xs) → In x xs
  unfolding sort_by
  In-sort_by x [] i = i
  In-sort_by x (y ∷ ys) i = elim (In-insert_by x y (sort_by lt ys) i) [
    | inl e ↦ inl e
    | inr j ↦ inr (In-sort_by x ys j)
  ]

  pub In-sort_by_of : (x : A) (xs : List A) → In x xs → In x (sort_by lt xs)
  unfolding sort_by
  In-sort_by_of x [] i = i
  In-sort_by_of x (y ∷ ys) i =
      In-insert_by_of x y (sort_by lt ys)
        (elim i [ inl e ↦ inl e | inr j ↦ inr (In-sort_by_of x ys j) ])

module _ {ℓ κ} {A : Type ℓ} {B : Type κ} (f : A → B) where
  pub In-map : (y : B) (xs : List A) → In y (map f xs) → (x : A) × In x xs × (y ≡ f x)
  In-map y [] i = elim i [ ]
  In-map y (x ∷ xs) i = elim i [
    | inl e ↦ (x, inl refl, e)
    | inr j ↦ let (z, k, e) = In-map y xs j in (z, inr k, e)
  ]

  pub In-map_of : (y : B) (x : A) (xs : List A) → In x xs → y ≡ f x → In y (map f xs)
  In-map_of y x [] i e = elim i [ ]
  In-map_of y x (z ∷ zs) i e = ground (arith, In-map_of y x zs)
