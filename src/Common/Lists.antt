-- ===== src/Common/Lists.antt =====
-- Lists measured by native numbers, and the row operations of the tables.
use Prim.Native.Nat.{ℕ, zero, suc, ◌+◌, ◌≤◌}
use mathlib.Core.Path.{◌≡◌, refl, ap}
use mathlib.Core.Logic.{◌⊎◌, inl, inr}
use mathlib.Core.Bool.{Bool, true, false, ◌&&◌, ◌||◌}
use mathlib.Core.Option.{Option, none, some}
use mathlib.Core.List.{List, [], ◌∷◌, ◌++◌}
use native.Mathlib.Omega.{arith}
use ruskery.Common.Tests.{if◌then◌else◌, Bool-cases}

-- The empty type at every level.
pub data Nothing {ℓ} : Type ℓ where

module _ {ℓ} {A : Type ℓ} where
  abbrev pub length : List A → ℕ
  length [] = 0
  length (x ∷ xs) = suc (length xs)

  abbrev pub take : ℕ → List A → List A
  take zero xs = []
  take (suc n) [] = []
  take (suc n) (x ∷ xs) = x ∷ take n xs

  abbrev pub drop : ℕ → List A → List A
  drop zero xs = xs
  drop (suc n) [] = []
  drop (suc n) (x ∷ xs) = drop n xs

  abbrev pub any : (A → Bool) → List A → Bool
  any p [] = false
  any p (x ∷ xs) = p x || any p xs

  abbrev pub all : (A → Bool) → List A → Bool
  all p [] = true
  all p (x ∷ xs) = p x && all p xs

  abbrev pub filter : (A → Bool) → List A → List A
  filter p [] = []
  filter p (x ∷ xs) = if p x then x ∷ filter p xs else filter p xs

  -- `fetch_optional`: the first row that meets the condition.
  abbrev pub find_row : (A → Bool) → List A → Option A
  find_row p [] = none
  find_row p (x ∷ xs) = if p x then some x else find_row p xs

  abbrev pub filter_map {κ} : {B : Type κ} → (A → Option B) → List A → List B
  filter_map f [] = []
  filter_map f (x ∷ xs) = elim (f x) [ none ↦ filter_map f xs | some y ↦ y ∷ filter_map f xs ]

  pub length-append : (xs ys : List A) → length (xs ++ ys) ≡ length xs + length ys
  length-append [] ys = omega arith
  length-append (x ∷ xs) ys = omega (arith, length-append xs ys)

  pub length-take_of_le : (n : ℕ) (xs : List A) → n ≤ length xs → length (take n xs) ≡ n
  length-take_of_le zero xs h = refl
  length-take_of_le (suc n) [] h = absurd (omega arith)
  length-take_of_le (suc n) (x ∷ xs) h = ap suc (length-take_of_le n xs (omega arith))

  pub take-append-drop : (n : ℕ) (xs : List A) → take n xs ++ drop n xs ≡ xs
  take-append-drop zero xs = refl
  take-append-drop (suc n) [] = refl
  take-append-drop (suc n) (x ∷ xs) = ap (◌∷◌ x) (take-append-drop n xs)

  -- A stable insertion sort, for `ORDER BY`.
  unfoldable pub insert_by : (A → A → Bool) → A → List A → List A
  insert_by lt x [] = x ∷ []
  insert_by lt x (y ∷ ys) = if lt y x then y ∷ insert_by lt x ys else x ∷ y ∷ ys

  unfoldable pub sort_by : (A → A → Bool) → List A → List A
  unfolding insert_by
  sort_by lt [] = []
  sort_by lt (x ∷ xs) = insert_by lt x (sort_by lt xs)

  -- `x` is one of the elements; it computes, so that the tactics read it.
  abbrev pub In : A → List A → Type ℓ
  In x [] = Nothing
  In x (y ∷ ys) = (x ≡ y) ⊎ In x ys

  abbrev pub All {κ} : (A → Type κ) → List A → Type κ
  All P [] = Unit
  All P (x ∷ xs) = P x × All P xs

  pub In-filter : (p : A → Bool) (x : A) (xs : List A) → In x (filter p xs) → In x xs × (p x ≡ true)
  In-filter p x [] i = elim i [ ]
  In-filter p x (y ∷ ys) i = ground (arith, In-filter p x ys)

  pub In-filter_of :
      (p : A → Bool) (x : A) (xs : List A) → In x xs → p x ≡ true → In x (filter p xs)
  In-filter_of p x [] i h = elim i [ ]
  In-filter_of p x (y ∷ ys) i h = ground (arith, In-filter_of p x ys)

  pub find_row-In :
      (p : A → Bool) (x : A) (xs : List A) → find_row p xs ≡ some x → In x xs × (p x ≡ true)
  find_row-In p x [] h = ground arith
  find_row-In p x (y ∷ ys) h = ground (arith, find_row-In p x ys)

  pub any_of-In : (p : A → Bool) (x : A) (xs : List A) → In x xs → p x ≡ true → any p xs ≡ true
  any_of-In p x [] i h = elim i [ ]
  any_of-In p x (y ∷ ys) i h = ground (arith, any_of-In p x ys)

  pub any-In : (p : A → Bool) (xs : List A) → any p xs ≡ true → (x : A) × In x xs × (p x ≡ true)
  any-In p [] h = ground arith
  any-In p (y ∷ ys) h = elim (Bool-cases (p y)) [
    | inl t ↦ (y, inl refl, t)
    | inr f ↦ let (x, i, t) = any-In p ys (ground arith) in (x, inr i, t)
  ]

module _ {ℓ κ} {A : Type ℓ} {B : Type κ} (f : A → Option B) where
  -- Membership in what a partial function keeps.
  pub In-filter_map :
      (x : B) (ys : List A) → In x (filter_map f ys) → (y : A) × In y ys × (f y ≡ some x)
  In-filter_map x [] i = elim i [ ]
  In-filter_map x (y ∷ ys) i = kept (In-filter_map x ys) (f y) refl i
    where
      kept :
          (In x (filter_map f ys) → (z : A) × In z ys × (f z ≡ some x))
          → (o : Option B) → f y ≡ o
          → In x (elim o [ none ↦ filter_map f ys | some z ↦ z ∷ filter_map f ys ])
          → (z : A) × In z (y ∷ ys) × (f z ≡ some x)
      kept ih none e j = let (z, k, h) = ih j in (z, inr k, h)
      kept ih (some v) e (inl p) = (y, inl refl, rw p e)
      kept ih (some v) e (inr j) = let (z, k, h) = ih j in (z, inr k, h)

  pub In-filter_map_of :
      (x : B) (y : A) (ys : List A) → In y ys → f y ≡ some x → In x (filter_map f ys)
  In-filter_map_of x y [] i h = elim i [ ]
  In-filter_map_of x y (z ∷ zs) i h = ground (arith, In-filter_map_of x y zs)
