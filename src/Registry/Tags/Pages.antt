-- ===== src/Registry/Tags/Pages.antt =====
-- How the pages of src/registry/tags.rs follow each other.
use ruskery.Common.{
  ℕ, zero, suc, ◌≤◌, ◌<◌, ◌≡◌, refl, sym, subst, true, false, some, List, [], ◌∷◌, Str, str_ltb,
  arith, filter, take, drop, length, All, In, inl, inr, Bool-cases,
}
use ruskery.Registry.Tags.{last_of, after}

str_ltb_asym : (a b : Str) → str_ltb a b ≡ true → str_ltb b a ≡ false
unfolding str_ltb
str_ltb_asym [] [] h = refl
str_ltb_asym [] (y ∷ b) h = refl
str_ltb_asym (x ∷ a) [] h = absurd (ground arith)
str_ltb_asym (x ∷ a) (y ∷ b) h = ground (arith, str_ltb_asym a b)

str_ltb_irrefl : (a : Str) → str_ltb a a ≡ false
str_ltb_irrefl a = elim (Bool-cases (str_ltb a a)) [ inl e ↦ str_ltb_asym a a e | inr e ↦ e ]

-- In increasing order, without repetition.
abbrev pub IsIncreasing : List Str → Type 0
IsIncreasing [] = Unit
IsIncreasing (t ∷ ts) = All (λ u. str_ltb t u ≡ true) ts × IsIncreasing ts

All-In : (P : Str → Type 0) (ts : List Str) (t : Str) → All P ts → In t ts → P t
All-In P [] t a i = elim i [ ]
All-In P (u ∷ ts) t (p, a) (inl e) = subst P (sym e) p
All-In P (u ∷ ts) t (p, a) (inr i) = All-In P ts t a i

filter-All :
    (t : Str) (ts : List Str) → All (λ u. str_ltb t u ≡ true) ts → filter (str_ltb t) ts ≡ ts
filter-All t [] a = refl
filter-All t (u ∷ ts) a = ground (arith, filter-All t ts a.1, a.0)

-- The last tag of a page that is not empty is a tag of the list.
last_of-take :
    (n : ℕ) (t : Str) (ts : List Str)
    → (l : Str) × (last_of (take (suc n) (t ∷ ts)) ≡ some l) × In l (t ∷ ts)
unfolding last_of
last_of-take zero t ts = (t, refl, inl refl)
last_of-take (suc n) t [] = (t, refl, inl refl)
last_of-take (suc n) t (u ∷ ts) = let (l, e, i) = last_of-take n u ts in (l, e, inr i)

-- For tags in increasing order, what remains after the last tag of a page of at least one tag is
-- exactly what the page left out: the next page continues there.
pub after-take :
    (n : ℕ) (tags : List Str)
    → 1 ≤ n
    → n < length tags
    → IsIncreasing tags
    → after (last_of (take n tags)) tags ≡ drop n tags
unfolding after last_of
after-take zero tags h k inc = absurd (omega (arith, h))
after-take (suc n) [] h k inc = absurd (omega (arith, k))
after-take (suc zero) (t ∷ ts) h k inc = rw (str_ltb_irrefl t) (filter-All t ts inc.0)
after-take (suc (suc n)) (t ∷ []) h k inc = absurd (omega (arith, k))
after-take (suc (suc n)) (t ∷ u ∷ ts) h k inc =
    let (l, e, i) = last_of-take n u ts in
    let above : str_ltb l t ≡ false =
      str_ltb_asym t l (All-In (λ v. str_ltb t v ≡ true) (u ∷ ts) l inc.0 i) in
    let rest = after-take (suc n) (u ∷ ts) (omega arith) (omega (arith, k)) inc.1 in
    rw (e, above) (subst (λ o. after o (u ∷ ts) ≡ drop (suc n) (u ∷ ts)) e rest)
