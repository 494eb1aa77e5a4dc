-- ===== src/Models/Perm.antt =====
-- `Permission` of src/models.rs, with the maximum and the minimum of its derived order.
use ruskery.Common.{
  ℕ, ◌≤◌, ◌≡◌, refl, Bool, true, Option, none, some, Str, codes, str_eq, ◌⊎◌, leb, arith,
  if◌then◌else◌,
}

pub data Permission : Type 0 where
  no_access pull push full : Permission

abbrev pub rank : Permission → ℕ
rank no_access = 0
rank pull = 1
rank push = 2
rank full = 3

-- `p >= q`
abbrev pub ge : Permission → Permission → Bool
ge p q = leb (rank q) (rank p)

-- `p.min(q)`
unfoldable pub min_perm : Permission → Permission → Permission
min_perm p q = if leb (rank p) (rank q) then p else q

-- `p.max(q)`
unfoldable pub max_perm : Permission → Permission → Permission
max_perm p q = if leb (rank p) (rank q) then q else p

unfoldable pub as_str : Permission → Str
as_str no_access = codes "none"
as_str pull = codes "pull"
as_str push = codes "push"
as_str full = codes "admin"

unfoldable pub parse : Str → Option Permission
unfolding str_eq
parse s =
    if str_eq s (codes "none")
    then some no_access
    else if str_eq s (codes "pull")
    then some pull
    else if str_eq s (codes "push")
    then some push
    else if str_eq s (codes "admin")
    then some full
    else none

pub parse-as_str : (p : Permission) → parse (as_str p) ≡ some p
unfolding parse as_str
parse-as_str no_access = refl
parse-as_str pull = refl
parse-as_str push = refl
parse-as_str full = refl

pub ge-min_perm :
    (p q r : Permission) → ge (min_perm p q) r ≡ true → (rank r ≤ rank p) × (rank r ≤ rank q)
unfolding min_perm
ge-min_perm p q r h = ground arith

pub rank-max_perm :
    (p q : Permission) → (rank p ≤ rank (max_perm p q)) × (rank q ≤ rank (max_perm p q))
unfolding max_perm
rank-max_perm p q = ground arith

pub max_perm-cases : (p q : Permission) → (max_perm p q ≡ p) ⊎ (max_perm p q ≡ q)
unfolding max_perm
max_perm-cases p q = ground arith
