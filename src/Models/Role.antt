-- ===== src/Models/Role.antt =====
-- `OrgRole` of src/models.rs.
use ruskery.Common.{ℕ, ◌≡◌, refl, Bool, Option, none, some, Str, codes, str_eq, leb, if◌then◌else◌}

pub data OrgRole : Type 0 where
  member admin owner : OrgRole

abbrev pub rank : OrgRole → ℕ
rank member = 0
rank admin = 1
rank owner = 2

-- `r >= q`
abbrev pub ge : OrgRole → OrgRole → Bool
ge r q = leb (rank q) (rank r)

unfoldable pub as_str : OrgRole → Str
as_str member = codes "member"
as_str admin = codes "admin"
as_str owner = codes "owner"

unfoldable pub parse : Str → Option OrgRole
unfolding str_eq
parse s =
    if str_eq s (codes "member")
    then some member
    else if str_eq s (codes "admin")
    then some admin
    else if str_eq s (codes "owner")
    then some owner
    else none

-- A role that is written to the database is read back.
pub parse-as_str : (r : OrgRole) → parse (as_str r) ≡ some r
unfolding parse as_str
parse-as_str member = refl
parse-as_str admin = refl
parse-as_str owner = refl
