-- ===== src/Api/Guards.antt =====
-- The checks of src/api/mod.rs that its handlers share.
use ruskery.Common.{
  ℕ, Bool, not, ◌&&◌, ◌||◌, Option, none, some, [], ◌∷◌, Str, codes, str_eq, leb, ◌==◌, all, length,
  split, starts_with, strip_suffix, is_some, find, unwrap_or, option_map, trim_end_slashes,
}
use ruskery.Models.Role
use ruskery.Models.Role.{OrgRole, admin}
use ruskery.Error.{Error, not_found, forbidden, Result, ok, err, guard, ◌>>=◌, ◌>>◌}
use ruskery.Db.{Db, Org}
use ruskery.Db.Orgs.{find_org_by_slug, org_role}

-- `ok_or`
abbrev pub ok_or {ℓ} : {A : Type ℓ} → Option A → Error → Result A
ok_or none e = err e
ok_or (some a) e = ok a

abbrev is_slug_char : ℕ → Bool
is_slug_char c = (leb b'a' c && leb c b'z') || ((leb b'0' c && leb c b'9') || c == b'-')

unfoldable pub valid_slug : Str → Bool
valid_slug s =
    not (str_eq s [])
    && (leb (length s) 40
        && (all is_slug_char s
            && (not (starts_with (codes "-") s)
                && (not (is_some (strip_suffix (codes "-") s))
                    && not (str_eq s (codes "_catalog"))))))

abbrev is_name_char : ℕ → Bool
is_name_char c =
    (leb b'a' c && leb c b'z')
    || ((leb b'0' c && leb c b'9') || (c == b'.' || (c == b'_' || c == b'-')))

abbrev valid_component : Str → Bool
valid_component s =
    not (str_eq s [])
    && (not (str_eq s (codes ".")) && (not (str_eq s (codes "..")) && all is_name_char s))

unfoldable pub valid_repo_name : Str → Bool
valid_repo_name name =
    not (str_eq name []) && (leb (length name) 255 && all valid_component (split b'/' name))

-- The organization and the role of a user who belongs to it.
unfoldable pub member_of : Db → Str → Str → Result (Org × OrgRole)
member_of db user_id slug = do
  org ← ok_or (find_org_by_slug db slug) not_found
  role ← ok_or (org_role db org.id user_id) forbidden
  ok (org, role)

unfoldable pub admin_of : Db → Str → Str → Result (Org × OrgRole)
unfolding member_of
admin_of db user_id slug = do
  (org, role) ← member_of db user_id slug
  guard (Role.ge role admin) forbidden
  ok (org, role)

unfoldable pub pull_host : Str → Str
pull_host [] = codes "registry.example.com"
pull_host (c ∷ url) =
    let rest =
      unwrap_or
        (option_map (λ p. unwrap_or (option_map (λ q. q.0) (find (codes "://") p.1)) p.1)
          (find (codes "://") (c ∷ url)))
        (c ∷ url) in
    trim_end_slashes rest
