-- ===== src/Db/Users.antt =====
-- src/db/users.rs: accounts, dashboard sessions and personal access tokens.
pub mod Logins
pub mod Tokens
use ruskery.Common.{
  ℕ, ◌++◌, Bool, true, not, ◌&&◌, ◌||◌, Option, none, some, List, [], ◌∷◌, map, Str, codes, str_eq,
  str_ltb, lower, if◌then◌else◌, any, filter, find_row, and_then, option_map, unwrap_or, is_some,
  length, sort_by,
}
use ruskery.Models.{User, TokenScope}
use ruskery.Models.Perm.{Permission, full}
use ruskery.Models.Perm
use ruskery.Error.{Result, ok, err, database}
use ruskery.Db.{Db, Org, Repository, Session, AccessToken}

unfoldable pub count : Db → ℕ
count db = length db.users

unfoldable pub list_all : Db → List User
unfolding sort_by
list_all db = sort_by (λ (a b : User). str_ltb a.username b.username) db.users

unfoldable pub find_by_id : Db → Str → Option User
find_by_id db id = find_row (λ u. str_eq u.id id) db.users

-- The indexes on the two columns are separate, and nothing orders the rows: if the e-mail address of
-- one account is the user name of another, the database may give either, and this gives the first.
unfoldable pub find_by_login : Db → Str → Option User
find_by_login db login =
    find_row (λ u. str_eq (lower u.email) (lower login) || str_eq (lower u.username) (lower login))
      db.users

-- The primary key and the unique indexes on the lower case of the e-mail address and the user name.
abbrev taken : User → List User → Bool
taken u = any (λ v.
    str_eq v.id u.id
    || str_eq (lower v.email) (lower u.email)
    || str_eq (lower v.username) (lower u.username))

-- `INSERT … WHERE (SELECT COUNT(*) FROM users) = 0`
unfoldable pub create_first_admin : Db → Str → Str → Str → Str → Str → Option User × Db
create_first_admin db id now email username password_hash = elim db.users [
  | u ∷ us ↦ (none, db)
  | [] ↦
      let u : User = record {
        id = id;
        email = email;
        username = username;
        password_hash = password_hash;
        is_admin = true;
        created_at = now;
      } in
      (some u, record db { users = u ∷ [] })
]

unfoldable pub create : Db → Str → Str → Str → Str → Str → Bool → Result (User × Db)
create db id now email username password_hash is_admin =
    let u : User = record {
      id = id;
      email = email;
      username = username;
      password_hash = password_hash;
      is_admin = is_admin;
      created_at = now;
    } in
    if taken u db.users then err database else ok (u, record db { users = u ∷ db.users })

-- The time of expiry is the caller's `rfc3339_in(ttl_secs)`.
unfoldable pub create_session : Db → Str → Str → Str → Str → Result (Str × Db)
create_session db id now expires_at user_id =
    if any (λ (s : Session). str_eq s.id id) db.sessions || not (is_some (find_by_id db user_id))
    then err database
    else ok (
      id,
      record db {
        sessions =
            record { id = id; user_id = user_id; created_at = now; expires_at = expires_at }
            ∷ db.sessions;
      },
    )

-- The join of `users` with one row of another table; `users.id` is a primary key.
unfoldable pub user_for_session : Db → Str → Str → Option User
unfolding find_by_id
user_for_session db now session_id =
    and_then (find_row (λ s. str_eq s.id session_id && str_ltb now s.expires_at) db.sessions)
      (λ s. find_by_id db s.user_id)

unfoldable pub delete_session : Db → Str → Db
delete_session db session_id = record db {
  sessions = filter (λ s. not (str_eq s.id session_id)) db.sessions;
}

-- A fresh token's plaintext, prefix and hash are the caller's `pat::generate()`.
unfoldable pub create_pat :
    Db
    → Str
    → Str
    → Str × Str × Str
    → Str
    → Str
    → Str
    → Option Str
    → Option Str
    → Str
    → Result (Str × Db)
create_pat db id now (plaintext, prefix, hash) user_id name scope_kind org_id repo_id max_perm =
    let row : AccessToken = record {
      id = id;
      user_id = user_id;
      name = name;
      token_prefix = prefix;
      token_hash = hash;
      last_used_at = none;
      expires_at = none;
      created_at = now;
      scope_kind = scope_kind;
      scope_org_id = org_id;
      scope_repo_id = repo_id;
      max_perm = max_perm;
    } in
    if any (λ (t : AccessToken). str_eq t.id id || str_eq t.token_hash hash) db.access_tokens
    then err database
    else if is_some (find_by_id db user_id)
    then ok (plaintext, record db { access_tokens = row ∷ db.access_tokens })
    else err database

unfoldable pub delete_pat : Db → Str → Str → Db
delete_pat db user_id id = record db {
  access_tokens = filter (λ t. not (str_eq t.user_id user_id && str_eq t.id id)) db.access_tokens;
}

abbrev unexpired : Str → Option Str → Bool
unexpired now none = true
unexpired now (some at) = str_ltb now at

token_scope : AccessToken → TokenScope
token_scope t =
    if str_eq t.scope_kind (codes "org")
    then unwrap_or (option_map TokenScope.org t.scope_org_id) TokenScope.all
    else if str_eq t.scope_kind (codes "repo")
    then unwrap_or (option_map TokenScope.repo t.scope_repo_id) TokenScope.all
    else TokenScope.all

touch_token : Str → Str → List AccessToken → List AccessToken
touch_token now hash =
    map (λ t. if str_eq t.token_hash hash then record t { last_used_at = some now } else t)

-- `hash` is `pat::hash(plaintext)`.
unfoldable pub user_for_pat : Db → Str → Str → Option (User × TokenScope × Permission) × Db
unfolding token_scope touch_token
user_for_pat db now hash =
    let row : Option (User × AccessToken) =
      and_then
        (find_row (λ t. str_eq t.token_hash hash && unexpired now t.expires_at) db.access_tokens)
        (λ t. option_map (λ u. (u, t)) (find_by_id db t.user_id)) in
    elim row [
      | none ↦ (none, db)
      | some (user, t) ↦ (
        some (user, token_scope t, unwrap_or (Perm.parse t.max_perm) full),
        record db { access_tokens = touch_token now hash db.access_tokens },
      )
    ]

pub record PatRow : Type 0 where
  pub id : Str
  pub name : Str
  pub token_prefix : Str
  pub last_used_at : Option Str
  pub created_at : Str
  pub scope : Str
  pub max_perm : Str

-- The joins of a token's scope; what an identifier refers to is found by its primary key.
abbrev slug_of : Db → Str → Option Str
slug_of db org_id =
    option_map (λ (o : Org). o.slug) (find_row (λ (o : Org). str_eq o.id org_id) db.orgs)

abbrev full_name : Db → Str → Option Str
full_name db repo_id =
    and_then (find_row (λ (r : Repository). str_eq r.id repo_id) db.repositories)
      (λ r. option_map (λ slug. slug ++ (codes "/" ++ r.name)) (slug_of db r.org_id))

abbrev scope_text : Db → AccessToken → Str
scope_text db t =
    if str_eq t.scope_kind (codes "org")
    then unwrap_or (and_then t.scope_org_id (slug_of db)) (codes "all")
    else if str_eq t.scope_kind (codes "repo")
    then unwrap_or (and_then t.scope_repo_id (full_name db)) (codes "all")
    else codes "all"

-- `ORDER BY p.created_at DESC`
unfoldable pub list_pats : Db → Str → List PatRow
unfolding sort_by
list_pats db user_id =
    map
      (λ (t : AccessToken). record {
        id = t.id;
        name = t.name;
        token_prefix = t.token_prefix;
        last_used_at = t.last_used_at;
        created_at = t.created_at;
        scope = scope_text db t;
        max_perm = t.max_perm;
      })
      (sort_by (λ (a b : AccessToken). str_ltb b.created_at a.created_at)
        (filter (λ (t : AccessToken). str_eq t.user_id user_id) db.access_tokens))
