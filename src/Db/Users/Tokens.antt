-- ===== src/Db/Users/Tokens.antt =====
-- Creating a personal access token and signing in with it (src/db/users.rs).
use ruskery.Common.{
  ◌≡◌, refl, ◌||◌, Option, none, some, ◌∷◌, Str, codes, str_eq, str_eq_refl, arith, Option-cases,
  Bool-cases, inl, inr, any, if◌then◌else◌, unwrap_or, option_map, ap, ◌∙◌,
}
use ruskery.Models.{User, TokenScope}
use ruskery.Models.Perm
use ruskery.Models.Perm.{full}
use ruskery.Error.{ok}
use ruskery.Db.{Db, AccessToken}
use ruskery.Db.Users.{find_by_id, create_pat, user_for_pat, token_scope}

-- What a scope's columns stand for.
unfoldable pub scope_of : Str → Option Str → Option Str → TokenScope
scope_of kind org_id repo_id =
    if str_eq kind (codes "org")
    then unwrap_or (option_map TokenScope.org org_id) TokenScope.all
    else if str_eq kind (codes "repo")
    then unwrap_or (option_map TokenScope.repo repo_id) TokenScope.all
    else TokenScope.all

module _ (db : Db) (id now plaintext prefix hash user_id name kind : Str)
    (org_id repo_id : Option Str) (max_perm : Str) where
  row : AccessToken
  row = record {
    id = id;
    user_id = user_id;
    name = name;
    token_prefix = prefix;
    token_hash = hash;
    last_used_at = none;
    expires_at = none;
    created_at = now;
    scope_kind = kind;
    scope_org_id = org_id;
    scope_repo_id = repo_id;
    max_perm = max_perm;
  }

  with_row : Db
  with_row = record db { access_tokens = row ∷ db.access_tokens }

  create_pat_row :
      (made : Str × Db)
      → create_pat db id now (plaintext, prefix, hash) user_id name kind org_id repo_id max_perm
        ≡ ok made
      → (owner : User) × (find_by_id db user_id ≡ some owner) × (made.1 ≡ with_row)
  unfolding create_pat row with_row
  create_pat_row made h =
      elim (Bool-cases
        (any (λ (t : AccessToken). str_eq t.id id || str_eq t.token_hash hash) db.access_tokens)) [
          | inl t ↦ absurd (ground (arith, h, t))
          | inr t ↦ elim (Option-cases (find_by_id db user_id)) [
            | inl n ↦ absurd (ground (arith, h, t, n))
            | inr (owner, e) ↦ (owner, e, ground (arith, h, t, e))
          ]
        ]

  user_for_pat_row :
      (owner : User) (later : Str)
      → find_by_id db user_id ≡ some owner
      → (user_for_pat with_row later hash).0
        ≡ some (owner, scope_of kind org_id repo_id, unwrap_or (Perm.parse max_perm) full)
  unfolding user_for_pat token_scope scope_of row with_row find_by_id
  user_for_pat_row owner later e = rw (user_for_pat, str_eq_refl hash, e) refl

pub user_for_pat-create_pat :
    (db : Db) (id now : Str) (generated : Str × Str × Str) (user_id name kind : Str)
    (org_id repo_id : Option Str) (max_perm : Str) (made : Str × Db) (later : Str)
    → create_pat db id now generated user_id name kind org_id repo_id max_perm ≡ ok made
    → (owner : User) × (find_by_id db user_id ≡ some owner)
      × ((user_for_pat made.1 later generated.2).0
          ≡ some (owner, scope_of kind org_id repo_id, unwrap_or (Perm.parse max_perm) full))
user_for_pat-create_pat db id now (plaintext, prefix, hash) user_id name kind org_id repo_id
      max_perm made later h =
    let (owner, e, same) =
      create_pat_row db id now plaintext prefix hash user_id name kind org_id repo_id max_perm made
        h in
    (
      owner,
      e,
      ap (λ d. (user_for_pat d later hash).0) same
          ∙ user_for_pat_row db id now plaintext prefix hash user_id name kind org_id repo_id
              max_perm owner later e,
    )
