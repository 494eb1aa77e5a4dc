-- ===== src/Api/Handle/Checked/All.antt =====
-- The handlers of src/api/mod.rs that only read, those on accounts, tokens and new organizations, and
-- all of them together.
use ruskery.Common.{
  ◌≡◌, refl, sym, ◌∙◌, ap, Bool, true, not, ◌&&◌, Option, none, some, ◌∷◌, Str, str_eq, str_eq_iff,
  str_eq_refl, arith, inl, inr, In, In-filter, In-filter_of, is_some, subst, ltb, length,
}
use ruskery.Models.{User}
use ruskery.Models.Role.{owner}
use ruskery.Error.{forbidden, ok, guard, >>=-ok, >>-ok, guard-ok}
use ruskery.Db.{Db, Org, AccessToken}
use ruskery.Db.Orgs
use ruskery.Db.Orgs.{find_org_by_slug, org_role, put_member, add_org_member, find_repo}
use ruskery.Db.Orgs.Memberships.{org_role-put_member, add_org_member-ok}
use ruskery.Db.Orgs.Teams.{find_team}
use ruskery.Db.Users.{create, create_pat, delete_pat}
use ruskery.Api.{Shown, done, created_org, created_user, token, Handled, Env}
use ruskery.Api.Guards.{ok_or, member_of, admin_of, valid_slug}
use ruskery.Api.Orgs.{list_audit, list_all_orgs, create_org, get_org, list_repos, get_repo}
use ruskery.Api.Members.{list_members}
use ruskery.Api.Teams.{list_teams, team_members, show_team_perms}
use ruskery.Api.Accounts.{
  list_users, create_user, token_scope, max_perm_of, create_token, delete_token,
}
use ruskery.Api.Handle.{Call, handle}
use ruskery.Api.Handle.Checked.{
  Permitted, unchanged, by_instance_admin, founded, own_tokens, after_ok, role_from,
}
use ruskery.Api.Handle.Checked.Steps

create_org_made :
    (db : Db) (id now slug name : Str) (made : Org × Db)
    → Orgs.create_org db id now slug name ≡ ok made
    → (made.0.slug ≡ slug)
      × (made.1.orgs ≡ made.0 ∷ db.orgs)
      × (made.1 ≡ record db { orgs = made.0 ∷ db.orgs })
unfolding Orgs.create_org
create_org_made db id now slug name made h =
    (ground (arith, h), ground (arith, h), ground (arith, h))

not_some {ℓ} : {A : Type ℓ} (o : Option A) → not (is_some o) ≡ true → o ≡ none
not_some none h = refl
not_some (some a) h = absurd (ground arith)

-- A new token stands first, and is the user's.
create_pat_made :
    (db : Db) (id now : Str) (generated : Str × Str × Str) (user_id name kind : Str)
    (org_id repo_id : Option Str) (max_perm : Str) (made : Str × Db)
    → create_pat db id now generated user_id name kind org_id repo_id max_perm ≡ ok made
    → (row : AccessToken) × (row.user_id ≡ user_id)
      × (made.1 ≡ record db { access_tokens = row ∷ db.access_tokens })
unfolding create_pat
create_pat_made db id now (plaintext, prefix, hash) user_id name kind org_id repo_id max_perm made
      h =
    let row : AccessToken = record {
      id = id;
      user_id = user_id;
      name = name;
      token_prefix = prefix;
      token_hash = hash;
      last_used_at = none;
      expires_at = none;
      created_at = now;
      scope_kind = kind;
      scope_org_id = org_id;
      scope_repo_id = repo_id;
      max_perm = max_perm;
    } in
    (row, refl, ground (arith, h))

same_roles :
    (before after : Db)
    → after.org_members ≡ before.org_members
    → (org_id user_id : Str) → org_role after org_id user_id ≡ org_role before org_id user_id
unfolding org_role
same_roles before after e org_id user_id = ap (λ ms. role_from ms org_id user_id) e

module _ (user : User) (db db' : Db) (v : Shown) where
  create_user-Permitted :
      (env : Env) (email username password : Str) (is_admin : Bool)
      → create_user env user email username password is_admin db ≡ ok (v, db')
      → Permitted user db db'
  unfolding create_user create
  create_user-Permitted env email username password is_admin h =
      let (g, k) = >>-ok (guard user.is_admin forbidden) _ (v, db') h in
      let (g', k') = >>-ok (guard (not (ltb (length password) 8)) _) _ (v, db') k in
      let (hash, e, k2) = >>=-ok (env.hash_password password) _ (v, db') k' in
      let (made, c, k3) =
        >>=-ok (create db env.id env.now email username hash is_admin) _ (v, db') k2 in
      rw (after_ok made.1 db' (created_user made.0) v k3)
        (by_instance_admin (guard-ok user.is_admin forbidden g) made.0 (ground (arith, c)))

  create_org-Permitted :
      (env : Env) (slug name : Str)
      → create_org env user slug name db ≡ ok (v, db')
      → Permitted user db db'
  unfolding create_org put_member
  create_org-Permitted env slug name h =
      let (g, k) = >>-ok (guard (valid_slug slug) _) _ (v, db') h in
      let (g', k') = >>-ok (guard (not (is_some (find_org_by_slug db slug))) _) _ (v, db') k in
      let (made, c, k2) = >>=-ok (Orgs.create_org db env.id env.now slug name) _ (v, db') k' in
      let (joined, j, k3) = >>=-ok (add_org_member made.1 made.0.id user.id owner) _ (v, db') k2 in
      let (same_slug, listed, same) = create_org_made db env.id env.now slug name made c in
      let reset : Db → Db = λ d. record d { orgs = db.orgs; org_members = db.org_members } in
      let members : made.1.org_members ≡ db.org_members = ap (λ d. d.org_members) same in
      rw
        (after_ok joined db' (created_org made.0) v k3
          ∙ (add_org_member-ok made.1 made.0.id user.id owner joined j).1)
        (founded made.0
          (ap (find_org_by_slug db) same_slug
            ∙ not_some (find_org_by_slug db slug)
                (guard-ok (not (is_some (find_org_by_slug db slug))) _ g'))
          listed
          (rw (
            org_role-put_member made.1 made.0.id user.id owner made.0.id user.id,
            str_eq_refl made.0.id,
            str_eq_refl user.id,
          ))
          (λ other_org other h.
            org_role-put_member made.1 made.0.id user.id owner other_org other
            ∙ (ground (arith, str_eq_iff made.0.id other_org, h)
                ∙ same_roles db made.1 members other_org other))
          (ap reset same))

  create_token-Permitted :
      (env : Env) (name : Str) (org repo permission : Option Str)
      → create_token env user name org repo permission db ≡ ok (v, db')
      → Permitted user db db'
  unfolding create_token
  create_token-Permitted env name org repo permission h =
      let (scope, s, k) = >>=-ok (token_scope user org repo db) _ (v, db') h in
      let (max_perm, m, k') = >>=-ok (max_perm_of permission) _ (v, db') k in
      let (made, c, k2) =
        >>=-ok
          (create_pat db env.id env.now env.generated user.id name scope.kind scope.org_id
            scope.repo_id max_perm)
          _ (v, db') k' in
      let reset : Db → Db = λ d. record d { access_tokens = db.access_tokens } in
      let (row, mine, same) =
        create_pat_made db env.id env.now env.generated user.id name scope.kind scope.org_id
          scope.repo_id max_perm made c in
      rw (after_ok made.1 db' (token made.0 user.username) v k2) (
        own_tokens (ap reset same) (λ t other. (
          λ i. elim (subst (In t) (ap (λ d. d.access_tokens) same) i) [
            | inl e ↦ absurd (other (ap (λ x. x.user_id) e ∙ mine))
            | inr j ↦ j
          ],
          λ i. subst (In t) (sym (ap (λ d. d.access_tokens) same)) (inr i),
        )))

  delete_token-Permitted :
      (id : Str) → delete_token user id db ≡ ok (v, db') → Permitted user db db'
  unfolding delete_token delete_pat
  delete_token-Permitted id h =
      let mine : AccessToken → Bool = λ t. not (str_eq t.user_id user.id && str_eq t.id id) in
      rw (after_ok (delete_pat db user.id id) db' done v h) (
        own_tokens refl (λ t other. (
          λ i. (In-filter mine t db.access_tokens i).0,
          λ i.
              In-filter_of mine t db.access_tokens i
                (ground (arith, str_eq_iff t.user_id user.id, other)),
        )))

  list_users-Permitted : list_users user db ≡ ok (v, db') → Permitted user db db'
  unfolding list_users
  list_users-Permitted h =
      let (g, k) = >>-ok (guard user.is_admin forbidden) _ (v, db') h in
      unchanged (after_ok db db' _ v k)

  list_all_orgs-Permitted : list_all_orgs user db ≡ ok (v, db') → Permitted user db db'
  unfolding list_all_orgs
  list_all_orgs-Permitted h =
      let (g, k) = >>-ok (guard user.is_admin forbidden) _ (v, db') h in
      unchanged (after_ok db db' _ v k)

  module _ (slug : Str) where
    get_org-Permitted : get_org user slug db ≡ ok (v, db') → Permitted user db db'
    unfolding get_org
    get_org-Permitted h =
        let (found, a, k) = >>=-ok (member_of db user.id slug) _ (v, db') h in
        unchanged (after_ok db db' _ v k)

    list_repos-Permitted : list_repos user slug db ≡ ok (v, db') → Permitted user db db'
    unfolding list_repos
    list_repos-Permitted h =
        let (found, a, k) = >>=-ok (member_of db user.id slug) _ (v, db') h in
        unchanged (after_ok db db' _ v k)

    list_members-Permitted : list_members user slug db ≡ ok (v, db') → Permitted user db db'
    unfolding list_members
    list_members-Permitted h =
        let (found, a, k) = >>=-ok (member_of db user.id slug) _ (v, db') h in
        unchanged (after_ok db db' _ v k)

    list_teams-Permitted : list_teams user slug db ≡ ok (v, db') → Permitted user db db'
    unfolding list_teams
    list_teams-Permitted h =
        let (found, a, k) = >>=-ok (member_of db user.id slug) _ (v, db') h in
        unchanged (after_ok db db' _ v k)

    get_repo-Permitted :
        (env : Env) (name : Str)
        → get_repo env user slug name db ≡ ok (v, db')
        → Permitted user db db'
    unfolding get_repo
    get_repo-Permitted env name h =
        let (found, a, k) = >>=-ok (member_of db user.id slug) _ (v, db') h in
        let (repo, r, k') = >>=-ok (ok_or (find_repo db found.0.id name) _) _ (v, db') k in
        unchanged (after_ok db db' _ v k')

    team_members-Permitted :
        (team : Str) → team_members user slug team db ≡ ok (v, db') → Permitted user db db'
    unfolding team_members
    team_members-Permitted team h =
        let (found, a, k) = >>=-ok (member_of db user.id slug) _ (v, db') h in
        let (t, r, k') = >>=-ok (ok_or (find_team db found.0.id team) _) _ (v, db') k in
        unchanged (after_ok db db' _ v k')

    list_audit-Permitted : list_audit user slug db ≡ ok (v, db') → Permitted user db db'
    unfolding list_audit
    list_audit-Permitted h =
        let (found, a, k) = >>=-ok (admin_of db user.id slug) _ (v, db') h in
        unchanged (after_ok db db' _ v k)

    show_team_perms-Permitted :
        (team : Str) → show_team_perms user slug team db ≡ ok (v, db') → Permitted user db db'
    unfolding show_team_perms
    show_team_perms-Permitted team h =
        let (found, a, k) = >>=-ok (member_of db user.id slug) _ (v, db') h in
        let (t, r, k') = >>=-ok (ok_or (find_team db found.0.id team) _) _ (v, db') k in
        unchanged (after_ok db db' _ v k')

-- What a request that succeeds may have changed: nothing; what belongs to one organization that the
-- user is an admin or owner of, and then no row of any table that is not the organization's own or of
-- one of its repositories or teams; one new account, by an instance admin; one new organization that
-- the user then owns; or the user's own tokens.
pub handle-Permitted :
    (env : Env) (user : User) (call : Call) (db db' : Db) (v : Shown)
    → handle env user call db ≡ ok (v, db')
    → Permitted user db db'
unfolding handle ruskery.Api.Orgs.list_orgs ruskery.Api.Accounts.list_tokens
handle-Permitted env user Call.list_users db db' v h = list_users-Permitted user db db' v h
handle-Permitted env user Call.list_orgs db db' v h = unchanged (after_ok db db' _ v h)
handle-Permitted env user Call.list_tokens db db' v h = unchanged (after_ok db db' _ v h)
handle-Permitted env user Call.list_all_orgs db db' v h = list_all_orgs-Permitted user db db' v h
handle-Permitted env user (Call.create_user email username password is_admin) db db' v h =
    create_user-Permitted user db db' v env email username password is_admin h
handle-Permitted env user (Call.create_org slug name) db db' v h =
    create_org-Permitted user db db' v env slug name h
handle-Permitted env user (Call.get_org slug) db db' v h = get_org-Permitted user db db' v slug h
handle-Permitted env user (Call.list_audit slug) db db' v h =
    list_audit-Permitted user db db' v slug h
handle-Permitted env user (Call.list_repos slug) db db' v h =
    list_repos-Permitted user db db' v slug h
handle-Permitted env user (Call.list_members slug) db db' v h =
    list_members-Permitted user db db' v slug h
handle-Permitted env user (Call.list_teams slug) db db' v h =
    list_teams-Permitted user db db' v slug h
handle-Permitted env user (Call.create_repo slug name) db db' v h =
    Steps.create_repo-Permitted user db db' v env slug name h
handle-Permitted env user (Call.get_repo slug name) db db' v h =
    get_repo-Permitted user db db' v slug env name h
handle-Permitted env user (Call.delete_repo slug name) db db' v h =
    Steps.delete_repo-Permitted user db db' v env slug name h
handle-Permitted env user (Call.add_member slug login role) db db' v h =
    Steps.add_member-Permitted user db db' v env slug login role h
handle-Permitted env user (Call.set_role slug user_id role) db db' v h =
    Steps.set_role-Permitted user db db' v slug user_id role h
handle-Permitted env user (Call.remove_member slug user_id) db db' v h =
    Steps.remove_member-Permitted user db db' v env slug user_id h
handle-Permitted env user (Call.create_team slug team name) db db' v h =
    Steps.create_team-Permitted user db db' v env slug team name h
handle-Permitted env user (Call.team_members slug team) db db' v h =
    team_members-Permitted user db db' v slug team h
handle-Permitted env user (Call.team_perms slug team) db db' v h =
    show_team_perms-Permitted user db db' v slug team h
handle-Permitted env user (Call.add_team_member slug team login role) db db' v h =
    Steps.add_team_member-Permitted user db db' v slug team login role h
handle-Permitted env user (Call.remove_team_member slug team user_id) db db' v h =
    Steps.remove_team_member-Permitted user db db' v slug team user_id h
handle-Permitted env user (Call.set_team_perm slug team repo permission) db db' v h =
    Steps.set_team_perm-Permitted user db db' v slug team repo permission h
handle-Permitted env user (Call.create_token name org repo permission) db db' v h =
    create_token-Permitted user db db' v env name org repo permission h
handle-Permitted env user (Call.delete_token id) db db' v h =
    delete_token-Permitted user db db' v id h
