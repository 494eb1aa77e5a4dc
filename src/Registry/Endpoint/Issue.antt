-- ===== src/Registry/Endpoint/Issue.antt =====
-- What an issued token grants.
use ruskery.Common.{
  ◌≡◌, refl, ◌↔◌, true, some, Str, codes, str_eq, str_eq_iff, str_eq_refl, arith, subst, sym, ◌∙◌,
  any-In, any_of-In, In, In-filter_map, In-filter_map_of,
}
use ruskery.Common.Int.{ℤ}
use ruskery.Models.{User, TokenScope}
use ruskery.Models.Perm.{Permission}
use ruskery.Db.{Db}
use ruskery.Auth.Scope.{Scope, parse_scopes}
use ruskery.Auth.Token.{AccessEntry, Claims, grants, issued_claims}
use ruskery.Auth.Rbac.{grant_repository}
use ruskery.Auth.Rbac.Grants.{Grant, grant_repository-Grant}
use ruskery.Registry.Endpoint.{Moment, access_entry, access_entries, claims_for}

module _ (db : Db) (user_id : Str) (scope : TokenScope) (cap : Permission) where
  access_entry_lem :
      (s : Scope) (e : AccessEntry)
      → access_entry db user_id scope cap s ≡ some e
      → (s.kind ≡ codes "repository")
        × (e.name ≡ s.name)
        × (e.actions ≡ grant_repository db user_id s.name s.actions scope cap)
  unfolding access_entry
  access_entry_lem s e h = ground (arith, str_eq_iff s.kind (codes "repository"))

  access_entry_of :
      (s : Scope) (action : Str)
      → s.kind ≡ codes "repository"
      → In action (grant_repository db user_id s.name s.actions scope cap)
      → (e : AccessEntry) × (access_entry db user_id scope cap s ≡ some e)
        × (e.kind ≡ codes "repository")
        × (e.name ≡ s.name)
        × In action e.actions
  unfolding access_entry
  access_entry_of s action k i = (
    record {
      kind = codes "repository";
      name = s.name;
      actions = grant_repository db user_id s.name s.actions scope cap;
    },
    ground (arith, str_eq_iff s.kind (codes "repository")),
    refl,
    refl,
    i,
  )

-- A requested scope for the repository, with the action in it, and the grant that it leads to.
pub record Asked (db : Db) (user : User) (scope : TokenScope) (cap : Permission)
    (query name action : Str) : Type 0 where
  pub asked : Scope
  pub listed : In asked (parse_scopes query)
  pub kind : asked.kind ≡ codes "repository"
  pub same_name : asked.name ≡ name
  pub requested : In action asked.actions
  pub grant : Grant db user.id name scope cap action

module _ (at : Moment) (db : Db) (user : User) (scope : TokenScope) (cap : Permission)
    (service query : Str) (ttl : ℤ) (name action : Str) where
  claims : Claims
  claims = claims_for at db user scope cap service query ttl

  Asked-grants : grants claims name action ≡ true → Asked db user scope cap query name action
  unfolding claims claims_for issued_claims grants access_entries
  Asked-grants h =
      let (e, i, t) = any-In _ _ h in
      let (s, j, f) = In-filter_map (access_entry db user.id scope cap) e (parse_scopes query) i in
      let (k, n, a) = access_entry_lem db user.id scope cap s e f in
      let named : e.name ≡ name = ground (arith, str_eq_iff e.name name) in
      let (x, m, q) = any-In (λ x. str_eq x action) e.actions (ground arith) in
      let same : x ≡ action = (str_eq_iff x action).0 q in
      let granted : In action (grant_repository db user.id s.name s.actions scope cap) =
        rw (← a) (subst (λ y. In y e.actions) same m) in
      let (r, g) =
        (grant_repository-Grant db user.id s.name s.actions scope cap action).0 granted in
      let to : s.name ≡ name = sym n ∙ named in
      record {
        asked = s;
        listed = j;
        kind = k;
        same_name = to;
        requested = r;
        grant = subst (λ y. Grant db user.id y scope cap action) to g;
      }

  grants-Asked : Asked db user scope cap query name action → grants claims name action ≡ true
  unfolding claims claims_for issued_claims grants access_entries
  grants-Asked a =
      let s = a.asked in
      let g = subst (λ y. Grant db user.id y scope cap action) (sym a.same_name) a.grant in
      let granted =
        (grant_repository-Grant db user.id s.name s.actions scope cap action).1 (a.requested, g) in
      let (e, f, k, n, i) = access_entry_of db user.id scope cap s action a.kind granted in
      any_of-In _ e _ (In-filter_map_of (access_entry db user.id scope cap) e s _ a.listed f) (
        ground (
          arith,
          str_eq_iff e.kind (codes "repository"),
          str_eq_iff e.name name,
          a.same_name,
          any_of-In (λ x. str_eq x action) action e.actions i (str_eq_refl action),
        ))

  -- A token issued for a user grants an action on a repository exactly when the query asks for it by
  -- a scope of kind `repository`, and the grant is rightful in the database at that time.
  pub claims_for-Asked :
      (grants (claims_for at db user scope cap service query ttl) name action ≡ true)
      ↔ Asked db user scope cap query name action
  unfolding claims
  claims_for-Asked = (Asked-grants, grants-Asked)
