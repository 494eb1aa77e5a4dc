-- ===== src/Registry/Dispatch/Guarded.antt =====
-- What the registry checks before a handler runs (src/registry/mod.rs).
use ruskery.Common.{
  ◌≡◌, refl, true, false, ◌&&◌, Option, none, some, Str, arith, Option-cases, Bool-cases, inl, inr,
}
use ruskery.Models.Perm.{Permission}
use ruskery.Db.{Db, Org}
use ruskery.Db.Orgs.{org_is_proxy}
use ruskery.Auth.Token.{Claims, grants}
use ruskery.Registry.Route
use ruskery.Registry.Route.{Op, Parsed, parse_route, valid_repo_name, action}
use ruskery.Registry.Auth.{Decoder, Access, allowed, refused, require, verify_bearer}
use ruskery.Registry.Dispatch.{
  Request, Admitted, admitted, is_push, resolve, admit_to_org, admit_with, admit_parsed, admit,
}

-- Every guard that an admitted request has passed.
pub record Guarded (decode : Decoder) (public_url : Str) (db : Db) (rq : Request) (a : Admitted)
    : Type 0 where
  pub routed : parse_route rq.rest ≡ some (record { name = a.name; op = a.op })
  pub well_named : valid_repo_name a.name ≡ true
  pub needs : Route.required a.op rq.method ≡ some a.required
  pub bearer : verify_bearer decode public_url rq.headers ≡ some a.claims
  pub granted : grants a.claims a.name (action a.required) ≡ true
  pub resolved : resolve db a.name ≡ some (a.org, a.repo_name)
  pub writable : (is_push a.required && org_is_proxy db a.org.id) ≡ false

module _ (decode : Decoder) (public_url : Str) (db : Db) (rq : Request) (a : Admitted) where
  require_lem :
      (name act : Str) (c : Claims)
      → require decode public_url rq.headers name act ≡ allowed c
      → (verify_bearer decode public_url rq.headers ≡ some c) × (grants c name act ≡ true)
  unfolding require
  require_lem name act c h = ground arith

  to_org :
      (name : Str) (op : Op) (required : Permission) (c : Claims) (o : Option (Org × Str))
      → admit_to_org db name op required c o ≡ admitted a
      → (org : Org) × (repo_name : Str) × (o ≡ some (org, repo_name))
        × ((is_push required && org_is_proxy db org.id) ≡ false)
        × (a ≡ record {
          name = name;
          op = op;
          required = required;
          claims = c;
          org = org;
          repo_name = repo_name;
        })
  unfolding admit_to_org
  to_org name op required c none h = absurd (ground arith)
  to_org name op required c (some (org, repo_name)) h =
      elim (Bool-cases (is_push required && org_is_proxy db org.id)) [
        | inl e ↦ absurd (ground arith)
        | inr e ↦ (org, repo_name, refl, e, ground arith)
      ]

  guarded :
      (name : Str) (op : Op) (required : Permission) (access : Access)
      → parse_route rq.rest ≡ some (record { name = name; op = op })
      → valid_repo_name name ≡ true
      → Route.required op rq.method ≡ some required
      → require decode public_url rq.headers name (action required) ≡ access
      → admit_with db name op required access ≡ admitted a
      → Guarded decode public_url db rq a
  unfolding admit_with
  guarded name op required (refused r) routed well needs bearer h = absurd (ground arith)
  guarded name op required (allowed c) routed well needs bearer h =
      let (org, repo_name, resolved, writable, e) = to_org name op required c (resolve db name) h in
      let (verified, granted) = require_lem name (action required) c bearer in
      rw e (record {
        routed = routed;
        well_named = well;
        needs = needs;
        bearer = verified;
        granted = granted;
        resolved = resolved;
        writable = writable;
      })

  -- A request reaches a handler only if its path is a route with a valid repository name, its method
  -- is supported there, its bearer token verifies and grants the action that the method needs on that
  -- repository, the organization exists, and, for a push, is not a pull-through cache.
  pub admit-Guarded : admit decode public_url db rq ≡ admitted a → Guarded decode public_url db rq a
  unfolding admit admit_parsed
  admit-Guarded h = elim (Option-cases (parse_route rq.rest)) [
    | inl e ↦ absurd (ground arith)
    | inr (p, e) ↦ elim (Bool-cases (valid_repo_name p.name)) [
      | inr bad ↦ absurd (ground arith)
      | inl well ↦ elim (Option-cases (Route.required p.op rq.method)) [
        | inl unsupported ↦ absurd (ground arith)
        | inr (required, needs) ↦
            guarded p.name p.op required
              (require decode public_url rq.headers p.name (action required)) e well needs refl
              (ground arith)
      ]
    ]
  ]
