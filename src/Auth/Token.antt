-- ===== src/Auth/Token.antt =====
-- The claims of src/auth/token.rs. Signing and checking a token are the `jsonwebtoken` crate's.
use ruskery.Common.{Bool, ◌&&◌, Option, none, some, List, Str, codes, str_eq, any}
use ruskery.Common.Int.{ℤ, ◌+ℤ◌}

pub record AccessEntry : Type 0 where
  pub kind : Str
  pub name : Str
  pub actions : List Str

pub record ScopeClaim : Type 0 where
  pub kind : Str
  pub id : Option Str

unfoldable pub scope_claim_all : ScopeClaim
scope_claim_all = record { kind = codes "all"; id = none }

unfoldable pub scope_claim_org : Str → ScopeClaim
scope_claim_org id = record { kind = codes "org"; id = some id }

unfoldable pub scope_claim_repo : Str → ScopeClaim
scope_claim_repo id = record { kind = codes "repo"; id = some id }

pub record Claims : Type 0 where
  pub sub : Str
  pub iss : Str
  pub aud : Str
  pub iat : ℤ
  pub exp : ℤ
  pub jti : Str
  pub access : List AccessEntry
  pub scope : ScopeClaim

unfoldable pub grants : Claims → Str → Str → Bool
grants claims name action =
    any
      (λ a.
        str_eq a.kind (codes "repository")
        && (str_eq a.name name && any (λ x. str_eq x action) a.actions))
      claims.access

-- The claims that `issue` signs, at the time `now` and with the identifier `jti`.
unfoldable pub issued_claims : ℤ → Str → Str → Str → List AccessEntry → ScopeClaim → ℤ → Claims
issued_claims now jti user_id service access scope ttl_secs = record {
  sub = user_id;
  iss = codes "ruskery";
  aud = service;
  iat = now;
  exp = now +ℤ ttl_secs;
  jti = jti;
  access = access;
  scope = scope;
}
