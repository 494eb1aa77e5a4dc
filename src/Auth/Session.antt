-- ===== src/Auth/Session.antt =====
-- src/auth/session.rs: the dashboard's session cookie. Its text is the `cookie` crate's.
use ruskery.Common.{Bool, true, Str, codes, []}
use ruskery.Common.Int.{ℤ, pos}

pub data SameSite : Type 0 where
  strict lax none : SameSite

pub record Cookie : Type 0 where
  pub name : Str
  pub value : Str
  pub http_only : Bool
  pub secure : Bool
  pub same_site : SameSite
  pub path : Str
  pub max_age : ℤ

abbrev pub cookie_name : Str
cookie_name = codes "ruskery_session"

abbrev pub build_cookie : Str → ℤ → Bool → Cookie
build_cookie session_id ttl_secs secure = record {
  name = cookie_name;
  value = session_id;
  http_only = true;
  secure = secure;
  same_site = strict;
  path = codes "/";
  max_age = ttl_secs;
}

abbrev pub clear_cookie : Bool → Cookie
clear_cookie secure = record {
  name = cookie_name;
  value = [];
  http_only = true;
  secure = secure;
  same_site = strict;
  path = codes "/";
  max_age = pos 0;
}
