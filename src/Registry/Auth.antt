-- ===== src/Registry/Auth.antt =====
-- src/registry/auth.rs: the base URL and the service name, the Bearer challenge, and the check of a
-- request's token. `Decoder` stands for the `jsonwebtoken` crate: the claims of a token whose
-- signature, expiry, issuer and audience hold for the secret and the service.
use ruskery.Common.{
  ◌++◌, Option, none, some, [], ◌∷◌, Str, codes, find, trim_end_slashes, if◌then◌else◌, unwrap_or,
  and_then, option_map,
}
use ruskery.Error.{Response, oci_errors, oci_detail}
use ruskery.Auth.Header.{parse_bearer}
use ruskery.Auth.Token.{Claims, grants}

-- The request headers that the handlers read, each `none` if absent or not text.
pub record Headers : Type 0 where
  pub host : Option Str
  pub forwarded_proto : Option Str
  pub authorization : Option Str
  pub content_type : Option Str

abbrev pub Decoder : Type 0
Decoder = Str → Str → Option Claims

-- `public_url` is the instance's configured URL, empty if there is none.
unfoldable pub base_url : Str → Headers → Str
base_url [] h =
    unwrap_or h.forwarded_proto (codes "http")
    ++ (codes "://" ++ unwrap_or h.host (codes "localhost"))
base_url (c ∷ s) h = trim_end_slashes (c ∷ s)

-- `split("://").nth(1)`: from the first separator to the next, or to the end.
abbrev between : Str → Str
between rest = unwrap_or (option_map (λ p. p.0) (find (codes "://") rest)) rest

unfoldable pub service_name : Str → Headers → Str
unfolding base_url
service_name public_url h =
    unwrap_or (option_map (λ p. between p.1) (find (codes "://") (base_url public_url h)))
      (codes "localhost")

quoted : Str → Str
quoted s = codes "\"" ++ (s ++ codes "\"")

-- The value of `WWW-Authenticate`.
challenge_value : Str → Headers → Option Str → Str
unfolding quoted
challenge_value public_url h scope =
    codes "Bearer realm="
    ++ (quoted (base_url public_url h ++ codes "/v2/token")
        ++ (codes ",service="
            ++ (quoted (service_name public_url h)
                ++ unwrap_or (option_map (λ s. codes ",scope=" ++ quoted s) scope) [])))

unfoldable pub challenge : Str → Headers → Option Str → Response
unfolding challenge_value
challenge public_url h scope = record {
  status = 401;
  headers = (codes "www-authenticate", challenge_value public_url h scope) ∷ [];
  body = oci_errors (codes "UNAUTHORIZED") (codes "authentication required");
}

unfoldable pub denied : Str → Str → Response
denied name action = record {
  status = 403;
  headers = [];
  body =
      oci_detail (codes "DENIED") (codes "requested access to the resource is denied")
        (action ++ (codes " on " ++ name));
}

unfoldable pub verify_bearer : Decoder → Str → Headers → Option Claims
verify_bearer decode public_url h =
    and_then h.authorization
      (λ raw. and_then (parse_bearer raw) (λ jwt. decode jwt (service_name public_url h)))

-- The claims, or the response to send back.
pub data Access : Type 0 where
  allowed : Claims → Access
  refused : Response → Access

unfoldable pub require : Decoder → Str → Headers → Str → Str → Access
require decode public_url h name action = elim (verify_bearer decode public_url h) [
  | some claims ↦ if grants claims name action then allowed claims else refused (denied name action)
  | none ↦
      refused
        (challenge public_url h (some (codes "repository:" ++ (name ++ (codes ":" ++ action)))))
]
