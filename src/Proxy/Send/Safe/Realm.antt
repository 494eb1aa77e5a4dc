-- ===== src/Proxy/Send/Safe/Realm.antt =====
-- The requests of the token dance: to the realm with the organization's credentials, and to the
-- registry with the token.
use ruskery.Common.{
  ◌≡◌, refl, sym, ◌∙◌, ap, true, false, Option, none, some, Str, codes, arith, inl, inr, ◌⊎◌,
  Bool-cases, Option-cases, unwrap_or, In, subst,
}
use ruskery.Error.{ok}
use ruskery.Db.Orgs.{OrgUpstream}
use ruskery.Proxy.{Urls, no_auth, bearer, basic, Request}
use ruskery.Proxy.Fetch.Holds.{Cleared}
use ruskery.Proxy.Guard.{realm_is_trusted, is_cleartext_public}
use ruskery.Proxy.Send.{check_realm, realm_auth, realm_request}
use ruskery.Proxy.Send.Safe.{IsCleared, SameOrigin, Sent}

module _ {Url Origin : Type 0} (urls : Urls Url Origin) where
  -- A realm that may have the password: trusted, and not in cleartext on a public host.
  pub record IsRealm (up : OrgUpstream) (u : Url) : Type 0 where
    pub realm : Str
    pub is_realm : urls.parse realm ≡ some u
    pub trusted : realm_is_trusted urls realm up.url up.trusted_realm_hosts ≡ true
    pub private : is_cleartext_public urls realm ≡ false

  -- What a request made for `start` may carry: nothing, a token to the origin of `start`, or the
  -- password to the origin of a realm's URL with its query.
  pub data Secret (up : OrgUpstream) (start : Str) (r : Request) : Type 0 where
    nothing : r.auth ≡ no_auth → Secret up start r
    token : (t : Str) → r.auth ≡ bearer t → SameOrigin urls start r.url → Secret up start r
    password :
        (user : Str) (u : Url) (service : Option Str) (scope : Str)
        → up.username ≡ some user
        → r.auth ≡ basic user up.password
        → IsRealm up u
        → SameOrigin urls (urls.to_string (realm_request urls service scope u)) r.url
        → Secret up start r

  -- A request of `send_authed up start`.
  pub record Allowed (up : OrgUpstream) (start : Str) (c : Cleared) (r : Request) : Type 0 where
    pub reach : (r.url ≡ start) ⊎ IsCleared urls c r.url
    pub secret : Secret up start r

  -- The check of the realm lets it pass only if there is no password or it may have it.
  pub check_realm_lem :
      (up : OrgUpstream) (realm : Str) (u : Url)
      → check_realm urls up realm ≡ ok tt
      → urls.parse realm ≡ some u
      → (up.username ≡ none) ⊎ IsRealm up u
  unfolding check_realm
  check_realm_lem up realm u h p = elim (Option-cases up.username) [
    | inl e ↦ inl e
    | inr (user, e) ↦
        elim (Bool-cases (realm_is_trusted urls realm up.url up.trusted_realm_hosts)) [
          | inr t ↦ absurd (ground (arith, h, e, t))
          | inl t ↦ elim (Bool-cases (is_cleartext_public urls realm)) [
            | inl b ↦ absurd (ground (arith, h, e, t, b))
            | inr b ↦ inr (record { realm = realm; is_realm = p; trusted = t; private = b })
          ]
        ]
  ]

  -- The query does not change where a realm's URL leads.
  pub realm_request-IsCleared :
      (service : Option Str) (scope : Str) (c : Cleared) (realm : Str) (u : Url)
      → urls.parse realm ≡ some u
      → IsCleared urls c realm
      → IsCleared urls c (urls.to_string (realm_request urls service scope u))
  unfolding realm_request
  realm_request-IsCleared none scope c realm u p h =
      let same : h.target ≡ u = ap (λ o. unwrap_or o u) (sym h.is_target ∙ p) in
      record {
        target = realm_request urls none scope u;
        host = h.host;
        is_target = urls.parse-to_string _;
        is_host =
            urls.host_str-append_pair (codes "scope") scope u
            ∙ ap urls.host_str (sym same)
            ∙ h.is_host;
        resolved =
            subst (λ port. In (h.host, unwrap_or port 443) c)
              (ap urls.port_or_known_default same
                ∙ sym (urls.port_or_known_default-append_pair (codes "scope") scope u))
              h.resolved;
      }
  realm_request-IsCleared (some s) scope c realm u p h =
      let same : h.target ≡ u = ap (λ o. unwrap_or o u) (sym h.is_target ∙ p) in
      let v : Url = urls.append_pair (codes "service") s u in
      record {
        target = realm_request urls (some s) scope u;
        host = h.host;
        is_target = urls.parse-to_string _;
        is_host =
            urls.host_str-append_pair (codes "scope") scope v
            ∙ urls.host_str-append_pair (codes "service") s u
            ∙ ap urls.host_str (sym same)
            ∙ h.is_host;
        resolved =
            subst (λ port. In (h.host, unwrap_or port 443) c)
              (ap urls.port_or_known_default same
                ∙ sym (urls.port_or_known_default-append_pair (codes "service") s u)
                ∙ sym (urls.port_or_known_default-append_pair (codes "scope") scope v))
              h.resolved;
      }

  module _ (up : OrgUpstream) (start : Str) where
    -- The request to the realm, whose first URL is cleared.
    pub realm-Allowed :
        (service : Option Str) (scope : Str) (u : Url) (d : Cleared) (r : Request)
        → (up.username ≡ none) ⊎ IsRealm up u
        → IsCleared urls d (urls.to_string (realm_request urls service scope u))
        → Sent urls (urls.to_string (realm_request urls service scope u)) (realm_auth urls up) d r
        → Allowed up start d r
    unfolding realm_auth
    realm-Allowed service scope u d r may near s = record {
      reach = inr (elim s.reach [ inl e ↦ subst (IsCleared urls d) (sym e) near | inr c ↦ c ]);
      secret = elim s.secret [
        | inl e ↦ nothing e
        | inr (e, same) ↦ elim (Option-cases up.username) [
          | inl n ↦ nothing (e ∙ rw (realm_auth, n) refl)
          | inr (user, n) ↦ elim may [
            | inl none_there ↦ absurd (ground (arith, n, none_there))
            | inr is ↦ password user u service scope n (e ∙ rw (realm_auth, n) refl) is same
          ]
        ]
      ];
    }
