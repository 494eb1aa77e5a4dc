-- ===== src/Auth/Header.antt =====
-- The header parsers of src/auth/mod.rs. Base64 and UTF-8 checking are the crates' and enter as
-- `decode`, which is `none` where the source's `.ok()?` is.
use ruskery.Common.{
  Option, Str, codes, strip_prefix, split_once, trim, or_else, and_then, option_map,
}

pub record BasicCredentials : Type 0 where
  pub username : Str
  pub password : Str

unfoldable pub parse_basic : (Str → Option Str) → Str → Option BasicCredentials
parse_basic decode header =
    and_then (or_else (strip_prefix (codes "Basic ") header) (strip_prefix (codes "basic ") header))
      (λ b64.
        and_then (decode (trim b64))
          (λ s. option_map (λ p. record { username = p.0; password = p.1 }) (split_once b':' s)))

unfoldable pub parse_bearer : Str → Option Str
parse_bearer header =
    option_map trim
      (or_else (strip_prefix (codes "Bearer ") header) (strip_prefix (codes "bearer ") header))
