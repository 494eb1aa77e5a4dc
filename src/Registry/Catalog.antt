-- ===== src/Registry/Catalog.antt =====
-- `catalog` of src/registry/mod.rs: the repositories that a token's owner may see, within its scope.
pub mod Scoped
use ruskery.Common.{
  Bool, true, false, Option, none, some, List, [], Str, codes, str_eq, if◌then◌else◌,
}
use ruskery.Error.{Response, repositories}
use ruskery.Db.{Db}
use ruskery.Db.Orgs.Catalog.{catalog_for_user, catalog_for_user_in_org, catalog_for_user_repo}
use ruskery.Auth.Token.{Claims, ScopeClaim}
use ruskery.Registry.Auth.{Headers, Decoder, verify_bearer, challenge}

abbrev pub for_scope : Db → Str → Str → Option Str → List Str
for_scope db sub kind none = catalog_for_user db sub
for_scope db sub kind (some id) =
    if str_eq kind (codes "org")
    then catalog_for_user_in_org db sub id
    else if str_eq kind (codes "repo")
    then catalog_for_user_repo db sub id
    else catalog_for_user db sub

unfoldable pub visible_to : Db → Claims → List Str
visible_to db claims = for_scope db claims.sub claims.scope.kind claims.scope.id

unfoldable pub catalog : Decoder → Str → Headers → Db → Response
unfolding visible_to
catalog decode public_url headers db = elim (verify_bearer decode public_url headers) [
  | none ↦ challenge public_url headers (some (codes "registry:catalog:*"))
  | some claims ↦ record { status = 200; headers = []; body = repositories (visible_to db claims) }
]
