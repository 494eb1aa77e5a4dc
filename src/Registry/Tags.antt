-- ===== src/Registry/Tags.antt =====
-- src/registry/tags.rs: the list of tags in pages.
pub mod Pages
use ruskery.Common.{
  ℕ, ◌++◌, Option, none, some, List, [], ◌∷◌, Str, codes, str_ltb, decimal, ltb, filter, take,
  length, if◌then◌else◌,
}
use ruskery.Error.{Error, oci, Result, ok, err, ◌>>=◌, Response, tag_list}
use ruskery.Db.{Db}
use ruskery.Db.Orgs.{find_repo}
use ruskery.Db.Manifests.{list_tags}

unfoldable pub repository_unknown : Error
repository_unknown = oci 404 (codes "NAME_UNKNOWN") (codes "repository unknown")

unfoldable pub last_of : List Str → Option Str
last_of [] = none
last_of (t ∷ []) = some t
last_of (t ∷ u ∷ ts) = last_of (u ∷ ts)

-- `tags.retain(|t| t > last)`
unfoldable pub after : Option Str → List Str → List Str
after none tags = tags
after (some last) tags = filter (str_ltb last) tags

next_link : Str → ℕ → Option Str → List (Str × Str)
next_link name n none = []
next_link name n (some last) =
    (
      codes "link",
      codes "</v2/"
          ++ (name
              ++ (codes "/tags/list?n="
                  ++ (decimal n ++ (codes "&last=" ++ (last ++ codes ">; rel=\"next\""))))),
    )
    ∷ []

-- The page, and the headers of the response.
unfoldable pub page : Str → Option ℕ → List Str → List Str × List (Str × Str)
unfolding next_link
page name none tags = (tags, [])
page name (some n) tags =
    if ltb n (length tags)
    then (take n tags, next_link name n (last_of (take n tags)))
    else (tags, [])

unfoldable pub list : Db → Str → Str → Str → Option ℕ → Option Str → Result Response
list db org_id repo_name name n last = do
  repo ← (elim (find_repo db org_id repo_name) [ none ↦ err repository_unknown | some r ↦ ok r ])
  let (tags, headers) = page name n (after last (list_tags db repo.id))
  ok (record { status = 200; headers = headers; body = tag_list name tags })
