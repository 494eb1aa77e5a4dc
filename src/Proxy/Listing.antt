-- ===== src/Proxy/Listing.antt =====
-- The callers of `send_authed` in src/proxy.rs that read what an upstream has: `probe`,
-- `fetch_manifest`, and the paginated lists of repositories and tags.
pub mod Pages
use ruskery.Common.{
  ℕ, zero, suc, ◌++◌, Bool, true, false, not, ◌&&◌, ◌||◌, Option, none, some, List, [], ◌∷◌, Str,
  codes, ◌==◌, if◌then◌else◌, and_then, option_map, unwrap_or, is_some, find, starts_with,
  trim_end_slashes, filter_map,
}
use ruskery.Error.{Result, ok, err}
use ruskery.Db.Orgs.{OrgUpstream}
use ruskery.Registry.Manifests.Json.{Value, field, as_str, as_array}
use ruskery.Proxy.{
  Urls, Reply, header, is_success, upstream_error, max_pages, max_list_bytes, max_manifest_bytes,
  manifest_accept,
}
use ruskery.Proxy.Fetch.{Fetch, done, fail, ◌>>=◌, ◌>>◌, lift}
use ruskery.Proxy.Guard.{guard_fetch_target}
use ruskery.Proxy.Send.{read_capped, send_authed}

unfoldable pub pull_scope : Str → Str
pull_scope repo = codes "repository:" ++ (repo ++ codes ":pull")

-- The text between the first `<` and the next `>`.
abbrev link_target : Str → Option Str
link_target link =
    and_then (find (codes "<") link) (λ p. option_map (λ q. q.0) (find (codes ">") p.1))

abbrev absolute : Str → Str → Str
absolute base target =
    if starts_with (codes "http://") target || starts_with (codes "https://") target
    then target
    else trim_end_slashes base ++ target

unfoldable pub link_next : Reply → Str → Option Str
link_next reply base = and_then (header (codes "link") reply) (λ link.
    if not (is_some (find (codes "rel=\"next\"") link))
    then none
    else option_map (absolute base) (link_target link))

-- The strings of an array that is a member of the body.
unfoldable pub strings_in : Str → Value → List Str
strings_in name body =
    unwrap_or (option_map (filter_map as_str) (and_then (field name body) as_array)) []

-- The names on one page, and the link to the next.
abbrev pub Page : Type 0
Page = List Str × Option Str

module _ {Url Origin : Type 0} (urls : Urls Url Origin) (parse_json : Str → Option Value) where
  -- A page's names from a response.
  unfoldable pub read_page : Str → Str → Str → Reply → Result (Option Page)
  read_page base what name reply = elim (read_capped reply max_list_bytes what) [
    | err e ↦ err e
    | ok raw ↦ elim (parse_json raw) [
      | none ↦ err (upstream_error (codes "reading upstream " ++ what))
      | some body ↦ ok (some (strings_in name body, link_next reply base))
    ]
  ]

  unfoldable pub catalog_page : OrgUpstream → Str → Fetch (Option Page)
  catalog_page up next = do
    reply ← send_authed urls parse_json up next none (codes "registry:catalog:*")
    lift (
        if not (is_success reply.status)
        then err (upstream_error (codes "upstream _catalog returned status"))
        else read_page up.url (codes "catalog") (codes "repositories") reply)

  -- A 404 ends the list.
  unfoldable pub tags_page : OrgUpstream → Str → Str → Fetch (Option Page)
  tags_page up repo next = do
    reply ← send_authed urls parse_json up next none (pull_scope repo)
    lift (
        if reply.status == 404
        then ok none
        else if not (is_success reply.status)
        then err (upstream_error (codes "upstream tags/list for " ++ repo))
        else read_page up.url (codes "tags") (codes "tags") reply)

  -- The loop of both lists, by the pages that may still be read.
  module _ (page : Str → Fetch (Option Page)) where
    abbrev pub turn :
        (Str → List Str → Fetch (List Str)) → List Str → Option Page → Fetch (List Str)
    turn go out none = done out
    turn go out (some (names, none)) = done (out ++ names)
    turn go out (some (names, some url)) = guard_fetch_target urls url >> go url (out ++ names)

    unfoldable pub pages : ℕ → Str → List Str → Fetch (List Str)
    pages zero next out = done out
    pages (suc left) next out = page next >>= turn (pages left) out

  unfoldable pub list_catalog : OrgUpstream → Fetch (List Str)
  unfolding catalog_page pages
  list_catalog up = pages (catalog_page up) max_pages (up.url ++ codes "/v2/_catalog?n=200") []

  unfoldable pub list_tags : OrgUpstream → Str → Fetch (List Str)
  unfolding tags_page pages
  list_tags up repo =
      pages (tags_page up repo) max_pages
        (up.url ++ (codes "/v2/" ++ (repo ++ codes "/tags/list?n=200"))) []

  unfoldable pub probe : OrgUpstream → Fetch (Unit {0})
  probe up = do
    reply ←
        send_authed urls parse_json up (up.url ++ codes "/v2/") none (codes "registry:catalog:*")
    lift (
        if is_success reply.status
        then ok tt
        else if reply.status == 401
        then err (
            upstream_error (
              codes
                "upstream rejected the credentials (401) — check the host, username, and password/token"))
        else err (upstream_error (codes "upstream /v2/ returned status")))

  -- What a response says of a manifest: nothing for a 404, else its bytes and its media type.
  unfoldable pub manifest_of : Reply → Result (Option (Str × Str))
  manifest_of reply =
      if reply.status == 404
      then ok none
      else if not (is_success reply.status)
      then err (upstream_error (codes "upstream manifest status"))
      else elim (read_capped reply max_manifest_bytes (codes "manifest")) [
        | err e ↦ err e
        | ok raw ↦ ok (
            some (
              raw,
              unwrap_or (header (codes "content-type") reply)
                  (codes "application/vnd.oci.image.manifest.v1+json"),
            ))
      ]

  unfoldable pub fetch_manifest : OrgUpstream → Str → Str → Fetch (Option (Str × Str))
  fetch_manifest up repo reference = do
    reply ←
        send_authed urls parse_json up
          (up.url ++ (codes "/v2/" ++ (repo ++ (codes "/manifests/" ++ reference))))
          (some manifest_accept) (pull_scope repo)
    lift (manifest_of reply)
