-- ===== src/Proxy/Listing/Pages.antt =====
-- The requests of the paginated lists: how many, and where they go.
use ruskery.Common.{
  ℕ, zero, suc, ◌+◌, ◌*◌, ◌≡◌, refl, ◌++◌, Option, none, some, List, [], Str, codes, arith, inl,
  inr, ◌⊎◌, subst, sym,
}
use ruskery.Db.Orgs.{OrgUpstream}
use ruskery.Registry.Manifests.Json.{Value}
use ruskery.Proxy.{Urls, Request, max_pages}
use ruskery.Proxy.Fetch.{Fetch}
use ruskery.Proxy.Fetch.Holds.{
  Cleared, Holds, Holds->>=, Holds-lift, Holds-requests, AtMost, AtMost-lift, AtMost->>=,
  AtMost->>=_free, AtMost-mono,
}
use ruskery.Proxy.Guard.{guard_fetch_target}
use ruskery.Proxy.Send.{send_authed}
use ruskery.Proxy.Send.Bounded.{guard_fetch_target-AtMost, send_authed-AtMost}
use ruskery.Proxy.Send.Safe.{Any, IsCleared, IsCleared-Grown, guard_fetch_target-Holds}
use ruskery.Proxy.Send.Safe.Realm.{Secret, Allowed}
use ruskery.Proxy.Send.Safe.Token.{send_authed-Allowed}
use ruskery.Proxy.Listing.{Page, turn, pages, catalog_page, tags_page, list_catalog, list_tags}

module _ {Url Origin : Type 0} (urls : Urls Url Origin) (parse_json : Str → Option Value) where
  module _ (page : Str → Fetch (Option Page)) (n : ℕ)
      (page-AtMost : (next : Str) → AtMost n (page next)) where
    turn-AtMost :
        (m : ℕ) (go : Str → List Str → Fetch (List Str)) (out : List Str) (r : Option Page)
        → ((next : Str) (o : List Str) → AtMost m (go next o))
        → AtMost m (turn urls parse_json page go out r)
    turn-AtMost m go out none h = tt
    turn-AtMost m go out (some (names, none)) h = tt
    turn-AtMost m go out (some (names, some url)) h =
        AtMost->>=_free m (guard_fetch_target urls url) _ (guard_fetch_target-AtMost urls url)
          (λ _. h url _)

    pages-AtMost :
        (left : ℕ) (next : Str) (out : List Str)
        → AtMost (left * n) (pages urls parse_json page left next out)
    unfolding pages
    pages-AtMost zero next out = tt
    pages-AtMost (suc left) next out = AtMost-mono (n + left * n) (suc left * n) _ (omega arith) (
        AtMost->>= n (left * n) (page next) _ (page-AtMost next)
          (λ r. turn-AtMost (left * n) (pages urls parse_json page left) out r (pages-AtMost left)))

  -- A request of a list that starts at `first`: it goes there or to a cleared URL, and carries what
  -- `send_authed` may carry for a page that is the first or cleared.
  pub record Listed (up : OrgUpstream) (first : Str) (c : Cleared) (r : Request) : Type 0 where
    pub page : Str
    pub reach : (r.url ≡ first) ⊎ IsCleared urls c r.url
    pub page_reach : (page ≡ first) ⊎ IsCleared urls c page
    pub secret : Secret urls up page r

  module _ (up : OrgUpstream) (first : Str) (page : Str → Fetch (Option Page))
      (page-Allowed : (c : Cleared) (next : Str)
        → Holds (Allowed urls up next) Any c (page next)) where
    page-Listed :
        (c : Cleared) (next : Str)
        → (next ≡ first) ⊎ IsCleared urls c next
        → Holds (Listed up first) Any c (page next)
    page-Listed c next near =
        Holds-requests (Allowed urls up next) (Listed up first) Any c c (page next) (λ x i. i)
          (λ d r g a.
            let near' : (next ≡ first) ⊎ IsCleared urls d next = elim near [
              | inl e ↦ inl e
              | inr h ↦ inr (IsCleared-Grown urls c d next g h)
            ] in
            record {
              page = next;
              reach = elim a.reach [
                | inl e ↦ subst (λ u. (u ≡ first) ⊎ IsCleared urls d u) (sym e) near'
                | inr h ↦ inr h
              ];
              page_reach = near';
              secret = a.secret;
            })
          (page-Allowed c next)

    pages-Listed :
        (left : ℕ) (c : Cleared) (next : Str) (out : List Str)
        → (next ≡ first) ⊎ IsCleared urls c next
        → Holds (Listed up first) Any c (pages urls parse_json page left next out)
    unfolding pages
    pages-Listed zero c next out near = tt
    pages-Listed (suc left) c next out near =
        Holds->>= (Listed up first) Any Any c c (page next) _ (λ x i. i) (page-Listed c next near)
          (λ d r _ _. turned r d (pages-Listed left))
      where
        turned :
            (r : Option Page) (d : Cleared)
            → ((e : Cleared) (s : Str) (o : List Str)
                → (s ≡ first) ⊎ IsCleared urls e s
                → Holds (Listed up first) Any e (pages urls parse_json page left s o))
            → Holds
                (Listed up first)
                Any
                d
                (turn urls parse_json page (pages urls parse_json page left) out r)
        turned none d h = tt
        turned (some (names, none)) d h = tt
        turned (some (names, some url)) d h =
            Holds->>= (Listed up first) (λ e _. IsCleared urls e url) Any d d
              (guard_fetch_target urls url) _ (λ x i. i)
              (guard_fetch_target-Holds urls (Listed up first) d url)
              (λ e _ _ near'. h e url _ (inr near'))

  module _ (up : OrgUpstream) where
    catalog_page-AtMost : (next : Str) → AtMost 33 (catalog_page urls parse_json up next)
    unfolding catalog_page
    catalog_page-AtMost next =
        AtMost->>= 33 0 (send_authed urls parse_json up next none _) _
          (send_authed-AtMost urls parse_json up next none _) (λ reply. AtMost-lift 0 _)

    catalog_page-Allowed :
        (c : Cleared) (next : Str)
        → Holds (Allowed urls up next) Any c (catalog_page urls parse_json up next)
    unfolding catalog_page
    catalog_page-Allowed c next =
        Holds->>= (Allowed urls up next) Any Any c c (send_authed urls parse_json up next none _) _
          (λ x i. i) (send_authed-Allowed urls parse_json up next c none _)
          (λ d reply _ _. Holds-lift (Allowed urls up next) Any d _ (λ _ _. tt))

    tags_page-AtMost : (repo next : Str) → AtMost 33 (tags_page urls parse_json up repo next)
    unfolding tags_page
    tags_page-AtMost repo next =
        AtMost->>= 33 0 (send_authed urls parse_json up next none _) _
          (send_authed-AtMost urls parse_json up next none _) (λ reply. AtMost-lift 0 _)

    tags_page-Allowed :
        (repo : Str) (c : Cleared) (next : Str)
        → Holds (Allowed urls up next) Any c (tags_page urls parse_json up repo next)
    unfolding tags_page
    tags_page-Allowed repo c next =
        Holds->>= (Allowed urls up next) Any Any c c (send_authed urls parse_json up next none _) _
          (λ x i. i) (send_authed-Allowed urls parse_json up next c none _)
          (λ d reply _ _. Holds-lift (Allowed urls up next) Any d _ (λ _ _. tt))

    -- Both lists end: whatever links the upstream sends, they make at most 33 requests for each of
    -- at most 10,000 pages.
    pub lists-AtMost :
        (repo : Str)
        → AtMost (max_pages * 33) (list_catalog urls parse_json up)
          × AtMost (max_pages * 33) (list_tags urls parse_json up repo)
    unfolding list_catalog list_tags
    lists-AtMost repo = (
      pages-AtMost (catalog_page urls parse_json up) 33 catalog_page-AtMost max_pages _ [],
      pages-AtMost (tags_page urls parse_json up repo) 33 (tags_page-AtMost repo) max_pages _ [],
    )

    -- Whatever the upstream answers, every request of the two lists goes to the configured first
    -- page or to a URL whose host was just resolved to no link-local or unspecified address, and
    -- carries a token only to the origin of a page that was reached so, and the password only to a
    -- trusted realm or its origin.
    pub lists-Listed :
        (repo : Str)
        → Holds
            (Listed up (up.url ++ codes "/v2/_catalog?n=200"))
            Any
            []
            (list_catalog urls parse_json up)
          × Holds
              (Listed up (up.url ++ (codes "/v2/" ++ (repo ++ codes "/tags/list?n=200"))))
              Any
              []
              (list_tags urls parse_json up repo)
    unfolding list_catalog list_tags
    lists-Listed repo = (
      pages-Listed up _ (catalog_page urls parse_json up) catalog_page-Allowed max_pages [] _ []
          (inl refl),
      pages-Listed up _ (tags_page urls parse_json up repo) (tags_page-Allowed repo) max_pages [] _
          [] (inl refl),
    )
