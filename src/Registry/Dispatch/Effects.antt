-- ===== src/Registry/Dispatch/Effects.antt =====
-- What a request may change (src/registry/mod.rs).
use ruskery.Common.{
  ℕ, ◌≡◌, refl, ◌∙◌, ◌⊎◌, inl, inr, Bool, Option, none, Str, codes, str_eq, arith, Bool-cases,
  Option-cases,
}
use ruskery.Error.{Result, Result-cases}
use ruskery.Db.Orgs.{OrgUpstream, org_upstream, find_repo}
use ruskery.Db.Content.{blob_size}
use ruskery.Storage.{ObjectStore, blob_key}
use ruskery.Cache.{Lru, CachedManifest, current_generation}
use ruskery.Registry.Manifests
use ruskery.Registry.Manifests.{Local, resolve_reference, read_manifest, serve_local}
use ruskery.Registry.Blobs
use ruskery.Registry.Blobs.{Blobs, size_of, ensure_cached}
use ruskery.Analytics.{UsageCollector}
use ruskery.Registry.Uploads.Handlers
use ruskery.Registry.Uploads.Handlers.{World, locked_session}
use ruskery.Registry.Dispatch.{Request, Admitted, Admission, admitted, turned_away, admit}
use ruskery.Registry.Dispatch.Guarded.{Guarded, admit-Guarded}
use ruskery.Registry.Dispatch.Handle.{Server, Env, go_on, dispatch}

module _ {M T State : Type 0} (ml : Lru CachedManifest M) (tl : Lru Str T)
    (store : ObjectStore State) (env : Env M T State) where
  go_on-Guarded :
      (rq : Request) (s : Server M T State) (x : Admission)
      → admit env.decode env.public_url s.db rq ≡ x
      → ((go_on ml tl store env rq s x).1 ≡ s)
        ⊎ ((a : Admitted) × Guarded env.decode env.public_url s.db rq a)
  go_on-Guarded rq s (turned_away r) e = inl refl
  go_on-Guarded rq s (admitted a) e = inr (a, admit-Guarded env.decode env.public_url s.db rq a e)

  -- A request either leaves the whole state as it was, or has passed every guard: a route with a
  -- valid name, and a verified token that grants the action that its method needs.
  pub dispatch-Guarded :
      (rq : Request) (s : Server M T State)
      → ((dispatch ml tl store env rq s).1 ≡ s)
        ⊎ ((a : Admitted) × Guarded env.decode env.public_url s.db rq a)
  unfolding dispatch
  dispatch-Guarded rq s = elim (Bool-cases (str_eq rq.rest (codes "_catalog"))) [
    | inl e ↦ inl (rw e refl)
    | inr e ↦ rw e (go_on-Guarded rq s (admit env.decode env.public_url s.db rq) refl)
  ]

  resolve_reference-db :
      (gen : ℕ) (repo_id reference : Str) (l : Local M T)
      → (resolve_reference ml tl gen repo_id reference l).1.db ≡ l.db
  unfolding resolve_reference
  resolve_reference-db gen repo_id reference l = ground arith

  read_manifest-db :
      (gen : ℕ) (repo_id digest : Str) (l : Local M T)
      → (read_manifest ml tl gen repo_id digest l).1.db ≡ l.db
  unfolding read_manifest
  read_manifest-db gen repo_id digest l = ground arith

  serve_local-db :
      (org_id repo_name reference : Str) (head_only : Bool) (l : Local M T)
      → (serve_local ml tl org_id repo_name reference head_only l).1.db ≡ l.db
  unfolding serve_local
  serve_local-db org_id repo_name reference head_only l =
      let gen = current_generation ml tl l.cache in
      elim (Option-cases (find_repo l.db org_id repo_name)) [
        | inl e ↦ rw (serve_local, e) refl
        | inr (repo, e) ↦
            let l' = (resolve_reference ml tl gen repo.id reference l).1 in
            let same = resolve_reference-db gen repo.id reference l in
            elim (Option-cases (resolve_reference ml tl gen repo.id reference l).0) [
              | inl f ↦ rw (serve_local, e, f) same
              | inr (digest, f) ↦
                  rw (serve_local, e, f) (read_manifest-db gen repo.id digest l' ∙ same)
            ]
      ]

  pub get-db :
      (fetch : OrgUpstream → Local M T → Result (Unit {0}) × Local M T)
      (org_id repo_name reference : Str) (head_only : Bool) (l : Local M T)
      → org_upstream l.db org_id ≡ none
      → (Manifests.get ml tl fetch org_id repo_name reference head_only l).1.db ≡ l.db
  unfolding Manifests.get
  get-db fetch org_id repo_name reference head_only l no_proxy =
      let first = serve_local ml tl org_id repo_name reference head_only l in
      let same = serve_local-db org_id repo_name reference head_only l in
      elim (Option-cases first.0) [
        | inr (r, e) ↦ rw (Manifests.get, e) same
        | inl e ↦ rw (Manifests.get, e, same, no_proxy) same
      ]

  size_of-same :
      (fetch : OrgUpstream → Blobs State → Result (Unit {0}) × Blobs State) (org_id digest : Str)
      (b : Blobs State)
      → org_upstream b.db org_id ≡ none
      → (size_of store fetch org_id digest b).1 ≡ b
  unfolding size_of ensure_cached
  size_of-same fetch org_id digest b no_proxy = elim (Option-cases (blob_size b.db org_id digest)) [
    | inl e ↦ rw (size_of, e, ensure_cached, no_proxy) refl
    | inr (n, e) ↦ rw (size_of, e) refl
  ]

  pub head-same :
      (fetch : OrgUpstream → Blobs State → Result (Unit {0}) × Blobs State) (org_id digest : Str)
      (b : Blobs State)
      → org_upstream b.db org_id ≡ none
      → (Blobs.head store fetch org_id digest b).1 ≡ b
  unfolding Blobs.head
  head-same fetch org_id digest b no_proxy =
      let same = size_of-same fetch org_id digest b no_proxy in
      elim (Result-cases (size_of store fetch org_id digest b).0) [
        | inl (n, e) ↦ rw (Blobs.head, e) same
        | inr (x, e) ↦ rw (Blobs.head, e) same
      ]

  pub get-same :
      (presign : Str → Option Str)
      (fetch : OrgUpstream → Blobs State → Result (Unit {0}) × Blobs State) (org_id digest : Str)
      (now repo user_id : Str) (usage : UsageCollector) (b : Blobs State)
      → org_upstream b.db org_id ≡ none
      → (Blobs.get store presign fetch now org_id repo user_id digest usage b).2 ≡ b
  unfolding Blobs.get
  get-same presign fetch org_id digest now repo user_id usage b no_proxy =
      let same = size_of-same fetch org_id digest b no_proxy in
      elim (Result-cases (size_of store fetch org_id digest b).0) [
        | inl (n, e) ↦ elim (Option-cases (presign (blob_key org_id digest))) [
          | inl f ↦ rw (Blobs.get, e, f) same
          | inr (url, f) ↦ rw (Blobs.get, e, f) same
        ]
        | inr (x, e) ↦ rw (Blobs.get, e) same
      ]

  pub upload_status-same :
      (org_id name id : Str) (w : World State)
      → (Handlers.upload_status store org_id name id w).1 ≡ w
  unfolding Handlers.upload_status
  upload_status-same org_id name id w = elim (Result-cases (locked_session w.uploads id org_id)) [
    | inl (x, e) ↦ rw (Handlers.upload_status, e) refl
    | inr (x, e) ↦ rw (Handlers.upload_status, e) refl
  ]
