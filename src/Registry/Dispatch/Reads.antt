-- ===== src/Registry/Dispatch/Reads.antt =====
-- Requests that only read (src/registry/mod.rs).
use ruskery.Common.{
  ◌≡◌, refl, ap, Bool, true, false, none, Str, codes, str_eq, ◌==◌, ◌⊎◌, arith, if◌then◌else◌,
  Bool-cases, Option-cases, inl, inr,
}
use ruskery.Error.{Result, ok, err, Response}
use ruskery.Db.Orgs.{org_upstream}
use ruskery.Db.Orgs.Views.{bump_image_pull}
use ruskery.Storage.{ObjectStore}
use ruskery.Cache.{Lru, CachedManifest}
use ruskery.Registry.Route.{
  Method, get, head, put, delete, post, patch, other_method, Op, tags_list, manifest, referrers,
  blob, upload_start, upload_session,
}
use ruskery.Registry.Uploads.Handlers.{World}
use ruskery.Registry.Dispatch.{Request, Admitted, Admission, admitted, turned_away, admit}
use ruskery.Registry.Dispatch.Handle.{
  Server, Env, handle, handle_manifest, handle_blob, handle_session, handle_start, handle_referrers,
  respond_with, go_on, dispatch, used, metric, counted_status, is_get, pulled, count_pull, counted,
}
use ruskery.Registry.Dispatch.Effects.{get-db, head-same, get-same, upload_status-same}

abbrev pub is_read : Method → Bool
is_read get = true
is_read head = true
is_read _ = false

module _ {M T State : Type 0} (ml : Lru CachedManifest M) (tl : Lru Str T)
    (store : ObjectStore State) (env : Env M T State) where
  -- The same but for the read cache and the usage counters.
  record Same (s t : Server M T State) : Type 0 where
    tables : t.db ≡ s.db
    sessions : t.uploads ≡ s.uploads
    objects : t.store ≡ s.store

  -- The same but for the read cache, the usage counters, and one count of an image pull, if the
  -- request is a GET.
  pub record SameContent (rq : Request) (s t : Server M T State) : Type 0 where
    pub tables :
        (t.db ≡ s.db)
        ⊎ ((is_get ml tl store env rq.method ≡ true)
            × ((a : Admitted) × (admit env.decode env.public_url s.db rq ≡ admitted a)
                × ((digest : Str) × (t.db ≡ bump_image_pull s.db a.org.id a.repo_name digest))))
    pub sessions : t.uploads ≡ s.uploads
    pub objects : t.store ≡ s.store

  abbrev unchanged : (s : Server M T State) → Same s s
  unchanged s = record { tables = refl; sessions = refl; objects = refl }

  module _ (rq : Request) (s : Server M T State)
      (no_proxy : (org_id : Str) → org_upstream s.db org_id ≡ none) where
    manifest-Same :
        (a : Admitted) (reference : Str) (m : Method)
        → is_read m ≡ true
        → Same s (handle_manifest ml tl store env a reference m rq s).1
    unfolding handle_manifest
    manifest-Same a reference get h = record {
      tables =
          get-db ml tl store env (env.fetch_manifest a.org.id a.repo_name reference) a.org.id
            a.repo_name reference false _ (no_proxy a.org.id);
      sessions = refl;
      objects = refl;
    }
    manifest-Same a reference head h = record {
      tables =
          get-db ml tl store env (env.fetch_manifest a.org.id a.repo_name reference) a.org.id
            a.repo_name reference true _ (no_proxy a.org.id);
      sessions = refl;
      objects = refl;
    }
    manifest-Same a reference put h = absurd (ground arith)
    manifest-Same a reference delete h = absurd (ground arith)
    manifest-Same a reference post h = absurd (ground arith)
    manifest-Same a reference patch h = absurd (ground arith)
    manifest-Same a reference other_method h = absurd (ground arith)

    blob-Same :
        (a : Admitted) (digest : Str) (m : Method)
        → is_read m ≡ true
        → Same s (handle_blob ml tl store env a digest m s).1
    unfolding handle_blob
    blob-Same a digest get h =
        let same =
          get-same ml tl store env env.presign (env.fetch_blob a.org.id a.repo_name digest) a.org.id
            digest env.now a.repo_name a.claims.sub s.usage (record { db = s.db; store = s.store })
            (no_proxy a.org.id) in
        record { tables = ap (λ b. b.db) same; sessions = refl; objects = ap (λ b. b.store) same }
    blob-Same a digest head h =
        let same =
          head-same ml tl store env (env.fetch_blob a.org.id a.repo_name digest) a.org.id digest
            (record { db = s.db; store = s.store }) (no_proxy a.org.id) in
        record { tables = ap (λ b. b.db) same; sessions = refl; objects = ap (λ b. b.store) same }
    blob-Same a digest put h = absurd (ground arith)
    blob-Same a digest delete h = absurd (ground arith)
    blob-Same a digest post h = absurd (ground arith)
    blob-Same a digest patch h = absurd (ground arith)
    blob-Same a digest other_method h = absurd (ground arith)

    abbrev world : World State
    world = record { uploads = s.uploads; store = s.store; db = s.db }

    start-same :
        (a : Admitted) (m : Method)
        → is_read m ≡ true
        → (handle_start ml tl store env a m rq world).1 ≡ world
    unfolding handle_start
    start-same a get h = refl
    start-same a head h = refl
    start-same a put h = refl
    start-same a delete h = refl
    start-same a post h = absurd (ground arith)
    start-same a patch h = refl
    start-same a other_method h = refl

    session-same :
        (a : Admitted) (id : Str) (m : Method)
        → is_read m ≡ true
        → (handle_session ml tl store env a id m rq world).1 ≡ world
    unfolding handle_session
    session-same a id get h = upload_status-same ml tl store env a.org.id a.name id world
    session-same a id head h = refl
    session-same a id put h = absurd (ground arith)
    session-same a id delete h = absurd (ground arith)
    session-same a id post h = refl
    session-same a id patch h = absurd (ground arith)
    session-same a id other_method h = refl

    referrers-same :
        (a : Admitted) (subject : Str) (m : Method)
        → (handle_referrers ml tl store env a subject m rq s).1 ≡ s
    unfolding handle_referrers
    referrers-same a subject get = refl
    referrers-same a subject head = refl
    referrers-same a subject put = refl
    referrers-same a subject delete = refl
    referrers-same a subject post = refl
    referrers-same a subject patch = refl
    referrers-same a subject other_method = refl

    of_world :
        (w : World State)
        → w ≡ world
        → Same s (record s { db = w.db; uploads = w.uploads; store = w.store })
    of_world w e = record {
      tables = ap (λ v. v.db) e;
      sessions = ap (λ v. v.uploads) e;
      objects = ap (λ v. v.store) e;
    }

    handle-Same :
        (a : Admitted) (op : Op)
        → is_read rq.method ≡ true
        → Same s (handle ml tl store env a op rq s).1
    unfolding handle
    handle-Same a tags_list h = unchanged s
    handle-Same a (manifest reference) h = manifest-Same a reference rq.method h
    handle-Same a (referrers subject) h = rw (referrers-same a subject rq.method) (unchanged s)
    handle-Same a (blob digest) h = blob-Same a digest rq.method h
    handle-Same a upload_start h = of_world _ (start-same a rq.method h)
    handle-Same a (upload_session id) h = of_world _ (session-same a id rq.method h)

    respond_with-state :
        (r : Result Response × Server M T State) → (respond_with ml tl store env r).1 ≡ r.1
    respond_with-state (ok r, t) = refl
    respond_with-state (err e, t) = refl

    used-Same :
        (a : Admitted) (response : Response) (t : Server M T State)
        → Same s t
        → Same s (used ml tl store env a rq response t)
    unfolding used
    used-Same a response t same =
        elim (Option-cases (metric ml tl store env a.op rq.method rq.query)) [
          | inl e ↦ rw (used, e) same
          | inr ((kind, digest), e) ↦
              elim (Bool-cases (response.status == counted_status ml tl store env kind)) [
                | inl t' ↦
                    rw (used, e, t')
                      (record {
                        tables = same.tables;
                        sessions = same.sessions;
                        objects = same.objects;
                      })
                | inr f ↦ rw (used, e, f) same
              ]
        ]

    when_free :
        (a : Admitted) (digest : Str) (t : Server M T State) (free : Bool)
        → is_get ml tl store env rq.method ≡ true
        → admit env.decode env.public_url s.db rq ≡ admitted a
        → Same s t
        → SameContent rq s
            (if free then record t { db = bump_image_pull t.db a.org.id a.repo_name digest } else t)
    when_free a digest t false got passed same = record {
      tables = inl same.tables;
      sessions = same.sessions;
      objects = same.objects;
    }
    when_free a digest t true got passed same = record {
      tables = inr (
        got,
        (a, passed, (digest, ap (λ d. bump_image_pull d a.org.id a.repo_name digest) same.tables)),
      );
      sessions = same.sessions;
      objects = same.objects;
    }

    count_pull-SameContent :
        (a : Admitted) (response : Response) (t : Server M T State)
        → admit env.decode env.public_url s.db rq ≡ admitted a
        → Same s t
        → SameContent rq s (count_pull ml tl store env a rq response t)
    unfolding count_pull pulled
    count_pull-SameContent a response t passed same =
        let plain : SameContent rq s t = record {
          tables = inl same.tables;
          sessions = same.sessions;
          objects = same.objects;
        } in
        elim (Option-cases (pulled ml tl store env rq response)) [
          | inl e ↦ rw (count_pull, e) plain
          | inr (digest, e) ↦ elim (Bool-cases (is_get ml tl store env rq.method)) [
            | inr other ↦ absurd (ground (arith, e, other))
            | inl got ↦ rw (count_pull, e) (when_free a digest t env.counter_free got passed same)
          ]
        ]

    counted-SameContent :
        (a : Admitted) (r : Result Response × Server M T State)
        → admit env.decode env.public_url s.db rq ≡ admitted a
        → Same s r.1
        → SameContent rq s (counted ml tl store env a rq r).1
    counted-SameContent a (err e, t) passed same = record {
      tables = inl same.tables;
      sessions = same.sessions;
      objects = same.objects;
    }
    counted-SameContent a (ok response, t) passed same =
        count_pull-SameContent a response (used ml tl store env a rq response t) passed
          (used-Same a response t same)

    go_on-SameContent :
        (x : Admission)
        → admit env.decode env.public_url s.db rq ≡ x
        → is_read rq.method ≡ true
        → SameContent rq s (go_on ml tl store env rq s x).1
    go_on-SameContent (turned_away r) passed h = record {
      tables = inl refl;
      sessions = refl;
      objects = refl;
    }
    go_on-SameContent (admitted a) passed h =
        rw (respond_with-state (counted ml tl store env a rq (handle ml tl store env a a.op rq s)))
          (counted-SameContent a (handle ml tl store env a a.op rq s) passed (handle-Same a a.op h))

    -- A GET or HEAD request, where no organization is a pull-through cache, changes no upload, no
    -- object and no table, whatever it asks for, but that a GET that passes every check may count one
    -- pull of an image of its repository.
    pub dispatch-SameContent :
        is_read rq.method ≡ true → SameContent rq s (dispatch ml tl store env rq s).1
    unfolding dispatch
    dispatch-SameContent h = elim (Bool-cases (str_eq rq.rest (codes "_catalog"))) [
      | inl e ↦ rw e (record { tables = inl refl; sessions = refl; objects = refl })
      | inr e ↦ rw e (go_on-SameContent (admit env.decode env.public_url s.db rq) refl h)
    ]
