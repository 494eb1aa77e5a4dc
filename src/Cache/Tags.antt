-- ===== src/Cache/Tags.antt =====
-- The tags of src/cache.rs: invalidation by repository, and two pushes of one tag.
use ruskery.Common.{
  ◌≡◌, ◌≢◌, refl, ◌∙◌, ◌++◌, subst, append_assoc, Bool, true, none, some, List, [], ◌∷◌, Str, codes,
  str_eq, str_eq_iff, str_eq_refl, starts_with, arith, filter, In, In-filter_of, All, Option-cases,
  Bool-cases, inl, inr, if◌then◌else◌,
}
use ruskery.Db.{Db}
use ruskery.Db.Manifests.{tag_digest, upsert_tag}
use ruskery.Db.Manifests.Tags.{tag_digest-upsert_tag}
use ruskery.Cache.{
  Lru, CachedManifest, ManifestCache, key, invalidate_manifest, get_tag, put_tag, pop_all,
  invalidate_repo_tags,
}

module _ {M T : Type 0} (ml : Lru CachedManifest M) (tl : Lru Str T) where
  -- What a push does to the cache after its database statements.
  unfoldable pub push_cache : ManifestCache M T → Str → Str → Str → ManifestCache M T
  push_cache c repo_id tag digest =
      put_tag ml tl (invalidate_manifest ml tl c repo_id digest) repo_id tag digest

  get_tag-put_tag :
      (c : ManifestCache M T) (repo_id tag digest : Str)
      → c.enabled ≡ true
      → (get_tag ml tl (put_tag ml tl c repo_id tag digest) repo_id tag).0 ≡ some digest
  unfolding get_tag put_tag
  get_tag-put_tag c repo_id tag digest on =
      let k = key repo_id tag in
      let t = tl.put k digest c.tags in
      ground (arith, tl.get-peek k t, tl.peek-put_self k digest c.tags)

  invalidate_manifest-enabled :
      (c : ManifestCache M T) (repo_id digest : Str)
      → (invalidate_manifest ml tl c repo_id digest).enabled ≡ c.enabled
  unfolding invalidate_manifest
  invalidate_manifest-enabled c repo_id digest = ground arith

  put_tag-enabled :
      (c : ManifestCache M T) (repo_id tag digest : Str)
      → (put_tag ml tl c repo_id tag digest).enabled ≡ c.enabled
  unfolding put_tag
  put_tag-enabled c repo_id tag digest = ground arith

  -- Two pushes of one tag, of which the first commits first and comes to the cache last: the table
  -- resolves the tag to the second digest, and the cache to the first.
  pub two_pushes_disagree :
      (db : Db) (c : ManifestCache M T) (now later repo_id tag first second : Str)
      → c.enabled ≡ true
      → (tag_digest
            (upsert_tag (upsert_tag db now repo_id tag first) later repo_id tag second)
            repo_id
            tag
          ≡ some second)
        × ((get_tag ml tl
              (push_cache (push_cache c repo_id tag second) repo_id tag first)
              repo_id
              tag).0
            ≡ some first)
  unfolding push_cache
  two_pushes_disagree db c now later repo_id tag first second on = (
    rw (tag_digest-upsert_tag, str_eq_refl repo_id, str_eq_refl tag),
    get_tag-put_tag _ repo_id tag first (
        invalidate_manifest-enabled _ repo_id first
        ∙ put_tag-enabled _ repo_id tag second
        ∙ invalidate_manifest-enabled c repo_id second
        ∙ on),
  )

  peek-pop_all-none :
      (j : Str) (ks : List Str) (t : T) → tl.peek j t ≡ none → tl.peek j (pop_all ml tl ks t) ≡ none
  unfolding pop_all
  peek-pop_all-none j [] t h = h
  peek-pop_all-none j (k ∷ ks) t h =
      peek-pop_all-none j ks (tl.pop k t) (elim (Bool-cases (str_eq j k)) [
        | inl same ↦ ground (arith, (str_eq_iff j k).0 same, tl.peek-pop_self k t)
        | inr other ↦
            ground (arith, tl.peek-pop_ne j k t (λ e. ground (arith, str_eq_iff j k, e, other)))
      ])

  peek-pop_all_in :
      (j : Str) (ks : List Str) (t : T) → In j ks → tl.peek j (pop_all ml tl ks t) ≡ none
  unfolding pop_all
  peek-pop_all_in j [] t i = elim i [ ]
  peek-pop_all_in j (k ∷ ks) t (inl e) =
      peek-pop_all-none j ks (tl.pop k t) (ground (arith, e, tl.peek-pop_self k t))
  peek-pop_all_in j (k ∷ ks) t (inr i) = peek-pop_all_in j ks (tl.pop k t) i

  peek-pop_all_ne :
      (j : Str) (ks : List Str) (t : T)
      → All (λ k. j ≢ k) ks
      → tl.peek j (pop_all ml tl ks t) ≡ tl.peek j t
  unfolding pop_all
  peek-pop_all_ne j [] t a = refl
  peek-pop_all_ne j (k ∷ ks) t (ne, a) =
      peek-pop_all_ne j ks (tl.pop k t) a ∙ tl.peek-pop_ne j k t ne

starts_with-append : (p q : Str) → starts_with p (p ++ q) ≡ true
unfolding starts_with
starts_with-append [] q = refl
starts_with-append (x ∷ p) q = ground (arith, starts_with-append p q)

-- A repository's prefix is not confused with another's.
prefix_exact :
    (r s tag : Str)
    → All (λ c. c ≢ b'|') r
    → All (λ c. c ≢ b'|') s
    → starts_with (r ++ codes "|") (s ++ (codes "|" ++ tag)) ≡ true
    → r ≡ s
unfolding starts_with
prefix_exact [] [] tag a b h = refl
prefix_exact [] (y ∷ s) tag a b h = absurd (ground arith)
prefix_exact (x ∷ r) [] tag a b h = absurd (ground arith)
prefix_exact (x ∷ r) (y ∷ s) tag a b h = ground (arith, prefix_exact r s tag a.1 b.1)

All-filter :
    (p : Str → Bool) (Q : Str → Type 0) (f : (k : Str) → p k ≡ true → Q k) (xs : List Str)
    → All Q (filter p xs)
All-filter p Q f [] = tt
All-filter p Q f (x ∷ xs) = elim (Bool-cases (p x)) [
  | inl t ↦ rw t (f x t, All-filter p Q f xs)
  | inr n ↦ rw n (All-filter p Q f xs)
]

module _ {M T : Type 0} (ml : Lru CachedManifest M) (tl : Lru Str T) where
  abbrev stale : T → Str → List Str
  stale t repo_id = filter (starts_with (key repo_id [])) (tl.keys t)

  dropped :
      (t : T) (repo_id tag : Str)
      → tl.peek (key repo_id tag) (pop_all ml tl (stale t repo_id) t) ≡ none
  unfolding key
  dropped t repo_id tag = elim (Option-cases (tl.peek (key repo_id tag) t)) [
    | inl e ↦ peek-pop_all-none ml tl (key repo_id tag) (stale t repo_id) t e
    | inr (v, e) ↦ peek-pop_all_in ml tl (key repo_id tag) (stale t repo_id) t (
        In-filter_of (starts_with (key repo_id [])) (key repo_id tag) (tl.keys t)
          (tl.In-keys (key repo_id tag) v t e)
          (rw (← append_assoc repo_id (codes "|") tag) (starts_with-append (key repo_id []) tag)))
  ]

  kept :
      (t : T) (repo_id other tag : Str)
      → All (λ c. c ≢ b'|') repo_id
      → All (λ c. c ≢ b'|') other
      → repo_id ≢ other
      → tl.peek (key other tag) (pop_all ml tl (stale t repo_id) t) ≡ tl.peek (key other tag) t
  unfolding key
  kept t repo_id other tag a b ne = peek-pop_all_ne ml tl (key other tag) (stale t repo_id) t (
      All-filter (starts_with (key repo_id [])) (λ k. key other tag ≢ k)
        (λ k h e. ne (prefix_exact repo_id other tag a b (rw e h))) (tl.keys t))

  get_tag-peek :
      (c : ManifestCache M T) (repo_id tag : Str)
      → (get_tag ml tl c repo_id tag).0
        ≡ (if c.enabled then tl.peek (key repo_id tag) c.tags else none)
  unfolding get_tag
  get_tag-peek c repo_id tag = ground (arith, tl.get-peek (key repo_id tag) c.tags)

  -- After the tags of a repository were invalidated no tag of it is found, and every tag of another
  -- repository as before; identifiers hold no `|`.
  pub get_tag-invalidate_repo_tags :
      (c : ManifestCache M T) (repo_id other tag : Str)
      → All (λ c. c ≢ b'|') repo_id
      → All (λ c. c ≢ b'|') other
      → (get_tag ml tl (invalidate_repo_tags ml tl c repo_id) other tag).0
        ≡ (if str_eq repo_id other then none else (get_tag ml tl c other tag).0)
  unfolding invalidate_repo_tags
  get_tag-invalidate_repo_tags c repo_id other tag a b =
      rw (get_tag-peek, get_tag-peek)
        (elim (Bool-cases (str_eq repo_id other)) [
          | inl same ↦
              let e = (str_eq_iff repo_id other).0 same in
              ground (
                arith,
                same,
                subst
                    (λ o. tl.peek (key o tag) (pop_all ml tl (stale c.tags repo_id) c.tags) ≡ none)
                    e (dropped c.tags repo_id tag),
              )
          | inr differ ↦ ground (
            arith,
            differ,
            kept c.tags repo_id other tag a b
                (λ e. ground (arith, str_eq_iff repo_id other, e, differ)),
          )
        ])
