-- ===== src/Registry/Uploads/Handlers/Commit.antt =====
-- What a successful `finish` leaves in the object store, the database and the registry.
use ruskery.Common.{
  ℕ, ◌≡◌, refl, sym, ◌∙◌, ap, subst, ◌++◌, Bool, true, false, Option, none, some, List, [], ◌∷◌,
  Str, arith, append_assoc, append-nil, Option-cases, Bool-cases, inl, inr,
}
use ruskery.Storage.{ObjectStore, CompletedPart, parts_content}
use ruskery.Registry.Uploads.{UploadSession}
use ruskery.Registry.Uploads.Session.{write}
use ruskery.Registry.Uploads.Session.Bytes.{
  IsWhole, all_kept, part_lost, write-Written, parts_content-append, parts_content_keeps,
}
use ruskery.Registry.Uploads.Session.Same.{SameUpload, write-SameUpload}
use ruskery.Registry.Uploads.Handlers.Chunks.{
  Absorbed, taken, failed, oversize, absorb, over, after_write,
}
use ruskery.Registry.Uploads.Handlers.Finish.{temp_object, last_part, complete}

-- The bytes of a body that is read to its end.
abbrev pub body_bytes : List (Option Str) → Str
body_bytes [] = []
body_bytes (none ∷ body) = body_bytes body
body_bytes (some chunk ∷ body) = chunk ++ body_bytes body

module _ {State : Type 0} (store : ObjectStore State) where
  -- What the body loop leaves when it takes the whole body.
  pub record Taken (s : UploadSession) (bytes : Str) (s' : UploadSession) (st' : State)
      : Type 0 where
    pub is_whole : IsWhole store s' st'
    pub fed : s'.hasher ≡ s.hasher ++ bytes
    pub same : SameUpload s s'

  -- If the body is taken at all.
  abbrev pub TakenIf : UploadSession → Str → Absorbed × State → Type 0
  TakenIf s bytes (taken s', st') = Taken s bytes s' st'
  TakenIf s bytes (failed _ _, _) = Unit
  TakenIf s bytes (oversize _, _) = Unit

  TakenIf-extend :
      (s s1 : UploadSession) (chunk rest : Str) (r : Absorbed × State)
      → s1.hasher ≡ s.hasher ++ chunk
      → SameUpload s s1
      → TakenIf s1 rest r
      → TakenIf s (chunk ++ rest) r
  TakenIf-extend s s1 chunk rest (taken s', st') h same t = record {
    is_whole = t.is_whole;
    fed = t.fed ∙ ap (λ b. b ++ rest) h ∙ append_assoc s.hasher chunk rest;
    same = record {
      org_id = t.same.org_id ∙ same.org_id;
      temp_key = t.same.temp_key ∙ same.temp_key;
      finalizing = t.same.finalizing ∙ same.finalizing;
    };
  }
  TakenIf-extend s s1 chunk rest (failed _ _, _) h same t = tt
  TakenIf-extend s s1 chunk rest (oversize _, _) h same t = tt

  pub absorb-TakenIf :
      (now max_blob : ℕ) (body : List (Option Str)) (s : UploadSession) (st : State)
      → IsWhole store s st
      → TakenIf s (body_bytes body) (absorb store now max_blob body s st)
  unfolding absorb
  absorb-TakenIf now max_blob [] s st w = record {
    is_whole = w;
    fed = sym (append-nil s.hasher);
    same = record { org_id = refl; temp_key = refl; finalizing = refl };
  }
  absorb-TakenIf now max_blob (none ∷ body) s st w = tt
  absorb-TakenIf now max_blob (some chunk ∷ body) s st w =
      let r = write store now chunk s st in
      elim (write-Written store now chunk s st w) [
        | part_lost e _ _ ↦ rw (e, after_write) tt
        | all_kept e w' _ f ↦
            rw (e, after_write)
              (elim (Bool-cases (over store max_blob r.1)) [
                | inl o ↦ rw o tt
                | inr u ↦ rw u (
                    TakenIf-extend s r.1 chunk (body_bytes body)
                      (absorb store now max_blob body r.1 r.2) f
                      (write-SameUpload store now chunk s st)
                      (absorb-TakenIf now max_blob body r.1 r.2 w'))
              ])
      ]

  -- The temporary object, if it was stored.
  abbrev pub StoredIf : UploadSession → Bool × UploadSession × State → Type 0
  StoredIf s (true, s', st') =
      (store.object s.temp_key st' ≡ some s.hasher)
      × (s'.temp_key ≡ s.temp_key)
      × (s'.org_id ≡ s.org_id)
      × (s'.total ≡ s.total)
  StoredIf s (false, _, _) = Unit

  abbrev LastIf : UploadSession → Option (List CompletedPart) × UploadSession × State → Type 0
  LastIf s (none, _, _) = Unit
  LastIf s (some ps, s', st') =
      (parts_content (λ p. store.part s.s3_upload_id p st') ps ≡ some s.hasher)
      × (s'.temp_key ≡ s.temp_key)
      × (s'.s3_upload_id ≡ s.s3_upload_id)
      × (s'.org_id ≡ s.org_id)
      × (s'.total ≡ s.total)

  last_part-LastIf :
      (s : UploadSession) (st : State) (b : Str)
      → IsWhole store s st
      → s.buffer ≡ b
      → LastIf s (last_part store s st)
  unfolding last_part
  last_part-LastIf s st [] w e =
      let all : w.contents ≡ s.hasher =
        sym (append-nil w.contents) ∙ ap (λ b. w.contents ++ b) (sym e) ∙ w.whole in
      let stored : parts_content (λ p. store.part s.s3_upload_id p st) s.parts ≡ some s.hasher =
        w.stored ∙ ap some all in
      rw (e, last_part) (stored, refl, refl, refl, refl)
  last_part-LastIf s st (c ∷ cs) w e =
      let answer = store.upload_part s.temp_key s.s3_upload_id s.next_part (c ∷ cs) st in
      let all : w.contents ++ (c ∷ cs) ≡ s.hasher = ap (λ b. w.contents ++ b) (sym e) ∙ w.whole in
      elim (Option-cases answer.0) [
        | inl none_left ↦ rw (e, last_part) (rw none_left tt)
        | inr (tag, stored) ↦
            let part : CompletedPart = record { part_number = s.next_part; e_tag = tag } in
            let content : parts_content (λ p. store.part s.s3_upload_id p answer.1)
                  (s.parts ++ part ∷ [])
                ≡ some s.hasher =
              parts_content-append (λ p. store.part s.s3_upload_id p answer.1) s.parts part
                w.contents (c ∷ cs)
                (parts_content_keeps store s.temp_key s.s3_upload_id s.next_part (c ∷ cs) st s.parts
                  w.contents w.numbered w.stored)
                (store.upload_part_stored s.temp_key s.s3_upload_id s.next_part (c ∷ cs) st tag
                  stored)
              ∙ ap some all in
            rw (e, last_part) (rw stored (content, refl, refl, refl, refl))
      ]

  complete-StoredIf :
      (s : UploadSession) (r : Option (List CompletedPart) × UploadSession × State)
      → LastIf s r
      → StoredIf s (complete store r)
  unfolding complete
  complete-StoredIf s (none, s', st') l = tt
  complete-StoredIf s (some ps, s', st') (content, key, id, org, total) =
      let content' : parts_content (λ p. store.part s'.s3_upload_id p st') ps ≡ some s.hasher =
        subst (λ i. parts_content (λ p. store.part i p st') ps ≡ some s.hasher) (sym id) content in
      elim (Bool-cases (store.complete_multipart s'.temp_key s'.s3_upload_id ps st').0) [
        | inl done ↦ rw done (
          subst
              (λ k.
                store.object k (store.complete_multipart s'.temp_key s'.s3_upload_id ps st').1
                ≡ some s.hasher)
              key (store.complete_stored s'.temp_key s'.s3_upload_id ps st' s.hasher content' done),
          key,
          org,
          total,
        )
        | inr broken ↦ rw broken tt
      ]

  pub temp_object-StoredIf :
      (s : UploadSession) (st : State) (ps : List CompletedPart)
      → IsWhole store s st
      → s.parts ≡ ps
      → StoredIf s (temp_object store s st)
  unfolding temp_object complete
  temp_object-StoredIf s st [] w e =
      let none_stored : w.contents ≡ [] = ground (arith, w.stored, e) in
      let all : s.buffer ≡ s.hasher = ap (λ c. c ++ s.buffer) (sym none_stored) ∙ w.whole in
      let st0 = (store.abort_multipart s.temp_key s.s3_upload_id st).1 in
      elim (Bool-cases (store.put s.temp_key s.buffer st0).0) [
        | inl done ↦
            rw (e, temp_object)
              (rw done
                (store.put_stored s.temp_key s.buffer st0 done ∙ ap some all, refl, refl, refl))
        | inr broken ↦ rw (e, temp_object) (rw broken tt)
      ]
  temp_object-StoredIf s st (p ∷ ps) w e =
      rw (e, temp_object)
        (complete-StoredIf s (last_part store s st) (last_part-LastIf s st s.buffer w refl))
