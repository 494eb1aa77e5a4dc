-- ===== src/Proxy/Stream/Whole/Committed.antt =====
-- What a successful `stream_to_storage` leaves in the object store.
use ruskery.Common.{
  ℕ, ◌%◌, ◌^◌, ◌≡◌, ◌≤◌, refl, sym, ◌∙◌, ap, subst, ◌++◌, ◌⊎◌, Bool, true, false, Option, none,
  some, List, [], ◌∷◌, Str, codes, arith, inl, inr, Bool-cases, Option-cases, length, append-nil,
  ltb, ◌&&◌,
}
use ruskery.Common.Int.{ℤ, as_i64}
use ruskery.Error.{Error, Result, ok, err}
use ruskery.Storage.{ObjectStore, CompletedPart, parts_content}
use ruskery.Registry.Digest.{digests_equal}
use ruskery.Registry.Uploads.Session.Bytes.{parts_content-append, parts_content_keeps}
use ruskery.Proxy.Send.Capped.{whole_body}
use ruskery.Proxy.Stream.{
  Streaming, nothing_yet, abort_multipart_logged, last_part, complete, commit, is_over, total_if,
  settle, stream_body, stream_to_storage,
}
use ruskery.Proxy.Stream.Whole.{Whole, Taken, TakenIf, stream_body-TakenIf}

module _ {State : Type 0} (store : ObjectStore State) (key id : Str) where
  abbrev LastIf : Streaming → Option (List CompletedPart) × State → Type 0
  LastIf s (none, st) = Unit
  LastIf s (some ps, st) = parts_content (λ p. store.part id p st) ps ≡ some s.hasher

  last_part-LastIf :
      (s : Streaming) (st : State) (b : Str)
      → Whole store key id s st
      → s.buffer ≡ b
      → LastIf s (last_part store key id s st)
  unfolding last_part
  last_part-LastIf s st [] w e =
      let all : w.contents ≡ s.hasher =
        sym (append-nil w.contents) ∙ ap (λ b. w.contents ++ b) (sym e) ∙ w.whole in
      let stored : parts_content (λ p. store.part id p st) s.parts ≡ some s.hasher =
        w.stored ∙ ap some all in
      rw (e, last_part) stored
  last_part-LastIf s st (c ∷ cs) w e =
      let answer = store.upload_part key id s.next_part (c ∷ cs) st in
      let all : w.contents ++ (c ∷ cs) ≡ s.hasher = ap (λ b. w.contents ++ b) (sym e) ∙ w.whole in
      elim (Option-cases answer.0) [
        | inl refused ↦ rw (e, last_part) (rw refused tt)
        | inr (tag, stored) ↦
            let part : CompletedPart = record { part_number = s.next_part; e_tag = tag } in
            let content : parts_content (λ p. store.part id p answer.1) (s.parts ++ part ∷ [])
                ≡ some s.hasher =
              parts_content-append (λ p. store.part id p answer.1) s.parts part w.contents (c ∷ cs)
                (parts_content_keeps store key id s.next_part (c ∷ cs) st s.parts w.contents
                  w.numbered w.stored)
                (store.upload_part_stored key id s.next_part (c ∷ cs) st tag stored)
              ∙ ap some all in
            rw (e, last_part) (rw stored content)
      ]

  -- The object, if it was stored.
  abbrev StoredIf : Streaming → Bool × State → Type 0
  StoredIf s (true, st) = store.object key st ≡ some s.hasher
  StoredIf s (false, st) = Unit

  complete-StoredIf :
      (s : Streaming) (r : Option (List CompletedPart) × State)
      → LastIf s r
      → StoredIf s (complete store key id r)
  unfolding complete
  complete-StoredIf s (none, st) l = tt
  complete-StoredIf s (some ps, st) l =
      elim (Bool-cases (store.complete_multipart key id ps st).0) [
        | inl finished ↦ rw finished (store.complete_stored key id ps st s.hasher l finished)
        | inr broken ↦ rw broken tt
      ]

  commit-StoredIf :
      (s : Streaming) (st : State) (ps : List CompletedPart)
      → Whole store key id s st
      → s.parts ≡ ps
      → StoredIf s (commit store key id s st)
  unfolding commit complete abort_multipart_logged
  commit-StoredIf s st [] w e =
      let none_stored : w.contents ≡ [] = ground (arith, w.stored, e) in
      let all : s.buffer ≡ s.hasher = ap (λ c. c ++ s.buffer) (sym none_stored) ∙ w.whole in
      let st0 = (store.abort_multipart key id st).1 in
      elim (Bool-cases (store.put key s.buffer st0).0) [
        | inl stored ↦
            rw (e, commit) (rw stored (store.put_stored key s.buffer st0 stored ∙ ap some all))
        | inr broken ↦ rw (e, commit) (rw broken tt)
      ]
  commit-StoredIf s st (p ∷ ps) w e =
      rw (e, commit)
        (complete-StoredIf s (last_part store key id s st) (last_part-LastIf s st s.buffer w refl))

module _ {State : Type 0} (store : ObjectStore State) (sha256_hex : Str → Str) (key : Str)
    (body : List (Option Str)) (expected : Str) (max_blob : ℕ) where
  -- The object is the whole body, its digest is the expected one, and its size is returned.
  pub record Streamed (total : ℤ) (st : State) : Type 0 where
    pub bytes : Str
    pub all_read : whole_body body ≡ some bytes
    pub object : store.object key st ≡ some bytes
    pub matches : digests_equal (codes "sha256:" ++ sha256_hex bytes) expected ≡ true
    pub size : total ≡ as_i64 (length bytes % 2 ^ 64)
    pub within : (max_blob ≡ 0) ⊎ (length bytes % 2 ^ 64 ≤ max_blob)

  abbrev pub StreamedIf : Result ℤ × State → Type 0
  StreamedIf (ok total, st) = Streamed total st
  StreamedIf (err e, st) = Unit

  total_if-StreamedIf :
      (id : Str) (s : Streaming) (st0 : State) (r : Bool × State)
      → Taken store key id max_blob body nothing_yet s st0
      → digests_equal (codes "sha256:" ++ sha256_hex s.hasher) expected ≡ true
      → StoredIf store key id s r
      → StreamedIf (total_if store key id s.total r)
  unfolding is_over
  total_if-StreamedIf id s st0 (false, st) t d stored = tt
  total_if-StreamedIf id s st0 (true, st) t d stored = record {
    bytes = t.bytes;
    all_read = t.all_read;
    object = stored ∙ ap some t.seen;
    matches = subst (λ b. digests_equal (codes "sha256:" ++ sha256_hex b) expected ≡ true) t.seen d;
    size = ap as_i64 counted;
    within = in_limit s.total (length t.bytes % 2 ^ 64) counted t.within;
  }
    where
      counted : s.total ≡ length t.bytes % 2 ^ 64
      counted = omega (arith, t.counted)

      in_limit :
          (n m : ℕ)
          → n ≡ m
          → (ltb 0 max_blob && ltb max_blob n) ≡ false
          → (max_blob ≡ 0) ⊎ (m ≤ max_blob)
      in_limit n m e h = ground arith

  settle-StreamedIf :
      (id : Str) (r : Option Error × Streaming × State)
      → TakenIf store key id max_blob body nothing_yet r
      → StreamedIf (settle store key id sha256_hex expected r)
  unfolding settle
  settle-StreamedIf id (some e, s, st) t = tt
  settle-StreamedIf id (none, s, st) t =
      elim (Bool-cases (digests_equal (codes "sha256:" ++ sha256_hex s.hasher) expected)) [
        | inr d ↦ rw d tt
        | inl d ↦ rw d (
            total_if-StreamedIf id s st (commit store key id s st) t d
              (commit-StoredIf store key id s st s.parts t.is_whole refl))
      ]

  -- When a stream is stored, every read of the body worked, the object under the key is the whole
  -- body, its digest matches the expected one, and the size that is returned is the body's length
  -- and within the limit on blobs, if there is one.
  pub stream_to_storage-StreamedIf :
      (st : State) → StreamedIf (stream_to_storage store sha256_hex key body expected max_blob st)
  unfolding stream_to_storage is_over
  stream_to_storage-StreamedIf st = elim (Option-cases (store.create_multipart key st).0) [
    | inl e ↦ rw (e, stream_to_storage) tt
    | inr (id, e) ↦
        rw (e, stream_to_storage)
          (settle-StreamedIf id
            (stream_body store key id max_blob body nothing_yet (store.create_multipart key st).1)
            (stream_body-TakenIf store key id max_blob body nothing_yet _
              (record { contents = []; stored = refl; whole = refl; numbered = tt }) (omega arith)
              (ground arith)))
  ]
