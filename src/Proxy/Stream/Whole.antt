-- ===== src/Proxy/Stream/Whole.antt =====
-- The bytes of a streamed blob: those of its parts and of the buffer are what the hash has seen.
pub mod Committed
use ruskery.Common.{
  ℕ, zero, suc, ◌+◌, ◌%◌, ◌^◌, ◌≤◌, ◌<◌, ◌≡◌, refl, sym, ◌∙◌, ap, ◌++◌, Bool, true, false, Option,
  none, some, List, [], ◌∷◌, Str, codes, arith, inl, inr, Bool-cases, Option-cases, length, leb,
  leb_le, leb_gt, ltb, ◌&&◌, append_assoc, append-nil, subst, length-append, drop, take, option_map,
  if◌then◌else◌,
}
use ruskery.Error.{Error, Result, ok, err}
use ruskery.Storage.{ObjectStore, CompletedPart, parts_content}
use ruskery.Registry.Uploads.{UploadSession}
use ruskery.Registry.Uploads.Session.{full_part, after_part}
use ruskery.Registry.Uploads.Session.Bytes.{
  IsWhole, drained, call, flushed, flushed-IsWhole, length-after_part,
}
use ruskery.Proxy.Send.Capped.{whole_body}
use ruskery.Proxy.Stream.{
  part_size, Streaming, upload_next, upload_parts, onward, next_chunk, fed, is_over, stream_body,
}

-- The session whose bytes are those of the stream.
abbrev pub session_of : Str → Str → Streaming → UploadSession
session_of key id s = record {
  org_id = [];
  name = [];
  temp_key = key;
  s3_upload_id = id;
  hasher = s.hasher;
  buffer = s.buffer;
  parts = s.parts;
  next_part = s.next_part;
  total = s.total;
  finalizing = false;
  last_activity = 0;
}

module _ {State : Type 0} (store : ObjectStore State) (key id : Str) where
  abbrev pub Whole : Streaming → State → Type 0
  Whole s st = IsWhole store (session_of key id s) st

  -- What the part loop leaves if it does not fail.
  abbrev pub KeptIf : Streaming → Bool × Streaming × State → Type 0
  KeptIf s (false, s', st') = Unit
  KeptIf s (true, s', st') =
      Whole s' st' × (length s'.buffer < part_size) × (s'.hasher ≡ s.hasher) × (s'.total ≡ s.total)

  KeptIf-onward :
      (s s1 : Streaming) (r : Bool × Streaming × State)
      → s1.hasher ≡ s.hasher
      → s1.total ≡ s.total
      → KeptIf s1 r
      → KeptIf s r
  KeptIf-onward s s1 (false, s', st') h t k = tt
  KeptIf-onward s s1 (true, s', st') h t (w, n, h', t') = (w, n, h' ∙ h, t' ∙ t)

  pub upload_parts-KeptIf :
      (fuel : ℕ) (s : Streaming) (st : State)
      → Whole s st
      → length s.buffer ≤ fuel
      → KeptIf s (upload_parts store key id fuel s st)
  unfolding upload_parts upload_next call flushed drained full_part after_part
  upload_parts-KeptIf zero s st w n = (w, omega arith, refl, refl)
  upload_parts-KeptIf (suc fuel) s st w n = elim (Bool-cases (leb part_size (length s.buffer))) [
    | inr small ↦ rw small (w, leb_gt _ _ small, refl, refl)
    | inl big ↦ rw big (elim (Option-cases (call store (session_of key id s) st).0) [
      | inl e ↦ rw (e, upload_next) tt
      | inr (tag, e) ↦
          let s1 : Streaming = record s {
            buffer = drop part_size s.buffer;
            parts = s.parts ++ record { part_number = s.next_part; e_tag = tag } ∷ [];
            next_part = s.next_part + 1;
          } in
          rw (e, upload_next)
            (KeptIf-onward s s1 _ refl refl (
              upload_parts-KeptIf fuel s1 (call store (session_of key id s) st).1
                (flushed-IsWhole store (session_of key id s) st w tag e)
                (omega (arith, length-after_part s.buffer (leb_le _ _ big)))))
    ])
  ]

  -- What the body loop leaves if it takes the whole body.
  pub record Taken (max_blob : ℕ) (body : List (Option Str)) (s s' : Streaming) (st' : State)
      : Type 0 where
    pub bytes : Str
    pub all_read : whole_body body ≡ some bytes
    pub is_whole : Whole s' st'
    pub seen : s'.hasher ≡ s.hasher ++ bytes
    pub counted : s'.total ≡ (s.total + length bytes) % 2 ^ 64
    pub within : is_over store key id max_blob s' ≡ false

  abbrev pub TakenIf : ℕ → List (Option Str) → Streaming → Option Error × Streaming × State → Type 0
  TakenIf max_blob body s (some e, s', st') = Unit
  TakenIf max_blob body s (none, s', st') = Taken max_blob body s s' st'

  Taken-cons :
      (max_blob : ℕ) (chunk : Str) (body : List (Option Str)) (s s1 : Streaming)
      (r : Option Error × Streaming × State)
      → s1.hasher ≡ s.hasher ++ chunk
      → s1.total ≡ (s.total + length chunk) % 2 ^ 64
      → TakenIf max_blob body s1 r
      → TakenIf max_blob (some chunk ∷ body) s r
  Taken-cons max_blob chunk body s s1 (some e, s', st') h n t = tt
  Taken-cons max_blob chunk body s s1 (none, s', st') h n t = record {
    bytes = chunk ++ t.bytes;
    all_read = ap (option_map (λ rest. chunk ++ rest)) t.all_read;
    is_whole = t.is_whole;
    seen = t.seen ∙ ap (λ b. b ++ t.bytes) h ∙ append_assoc s.hasher chunk t.bytes;
    counted = omega (arith, t.counted, n, length-append chunk t.bytes);
    within = t.within;
  }

  pub stream_body-TakenIf :
      (max_blob : ℕ) (body : List (Option Str)) (s : Streaming) (st : State)
      → Whole s st
      → s.total < 2 ^ 64
      → is_over store key id max_blob s ≡ false
      → TakenIf max_blob body s (stream_body store key id max_blob body s st)
  unfolding stream_body fed is_over
  stream_body-TakenIf max_blob [] s st w n u = record {
    bytes = [];
    all_read = refl;
    is_whole = w;
    seen = sym (append-nil s.hasher);
    counted = omega arith;
    within = u;
  }
  stream_body-TakenIf max_blob (none ∷ body) s st w n u = tt
  stream_body-TakenIf max_blob (some chunk ∷ body) s st w n u =
      let s1 = fed store key id chunk s in
      let grown : Streaming = record s1 { buffer = s.buffer ++ chunk } in
      let whole : Whole grown st = record {
        contents = w.contents;
        stored = w.stored;
        whole = sym (append_assoc w.contents s.buffer chunk) ∙ ap (λ b. b ++ chunk) w.whole;
        numbered = w.numbered;
      } in
      elim (Bool-cases (is_over store key id max_blob s1)) [
        | inl over ↦ rw over tt
        | inr under ↦ rw under (
            Taken-cons max_blob chunk body s grown _ refl refl (
              continued grown (omega arith) under
                (upload_parts store key id (length grown.buffer) grown st)
                (upload_parts-KeptIf (length grown.buffer) grown st whole (omega arith))
                (λ s2 st2. stream_body-TakenIf max_blob body s2 st2)))
      ]
    where
      same :
          (g s2 : Streaming)
          → s2.hasher ≡ g.hasher
          → s2.total ≡ g.total
          → (r : Option Error × Streaming × State) → TakenIf max_blob body s2 r
          → TakenIf max_blob body g r
      same g s2 h t (some e, _, _) k = tt
      same g s2 h t (none, _, _) k = record {
        bytes = k.bytes;
        all_read = k.all_read;
        is_whole = k.is_whole;
        seen = k.seen ∙ ap (λ x. x ++ k.bytes) h;
        counted = k.counted ∙ ap (λ x. (x + length k.bytes) % 2 ^ 64) t;
        within = k.within;
      }

      continued :
          (g : Streaming)
          → g.total < 2 ^ 64
          → is_over store key id max_blob g ≡ false
          → (r : Bool × Streaming × State) → KeptIf g r
          → ((s2 : Streaming) (st2 : State)
              → Whole s2 st2
              → s2.total < 2 ^ 64
              → is_over store key id max_blob s2 ≡ false
              → TakenIf max_blob body s2 (stream_body store key id max_blob body s2 st2))
          → TakenIf max_blob body g
              (next_chunk store key id (stream_body store key id max_blob body) r)
      continued g fits under (false, s2, st2) k go = tt
      continued g fits under (true, s2, st2) (w2, small, h, t) go = same g s2 h t _ (
          go s2 st2 w2 (rw t fits)
            (subst (λ n. (ltb 0 max_blob && ltb max_blob n) ≡ false) (sym t) under))
