-- ===== src/Registry/Uploads/Session/Bytes.antt =====
-- The bytes of a session: those of its stored parts and of its buffer are what the hash has seen.
use ruskery.Common.{
  ℕ, zero, suc, ◌+◌, ◌≤◌, ◌<◌, ◌≡◌, refl, sym, ◌∙◌, ap, ◌++◌, Option, none, some, List, [], ◌∷◌,
  Str, length, leb, arith, All, take-append-drop, length-append, length-take_of_le, append_assoc,
  append-nil, Option-cases, Bool-cases, inl, inr,
}
use ruskery.Error.{Result, ok, err, other}
use ruskery.Storage.{ObjectStore, CompletedPart, parts_content}
use ruskery.Registry.Uploads.{UploadSession, part_size}
use ruskery.Registry.Uploads.Session.{full_part, after_part, flush_part, flush_loop, write}

pub parts_content-append :
    (f : CompletedPart → Option Str) (ps : List CompletedPart) (p : CompletedPart) (c b : Str)
    → parts_content f ps ≡ some c
    → f p ≡ some b
    → parts_content f (ps ++ p ∷ []) ≡ some (c ++ b)
parts_content-append f [] p c b h k = ground (arith, append-nil b)
parts_content-append f (q ∷ ps) p c b h k = elim (Option-cases (f q)) [
  | inl e ↦ absurd (ground arith)
  | inr (x, e) ↦ elim (Option-cases (parts_content f ps)) [
    | inl e' ↦ absurd (ground arith)
    | inr (y, e') ↦
        let ih = parts_content-append f ps p y b e' k in
        let both : c ≡ x ++ y = ground arith in ground (arith, ih, append_assoc x y b)
  ]
]

module _ {State : Type 0} (store : ObjectStore State) where
  open store use {part, upload_part, upload_part_keeps, upload_part_stored}

  pub parts_content_keeps :
      (key id : Str) (n : ℕ) (body : Str) (st : State) (ps : List CompletedPart) (c : Str)
      → All (λ p. p.part_number < n) ps
      → parts_content (λ p. part id p st) ps ≡ some c
      → parts_content (λ p. part id p (upload_part key id n body st).1) ps ≡ some c
  parts_content_keeps key id n body st [] c a h = h
  parts_content_keeps key id n body st (p ∷ ps) c a h = elim (Option-cases (part id p st)) [
    | inl e ↦ absurd (ground arith)
    | inr (x, e) ↦ elim (Option-cases (parts_content (λ p. part id p st) ps)) [
      | inl e' ↦ absurd (ground arith)
      | inr (y, e') ↦
          let ih = parts_content_keeps key id n body st ps y a.1 e' in
          let kept = upload_part_keeps key id n body st p x (omega (arith, a.0)) e in ground arith
    ]
  ]

  -- No byte is missing: the stored parts and the buffer are what the hash has been fed.
  pub record IsWhole (s : UploadSession) (st : State) : Type 0 where
    pub contents : Str
    pub stored : parts_content (λ p. part s.s3_upload_id p st) s.parts ≡ some contents
    pub whole : contents ++ s.buffer ≡ s.hasher
    pub numbered : All (λ p. p.part_number < s.next_part) s.parts

  -- A part that left the buffer was not stored, though the hash has seen it.
  pub record IsTorn (s : UploadSession) (st : State) : Type 0 where
    pub contents : Str
    pub lost : Str
    pub stored : parts_content (λ p. part s.s3_upload_id p st) s.parts ≡ some contents
    pub size : length lost ≡ part_size
    pub torn : contents ++ lost ++ s.buffer ≡ s.hasher

All-lt_suc :
    (n : ℕ) (ps : List CompletedPart) (tag : Str)
    → All (λ p. p.part_number < n) ps
    → All (λ p. p.part_number < n + 1) (ps ++ record { part_number = n; e_tag = tag } ∷ [])
All-lt_suc n [] tag a = omega arith
All-lt_suc n (p ∷ ps) tag a = (omega (arith, a.0), All-lt_suc n ps tag a.1)

full_part-append-after_part : (b : Str) → full_part b ++ after_part b ≡ b
unfolding full_part after_part
full_part-append-after_part b = take-append-drop part_size b

length-full_part : (b : Str) → part_size ≤ length b → length (full_part b) ≡ part_size
unfolding full_part
length-full_part b h = length-take_of_le part_size b h

pub length-after_part : (b : Str) → part_size ≤ length b → length (after_part b) < length b
length-after_part b h = omega (
  arith,
  length-full_part b h,
  ap (length {A = ℕ}) (full_part-append-after_part b),
  length-append (full_part b) (after_part b),
)

module _ {State : Type 0} (store : ObjectStore State) (s : UploadSession) (st : State) where
  open store use {part, upload_part, upload_part_keeps, upload_part_stored}

  unfoldable pub drained : UploadSession
  drained = record s { buffer = after_part s.buffer }

  unfoldable pub call : Option Str × State
  call = upload_part s.temp_key s.s3_upload_id s.next_part (full_part s.buffer) st

  unfoldable pub flushed : Str → UploadSession
  unfolding drained
  flushed tag = record drained {
    parts = s.parts ++ record { part_number = s.next_part; e_tag = tag } ∷ [];
    next_part = s.next_part + 1;
  }

  flush_part_stored :
      (tag : Str) → call.0 ≡ some tag → flush_part store s st ≡ (ok tt, flushed tag, call.1)
  unfolding flush_part call flushed
  flush_part_stored tag e = rw (e, flush_part)

  flush_part_failed : call.0 ≡ none → flush_part store s st ≡ (err other, drained, call.1)
  unfolding flush_part call drained
  flush_part_failed e = rw (e, flush_part)

  pub flushed-IsWhole :
      IsWhole store s st → (tag : Str) → call.0 ≡ some tag → IsWhole store (flushed tag) call.1
  unfolding flushed call
  flushed-IsWhole w tag e = record {
    contents = w.contents ++ full_part s.buffer;
    stored =
        parts_content-append _ s.parts _ w.contents (full_part s.buffer)
          (parts_content_keeps store s.temp_key s.s3_upload_id s.next_part (full_part s.buffer) st
            s.parts w.contents w.numbered w.stored)
          (upload_part_stored s.temp_key s.s3_upload_id s.next_part (full_part s.buffer) st tag e);
    whole =
        append_assoc w.contents (full_part s.buffer) (after_part s.buffer)
        ∙ ap (λ b. w.contents ++ b) (full_part-append-after_part s.buffer)
        ∙ w.whole;
    numbered = All-lt_suc s.next_part s.parts tag w.numbered;
  }

  drained-IsTorn : IsWhole store s st → part_size ≤ length s.buffer → IsTorn store drained call.1
  unfolding drained call
  drained-IsTorn w n = record {
    contents = w.contents;
    lost = full_part s.buffer;
    stored =
        parts_content_keeps store s.temp_key s.s3_upload_id s.next_part (full_part s.buffer) st
          s.parts w.contents w.numbered w.stored;
    size = length-full_part s.buffer n;
    torn =
        append_assoc w.contents (full_part s.buffer) (after_part s.buffer)
        ∙ ap (λ b. w.contents ++ b) (full_part-append-after_part s.buffer)
        ∙ w.whole;
  }

-- What a write leaves: all bytes and a buffer below a part's size, or an error and a lost part.
pub data Written {State : Type 0} (store : ObjectStore State) (hasher : Str)
    (r : Result (Unit {0}) × UploadSession × State) : Type 0 where
  all_kept :
      r.0 ≡ ok tt
      → IsWhole store r.1 r.2
      → length r.1.buffer < part_size
      → r.1.hasher ≡ hasher
      → Written store hasher r
  part_lost : r.0 ≡ err other → IsTorn store r.1 r.2 → r.1.hasher ≡ hasher → Written store hasher r

flush_loop-Written :
    {State : Type 0} (store : ObjectStore State) (fuel : ℕ) (s : UploadSession) (st : State)
    → IsWhole store s st
    → length s.buffer ≤ fuel
    → Written store s.hasher (flush_loop store fuel s st)
unfolding flush_loop drained flushed
flush_loop-Written store zero s st w n = all_kept refl w (omega arith) refl
flush_loop-Written store (suc fuel) s st w n = elim (Bool-cases (leb part_size (length s.buffer))) [
  | inl big ↦ rw big (elim (Option-cases (call store s st).0) [
    | inl e ↦
        rw (flush_part_failed store s st e)
          (part_lost refl (drained-IsTorn store s st w (ground arith)) refl)
    | inr (tag, e) ↦ rw (flush_part_stored store s st tag e) (
        flush_loop-Written store fuel (flushed store s st tag) (call store s st).1
          (flushed-IsWhole store s st w tag e)
          (omega (arith, length-after_part s.buffer (ground arith))))
  ])
  | inr small ↦ rw small (all_kept refl w (ground arith) refl)
]

-- A write to a session that has all its bytes either stores every part that fills, keeps all bytes
-- and leaves less than a part in the buffer, or fails with a part lost that the hash has seen. In
-- both cases the hash has seen the chunk.
pub write-Written :
    {State : Type 0} (store : ObjectStore State) (now : ℕ) (chunk : Str) (s : UploadSession)
    (st : State)
    → IsWhole store s st
    → Written store (s.hasher ++ chunk) (write store now chunk s st)
unfolding write
write-Written store now chunk s st w =
    flush_loop-Written store (length (s.buffer ++ chunk)) _ st
      (record {
        contents = w.contents;
        stored = w.stored;
        whole = sym (append_assoc w.contents s.buffer chunk) ∙ ap (λ b. b ++ chunk) w.whole;
        numbered = w.numbered;
      })
      (omega arith)
