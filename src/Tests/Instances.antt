-- ===== src/Tests/Instances.antt =====
-- A cache and an object store that satisfy the interfaces of Cache.antt and Storage.antt.
use ruskery.Common.{
  ℕ, ◌≡◌, ◌≢◌, refl, sym, Bool, true, false, ◌&&◌, Option, none, some, List, [], ◌∷◌, map, Str,
  codes, str_eq, str_eq_iff, str_eq_refl, arith, In, ◌==◌, if◌then◌else◌,
}
use ruskery.Cache.{Lru}
use ruskery.Storage.{ObjectStore, CompletedPart, parts_content}

module _ {V : Type 0} where
  unfoldable pub look : Str → List (Str × V) → Option V
  look k [] = none
  look k (e ∷ es) = if str_eq e.0 k then some e.1 else look k es

  unfoldable pub without : Str → List (Str × V) → List (Str × V)
  without k [] = []
  without k (e ∷ es) = let rest = without k es in if str_eq e.0 k then rest else e ∷ rest

  pub look-without_self : (k : Str) (es : List (Str × V)) → look k (without k es) ≡ none
  unfolding look without
  look-without_self k [] = refl
  look-without_self k (e ∷ es) = ground (arith, look-without_self k es)

  pub look-without_ne :
      (j k : Str) (es : List (Str × V)) → j ≢ k → look j (without k es) ≡ look j es
  unfolding look without
  look-without_ne j k [] h = refl
  look-without_ne j k (e ∷ es) h =
      ground (arith, look-without_ne j k es h, str_eq_iff e.0 k, str_eq_iff e.0 j)

  pub look_self : (k : Str) (v : V) (es : List (Str × V)) → look k ((k, v) ∷ es) ≡ some v
  unfolding look
  look_self k v es = rw (str_eq_refl k)

  pub look_ne : (j k : Str) (v : V) (es : List (Str × V)) → j ≢ k → look j ((k, v) ∷ es) ≡ look j es
  unfolding look
  look_ne j k v es h = ground (arith, str_eq_iff k j)

  pub In-keys :
      (k : Str) (v : V) (es : List (Str × V)) → look k es ≡ some v → In k (map (λ e. e.0) es)
  unfolding look
  In-keys k v [] h = ground arith
  In-keys k v (e ∷ es) h = ground (arith, In-keys k v es, str_eq_iff e.0 k)

-- A cache that never evicts.
abbrev pub listed : (V : Type 0) → Lru V (List (Str × V))
listed V = record {
  get = λ k c. (look k c, c);
  put = λ k v c. (k, v) ∷ c;
  pop = without;
  keys = map (λ e. e.0);
  peek = look;
  get-peek = λ k c. refl;
  peek-get = λ j k c. refl;
  peek-put_self = look_self;
  peek-put_ne = λ j k v x c h e. ground (arith, look_ne j k v c h, e);
  peek-pop_self = look-without_self;
  peek-pop_ne = λ j k c h. look-without_ne j k c h;
  In-keys = In-keys;
}

-- A part that was uploaded, with the upload that it belongs to.
pub record StoredPart : Type 0 where
  pub upload : Str
  pub number : ℕ
  pub content : Str

pub record Bucket : Type 0 where
  pub objects : List (Str × Str)
  pub parts : List StoredPart

unfoldable pub find_part : Str → CompletedPart → List StoredPart → Option Str
find_part id p [] = none
find_part id p (q ∷ qs) =
    if str_eq q.upload id && q.number == p.part_number then some q.content else find_part id p qs

unfoldable pub set_object : Str → Option Str → Bucket → Bucket
set_object key none b = b
set_object key (some content) b = record b { objects = (key, content) ∷ b.objects }

pub find_part_self :
    (id : Str) (n : ℕ) (tag content : Str) (qs : List StoredPart)
    → find_part id
        (record { part_number = n; e_tag = tag })
        (record { upload = id; number = n; content = content } ∷ qs)
      ≡ some content
unfolding find_part
find_part_self id n tag content qs = ground (arith, str_eq_refl id)

pub find_part_other :
    (id : Str) (n : ℕ) (p : CompletedPart) (content bytes : Str) (qs : List StoredPart)
    → p.part_number ≢ n
    → find_part id p qs ≡ some bytes
    → find_part id p (record { upload = id; number = n; content = content } ∷ qs) ≡ some bytes
unfolding find_part
find_part_other id n p content bytes qs h e = ground arith

pub completed :
    (key : Str) (id : Str) (ps : List CompletedPart) (b : Bucket) (bytes : Str)
    → parts_content (λ p. find_part id p b.parts) ps ≡ some bytes
    → look key (set_object key (parts_content (λ p. find_part id p b.parts) ps) b).objects
      ≡ some bytes
unfolding set_object
completed key id ps b bytes e = rw e (look_self key bytes b.objects)

unfoldable pub copy_object : Str → Option Str → Bucket → Bool × Bucket
copy_object target none b = (false, b)
copy_object target (some content) b = (true, set_object target (some content) b)

pub copied :
    (target : Str) (found : Option Str) (b : Bucket)
    → (copy_object target found b).0 ≡ true
    → look target (copy_object target found b).1.objects ≡ found
unfolding copy_object set_object
copied target none b h = ground arith
copied target (some content) b h = look_self target content b.objects

-- A store whose calls succeed, except that a copy needs its source.
abbrev pub bucket_store : ObjectStore Bucket
bucket_store = record {
  create_multipart = λ key b. (some key, b);
  upload_part = λ key id n body b. (
    some (codes "etag"),
    record b { parts = record { upload = id; number = n; content = body } ∷ b.parts },
  );
  complete_multipart =
      λ key id ps b. (true, set_object key (parts_content (λ p. find_part id p b.parts) ps) b);
  abort_multipart = λ key id b. (true, b);
  put = λ key body b. (true, record b { objects = (key, body) ∷ b.objects });
  copy = λ source target b. copy_object target (look source b.objects) b;
  delete = λ key b. (true, record b { objects = without key b.objects });
  object = λ key b. look key b.objects;
  part = λ id p b. find_part id p b.parts;
  upload_part_stored = λ key id n body b tag e. find_part_self id n tag body b.parts;
  upload_part_keeps = λ key id n body b p bytes h e. find_part_other id n p body bytes b.parts h e;
  complete_stored = λ key id ps b bytes e h. completed key id ps b bytes e;
  put_stored = λ key body b h. look_self key body b.objects;
  copy_stored = λ source target b h. copied target (look source b.objects) b h;
  delete_keeps = λ key other b h. look-without_ne other key b.objects (λ e. h (sym e));
}

-- A store that takes no part.
abbrev pub full_store : ObjectStore Bucket
full_store = record bucket_store {
  upload_part = λ key id n body b. (none, b);
  upload_part_stored = λ key id n body b tag e. absurd (ground arith);
  upload_part_keeps = λ key id n body b p bytes h e. e;
}
