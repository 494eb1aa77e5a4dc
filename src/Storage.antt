-- ===== src/Storage.antt =====
-- src/storage/mod.rs: the keys of the objects, and the object store (Tigris S3, reached through the
-- AWS SDK) as an interface: its calls on a state of its own, two views of that state, and what the
-- S3 documentation promises of a call that succeeds. What a failed call leaves is
-- open, but that the other parts of an upload stay.
pub mod Keys
use ruskery.Common.{
  ℕ, ◌≡◌, ◌≢◌, ◌++◌, Bool, true, Option, none, some, List, [], ◌∷◌, Str, codes, split_once,
  unwrap_or, and_then, option_map,
}

unfoldable pub blob_key : Str → Str → Str
blob_key org_id digest =
    let (algo, hex) = unwrap_or (split_once b':' digest) (codes "sha256", digest) in
    codes "orgs/" ++ (org_id ++ (codes "/blobs/" ++ (algo ++ (codes "/" ++ hex))))

unfoldable pub upload_key : Str → Str → Str
upload_key org_id upload_id = codes "orgs/" ++ (org_id ++ (codes "/_uploads/" ++ upload_id))

pub record CompletedPart : Type 0 where
  pub part_number : ℕ
  pub e_tag : Str

-- The bytes of a list of parts, in order, by the view `part` of one upload.
abbrev pub parts_content : (CompletedPart → Option Str) → List CompletedPart → Option Str
parts_content part [] = some []
parts_content part (p ∷ ps) =
    and_then (part p) (λ b. option_map (λ rest. b ++ rest) (parts_content part ps))

pub record ObjectStore (State : Type 0) : Type 0 where
  -- The calls; `none` and `false` are errors.
  pub create_multipart : Str → State → Option Str × State
  pub upload_part : Str → Str → ℕ → Str → State → Option Str × State
  pub complete_multipart : Str → Str → List CompletedPart → State → Bool × State
  pub abort_multipart : Str → Str → State → Bool × State
  pub put : Str → Str → State → Bool × State
  pub copy : Str → Str → State → Bool × State
  pub delete : Str → State → Bool × State
  -- The views: the object under a key, and the bytes of a part of a multipart upload.
  pub object : Str → State → Option Str
  pub part : Str → CompletedPart → State → Option Str
  pub upload_part_stored :
      (key id : Str) (n : ℕ) (body : Str) (s : State) (tag : Str)
      → (upload_part key id n body s).0 ≡ some tag
      → part id (record { part_number = n; e_tag = tag }) (upload_part key id n body s).1
        ≡ some body
  pub upload_part_keeps :
      (key id : Str) (n : ℕ) (body : Str) (s : State) (p : CompletedPart) (bytes : Str)
      → p.part_number ≢ n
      → part id p s ≡ some bytes
      → part id p (upload_part key id n body s).1 ≡ some bytes
  pub complete_stored :
      (key id : Str) (ps : List CompletedPart) (s : State) (bytes : Str)
      → parts_content (λ p. part id p s) ps ≡ some bytes
      → (complete_multipart key id ps s).0 ≡ true
      → object key (complete_multipart key id ps s).1 ≡ some bytes
  pub put_stored :
      (key body : Str) (s : State)
      → (put key body s).0 ≡ true
      → object key (put key body s).1 ≡ some body
  pub copy_stored :
      (source target : Str) (s : State)
      → (copy source target s).0 ≡ true
      → object target (copy source target s).1 ≡ object source s
  pub delete_keeps :
      (key other : Str) (s : State) → key ≢ other → object other (delete key s).1 ≡ object other s
