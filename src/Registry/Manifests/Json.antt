-- ===== src/Registry/Manifests/Json.antt =====
-- The references that src/registry/manifests.rs reads from a manifest's JSON. An object is the list of
-- its members, with no name twice, as `serde_json` builds it.
use ruskery.Common.{
  ◌++◌, Option, none, some, List, [], ◌∷◌, Str, codes, str_eq, if◌then◌else◌, unwrap_or, option_map,
  and_then, or_else, filter_map,
}

mutual
  pub data Value : Type 0 where
    text : Str → Value
    array : Items → Value
    object : Members → Value
    scalar : Value

  pub data Items : Type 0 where
    nil : Items
    cons : Value → Items → Items

  pub data Members : Type 0 where
    end : Members
    member : Str → Value → Members → Members

lookup : Str → Members → Option Value
lookup k end = none
lookup k (member j v ms) = if str_eq j k then some v else lookup k ms

-- `v.get(name)`
unfoldable pub field : Str → Value → Option Value
unfolding lookup
field k (object ms) = lookup k ms
field k (text _) = none
field k (array _) = none
field k scalar = none

unfoldable pub as_str : Value → Option Str
as_str (text s) = some s
as_str (array _) = none
as_str (object _) = none
as_str scalar = none

items : Items → List Value
items nil = []
items (cons v vs) = v ∷ items vs

unfoldable pub as_array : Value → Option (List Value)
unfolding items
as_array (array vs) = some (items vs)
as_array (text _) = none
as_array (object _) = none
as_array scalar = none

digest_of : Value → Option Str
unfolding field as_str
digest_of v = and_then (field (codes "digest") v) as_str

unfoldable pub array_digests : Str → Value → List Str
unfolding field as_array digest_of
array_digests name v =
    unwrap_or (option_map (filter_map digest_of) (and_then (field name v) as_array)) []

unfoldable pub blob_refs : Value → List Str
unfolding array_digests
blob_refs v =
    (elim (and_then (field (codes "config") v) digest_of) [ none ↦ [] | some d ↦ d ∷ [] ])
    ++ array_digests (codes "layers") v

unfoldable pub child_refs : Value → List Str
unfolding array_digests
child_refs v = array_digests (codes "manifests") v

unfoldable pub subject_of : Value → Option (Str × Str)
unfolding field as_str digest_of
subject_of v =
    option_map
      (λ subject. (
        subject,
        unwrap_or
            (or_else (and_then (field (codes "artifactType") v) as_str) (
              and_then (field (codes "config") v)
                (λ c. and_then (field (codes "mediaType") c) as_str)))
            [],
      ))
      (and_then (field (codes "subject") v) digest_of)
