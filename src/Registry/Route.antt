-- ===== src/Registry/Route.antt =====
-- The routes of src/registry/mod.rs: the operation that a path names, the repository names that are
-- accepted, and the permission that an operation needs.
use ruskery.Common.{
  ℕ, Bool, false, not, ◌&&◌, ◌||◌, Option, none, some, [], Str, codes, str_eq, strip_suffix, rfind,
  split, ltb, leb, ◌==◌, if◌then◌else◌, all, option_map, and_then, or_else, length,
}
use ruskery.Models.Perm.{Permission, pull, push, full}

pub data Method : Type 0 where
  get head put delete post patch other_method : Method

pub data Op : Type 0 where
  tags_list : Op
  manifest : Str → Op
  referrers : Str → Op
  blob : Str → Op
  upload_start : Op
  upload_session : Str → Op

pub record Parsed : Type 0 where
  pub name : Str
  pub op : Op

name_byte : ℕ → Bool
name_byte c =
    leb b'a' c && leb c b'z'
    || (leb b'0' c && leb c b'9' || (c == b'.' || (c == b'_' || c == b'-')))

valid_segment : Str → Bool
unfolding name_byte
valid_segment s = not (str_eq s []) && (leb (length s) 255 && all name_byte s)

unfoldable pub valid_repo_name : Str → Bool
unfolding valid_segment
valid_repo_name name =
    let segs = split b'/' name in if ltb (length segs) 2 then false else all valid_segment segs

-- `rest.rfind(marker)`, with the name before it and the argument after it, neither empty.
split_at_last : Str → Str → Option (Str × Str)
split_at_last marker rest =
    and_then (rfind marker rest)
      (λ p. if not (str_eq p.0 []) && not (str_eq p.1 []) then some p else none)

-- `rest.strip_suffix(suffix)` with a name before it that is not empty.
start_of : Str → Str → Option Parsed
start_of suffix rest =
    and_then (strip_suffix suffix rest)
      (λ name. if str_eq name [] then none else some (record { name = name; op = upload_start }))

abbrev operand : (Str → Op) → Str × Str → Parsed
operand f p = record { name = p.0; op = f p.1 }

unfoldable pub parse_route : Str → Option Parsed
unfolding split_at_last start_of
parse_route rest =
    or_else
      (option_map (λ name. record { name = name; op = tags_list })
        (strip_suffix (codes "/tags/list") rest))
      (or_else (option_map (operand referrers) (split_at_last (codes "/referrers/") rest)) (
        or_else (option_map (operand manifest) (split_at_last (codes "/manifests/") rest)) (
          or_else (start_of (codes "/blobs/uploads/") rest) (
            or_else (start_of (codes "/blobs/uploads") rest) (
              or_else
                (option_map (operand upload_session) (split_at_last (codes "/blobs/uploads/") rest))
                (option_map (operand blob) (split_at_last (codes "/blobs/") rest)))))))

-- `none` is `405`.
unfoldable pub required : Op → Method → Option Permission
required tags_list m = some pull
required (referrers _) m = some pull
required (manifest _) get = some pull
required (manifest _) head = some pull
required (manifest _) put = some push
required (manifest _) delete = some full
required (manifest _) _ = none
required (blob _) get = some pull
required (blob _) head = some pull
required (blob _) delete = some full
required (blob _) _ = none
required upload_start m = some push
required (upload_session _) m = some push

unfoldable pub action : Permission → Str
action pull = codes "pull"
action push = codes "push"
action _ = codes "delete"
