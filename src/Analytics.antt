-- ===== src/Analytics.antt =====
-- src/analytics.rs: usage counters in memory, and their flush into the rollup tables of
-- src/db/analytics.rs. A table is a list of rows like the counters, and whether the transaction of a
-- flush commits is an argument. The snapshot of the storage and the timer are left out.
pub mod Conservation
use ruskery.Common.{
  Bool, true, false, ◌&&◌, Option, none, some, List, [], ◌∷◌, Str, codes, str_eq, take,
  if◌then◌else◌, foldl,
}
use ruskery.Common.Int.{ℤ, pos, ◌+ℤ◌}

pub data Kind : Type 0 where
  manifest_push manifest_pull blob_upload blob_serve : Kind

unfoldable pub as_str : Kind → Str
as_str manifest_push = codes "manifest.push"
as_str manifest_pull = codes "manifest.pull"
as_str blob_upload = codes "blob.upload"
as_str blob_serve = codes "blob.serve"

-- Sums of a table or of the counters that leave the range of an `i64` are left out.
pub record Counter : Type 0 where
  pub count : ℤ
  pub bytes : ℤ

-- The day, the organization, the repository or the user, and the kind.
pub record Key : Type 0 where
  pub day : Str
  pub org_id : Str
  pub name : Str
  pub kind : Str

unfoldable pub same_key : Key → Key → Bool
same_key j k =
    str_eq j.day k.day
    && (str_eq j.org_id k.org_id && (str_eq j.name k.name && str_eq j.kind k.kind))

abbrev pub Counters : Type 0
Counters = List (Key × Counter)

abbrev pub plus : Counter → Counter → Counter
plus c d = record { count = c.count +ℤ d.count; bytes = c.bytes +ℤ d.bytes }

-- `entry(key).and_modify(…).or_insert(…)`, and the upsert of a table.
unfoldable pub add : Key → Counter → Counters → Counters
add key c [] = (key, c) ∷ []
add key c (e ∷ es) =
    let rest = add key c es in if same_key e.0 key then (e.0, plus e.1 c) ∷ es else e ∷ rest

unfoldable pub bump : Counters → Key → ℤ → Counters
bump m key bytes = add key (record { count = pos 1; bytes = bytes }) m

-- `requeue`, and the loop of `flush_batch`.
unfoldable pub add_all : Counters → Counters → Counters
add_all [] m = m
add_all (e ∷ es) m = add_all es (add e.0 e.1 m)

pub record UsageCollector : Type 0 where
  pub enabled : Bool
  pub repo : Counters
  pub user : Counters

pub record UsageTables : Type 0 where
  pub usage_daily : Counters
  pub usage_user_daily : Counters

unfoldable pub today : Str → Str
today now = take 10 now

record_user : Str → Str → Option Str → Str → ℤ → Counters → Counters
record_user day org_id none kind bytes m = m
record_user day org_id (some user_id) kind bytes m =
    bump m (record { day = day; org_id = org_id; name = user_id; kind = kind }) bytes

-- `record`
unfoldable pub record_event :
    Str → UsageCollector → Str → Str → Option Str → Kind → ℤ → UsageCollector
unfolding record_user
record_event now u org_id repo user_id kind bytes =
    if u.enabled
    then record u {
      repo =
          bump u.repo (record { day = today now; org_id = org_id; name = repo; kind = as_str kind })
            bytes;
      user = record_user (today now) org_id user_id (as_str kind) bytes u.user;
    }
    else u

unfoldable pub flush_batch : Bool → Counters → Counters → UsageTables → Bool × UsageTables
flush_batch commits [] [] t = (true, t)
flush_batch commits repo_rows user_rows t =
    if commits
    then (
      true,
      record {
        usage_daily = add_all repo_rows t.usage_daily;
        usage_user_daily = add_all user_rows t.usage_user_daily;
      },
    )
    else (false, t)

-- The counters are drained first, and merged back if the transaction fails.
unfoldable pub flush : Bool → UsageCollector → UsageTables → Bool × UsageCollector × UsageTables
flush commits u t =
    let drained = record u { repo = []; user = [] } in
    let (done, t') = flush_batch commits u.repo u.user t in
    if done then (true, drained, t') else (
      false,
      record drained { repo = add_all u.repo drained.repo; user = add_all u.user drained.user },
      t',
    )
