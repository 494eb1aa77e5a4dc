-- ===== src/Db/Settings.antt =====
-- src/db/settings.rs: the table of settings.
use ruskery.Common.{
  ℕ, Bool, not, ◌||◌, Option, none, some, List, [], ◌∷◌, Str, codes, str_eq, if◌then◌else◌,
  find_row, option_map, unwrap_or, parse_u64, trim,
}
use ruskery.Error.{Result, ok, err, other}
use ruskery.Db.{Db, Setting}

unfoldable pub get : Db → Str → Option Str
get db key =
    option_map (λ (s : Setting). s.value) (find_row (λ (s : Setting). str_eq s.key key) db.settings)

-- `ON CONFLICT(key) DO UPDATE SET value`
upsert_setting : Str → Str → List Setting → List Setting
upsert_setting key value [] = record { key = key; value = value } ∷ []
upsert_setting key value (s ∷ ss) =
    if str_eq s.key key then record s { value = value } ∷ ss else s ∷ upsert_setting key value ss

unfoldable pub set : Db → Str → Str → Db
unfolding upsert_setting
set db key value = record db { settings = upsert_setting key value db.settings }

-- `StorageConfig` of src/config.rs.
pub record StorageConfig : Type 0 where
  pub endpoint : Str
  pub bucket : Str
  pub region : Str
  pub access_key_id : Str
  pub secret_access_key : Str
  pub presign_ttl_secs : ℕ
  pub force_path_style : Bool
  pub cdn_url : Str

abbrev or_base : Option Str → Str → Str
or_base v base = unwrap_or v base

-- A time that is no number below 2 ^ 64 is passed over.
abbrev ttl_or : Option Str → ℕ → ℕ
ttl_or none base = base
ttl_or (some v) base = elim (parse_u64 v) [ none ↦ base | some n ↦ n ]

abbrev flag_or : Option Str → Bool → Bool
flag_or none base = base
flag_or (some v) base = str_eq v (codes "true") || str_eq v (codes "1")

unfoldable pub effective_storage : Db → StorageConfig → StorageConfig
effective_storage db base = record {
  endpoint = or_base (get db (codes "storage_endpoint")) base.endpoint;
  bucket = or_base (get db (codes "storage_bucket")) base.bucket;
  region = or_base (get db (codes "storage_region")) base.region;
  access_key_id = or_base (get db (codes "storage_access_key_id")) base.access_key_id;
  secret_access_key = or_base (get db (codes "storage_secret_access_key")) base.secret_access_key;
  presign_ttl_secs = ttl_or (get db (codes "storage_presign_ttl_secs")) base.presign_ttl_secs;
  force_path_style = flag_or (get db (codes "storage_force_path_style")) base.force_path_style;
  cdn_url = or_base (get db (codes "storage_cdn_url")) base.cdn_url;
}

unfoldable pub effective_contact_email : Db → Str → Str
effective_contact_email db base = elim (get db (codes "tls_contact_email")) [
  | none ↦ trim base
  | some v ↦ if str_eq (trim v) [] then trim base else trim v
]

-- `encode` and `decode` are the base64 crate's, and `fresh` are 32 random bytes.
unfoldable pub ensure_secret_key :
    (Str → Str) → (Str → Option Str) → Str → Db → Str → Result Str × Db
ensure_secret_key encode decode fresh db configured =
    if not (str_eq configured []) then (ok configured, db) else elim (get db (codes "secret_key")) [
      | some stored ↦ (elim (decode stored) [ none ↦ err other | some key ↦ ok key ], db)
      | none ↦ (ok fresh, set db (codes "secret_key") (encode fresh))
    ]
