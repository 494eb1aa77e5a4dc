-- ===== src/Db.antt =====
-- The database of src/db, with the tables of the migrations as lists of rows. A statement of the
-- source is a function on this state, and `INSERT … ON CONFLICT` looks at the table's primary key.
-- The clock and the random identifiers are arguments of the statements that read them.
pub mod Orgs
pub mod Content
pub mod Manifests
pub mod Users
pub mod Audit
pub mod Settings
use ruskery.Common.{ℕ, Option, List, Str}
use ruskery.Common.Int.{ℤ}
use ruskery.Models.{User}

pub record Org : Type 0 where
  pub id : Str
  pub slug : Str
  pub name : Str
  pub created_at : Str
  pub storage_quota_bytes : Option ℤ
  pub upstream_url : Option Str
  pub upstream_username : Option Str
  pub upstream_password : Option Str

pub record OrgMember : Type 0 where
  pub org_id : Str
  pub user_id : Str
  pub role : Str

pub record Repository : Type 0 where
  pub id : Str
  pub org_id : Str
  pub name : Str
  pub created_at : Str
  pub updated_at : Str

pub record Team : Type 0 where
  pub id : Str
  pub org_id : Str
  pub slug : Str
  pub name : Str
  pub created_at : Str

pub record TeamMember : Type 0 where
  pub team_id : Str
  pub user_id : Str
  pub role : Str

pub record TeamRepoPerm : Type 0 where
  pub team_id : Str
  pub repo_id : Str
  pub permission : Str

pub record Blob : Type 0 where
  pub org_id : Str
  pub digest : Str
  pub size : ℤ
  pub created_at : Str

pub record Manifest : Type 0 where
  pub repo_id : Str
  pub digest : Str
  pub media_type : Str
  pub size : ℤ
  pub content : Str
  pub created_at : Str

pub record ManifestBlob : Type 0 where
  pub repo_id : Str
  pub manifest_digest : Str
  pub blob_digest : Str

pub record ManifestManifest : Type 0 where
  pub repo_id : Str
  pub manifest_digest : Str
  pub child_digest : Str

pub record ManifestReferrer : Type 0 where
  pub repo_id : Str
  pub subject_digest : Str
  pub referrer_digest : Str
  pub artifact_type : Str

pub record Tag : Type 0 where
  pub repo_id : Str
  pub name : Str
  pub manifest_digest : Str
  pub updated_at : Str

pub record ImagePull : Type 0 where
  pub org_id : Str
  pub repo : Str
  pub digest : Str
  pub count : ℕ

pub record Session : Type 0 where
  pub id : Str
  pub user_id : Str
  pub created_at : Str
  pub expires_at : Str

pub record AccessToken : Type 0 where
  pub id : Str
  pub user_id : Str
  pub name : Str
  pub token_prefix : Str
  pub token_hash : Str
  pub last_used_at : Option Str
  pub expires_at : Option Str
  pub created_at : Str
  pub scope_kind : Str
  pub scope_org_id : Option Str
  pub scope_repo_id : Option Str
  pub max_perm : Str

pub record Setting : Type 0 where
  pub key : Str
  pub value : Str

pub record AuditRow : Type 0 where
  pub ts : Str
  pub actor_user_id : Option Str
  pub org_id : Option Str
  pub action : Str
  pub target : Option Str
  pub detail : Option Str

pub record Db : Type 0 where
  pub users : List User
  pub sessions : List Session
  pub access_tokens : List AccessToken
  pub orgs : List Org
  pub org_members : List OrgMember
  pub repositories : List Repository
  pub teams : List Team
  pub team_members : List TeamMember
  pub team_repo_perms : List TeamRepoPerm
  pub blobs : List Blob
  pub manifests : List Manifest
  pub manifest_blobs : List ManifestBlob
  pub manifest_manifests : List ManifestManifest
  pub manifest_referrers : List ManifestReferrer
  pub tags : List Tag
  pub image_pulls : List ImagePull
  pub audit_log : List AuditRow
  pub settings : List Setting
