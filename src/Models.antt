-- ===== src/Models.antt =====
-- src/models.rs: users, roles, token scopes and permission levels. An enum's derived order is that
-- of its constructors' ranks.
pub mod Role
pub mod Perm
use ruskery.Common.{Bool, Str}

pub record User : Type 0 where
  pub id : Str
  pub email : Str
  pub username : Str
  pub password_hash : Str
  pub is_admin : Bool
  pub created_at : Str

pub data TokenScope : Type 0 where
  all : TokenScope
  org : Str → TokenScope
  repo : Str → TokenScope
