-- ===== src/Models.antt =====
-- src/ezauth/models: the rows of the database. A UUID is a number, since it is only compared; an
-- instant is a number of microseconds.
use ezauth.Prelude.{ℕ, Bool, String, Option, none, some, Eq, ◌==◌, string_eq, if◌then◌else◌}

pub data AuthAttemptType : Type 0 where
  signup signin verify_email admin_login : AuthAttemptType

pub data AuthAttemptStatus : Type 0 where
  pending consumed expired revoked : AuthAttemptStatus

AuthAttemptType-discrete : Discrete AuthAttemptType
AuthAttemptType-discrete = hlevel

AuthAttemptStatus-discrete : Discrete AuthAttemptStatus
AuthAttemptStatus-discrete = hlevel

instance unfoldable pub attempt_type_eq : Eq AuthAttemptType
unfolding AuthAttemptType-discrete
attempt_type_eq = record { dec = AuthAttemptType-discrete }

instance unfoldable pub attempt_status_eq : Eq AuthAttemptStatus
unfolding AuthAttemptStatus-discrete
attempt_status_eq = record { dec = AuthAttemptStatus-discrete }

-- The keys of `metadata_json` that the token service writes and reads.
pub record Metadata : Type 0 where
  pub code_hash : Option String
  pub attempts : Option ℕ

pub record AuthAttempt : Type 0 where
  pub id : ℕ
  pub app_id : ℕ
  pub type : AuthAttemptType
  pub email : String
  pub user_id : Option ℕ
  pub token_hash : String
  pub status : AuthAttemptStatus
  pub redirect_url : Option String
  pub expires_at : ℕ
  pub metadata_json : Metadata
  pub created_at : ℕ

pub record Session : Type 0 where
  pub id : ℕ
  pub app_id : ℕ
  pub user_id : ℕ
  pub refresh_token_hash : String
  pub created_at : ℕ
  pub expires_at : ℕ
  pub revoked_at : Option ℕ
  pub last_seen_at : Option ℕ
  pub session_version : ℕ

pub record User : Type 0 where
  pub id : ℕ
  pub app_id : ℕ
  pub email : Option String
  pub email_verified_at : Option ℕ
  pub password_hash : Option String
  pub is_bot : Bool
  pub public_key_ed25519 : Option String
  pub challenge_id : Option String

-- The columns that the modelled services read.
pub record Application : Type 0 where
  pub id : ℕ
  pub tenant_id : ℕ
  pub name : String
  pub primary_domain : Option String
  pub email_from_name : Option String
  pub email_from_address : Option String
  pub verification_method : String
  pub jwk_private_pem : String
  pub jwk_kid : String

pub record ApplicationKey : Type 0 where
  pub id : ℕ
  pub app_id : ℕ
  pub kid : String
  pub private_pem : String
  pub is_active : Bool
  pub created_at : ℕ
  pub retired_at : Option ℕ

pub record Domain : Type 0 where
  pub id : ℕ
  pub app_id : ℕ
  pub domain : String
  pub verified : Bool

pub record AuditLog : Type 0 where
  pub app_id : ℕ
  pub event_type : String
  pub user_id : Option ℕ
  pub session_id : Option ℕ
  pub ip_address : Option String
  pub user_agent : Option String

-- A text that is present and not empty, as Python's `if text:` tests it.
unfoldable pub truthy : Option String → Option String
truthy none = none
truthy (some s) = if s == "" then none else some s
