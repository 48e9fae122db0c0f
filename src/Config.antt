-- ===== src/Config.antt =====
-- src/ezauth/config.py: the settings that the modelled services read, with the values that they
-- have when the environment sets none. A limit is the list of windows that `parse_limits` makes
-- of its "window_seconds:max_count" text.
use ezauth.Prelude.{ℕ, ◌*◌, Bool, true, String, List, [], ◌∷◌}

pub record Settings : Type 0 where
  pub public_base_url : String
  pub jwt_access_token_expire_minutes : ℕ
  pub jwt_refresh_token_expire_days : ℕ
  pub max_signin_token_lifetime_seconds : ℕ
  pub signup_rate_limit_ip : List (ℕ × ℕ)
  pub signup_rate_limit_email : List (ℕ × ℕ)
  pub signin_rate_limit_ip : List (ℕ × ℕ)
  pub signin_rate_limit_email : List (ℕ × ℕ)
  pub code_verify_rate_limit_ip : List (ℕ × ℕ)
  pub code_verify_rate_limit_email : List (ℕ × ℕ)
  pub max_code_attempts : ℕ
  pub verification_token_expire_minutes : ℕ
  pub magic_link_expire_minutes : ℕ
  pub hashcash_difficulty : ℕ
  pub hashcash_challenge_ttl : ℕ
  pub hashcash_time_cost : ℕ
  pub hashcash_memory_cost : ℕ
  pub hashcash_parallelism : ℕ
  pub hashcash_hash_len : ℕ
  pub bot_auth_timestamp_tolerance : ℕ
  pub s3_bucket_name : String
  pub object_storage_max_object_bytes : ℕ
  pub object_storage_limit_bytes : ℕ
  pub auth_attempt_retention_days : ℕ
  pub expired_session_retention_days : ℕ
  pub audit_log_retention_days : ℕ
  pub billing_enabled : Bool
  pub billing_welcome_credit_cents : ℕ

abbrev pub defaults : Settings
defaults = record {
  public_base_url = "http://localhost:8000";
  jwt_access_token_expire_minutes = 15;
  jwt_refresh_token_expire_days = 30;
  max_signin_token_lifetime_seconds = 86400;
  signup_rate_limit_ip = (60, 10) ∷ [];
  signup_rate_limit_email = (300, 1) ∷ [];
  signin_rate_limit_ip = (60, 10) ∷ [];
  signin_rate_limit_email = (300, 3) ∷ [];
  code_verify_rate_limit_ip = (300, 20) ∷ [];
  code_verify_rate_limit_email = (300, 5) ∷ [];
  max_code_attempts = 5;
  verification_token_expire_minutes = 60;
  magic_link_expire_minutes = 15;
  hashcash_difficulty = 5;
  hashcash_challenge_ttl = 300;
  hashcash_time_cost = 2;
  hashcash_memory_cost = 19456;
  hashcash_parallelism = 1;
  hashcash_hash_len = 32;
  bot_auth_timestamp_tolerance = 300;
  s3_bucket_name = "";
  object_storage_max_object_bytes = 52428800;
  object_storage_limit_bytes = 1073741824;
  auth_attempt_retention_days = 7;
  expired_session_retention_days = 30;
  audit_log_retention_days = 365;
  billing_enabled = true;
  billing_welcome_credit_cents = 500;
}

-- Instants are microseconds, the resolution of `datetime`.
abbrev pub second : ℕ
second = 1000000

-- timedelta(minutes=n), timedelta(days=n)
abbrev pub minutes : ℕ → ℕ
minutes n = n * (60 * second)

abbrev pub days : ℕ → ℕ
days n = n * (86400 * second)
