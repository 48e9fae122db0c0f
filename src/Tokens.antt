-- ===== src/Tokens.antt =====
-- src/ezauth/services/tokens.py, with the digests of src/ezauth/crypto.py: one-time auth attempts,
-- consumed by a link token or by a six-digit code. Each function takes the table of attempts and
-- returns it beside its result; what a call draws (ids, tokens, the clock) is an argument.
pub mod ByCode
pub mod Guesses
pub mod Consume
pub mod Admin
pub mod Issue
pub mod Codes
use ezauth.Prelude.{
  ℕ, suc, ◌+◌, String, Bool, true, false, ◌&&◌, Option, none, some, List, [], ◌∷◌, ◌++◌, map, ◌==◌,
  string_eq, nat_eq, ltb, leb, if◌then◌else◌, any, select, first, update, row_count,
}
use ezauth.Config.{Settings, minutes}
use ezauth.Platform.{Platform}
use ezauth.Models.{
  AuthAttempt, AuthAttemptType, AuthAttemptStatus, Metadata, pending, consumed, revoked,
  admin_login, attempt_type_eq, attempt_status_eq,
}

-- `hash_token` of crypto.py
unfoldable pub hash_token : Platform → String → String
hash_token sys token = sys.sha256_hex token

-- `constant_time_compare` of crypto.py
unfoldable pub constant_time_compare : String → String → Bool
constant_time_compare a b = a == b

-- The keyword arguments of `create_auth_attempt`.
pub record NewAttempt : Type 0 where
  pub app_id : ℕ
  pub type : AuthAttemptType
  pub email : String
  pub user_id : Option ℕ
  pub redirect_url : Option String
  pub expire_minutes : ℕ
  pub metadata : Option Metadata
  pub code : Option String

-- What a creation draws: the row's id, the link token, the clock.
pub record Drawn : Type 0 where
  pub id : ℕ
  pub raw_token : String
  pub now : ℕ

abbrev pub no_metadata : Metadata
no_metadata = record { code_hash = none; attempts = none }

-- `dict(metadata or {})`, and the two keys set when there is a code
unfoldable pub attempt_metadata : Platform → Option Metadata → Option String → Metadata
unfolding hash_token
attempt_metadata sys metadata none = elim metadata [ none ↦ no_metadata | some m ↦ m ]
attempt_metadata sys metadata (some code) = record {
  code_hash = some (hash_token sys code);
  attempts = some 0;
}

unfoldable pub new_attempt : Platform → Drawn → NewAttempt → AuthAttempt
unfolding attempt_metadata hash_token
new_attempt sys d n = record {
  id = d.id;
  app_id = n.app_id;
  type = n.type;
  email = n.email;
  user_id = n.user_id;
  token_hash = hash_token sys d.raw_token;
  status = pending;
  redirect_url = n.redirect_url;
  expires_at = d.now + minutes n.expire_minutes;
  metadata_json = attempt_metadata sys n.metadata n.code;
  created_at = d.now;
}

unfoldable pub create_auth_attempt :
    Platform → Drawn → NewAttempt → List AuthAttempt → AuthAttempt × String × List AuthAttempt
unfolding new_attempt
create_auth_attempt sys d n rows =
    let attempt = new_attempt sys d n in (attempt, d.raw_token, rows ++ attempt ∷ [])

-- `if type is not None: conditions.append(type == …)`
unfoldable pub type_is : Option AuthAttemptType → AuthAttempt → Bool
type_is none r = true
type_is (some t) r = r.type == t

unfoldable pub set_status : AuthAttemptStatus → AuthAttempt → AuthAttempt
set_status s r = record r { status = s }

unfoldable pub pending_for : ℕ → String → Option AuthAttemptType → AuthAttempt → Bool
unfolding type_is
pending_for app_id email type r =
    r.app_id == app_id && (r.email == email && (r.status == pending && type_is type r))

unfoldable pub revoke_pending_attempts :
    ℕ → String → Option AuthAttemptType → List AuthAttempt → ℕ × List AuthAttempt
unfolding pending_for set_status update row_count
revoke_pending_attempts app_id email type rows = (
  row_count (pending_for app_id email type) rows,
  update (pending_for app_id email type) (set_status revoked) rows,
)

unfoldable pub link_candidate : String → ℕ → ℕ → Option AuthAttemptType → AuthAttempt → Bool
unfolding type_is
link_candidate token_hash app_id now type r =
    r.token_hash == token_hash
    && (r.app_id == app_id && (r.status == pending && (ltb now r.expires_at && type_is type r)))

-- UPDATE … RETURNING: the returned rows carry the new status.
unfoldable pub consume_auth_attempt :
    Platform
    → ℕ
    → String
    → ℕ
    → Option AuthAttemptType
    → List AuthAttempt
    → Option AuthAttempt × List AuthAttempt
unfolding link_candidate hash_token set_status first update
consume_auth_attempt sys now raw_token app_id type rows =
    let matched = link_candidate (hash_token sys raw_token) app_id now type in
    (
      elim (first matched rows) [ none ↦ none | some a ↦ some (set_status consumed a) ],
      update matched (set_status consumed) rows,
    )
