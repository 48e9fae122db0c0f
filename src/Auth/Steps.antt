-- ===== src/Auth/Steps.antt =====
-- The steps that the flows of src/ezauth/services/auth.py share, `log_event` of
-- src/ezauth/services/audit.py and the password functions of src/ezauth/services/passwords.py.
use Prim.Native.String.{◌++◌ as ◌<>◌}
use ezauth.Prelude.{
  ℕ, String, Bool, false, ◌&&◌, Option, none, some, List, [], ◌∷◌, ◌++◌, ◌==◌, string_eq, nat_eq,
  option_eq, if◌then◌else◌, first, update,
}
use ezauth.Config.{Settings}
use ezauth.Platform.{Platform}
use ezauth.Models.{Application, User, AuthAttemptType, attempt_type_eq, truthy}
use ezauth.Outcome.{Exec, Result, ok, raised, modify, rate_limited, invalid_redirect_url}
use ezauth.World.{World, Db, Mail, code_mail, link_mail}
use ezauth.Tokens
use ezauth.Tokens.{NewAttempt, revoke_pending_attempts, create_auth_attempt}
use ezauth.Sessions
use ezauth.Sessions.{Grant, create_session}
use ezauth.RateLimiter.{RateLimiter, check_and_consume}
use ezauth.Redirects.{is_allowed_redirect, app_base_url}

-- What one request draws: the readings of Redis' clock at its two limits, the id, link token, time
-- and code of an attempt, the id and salt of a user, the readings of the clock at its other steps,
-- and the draws of a session.
pub record Draws : Type 0 where
  pub limit_ip_at : ℕ
  pub limit_email_at : ℕ
  pub attempt : Tokens.Drawn
  pub code : String
  pub user_id : ℕ
  pub salt : String
  pub consumed_at : ℕ
  pub verified_at : ℕ
  pub revoked_at : ℕ
  pub session : Sessions.Draws

pub record Client : Type 0 where
  pub ip_address : Option String
  pub user_agent : Option String

-- `ip_address or "unknown"`
unfoldable pub ip_key : Client → String
unfolding truthy
ip_key c = elim (truthy c.ip_address) [ none ↦ "unknown" | some ip ↦ ip ]

unfoldable pub enforce_limit :
    Platform → ℕ → List (ℕ × ℕ) → String → Application → Exec World (Unit {0})
unfolding check_and_consume
enforce_limit sys now limits key app w =
    let limiter : RateLimiter = record {
      limits = limits;
      user_id = key;
      namespace = sys.str_uuid app.id;
    } in
    let (allowed, redis') = check_and_consume sys now limiter w.redis in
    (if allowed then ok tt else raised rate_limited, record w { redis = redis' })

-- After the test: a target that is allowed is returned, any other is refused.
unfoldable pub keep_target : String → Bool → Result (Option String)
keep_target url allowed = if allowed then ok (some url) else raised invalid_redirect_url

unfoldable pub check_redirect : Result Bool → String → Result (Option String)
unfolding keep_target
check_redirect (raised e) url = raised e
check_redirect (ok allowed) url = keep_target url allowed

unfoldable pub validated_redirect :
    Platform → Application → Option String → Exec World (Option String)
unfolding truthy is_allowed_redirect check_redirect
validated_redirect sys app redirect_url w = elim (truthy redirect_url) [
  | none ↦ (ok none, w)
  | some url ↦ (check_redirect (is_allowed_redirect sys (some w.db.domains) app (some url)) url, w)
]

unfoldable pub set_db : (Db → Db) → World → World
set_db f w = record w { db = f w.db }

unfoldable pub send : Mail → World → World
send m w = record w { outbox = w.outbox ++ m ∷ [] }

-- `log_event` of audit.py; a failure to write is swallowed there and is not modelled.
unfoldable pub log_event :
    Application → String → Option ℕ → Option ℕ → Client → Exec World (Unit {0})
unfolding set_db
log_event app event_type user_id session_id c = modify (
    set_db (λ db. record db {
      audit_log =
          db.audit_log
          ++ record {
            app_id = app.id;
            event_type = event_type;
            user_id = user_id;
            session_id = session_id;
            ip_address = c.ip_address;
            user_agent = c.user_agent;
          }
            ∷ [];
    }))

-- What `_send_code_email` and `_send_link_email` hand over: the secret reaches the address alone.
unfoldable pub credential_mail :
    Platform → Settings → Application → String → Option String → String → String → Mail
unfolding app_base_url
credential_mail sys cfg app email (some code) raw_token purpose = code_mail email code purpose
credential_mail sys cfg app email none raw_token purpose =
    link_mail email (app_base_url cfg app <> "/v1/email/verify?token=" <> raw_token) purpose

-- The attempt that `_issue_credential` creates.
unfoldable pub credential :
    Draws → Application → User → String → AuthAttemptType → Option String → ℕ → NewAttempt
credential d app user email type redirect_url expire_minutes = record {
  app_id = app.id;
  type = type;
  email = email;
  user_id = some user.id;
  redirect_url = redirect_url;
  expire_minutes = expire_minutes;
  metadata = none;
  code = if app.verification_method == "code" then some d.code else none;
}

unfoldable pub issue_credential :
    Platform
    → Settings
    → Draws
    → Application
    → User
    → String
    → AuthAttemptType
    → Option String
    → ℕ
    → String
    → Exec World (Unit {0})
unfolding revoke_pending_attempts create_auth_attempt credential credential_mail set_db send
issue_credential sys cfg d app user email type redirect_url expire_minutes purpose w =
    let n = credential d app user email type redirect_url expire_minutes in
    let (_, revoked_rows) = revoke_pending_attempts app.id email (some type) w.db.attempts in
    let (_, raw_token, rows) = create_auth_attempt sys d.attempt n revoked_rows in
    (
      ok tt,
      send (credential_mail sys cfg app email n.code raw_token purpose)
          (set_db (λ db. record db { attempts = rows }) w),
    )

-- `User.app_id == app.id, User.email_lower == email.lower()`
unfoldable pub has_email : Platform → Application → String → User → Bool
has_email sys app email u = elim u.email [
  | none ↦ false
  | some e ↦ u.app_id == app.id && sys.lower e == sys.lower email
]

unfoldable pub user_by_email : Platform → Application → String → World → Option User
unfolding has_email first
user_by_email sys app email w = first (has_email sys app email) w.db.users

-- A new session of the user, with its tables written back.
unfoldable pub open_session : Platform → Settings → Draws → Application → User → Exec World Grant
unfolding create_session set_db
open_session sys cfg d app user w =
    let (grant, sessions', keys') =
      create_session sys cfg d.session app user none w.db.sessions w.db.keys in
    (ok grant, set_db (λ db. record db { sessions = sessions'; keys = keys' }) w)

-- A write to the attributes of a loaded user, flushed to its row.
unfoldable pub save_user : ℕ → (User → User) → World → World
unfolding set_db update
save_user id f = set_db (λ db. record db { users = update (λ u. u.id == id) f db.users })

-- `hash_password` and `verify_password` of passwords.py
unfoldable pub hash_password : Platform → String → String → String
hash_password sys salt password = sys.hasher_hash salt password

unfoldable pub verify_password : Platform → String → String → Bool
verify_password sys password hash = sys.hasher_verify hash password

unfoldable pub needs_rehash : Platform → String → Bool
needs_rehash sys hash = sys.hasher_needs_rehash hash
