-- ===== src/Auth/Signin.antt =====
-- Password sign-in, password changes and logout, in src/ezauth/services/auth.py.
use Prim.Native.String.{count, ◌++◌ as ◌<>◌}
use ezauth.Prelude.{ℕ, String, Bool, not, Option, none, some, string_eq, nat_eq, ltb, if◌then◌else◌}
use ezauth.Config.{Settings}
use ezauth.Platform.{Platform}
use ezauth.Models.{Application, User, attempt_type_eq}
use ezauth.Outcome.{
  Exec, ok, pure, raise, gets, modify, raise_if, ◌>>=◌, ◌>>◌, invalid_credentials,
  email_not_verified, weak_password,
}
use ezauth.World.{World}
use ezauth.Sessions.{is_set, revoke_session, revoke_user_sessions}
use ezauth.Auth.Steps.{
  Draws, Client, ip_key, enforce_limit, log_event, user_by_email, open_session, save_user, set_db,
  hash_password, verify_password, needs_rehash,
}
use ezauth.Auth.Consume.{SignedIn}

module _ (sys : Platform) (cfg : Settings) where
  -- `if passwords.needs_rehash(user.password_hash): …`, for a user whose hash is `hash`
  unfoldable pub rehashed : Draws → String → String → User → User
  unfolding needs_rehash hash_password
  rehashed d password hash u = record u {
    password_hash =
        if needs_rehash sys hash then some (hash_password sys d.salt password) else u.password_hash;
  }

  unfoldable pub signin_with :
      Draws → Application → Client → String → User → String → Exec World SignedIn
  unfolding verify_password is_set rehashed save_user open_session log_event
  signin_with d app c password user hash = do
    raise_if (not (verify_password sys password hash)) invalid_credentials
    raise_if (not (is_set user.email_verified_at)) email_not_verified
    modify (save_user user.id (rehashed d password hash))
    grant ← open_session sys cfg d app (rehashed d password hash user)
    log_event app "user.signin_password" (some user.id) (some grant.session.id) c
    pure (record { user = rehashed d password hash user; grant = grant; redirect_url = none })

  -- The password sign-in once the user was looked for. `dummy_verify` only takes time.
  unfoldable pub signin_found :
      Draws → Application → Client → String → Option User → Exec World SignedIn
  unfolding signin_with
  signin_found d app c password none = raise invalid_credentials
  signin_found d app c password (some user) = elim user.password_hash [
    | none ↦ raise invalid_credentials
    | some hash ↦ signin_with d app c password user hash
  ]

  unfoldable pub signin_password :
      Draws → Application → Client → String → String → Exec World SignedIn
  unfolding enforce_limit ip_key user_by_email signin_found
  signin_password d app c email password = do
    enforce_limit sys d.limit_ip_at cfg.signin_rate_limit_ip (ip_key c) app
    enforce_limit sys d.limit_email_at cfg.signin_rate_limit_email ("pw:" <> sys.lower email) app
    user ← gets (user_by_email sys app email)
    signin_found d app c password user

  unfoldable pub with_password : Draws → String → User → User
  unfolding hash_password
  with_password d new_password u = record u {
    password_hash = some (hash_password sys d.salt new_password);
  }

  unfoldable pub revoke_all : Draws → Application → User → World → World
  unfolding revoke_user_sessions set_db
  revoke_all d app user = set_db (λ db. record db {
    sessions = (revoke_user_sessions d.revoked_at user.id app.id db.sessions).1;
  })

  unfoldable pub set_password : Draws → Application → Client → User → String → Exec World (Unit {0})
  unfolding with_password save_user revoke_all log_event
  set_password d app c user new_password = do
    raise_if (ltb (count new_password) 8) weak_password
    modify (save_user user.id (with_password d new_password))
    modify (revoke_all d app user)
    log_event app "user.password_set" (some user.id) none c

  unfoldable pub log_logout : Application → Client → ℕ → Option ℕ → Bool → Exec World (Unit {0})
  unfolding log_event
  log_logout app c session_id user_id revoked =
      if revoked then log_event app "user.logout" user_id (some session_id) c else pure tt

  unfoldable pub revoke_one : Draws → ℕ → Exec World Bool
  unfolding revoke_session set_db
  revoke_one d session_id w =
      let (revoked, rows) = revoke_session d.revoked_at session_id w.db.sessions in
      (ok revoked, set_db (λ db. record db { sessions = rows }) w)

  unfoldable pub logout : Draws → Application → Client → ℕ → Option ℕ → Exec World Bool
  unfolding revoke_one log_logout
  logout d app c session_id user_id = do
    revoked ← revoke_one d session_id
    log_logout app c session_id user_id revoked
    pure revoked
