-- ===== src/Auth/Signup.antt =====
-- Signup and magic links, in src/ezauth/services/auth.py.
use Prim.Native.String.{◌++◌ as ◌<>◌}
use ezauth.Prelude.{String, false, Option, none, some, [], ◌∷◌, string_eq, nat_eq, ◌++◌}
use ezauth.Config.{Settings}
use ezauth.Platform.{Platform}
use ezauth.Models.{Application, User, signin, verify_email, attempt_type_eq, truthy}
use ezauth.Outcome.{Exec, pure, gets, modify, ◌>>=◌, ◌>>◌}
use ezauth.World.{World}
use ezauth.Auth.Steps.{
  Draws, Client, ip_key, enforce_limit, validated_redirect, log_event, issue_credential,
  user_by_email, set_db, hash_password,
}

module _ (sys : Platform) (cfg : Settings) where
  unfoldable pub enforce_code_rate_limits :
      Draws → Application → String → Client → Exec World (Unit {0})
  unfolding enforce_limit ip_key
  enforce_code_rate_limits d app email c = do
    enforce_limit sys d.limit_ip_at cfg.code_verify_rate_limit_ip ("codeverify:" <> ip_key c) app
    enforce_limit sys d.limit_email_at cfg.code_verify_rate_limit_email
        ("codeverify:" <> sys.lower email) app

  -- `passwords.hash_password(password) if password else None`
  unfoldable pub new_user : Draws → Application → String → Option String → User
  unfolding truthy hash_password
  new_user d app email password = record {
    id = d.user_id;
    app_id = app.id;
    email = some email;
    email_verified_at = none;
    password_hash = elim (truthy password) [
      | none ↦ none
      | some p ↦ some (hash_password sys d.salt p)
    ];
    is_bot = false;
    public_key_ed25519 = none;
    challenge_id = none;
  }

  unfoldable pub add_user : User → World → World
  unfolding set_db
  add_user u = set_db (λ db. record db { users = db.users ++ u ∷ [] })

  -- The two branches of `signup`: the address has an account, or gets one.
  unfoldable pub register :
      Draws
      → Application
      → Client
      → String
      → Option String
      → Option String
      → Option User
      → Exec World String
  unfolding issue_credential new_user add_user log_event
  register d app c email password redirect (some existing) = do
    issue_credential sys cfg d app existing email signin redirect cfg.magic_link_expire_minutes
        "signin"
    pure "verification_sent"
  register d app c email password redirect none = do
    let user = new_user d app email password
    modify (add_user user)
    issue_credential sys cfg d app user email verify_email redirect
        cfg.verification_token_expire_minutes "verify"
    log_event app "user.signup" (some user.id) none c
    pure "verification_sent"

  unfoldable pub signup :
      Draws → Application → Client → String → Option String → Option String → Exec World String
  unfolding enforce_limit ip_key validated_redirect register user_by_email
  signup d app c email password redirect_url = do
    enforce_limit sys d.limit_ip_at cfg.signup_rate_limit_ip (ip_key c) app
    enforce_limit sys d.limit_email_at cfg.signup_rate_limit_email (sys.lower email) app
    redirect ← validated_redirect sys app redirect_url
    existing ← gets (user_by_email sys app email)
    register d app c email password redirect existing

  unfoldable pub send_magic_link :
      Draws → Application → Client → String → Option String → Option User → Exec World String
  unfolding issue_credential log_event
  send_magic_link d app c email redirect none = pure "magic_link_sent"
  send_magic_link d app c email redirect (some user) = do
    issue_credential sys cfg d app user email signin redirect cfg.magic_link_expire_minutes "signin"
    log_event app "user.signin_magic_link" (some user.id) none c
    pure "magic_link_sent"

  unfoldable pub signin_magic_link :
      Draws → Application → Client → String → Option String → Exec World String
  unfolding enforce_limit ip_key validated_redirect send_magic_link user_by_email
  signin_magic_link d app c email redirect_url = do
    enforce_limit sys d.limit_ip_at cfg.signin_rate_limit_ip (ip_key c) app
    enforce_limit sys d.limit_email_at cfg.signin_rate_limit_email (sys.lower email) app
    redirect ← validated_redirect sys app redirect_url
    user ← gets (user_by_email sys app email)
    send_magic_link d app c email redirect user
