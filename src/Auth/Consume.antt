-- ===== src/Auth/Consume.antt =====
-- Links and codes are consumed and open a session, in src/ezauth/services/auth.py.

use ezauth.Prelude.{
  ℕ, String, Bool, not, ◌||◌, Option, none, some, [], ◌∷◌, ◌==◌, string_eq, nat_eq, if◌then◌else◌,
  first,
}
use ezauth.Config.{Settings}
use ezauth.Platform.{Platform}
use ezauth.Models.{
  Application, User, AuthAttempt, AuthAttemptType, signin, verify_email, attempt_type_eq,
}
use ezauth.Outcome.{
  Exec, ok, pure, raise, gets, modify, ◌>>=◌, ◌>>◌, invalid_token, too_many_attempts, invalid_code,
  user_not_found,
}
use ezauth.World.{World}
use ezauth.Tokens.{consume_auth_attempt}
use ezauth.Tokens.ByCode.{Reason, consume_auth_attempt_by_code}
use ezauth.Sessions.{Grant, is_set}
use ezauth.Auth.Steps.{Draws, Client, log_event, open_session, save_user, set_db}

-- What a consumed attempt returns: the user, the session with its tokens, and the redirect target.
pub record SignedIn : Type 0 where
  pub user : User
  pub grant : Grant
  pub redirect_url : Option String

module _ (sys : Platform) (cfg : Settings) where
  -- `attempt.type == verify_email or user.email_verified_at is None`
  unfoldable pub verifies : AuthAttempt → User → Bool
  unfolding is_set
  verifies attempt user = attempt.type == verify_email || not (is_set user.email_verified_at)

  unfoldable pub mark_verified : ℕ → Bool → User → User
  mark_verified now needed u = record u {
    email_verified_at = if needed then some now else u.email_verified_at;
  }

  unfoldable pub event_of : AuthAttempt → String
  event_of attempt =
      if attempt.type == verify_email then "user.email_verified" else "user.signin_consumed"

  -- The part of `_complete_attempt` after the user was found.
  unfoldable pub complete_for :
      Draws → Application → Client → AuthAttempt → User → Exec World SignedIn
  unfolding verifies mark_verified event_of save_user open_session log_event
  complete_for d app c attempt user =
      if not (user.app_id == app.id) then raise invalid_token else do
        let mark = mark_verified d.verified_at (verifies attempt user)
        modify (save_user user.id mark)
        grant ← open_session sys cfg d app (mark user)
        log_event app (event_of attempt) (some user.id) (some grant.session.id) c
        pure (record { user = mark user; grant = grant; redirect_url = attempt.redirect_url })

  unfoldable pub complete_found :
      Draws → Application → Client → AuthAttempt → Option User → Exec World SignedIn
  unfolding complete_for
  complete_found d app c attempt none = raise user_not_found
  complete_found d app c attempt (some user) = complete_for d app c attempt user

  -- `User.id == attempt.user_id`: no row where the attempt has no user.
  unfoldable pub user_of : AuthAttempt → World → Option User
  unfolding first
  user_of attempt w = elim attempt.user_id [
    | none ↦ none
    | some id ↦ first (λ u. u.id == id) w.db.users
  ]

  unfoldable pub complete_attempt : Draws → Application → Client → AuthAttempt → Exec World SignedIn
  unfolding complete_found user_of
  complete_attempt d app c attempt = do
    user ← gets (user_of attempt)
    complete_found d app c attempt user

  -- One call of `consume_auth_attempt` on the table of attempts.
  unfoldable pub try_link :
      Draws → Application → String → AuthAttemptType → Exec World (Option AuthAttempt)
  unfolding consume_auth_attempt set_db
  try_link d app raw_token type w =
      let (found, rows) =
        consume_auth_attempt sys d.consumed_at raw_token app.id (some type) w.db.attempts in
      (ok found, set_db (λ db. record db { attempts = rows }) w)

  unfoldable pub or_try_signin :
      Draws → Application → String → Option AuthAttempt → Exec World (Option AuthAttempt)
  unfolding try_link
  or_try_signin d app raw_token (some attempt) = pure (some attempt)
  or_try_signin d app raw_token none = try_link d app raw_token signin

  unfoldable pub complete_or_invalid :
      Draws → Application → Client → Option AuthAttempt → Exec World SignedIn
  unfolding complete_attempt
  complete_or_invalid d app c none = raise invalid_token
  complete_or_invalid d app c (some attempt) = complete_attempt d app c attempt

  unfoldable pub consume_email_link_token :
      Draws → Application → Client → String → Exec World SignedIn
  unfolding try_link or_try_signin complete_or_invalid
  consume_email_link_token d app c raw_token = do
    verified ← try_link d app raw_token verify_email
    attempt ← or_try_signin d app raw_token verified
    complete_or_invalid d app c attempt

  unfoldable pub try_code :
      Draws → Application → String → String → Exec World (Option AuthAttempt × Option Reason)
  unfolding consume_auth_attempt_by_code set_db
  try_code d app email code w =
      let (result, rows) =
        consume_auth_attempt_by_code sys cfg d.consumed_at email code app.id
          (some (verify_email ∷ signin ∷ [])) w.db.attempts in
      (ok result, set_db (λ db. record db { attempts = rows }) w)

  unfoldable pub complete_code :
      Draws → Application → Client → Option AuthAttempt × Option Reason → Exec World SignedIn
  unfolding complete_attempt
  complete_code d app c (some attempt, _) = complete_attempt d app c attempt
  complete_code d app c (none, some Reason.too_many_attempts) = raise too_many_attempts
  complete_code d app c (none, _) = raise invalid_code

  unfoldable pub consume_code : Draws → Application → Client → String → String → Exec World SignedIn
  unfolding try_code complete_code
  consume_code d app c email code = do
    result ← try_code d app email code
    complete_code d app c result
