-- ===== src/Auth/Transactions.antt =====
-- What a request leaves in the database.
use Prim.Native.String.{count}
use ezauth.Prelude.{◌<◌, ℕ, String, false, Option, some, List, [], ◌∷◌, ◌≡◌, ◌≢◌, arith, subst}
use ezauth.Config.{Settings}
use ezauth.Platform.{Platform}
use ezauth.Models.{Application, User, ApplicationKey, AuthAttemptType, signin, verify_email}
use ezauth.Outcome.{Error, ok, raised, ◌>>◌, weak_password}
use ezauth.World.{World}
use ezauth.Sessions
use ezauth.Sessions.{Grant, refresh_session, revoke_user_sessions, is_session_active}
use ezauth.Sessions.Lifecycle.{refresh-revoke_user_sessions, is_session_active-revoke_session}
use ezauth.Auth.Steps.{Draws, Client, save_user, set_db, log_event}
use ezauth.Auth.Signin.{set_password, revoke_all, logout, revoke_one, log_logout}
use ezauth.Auth.VerifyCode.{verify_code}

-- The types of attempts that a code of the route may be for.
abbrev pub code_types : Option (List AuthAttemptType)
code_types = some (verify_email ∷ signin ∷ [])

-- The guesses as they reach the table of attempts.
abbrev pub at_table : List (Draws × String) → List (ℕ × String)
at_table [] = []
at_table ((d, code) ∷ guesses) = (d.consumed_at, code) ∷ at_table guesses

module _ (sys : Platform) (cfg : Settings) (app : Application) (c : Client) (email : String) where
  -- Requests to the route, one after the other.
  unfoldable pub guess_codes : List (Draws × String) → World → World
  unfolding verify_code
  guess_codes [] w = w
  guess_codes ((d, code) ∷ guesses) w =
      guess_codes guesses (verify_code sys cfg d app c email code w).1

  -- Every request fails.
  abbrev pub AllFail : List (Draws × String) → World → Type 0
  AllFail [] w = Unit
  AllFail ((d, code) ∷ guesses) w =
      ((e : Error) × ((verify_code sys cfg d app c email code w).0 ≡ raised e))
      × AllFail guesses (verify_code sys cfg d app c email code w).1

module _ (sys : Platform) (cfg : Settings) (d : Draws) (app : Application) (c : Client) where
  sessions-set_password :
      (user : User) (new_password : String) (w : World)
      → (set_password sys cfg d app c user new_password w).0 ≡ ok tt
      → (set_password sys cfg d app c user new_password w).1.db.sessions
        ≡ (revoke_user_sessions d.revoked_at user.id app.id w.db.sessions).1
  unfolding set_password revoke_all set_db save_user log_event
  sessions-set_password user new_password w done = ground arith

  -- After a change of password that succeeded, no refresh token, also not the one of the sign-in
  -- that asked for the change, yields a session of the user in the application, at any time.
  pub set_password-revokes :
      (user : User) (new_password : String) (w : World) (d' : Sessions.Draws) (raw : String)
      (users : List User) (keys : List ApplicationKey) (g : Grant)
      → (set_password sys cfg d app c user new_password w).0 ≡ ok tt
      → (refresh_session sys cfg d' raw app users
          (set_password sys cfg d app c user new_password w).1.db.sessions
          keys).0
        ≡ some g
      → g.session.user_id ≢ user.id
  set_password-revokes user new_password w d' raw users keys g done h =
      refresh-revoke_user_sessions sys cfg d' raw app users keys d.revoked_at user.id w.db.sessions
        g
        (subst (λ rows. (refresh_session sys cfg d' raw app users rows keys).0 ≡ some g)
          (sessions-set_password user new_password w done) h)

  -- A password of fewer than eight characters is refused, and nothing is written.
  pub set_password-weak :
      (user : User) (new_password : String) (w : World)
      → count new_password < 8
      → set_password sys cfg d app c user new_password w ≡ (raised weak_password, w)
  unfolding set_password
  set_password-weak user new_password w short = ground arith

  -- After a logout the session is inactive for every application at every time, whether or not the
  -- call found it live.
  pub logout-inactive :
      (session_id : ℕ) (user_id : Option ℕ) (w : World) (now app_id : ℕ)
      → is_session_active now session_id app_id
          (logout sys cfg d app c session_id user_id w).1.db.sessions
        ≡ false
  unfolding logout revoke_one log_logout log_event set_db
  logout-inactive session_id user_id w now app_id = grind (arith, is_session_active-revoke_session)
