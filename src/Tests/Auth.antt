-- ===== src/Tests/Auth.antt =====
-- The flows of the auth service at concrete inputs.
use ezauth.Prelude.{
  ◌≤◌, nat_eq, String, true, false, none, some, List, [], ◌∷◌, ◌≡◌, ◌≢◌, refl, arith, row_count,
  string_eq, ◌⊎◌,
}
use ezauth.Config.{Settings, defaults}
use ezauth.Models.{User, Session, attempt_type_eq, attempt_status_eq}
use ezauth.Outcome.{ok, raised, invalid_token}
use ezauth.World.{World}
use ezauth.Sessions.{Grant, create_session, refresh_session, is_session_active, rotated_grant}
use ezauth.Redirects.{is_relative_path, is_allowed_redirect, safe_redirect_url, app_base_url}
use ezauth.Redirects.Targets.{Target, is_allowed_redirect-Target, safe_redirect_url-Target}
use ezauth.Auth.Steps.{Draws, has_email}
use ezauth.Auth.Signup.{signup, signin_magic_link}
use ezauth.Auth.Consume.{SignedIn, consume_email_link_token, consume_code}
use ezauth.Auth.Signin.{signin_password, set_password, logout}
use ezauth.Auth.VerifyCode.{verify_code}
use ezauth.Auth.Enumeration.{blind, signup-blind, signin_magic_link-blind, signup-one_account}
use ezauth.Auth.Scope.{
  IsScoped, Stored, Authenticated, signin_password-Authenticated, consume_code-IsScoped,
  consume_email_link_token-IsScoped, consume_email_link_token-other_app,
}
use ezauth.Auth.Transactions.{guess_codes, set_password-revokes, logout-inactive}
use ezauth.Tests.Data.{toy, shop, blog, ann, session, key, db, world, draws, session_draws, client}

is_allowed_redirect-Target_example : Target toy [] shop "https://Shop.example/in"
unfolding is_allowed_redirect string_eq nat_eq
is_allowed_redirect-Target_example =
    is_allowed_redirect-Target toy [] shop "https://Shop.example/in" refl

backslash_allowed : is_allowed_redirect toy (some []) shop (some "/\\evil.example") ≡ ok true
unfolding is_allowed_redirect string_eq
backslash_allowed = refl

two_slashes_refused : is_relative_path "//evil.example" ≡ false
unfolding is_relative_path
two_slashes_refused = refl

safe_redirect_url-Target_example :
    ("https://shop.example" ≡ app_base_url defaults shop)
    ⊎ Target toy [] shop "https://shop.example"
unfolding safe_redirect_url string_eq nat_eq
safe_redirect_url-Target_example =
    safe_redirect_url-Target toy [] shop defaults (some "https://evil.example/")
      "https://shop.example" refl

evil_refused : is_allowed_redirect toy (some []) shop (some "https://evil.example/") ≡ ok false
unfolding is_allowed_redirect string_eq nat_eq
evil_refused = refl

-- What a successful sign-in of ann returns, with her hash left as it is.
abbrev granted : Grant
granted = (create_session toy defaults session_draws shop ann none (session ∷ []) (key ∷ [])).0

abbrev signed_in : SignedIn
signed_in = record { user = ann; grant = granted; redirect_url = none }

consume_code-IsScoped_example :
    IsScoped shop signed_in
    × Stored world
        (consume_code toy defaults draws shop client "ann@example.org" "123456" world).1
        signed_in
unfolding consume_code create_session string_eq nat_eq attempt_type_eq attempt_status_eq
consume_code-IsScoped_example =
    consume_code-IsScoped toy defaults draws shop client "ann@example.org" "123456" world signed_in
      refl

consume_email_link_token-IsScoped_example : IsScoped shop signed_in
unfolding consume_email_link_token create_session string_eq nat_eq attempt_type_eq attempt_status_eq
consume_email_link_token-IsScoped_example =
    consume_email_link_token-IsScoped toy defaults draws shop client "t1" world signed_in refl

signin_password-Authenticated_example :
    Authenticated toy defaults draws shop client "ann@example.org" "correct horse" world signed_in
unfolding signin_password create_session string_eq nat_eq
signin_password-Authenticated_example =
    signin_password-Authenticated toy defaults draws shop client "ann@example.org" "correct horse"
      world signed_in refl

consume_email_link_token-other_app_example :
    consume_email_link_token toy defaults draws blog client "t1" world
    ≡ (raised invalid_token, world)
consume_email_link_token-other_app_example =
    consume_email_link_token-other_app toy defaults draws blog client "t1" world
      ((λ _. omega arith), tt)

signup-blind_example :
    (signup toy defaults draws shop client "ann@example.org" (some "hunter2!") none world).0
    ≡ (blind toy defaults draws shop client "ann@example.org" defaults.signup_rate_limit_ip
        defaults.signup_rate_limit_email "verification_sent" none world).0
signup-blind_example =
    signup-blind toy defaults draws shop client "ann@example.org" (some "hunter2!") none world

signin_magic_link-blind_example :
    (signin_magic_link toy defaults draws shop client "nobody@example.org" none world).0
    ≡ (blind toy defaults draws shop client "nobody@example.org" defaults.signin_rate_limit_ip
        defaults.signin_rate_limit_email "magic_link_sent" none world).0
signin_magic_link-blind_example =
    signin_magic_link-blind toy defaults draws shop client "nobody@example.org" none world

signup-one_account_example :
    row_count
      (has_email toy shop "new@example.org")
      (signup toy defaults draws shop client "new@example.org" none none world).1.db.users
    ≤ 1
unfolding row_count has_email nat_eq string_eq
signup-one_account_example =
    signup-one_account toy defaults draws shop client "new@example.org" none none world
      (omega arith)

-- More wrong codes than `max_code_attempts` allows: within the limits of the route.
abbrev wrong_codes : List (Draws × String)
wrong_codes = (draws, "000000") ∷ (draws, "000001") ∷ (draws, "000002") ∷ (draws, "000003") ∷ []

abbrev strict : Settings
strict = record defaults { max_code_attempts = 3 }

-- After four wrong codes, with three allowed, the right code still signs in.
right_code_after_wrong_codes :
    (verify_code toy strict draws shop client "ann@example.org" "123456"
      (guess_codes toy strict shop client "ann@example.org" wrong_codes world)).0
    ≡ ok signed_in
unfolding guess_codes verify_code create_session string_eq nat_eq attempt_type_eq attempt_status_eq
right_code_after_wrong_codes = refl

abbrev other_session : Session
other_session = record session { id = 51; user_id = 12; refresh_token_hash = "sha256:r9" }

abbrev bob : User
bob = record ann { id = 12 }

abbrev two_sessions : World
two_sessions = record world { db = record db { sessions = session ∷ other_session ∷ [] } }

abbrev bobs_grant : Grant
bobs_grant = rotated_grant toy defaults session_draws shop other_session bob (key ∷ [])

set_password-revokes_example : bobs_grant.session.user_id ≢ 10
unfolding set_password refresh_session rotated_grant string_eq nat_eq
set_password-revokes_example =
    set_password-revokes toy defaults draws shop client ann "a new passphrase" two_sessions
      session_draws "r9" (bob ∷ []) (key ∷ []) bobs_grant refl refl

logout-inactive_example :
    is_session_active 300 50 1
      (logout toy defaults draws shop client 50 (some 10) world).1.db.sessions
    ≡ false
logout-inactive_example = logout-inactive toy defaults draws shop client 50 (some 10) world 300 1
