-- ===== src/Auth/VerifyCode.antt =====
-- The route `verify_code` of src/ezauth/api/frontend/verify_code.py, in the transaction of `get_db`
-- of src/ezauth/dependencies.py. An `AuthError` becomes an HTTP error, which leaves the route as an
-- exception, so that `get_db` rolls the database back; FastAPI passes it to the dependency.
use ezauth.Prelude.{ℕ, String}
use ezauth.Config.{Settings}
use ezauth.Platform.{Platform}
use ezauth.Models.{Application}
use ezauth.Outcome.{Exec, Error, rate_limited, too_many_attempts, ◌>>◌}
use ezauth.World.{World, in_transaction}
use ezauth.Auth.Steps.{Draws, Client}
use ezauth.Auth.Signup.{enforce_code_rate_limits}
use ezauth.Auth.Consume.{SignedIn, consume_code}

-- `429 if e.code in ("rate_limited", "too_many_attempts") else 400`
unfoldable pub error_status : Error → ℕ
error_status rate_limited = 429
error_status too_many_attempts = 429
error_status _ = 400

unfoldable pub verify_code :
    Platform → Settings → Draws → Application → Client → String → String → Exec World SignedIn
unfolding in_transaction enforce_code_rate_limits consume_code
verify_code sys cfg d app c email code =
    in_transaction
      (do enforce_code_rate_limits sys cfg d app email c; consume_code sys cfg d app c email code)
