-- ===== src/Sessions/Lifetimes.antt =====
-- How long an access token lives, in `mint_jwt` of src/ezauth/services/sessions.py.
use ezauth.Prelude.{ℕ, ◌+◌, ◌≤◌, ◌*◌, ◌≡◌, some, none, arith}
use ezauth.Prelude.Int.{ℤ, pos, negsuc}
use ezauth.Config.{Settings}
use ezauth.Models.{Application, User}
use ezauth.Sessions.{jwt_claims, token_lifetime, capped}

capped_bounds : (limit : ℕ) (s : ℤ) → 1 ≤ limit → (1 ≤ capped limit s) × (capped limit s ≤ limit)
unfolding capped
capped_bounds limit (pos n) h = ground arith
capped_bounds limit (negsuc n) h = ground arith

-- A backend-minted token lives at least one second and at most the configured limit, whatever
-- lifetime the caller asks for, negative ones included; where the limit is at least one second.
pub jwt_claims-lifetime :
    (cfg : Settings) (now : ℕ) (app : Application) (user : User) (session_id : ℕ) (asked : ℤ)
    → 1 ≤ cfg.max_signin_token_lifetime_seconds
    → let claims = jwt_claims cfg now app user session_id (some asked) in
      (claims.iat + 1 ≤ claims.exp)
      × (claims.exp ≤ claims.iat + cfg.max_signin_token_lifetime_seconds)
unfolding jwt_claims token_lifetime
jwt_claims-lifetime cfg now app user session_id asked h =
    omega (arith, capped_bounds cfg.max_signin_token_lifetime_seconds asked h)

-- A token with no lifetime given expires the configured minutes after it was issued.
pub jwt_claims-default_lifetime :
    (cfg : Settings) (now : ℕ) (app : Application) (user : User) (session_id : ℕ)
    → let claims = jwt_claims cfg now app user session_id none in
      claims.exp ≡ claims.iat + 60 * cfg.jwt_access_token_expire_minutes
unfolding jwt_claims token_lifetime
jwt_claims-default_lifetime cfg now app user session_id = omega arith
