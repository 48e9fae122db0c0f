-- ===== src/Sessions.antt =====
-- src/ezauth/services/sessions.py: a session is a row with the digest of its refresh token, and an
-- access token signed with the active key of the application. Each function takes the tables that
-- it reads and returns those that it writes; what a call draws is an argument.
pub mod Lifecycle
pub mod Refresh
pub mod Lifetimes
use Prim.Native.String.{◌++◌ as ◌<>◌}
use ezauth.Prelude.{
  ℕ, suc, ◌+◌, ◌*◌, ◌/◌, String, Bool, true, false, ◌&&◌, Option, none, some, List, [], ◌∷◌, ◌++◌,
  ◌==◌, string_eq, nat_eq, ltb, min, max, if◌then◌else◌, first, update, row_count,
}
use ezauth.Prelude.Int.{ℤ, pos, negsuc}
use ezauth.Config.{Settings, minutes, days, second}
use ezauth.Platform.{Platform, Claims}
use ezauth.Models.{Application, ApplicationKey, Session, User, truthy}
use ezauth.Tokens.{hash_token}
use ezauth.Keys.{active_key}

unfoldable pub is_set : Option ℕ → Bool
is_set none = false
is_set (some _) = true

-- max(1, min(int(lifetime_seconds), limit))
unfoldable pub capped : ℕ → ℤ → ℕ
capped limit (pos n) = max 1 (min n limit)
capped limit (negsuc n) = 1

unfoldable pub token_lifetime : Settings → Option ℤ → ℕ
unfolding capped
token_lifetime cfg none = minutes cfg.jwt_access_token_expire_minutes
token_lifetime cfg (some s) = capped cfg.max_signin_token_lifetime_seconds s * second

-- The claims of `mint_jwt`. `int(x.timestamp())` is the whole seconds of an instant.
unfoldable pub jwt_claims : Settings → ℕ → Application → User → ℕ → Option ℤ → Claims
unfolding truthy is_set token_lifetime
jwt_claims cfg now app user session_id lifetime = record {
  iss = "https://" <> elim (truthy app.primary_domain) [ none ↦ "ezauth" | some d ↦ d ];
  sub = user.id;
  aud = app.id;
  iat = now / second;
  exp = (now + token_lifetime cfg lifetime) / second;
  sid = session_id;
  is_bot = user.is_bot;
  email = truthy user.email;
  email_verified = elim (truthy user.email) [
    | none ↦ false
    | some _ ↦ is_set user.email_verified_at
  ];
}

unfoldable pub mint_jwt :
    Platform → Settings → ℕ → Application → User → ℕ → ApplicationKey → Option ℤ → String
unfolding jwt_claims
mint_jwt sys cfg now app user session_id key lifetime =
    sys.jwt_encode (jwt_claims cfg now app user session_id lifetime) key.private_pem key.kid

-- What a creation or a refresh draws: the session's id, the refresh token, the id of a key row if
-- one is adopted, and the clock for the row and for the access token.
pub record Draws : Type 0 where
  pub session_id : ℕ
  pub raw_refresh : String
  pub key_id : ℕ
  pub now : ℕ
  pub minted_at : ℕ

-- A session with its access token and its raw refresh token.
pub record Grant : Type 0 where
  pub session : Session
  pub access_jwt : String
  pub raw_refresh : String

unfoldable pub new_session : Platform → Settings → Draws → Application → User → Session
unfolding hash_token
new_session sys cfg d app user = record {
  id = d.session_id;
  app_id = app.id;
  user_id = user.id;
  refresh_token_hash = hash_token sys d.raw_refresh;
  created_at = d.now;
  expires_at = d.now + days cfg.jwt_refresh_token_expire_days;
  revoked_at = none;
  last_seen_at = none;
  session_version = 1;
}

unfoldable pub create_session :
    Platform
    → Settings
    → Draws
    → Application
    → User
    → Option ℤ
    → List Session
    → List ApplicationKey
    → Grant × List Session × List ApplicationKey
unfolding new_session mint_jwt active_key
create_session sys cfg d app user lifetime sessions keys =
    let session = new_session sys cfg d app user in
    let (signing_key, keys') = active_key d.key_id d.minted_at app keys in
    (
      record {
        session = session;
        access_jwt = mint_jwt sys cfg d.minted_at app user session.id signing_key lifetime;
        raw_refresh = d.raw_refresh;
      },
      sessions ++ session ∷ [],
      keys',
    )

-- `Session.revoked_at.is_(None), Session.expires_at > now`
unfoldable pub live : ℕ → Session → Bool
live now s = elim s.revoked_at [ none ↦ ltb now s.expires_at | some _ ↦ false ]

unfoldable pub refreshable : String → ℕ → ℕ → Session → Bool
unfolding live
refreshable token_hash app_id now s =
    s.refresh_token_hash == token_hash && (s.app_id == app_id && live now s)

unfoldable pub rotated : Platform → Draws → Session → Session
unfolding hash_token
rotated sys d s = record s {
  refresh_token_hash = hash_token sys d.raw_refresh;
  last_seen_at = some d.now;
  session_version = s.session_version + 1;
}

-- The rotated session with its new access token, signed with the key that is active.
unfoldable pub rotated_grant :
    Platform → Settings → Draws → Application → Session → User → List ApplicationKey → Grant
unfolding rotated mint_jwt active_key
rotated_grant sys cfg d app s user keys =
    let (signing_key, _) = active_key d.key_id d.minted_at app keys in
    record {
      session = rotated sys d s;
      access_jwt = mint_jwt sys cfg d.minted_at app user s.id signing_key none;
      raw_refresh = d.raw_refresh;
    }

-- The part after the two queries: the session and its user, where both were found.
unfoldable pub rotate_refresh :
    Platform
    → Settings
    → Draws
    → Application
    → Option Session
    → Option User
    → List Session
    → List ApplicationKey
    → Option Grant × List Session × List ApplicationKey
unfolding rotated rotated_grant active_key update
rotate_refresh sys cfg d app none user sessions keys = (none, sessions, keys)
rotate_refresh sys cfg d app (some s) none sessions keys = (none, sessions, keys)
rotate_refresh sys cfg d app (some s) (some user) sessions keys = (
  some (rotated_grant sys cfg d app s user keys),
  update (λ x. x.id == s.id) (rotated sys d) sessions,
  (active_key d.key_id d.minted_at app keys).1,
)

unfoldable pub owner : List User → Option Session → Option User
unfolding first
owner users none = none
owner users (some s) = first (λ u. u.id == s.user_id) users

unfoldable pub refresh_session :
    Platform
    → Settings
    → Draws
    → String
    → Application
    → List User
    → List Session
    → List ApplicationKey
    → Option Grant × List Session × List ApplicationKey
unfolding rotate_refresh owner refreshable hash_token first
refresh_session sys cfg d raw_refresh_token app users sessions keys =
    let found = first (refreshable (hash_token sys raw_refresh_token) app.id d.now) sessions in
    rotate_refresh sys cfg d app found (owner users found) sessions keys

unfoldable pub is_session_active : ℕ → ℕ → ℕ → List Session → Bool
unfolding live first
is_session_active now session_id app_id sessions =
    elim (first (λ s. s.id == session_id && (s.app_id == app_id && live now s)) sessions) [
      | none ↦ false
      | some _ ↦ true
    ]

unfoldable pub not_revoked : Session → Bool
not_revoked s = elim s.revoked_at [ none ↦ true | some _ ↦ false ]

unfoldable pub revoke : ℕ → Session → Session
revoke now s = record s { revoked_at = some now }

unfoldable pub revoke_session : ℕ → ℕ → List Session → Bool × List Session
unfolding not_revoked revoke update row_count
revoke_session now session_id sessions =
    let p : Session → Bool = λ s. s.id == session_id && not_revoked s in
    (ltb 0 (row_count p sessions), update p (revoke now) sessions)

unfoldable pub revoke_user_sessions : ℕ → ℕ → ℕ → List Session → ℕ × List Session
unfolding not_revoked revoke update row_count
revoke_user_sessions now user_id app_id sessions =
    let p : Session → Bool = λ s. s.user_id == user_id && (s.app_id == app_id && not_revoked s) in
    (row_count p sessions, update p (revoke now) sessions)
