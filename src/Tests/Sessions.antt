-- ===== src/Tests/Sessions.antt =====
-- Sessions, signing keys and rate limits at concrete inputs.
use ezauth.Prelude.{
  ◌+◌, ◌≤◌, none, some, [], ◌∷◌, ◌≡◌, ◌≢◌, refl, ne_of_test, arith, row_count, nat_eq, string_eq,
  first, ltb,
}
use ezauth.Prelude.Int.{negsuc}
use ezauth.Config.{defaults}
use ezauth.Models.{Session, User}
use ezauth.Tokens.{hash_token}
use ezauth.Sessions.{
  Draws, Grant, create_session, refresh_session, revoke_user_sessions, jwt_claims, rotated_grant,
}
use ezauth.Sessions.Lifecycle.{refresh-revoke_user_sessions}
use ezauth.Sessions.Lifetimes.{jwt_claims-lifetime}
use ezauth.Sessions.Refresh.{refresh_session-rotates, create_session-refresh}
use ezauth.Keys.{NewKey, active_key, rotate_key}
use ezauth.Keys.Rotation.{active_key-rotate_key}
use ezauth.Redis.{get}
use ezauth.RateLimiter.{get_remaining, check_and_consume}
use ezauth.RateLimiter.Windows.{
  answers, first_allowed, limiter, left, check_and_consume-window, get_remaining-check_and_consume,
}
use ezauth.Tests.Data.{toy, shop, ann, session, key, session_draws, no_counters}

-- A session of another user, which a refresh may still rotate.
abbrev other_session : Session
other_session = record session { id = 51; user_id = 12; refresh_token_hash = "sha256:r9" }

abbrev bob : User
bob = record ann { id = 12 }

refresh-revoke_user_sessions_example :
    (rotated_grant toy defaults session_draws shop other_session bob (key ∷ [])).session.user_id
    ≢ 10
unfolding refresh_session revoke_user_sessions string_eq nat_eq
refresh-revoke_user_sessions_example =
    refresh-revoke_user_sessions toy defaults session_draws "r9" shop (bob ∷ []) (key ∷ []) 150 10
      (session ∷ other_session ∷ [])
      (rotated_grant toy defaults session_draws shop other_session bob (key ∷ [])) refl

jwt_claims-lifetime_example :
    let claims = jwt_claims defaults 5 shop ann 50 (some (negsuc 3)) in
    (claims.iat + 1 ≤ claims.exp) × (claims.exp ≤ claims.iat + 86400)
jwt_claims-lifetime_example = jwt_claims-lifetime defaults 5 shop ann 50 (negsuc 3) (omega arith)

abbrev later_draws : Draws
later_draws = record session_draws { now = 400; raw_refresh = "r3" }

fresh_digest : hash_token toy "r2" ≢ hash_token toy "r1"
unfolding hash_token string_eq
fresh_digest = ne_of_test (hash_token toy "r2") (hash_token toy "r1") refl

refresh_session-rotates_example :
    (refresh_session toy defaults later_draws "r1" shop
      (ann ∷ [])
      (refresh_session toy defaults session_draws "r1" shop (ann ∷ []) (session ∷ []) (key ∷ [])).1
      (key ∷ [])).0
    ≡ none
unfolding refresh_session string_eq nat_eq row_count hash_token
refresh_session-rotates_example =
    refresh_session-rotates toy defaults session_draws later_draws "r1" shop shop (ann ∷ [])
      (ann ∷ []) (key ∷ []) (key ∷ []) (session ∷ [])
      (rotated_grant toy defaults session_draws shop session ann (key ∷ [])) (omega arith)
      fresh_digest refl

create_session-refresh_example :
    (g : Grant) × ((refresh_session toy defaults later_draws "r2" shop
        (ann ∷ [])
        (create_session toy defaults session_draws shop ann none (session ∷ []) (key ∷ [])).1
        (key ∷ [])).0
      ≡ some g)
    × (g.session.id ≡ 60)
    × (g.session.user_id ≡ 10)
    × (g.session.session_version ≡ 2)
    × (g.raw_refresh ≡ "r3")
unfolding hash_token string_eq nat_eq first
create_session-refresh_example =
    create_session-refresh toy defaults session_draws later_draws shop ann none (ann ∷ [])
      (session ∷ []) (key ∷ []) (key ∷ []) (refl, tt) refl (omega arith)

abbrev new_key : NewKey
new_key = record { adopted_id = 71; id = 72; kid = "k2"; private_pem = "pem2"; now = 500 }

active_key-rotate_key_example :
    let (k, app', rows') = rotate_key new_key shop (key ∷ []) in
    (active_key 73 600 app' rows').0 ≡ k
active_key-rotate_key_example = active_key-rotate_key new_key shop (key ∷ []) 73 600

check_and_consume-window_example :
    answers toy 60 2 "192.0.2.1" "app" (0 ∷ 10 ∷ 20 ∷ []) no_counters
    ≡ first_allowed toy 60 2 "192.0.2.1" "app" 0 3
unfolding get
check_and_consume-window_example =
    check_and_consume-window toy 60 2 "192.0.2.1" "app" 0 (10 ∷ 20 ∷ []) no_counters refl
      (omega arith)

get_remaining-check_and_consume_example :
    (get_remaining toy 0 (limiter toy 60 2 "192.0.2.1" "app") no_counters
      ≡ left toy 60 2 "192.0.2.1" "app" 0 no_counters ∷ [])
    × ((check_and_consume toy 0 (limiter toy 60 2 "192.0.2.1" "app") no_counters).0
        ≡ ltb 0 (left toy 60 2 "192.0.2.1" "app" 0 no_counters))
get_remaining-check_and_consume_example =
    get_remaining-check_and_consume toy 60 2 "192.0.2.1" "app" 0 no_counters
