-- ===== src/Tests/Cleanup.antt =====
-- A cleanup pass at concrete inputs.
use ezauth.Prelude.{some, none, [], ◌∷◌, ◌≡◌, refl, arith, nat_eq, string_eq}
use ezauth.Config.{defaults, days}
use ezauth.Models.{Session, attempt_status_eq}
use ezauth.Tokens.{consume_auth_attempt}
use ezauth.Sessions.{is_session_active}
use ezauth.Cleanup.{run_cleanup}
use ezauth.Cleanup.Retention.{is_session_active-run_cleanup, consume_auth_attempt-run_cleanup}
use ezauth.Tests.Data.{toy, session, attempt}

-- It was revoked on the first day.
abbrev dead : Session
dead = record session { id = 52; revoked_at = some 1; expires_at = days 900 }

is_session_active-run_cleanup_example :
    is_session_active
      (days 10)
      50
      1
      (run_cleanup defaults (days 9) (attempt ∷ []) (session ∷ dead ∷ []) []).2
    ≡ is_session_active (days 10) 50 1 (session ∷ dead ∷ [])
is_session_active-run_cleanup_example =
    is_session_active-run_cleanup defaults (days 9) (attempt ∷ []) (session ∷ dead ∷ []) []
      (days 10) 50 1 (omega arith)

consume_auth_attempt-run_cleanup_example :
    (consume_auth_attempt toy 900 "t1" 1 none
      (run_cleanup defaults 800 (attempt ∷ []) (session ∷ []) []).1).0
    ≡ (consume_auth_attempt toy 900 "t1" 1 none (attempt ∷ [])).0
consume_auth_attempt-run_cleanup_example =
    consume_auth_attempt-run_cleanup defaults 800 (attempt ∷ []) (session ∷ []) [] toy 900 "t1" 1
      none (omega arith)

one_session_deleted : (run_cleanup defaults (days 40) [] (dead ∷ []) []).0.sessions ≡ 1
unfolding run_cleanup nat_eq
one_session_deleted = refl
