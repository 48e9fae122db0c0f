-- ===== src/Tests/Tokens.antt =====
-- Attempts and codes at concrete inputs.
use ezauth.Prelude.{
  ℕ, false, String, Option, none, some, List, [], ◌∷◌, map, ◌≡◌, ◌≢◌, refl, ne_of_test, arith, inr,
  All, row_count, select, string_eq, nat_eq, ◌↔◌,
}
use ezauth.Config.{defaults}
use ezauth.Models.{
  AuthAttempt, AuthAttemptType, AuthAttemptStatus, attempt_type_eq, attempt_status_eq,
}
use ezauth.Tokens.{
  NewAttempt, new_attempt, create_auth_attempt, revoke_pending_attempts, pending_for,
  consume_auth_attempt, hash_token,
}
use ezauth.Tokens.ByCode.{consume_auth_attempt_by_code, consume_admin_login_code, type_in}
use ezauth.Tokens.Guesses.{guess_all, guessable, AllWrong, guess_all-exhausts}
use ezauth.Tokens.Consume.{consume_auth_attempt-once}
use ezauth.Tokens.Codes.{Open, accepted_iff, consume_by_code_sound}
use ezauth.Tokens.Issue.{create_after_revoke-one_pending, create-consume_by_code}
use ezauth.Tokens.Admin.{
  by_admin_code, consume_admin_login_code-app_ids, consume_admin_login_code-once,
}
use ezauth.Tests.Data.{toy, attempt, admin_attempt, drawn}

abbrev rows : List AuthAttempt
rows = admin_attempt ∷ attempt ∷ []

abbrev both : Option (List AuthAttemptType)
both = some (AuthAttemptType.verify_email ∷ AuthAttemptType.signin ∷ [])

abbrev five_wrong : List (ℕ × String)
five_wrong = (10, "1") ∷ (11, "2") ∷ (12, "3") ∷ (13, "4") ∷ (14, "5") ∷ []

five_wrong-AllWrong : AllWrong toy defaults "ann@example.org" 1 both 20 five_wrong rows
unfolding consume_auth_attempt_by_code nat_eq string_eq attempt_type_eq attempt_status_eq
five_wrong-AllWrong = (
  omega arith,
  refl,
  (omega arith, refl, (omega arith, refl, (omega arith, refl, (omega arith, refl, tt)))),
)

guess_all-exhausts_example :
    All
      (λ r. guessable toy defaults "ann@example.org" 1 both 20 r ≡ false)
      (guess_all toy defaults "ann@example.org" 1 both five_wrong rows)
guess_all-exhausts_example =
    guess_all-exhausts toy defaults "ann@example.org" 1 both 20 five_wrong rows (omega arith)
      five_wrong-AllWrong (omega arith)

consume_auth_attempt-once_example :
    (consume_auth_attempt toy 200 "t1" 1
      (some AuthAttemptType.signin)
      (consume_auth_attempt toy 100 "t1" 1 (some AuthAttemptType.signin) rows).1).0
    ≡ none
consume_auth_attempt-once_example =
    consume_auth_attempt-once toy 100 200 "t1" 1 (some AuthAttemptType.signin)
      (some AuthAttemptType.signin) rows (omega arith) (inr refl)

abbrev used : AuthAttempt
used = record attempt { status = AuthAttemptStatus.consumed }

consume_by_code_sound_example :
    (consume_auth_attempt_by_code toy defaults 100 "ann@example.org" "123456" 1 both rows).0.1
    ≡ none
unfolding consume_auth_attempt_by_code nat_eq string_eq attempt_type_eq attempt_status_eq
consume_by_code_sound_example =
    (consume_by_code_sound toy defaults 100 "ann@example.org" "123456" 1 both rows used refl).0

accepted_iff_example :
    ((consume_auth_attempt_by_code toy defaults 100 "ann@example.org" "1" 1 both rows).0.0 ≡ none)
    ↔ All (λ r. ¬ Open toy defaults 100 "ann@example.org" "1" 1 both r) rows
accepted_iff_example = accepted_iff toy defaults 100 "ann@example.org" "1" 1 both rows

abbrev request : NewAttempt
request = record {
  app_id = 1;
  type = AuthAttemptType.signin;
  email = "ann@example.org";
  user_id = some 10;
  redirect_url = none;
  expire_minutes = 15;
  metadata = none;
  code = some "654321";
}

create_after_revoke-one_pending_example :
    row_count
      (pending_for 1 "ann@example.org" (some AuthAttemptType.signin))
      (create_auth_attempt toy drawn request
        (revoke_pending_attempts 1 "ann@example.org" (some AuthAttemptType.signin) rows).1).2
    ≡ 1
create_after_revoke-one_pending_example = create_after_revoke-one_pending toy drawn request rows

digest_not_empty : hash_token toy "654321" ≢ ""
unfolding hash_token string_eq
digest_not_empty = ne_of_test (hash_token toy "654321") "" refl

create-consume_by_code_example :
    (consume_auth_attempt_by_code toy defaults 200 "ann@example.org" "654321" 1 both
      (create_auth_attempt toy drawn request rows).2).0.0
    ≢ none
unfolding type_in new_attempt attempt_type_eq
create-consume_by_code_example =
    create-consume_by_code toy drawn request defaults 200 "654321" both rows refl digest_not_empty
      (omega arith) refl

consume_admin_login_code-app_ids_example :
    (consume_admin_login_code toy defaults 100 "ann@example.org" "123456" rows).0.0
    ≡ map
        (λ (m : AuthAttempt). m.app_id)
        (select (by_admin_code toy 100 "ann@example.org" "123456") rows)
consume_admin_login_code-app_ids_example =
    consume_admin_login_code-app_ids toy defaults "ann@example.org" "123456" 100 rows

consume_admin_login_code-once_example :
    (consume_admin_login_code toy defaults 200 "ann@example.org" "123456"
      (consume_admin_login_code toy defaults 100 "ann@example.org" "123456" rows).1).0.0
    ≡ []
unfolding consume_admin_login_code nat_eq string_eq attempt_type_eq attempt_status_eq
consume_admin_login_code-once_example =
    consume_admin_login_code-once toy defaults "ann@example.org" "123456" 100 200 rows (omega arith)
      refl
