-- ===== src/Tokens/Issue.antt =====
-- Issuing a credential, in src/ezauth/services/tokens.py: the older attempts of the address are
-- revoked, a new one is created, and its code can be used until it expires.
use ezauth.Prelude.{
  ℕ, ◌+◌, ◌<◌, String, true, false, Option, none, some, List, [], ◌∷◌, ◌++◌, ◌≡◌, ◌≢◌, string_eq,
  nat_eq, All, arith, row_count, All-update, All-always, row_count-append, row_count-All-false,
  All-last,
}
use ezauth.Config.{Settings, minutes}
use ezauth.Platform.{Platform}
use ezauth.Models.{AuthAttempt, AuthAttemptType, revoked, attempt_status_eq, attempt_type_eq}
use ezauth.Tokens.{
  NewAttempt, Drawn, create_auth_attempt, new_attempt, attempt_metadata, revoke_pending_attempts,
  pending_for, set_status, hash_token,
}
use ezauth.Tokens.ByCode.{type_in, consume_auth_attempt_by_code, code_candidate, code_matches}
use ezauth.Tokens.Codes.{by_code, by_code-Open, Open, accepted_iff}

-- Revoking leaves no pending attempt of the address, application and type.
pub revoke_pending_attempts-none_pending :
    (app_id : ℕ) (email : String) (type : Option AuthAttemptType) (rows : List AuthAttempt)
    → All
        (λ r. pending_for app_id email type r ≡ false)
        (revoke_pending_attempts app_id email type rows).1
unfolding revoke_pending_attempts
revoke_pending_attempts-none_pending app_id email type rows =
    All-update (pending_for app_id email type) (set_status revoked) (λ r _ _. ground arith)
      (λ r miss _. miss) rows (All-always {P = λ _. Unit {0}} (λ r. tt) rows)

module _ (sys : Platform) (d : Drawn) (n : NewAttempt) where
  new_is_pending : pending_for n.app_id n.email (some n.type) (new_attempt sys d n) ≡ true
  unfolding pending_for new_attempt
  new_is_pending = ground arith

  -- Whatever the table held, after revoking and creating exactly one attempt of the address,
  -- application and type is pending.
  pub create_after_revoke-one_pending :
      (rows : List AuthAttempt)
      → row_count
          (pending_for n.app_id n.email (some n.type))
          (create_auth_attempt sys d n
            (revoke_pending_attempts n.app_id n.email (some n.type) rows).1).2
        ≡ 1
  unfolding create_auth_attempt row_count
  create_after_revoke-one_pending rows =
      let p = pending_for n.app_id n.email (some n.type) in
      let revoked_rows = (revoke_pending_attempts n.app_id n.email (some n.type) rows).1 in
      let none_left =
        row_count-All-false p revoked_rows
          (revoke_pending_attempts-none_pending n.app_id n.email (some n.type) rows) in
      rw (row_count-append p revoked_rows (new_attempt sys d n ∷ []), none_left, new_is_pending)
        (omega arith)

  fresh_matches :
      (now : ℕ) (code : String) (types : Option (List AuthAttemptType))
      → n.code ≡ some code
      → hash_token sys code ≢ ""
      → now < d.now + minutes n.expire_minutes
      → type_in types (new_attempt sys d n) ≡ true
      → by_code sys now n.email code n.app_id types (new_attempt sys d n) ≡ true
  unfolding code_candidate code_matches new_attempt
  fresh_matches now code types e digest live typed = rw (e, attempt_metadata) (ground arith)

  -- The code that was sent works: whatever else the table holds, the code that an attempt was
  -- created with is accepted for its address and application until the attempt expires, where the
  -- attempt's type is among the expected ones. A digest is not the empty text.
  pub create-consume_by_code :
      (cfg : Settings) (now : ℕ) (code : String) (types : Option (List AuthAttemptType))
      (rows : List AuthAttempt)
      → n.code ≡ some code
      → hash_token sys code ≢ ""
      → now < d.now + minutes n.expire_minutes
      → type_in types (new_attempt sys d n) ≡ true
      → (consume_auth_attempt_by_code sys cfg now n.email code n.app_id types
          (create_auth_attempt sys d n rows).2).0.0
        ≢ none
  unfolding create_auth_attempt
  create-consume_by_code cfg now code types rows e digest live typed refused =
      let fresh = new_attempt sys d n in
      let closed =
        All-last (λ r. ¬ Open sys cfg now n.email code n.app_id types r) fresh rows
          ((accepted_iff sys cfg now n.email code n.app_id types (rows ++ fresh ∷ [])).0 refused) in
      closed (
        (by_code-Open sys cfg now n.email code n.app_id types fresh).0
          (fresh_matches now code types e digest live typed))
