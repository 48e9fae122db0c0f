-- ===== src/Tokens/Consume.antt =====
-- Consuming a link token, a code or an admin code, in src/ezauth/services/tokens.py.
use ezauth.Prelude.{
  ℕ, ◌≤◌, String, false, Option, none, some, List, ◌≡◌, refl, string_eq, nat_eq, ◌⊎◌, All, arith,
  update, All-update, All-always, first-All-false, update-All-false, inl, inr,
}
use mathlib.Core.Option.{some-injective}
use ezauth.Platform.{Platform}
use ezauth.Models.{AuthAttempt, AuthAttemptType, consumed, attempt_status_eq, attempt_type_eq}
use ezauth.Tokens.{set_status, hash_token, consume_auth_attempt, link_candidate}

module _ (sys : Platform) (token_hash : String) (app_id : ℕ) (t now : ℕ) (le : t ≤ now) where
  link_spent :
      (type type' : Option AuthAttemptType) (r : AuthAttempt)
      → link_candidate token_hash app_id now type' (set_status consumed r) ≡ false
  unfolding link_candidate set_status
  link_spent type type' r = ground arith

  link_missed :
      (type type' : Option AuthAttemptType) (r : AuthAttempt)
      → (type ≡ none) ⊎ (type ≡ type')
      → link_candidate token_hash app_id t type r ≡ false
      → link_candidate token_hash app_id now type' r ≡ false
  unfolding link_candidate
  link_missed none type' r _ miss = ground arith
  link_missed (some u) type' r (inl e) miss = cc
  link_missed (some u) none r (inr e) miss = cc
  link_missed (some u) (some v) r (inr e) miss = ground (arith, some-injective u v e)

-- A link token is spent once: after a call of `consume_auth_attempt`, a later call for the same
-- token and application returns none, where the first asked for no type or for the same type.
pub consume_auth_attempt-once :
    (sys : Platform) (t now : ℕ) (raw_token : String) (app_id : ℕ)
    (type type' : Option AuthAttemptType) (rows : List AuthAttempt)
    → t ≤ now
    → (type ≡ none) ⊎ (type ≡ type')
    → (consume_auth_attempt sys now raw_token app_id type'
        (consume_auth_attempt sys t raw_token app_id type rows).1).0
      ≡ none
unfolding consume_auth_attempt
consume_auth_attempt-once sys t now raw_token app_id type type' rows le narrower =
    let h = hash_token sys raw_token in
    let q = link_candidate h app_id t type in
    let spent =
      first-All-false (link_candidate h app_id now type') (update q (set_status consumed) rows) (
        All-update q (set_status consumed) (λ r _ _. link_spent sys h app_id t now le type type' r)
          (λ r miss _. link_missed sys h app_id t now le type type' r narrower miss) rows
          (All-always {P = λ _. Unit {0}} (λ r. tt) rows)) in
    rw (spent, consume_auth_attempt) refl

-- A token that matches no row returns none and writes nothing.
pub consume_auth_attempt-miss :
    (sys : Platform) (now : ℕ) (raw_token : String) (app_id : ℕ) (type : Option AuthAttemptType)
    (rows : List AuthAttempt)
    → All (λ r. link_candidate (hash_token sys raw_token) app_id now type r ≡ false) rows
    → consume_auth_attempt sys now raw_token app_id type rows ≡ (none, rows)
unfolding consume_auth_attempt
consume_auth_attempt-miss sys now raw_token app_id type rows missed =
    let p = link_candidate (hash_token sys raw_token) app_id now type in
    rw (first-All-false p rows missed, consume_auth_attempt)
      (rw (update-All-false p (set_status consumed) rows missed) refl)
