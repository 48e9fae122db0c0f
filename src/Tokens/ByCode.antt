-- ===== src/Tokens/ByCode.antt =====
-- src/ezauth/services/tokens.py: an attempt is consumed by its code, and wrong guesses are counted.
use ezauth.Prelude.{
  ℕ, ◌+◌, String, Bool, true, false, ◌&&◌, Option, none, some, List, [], ◌∷◌, map, ◌==◌, string_eq,
  nat_eq, ltb, leb, if◌then◌else◌, any, select, first, update,
}
use ezauth.Config.{Settings}
use ezauth.Platform.{Platform}
use ezauth.Models.{
  AuthAttempt, AuthAttemptType, pending, consumed, revoked, admin_login, attempt_type_eq,
  attempt_status_eq,
}
use ezauth.Tokens.{hash_token, constant_time_compare, set_status}

pub data Reason : Type 0 where
  invalid_code too_many_attempts : Reason

-- `if expected_types: conditions.append(type.in_(…))`: no list and an empty list add nothing.
unfoldable pub type_in : Option (List AuthAttemptType) → AuthAttempt → Bool
type_in none r = true
type_in (some []) r = true
type_in (some (t ∷ ts)) r = any (λ u. r.type == u) (t ∷ ts)

unfoldable pub code_candidate : ℕ → String → ℕ → Option (List AuthAttemptType) → AuthAttempt → Bool
unfolding type_in
code_candidate now email app_id types r =
    r.app_id == app_id
    && (r.email == email && (r.status == pending && (ltb now r.expires_at && type_in types r)))

-- `meta.get("code_hash")` where it is truthy
unfoldable pub stored_code : AuthAttempt → Option String
stored_code r = elim r.metadata_json.code_hash [
  | none ↦ none
  | some h ↦ if h == "" then none else some h
]

unfoldable pub code_matches : String → AuthAttempt → Bool
unfolding stored_code constant_time_compare
code_matches code_hash r = elim (stored_code r) [
  | none ↦ false
  | some stored ↦ constant_time_compare stored code_hash
]

-- `int(meta.get("attempts", 0))`
unfoldable pub attempts_made : AuthAttempt → ℕ
attempts_made r = elim r.metadata_json.attempts [ none ↦ 0 | some n ↦ n ]

-- Whether this wrong guess is the last one allowed against the attempt.
unfoldable pub exhausts : Settings → AuthAttempt → Bool
unfolding stored_code attempts_made
exhausts cfg r = elim (stored_code r) [
  | none ↦ false
  | some _ ↦ leb cfg.max_code_attempts (attempts_made r + 1)
]

-- The body of the loop over the candidates that a wrong guess was made against.
unfoldable pub count_guess : Settings → AuthAttempt → AuthAttempt
unfolding stored_code attempts_made exhausts
count_guess cfg r = elim (stored_code r) [
  | none ↦ r
  | some _ ↦ record r {
    status = if exhausts cfg r then revoked else r.status;
    metadata_json = record {
      code_hash = r.metadata_json.code_hash;
      attempts = some (attempts_made r + 1);
    };
  }
]

-- `TOO_MANY_ATTEMPTS if exhausted else INVALID_CODE`
unfoldable pub guess_reason : Settings → List AuthAttempt → Reason
unfolding exhausts
guess_reason cfg candidates =
    if any (exhausts cfg) candidates then too_many_attempts else invalid_code

-- After the query: no candidate, a candidate that matches, or a wrong guess against each of them.
unfoldable pub settle_code :
    Settings
    → (AuthAttempt → Bool)
    → String
    → List AuthAttempt
    → List AuthAttempt
    → (Option AuthAttempt × Option Reason) × List AuthAttempt
unfolding code_matches count_guess guess_reason set_status first update
settle_code cfg is_candidate code_hash [] rows = ((none, some invalid_code), rows)
settle_code cfg is_candidate code_hash (c ∷ cs) rows =
    elim (first (code_matches code_hash) (c ∷ cs)) [
      | some a ↦ (
        (some (set_status consumed a), none),
        update (λ r. r.id == a.id) (set_status consumed) rows,
      )
      | none ↦
          ((none, some (guess_reason cfg (c ∷ cs))), update is_candidate (count_guess cfg) rows)
    ]

unfoldable pub consume_auth_attempt_by_code :
    Platform
    → Settings
    → ℕ
    → String
    → String
    → ℕ
    → Option (List AuthAttemptType)
    → List AuthAttempt
    → (Option AuthAttempt × Option Reason) × List AuthAttempt
unfolding settle_code code_candidate hash_token select
consume_auth_attempt_by_code sys cfg now email code app_id types rows =
    let is_candidate = code_candidate now email app_id types in
    settle_code cfg is_candidate (hash_token sys code) (select is_candidate rows) rows

unfoldable pub admin_candidate : ℕ → String → AuthAttempt → Bool
admin_candidate now email r =
    r.type == admin_login && (r.email == email && (r.status == pending && ltb now r.expires_at))

unfoldable pub settle_admin_code :
    Settings
    → (AuthAttempt → Bool)
    → String
    → List AuthAttempt
    → List AuthAttempt
    → (List ℕ × Option Reason) × List AuthAttempt
unfolding code_matches count_guess guess_reason set_status select update
settle_admin_code cfg is_candidate code_hash [] rows = (([], some invalid_code), rows)
settle_admin_code cfg is_candidate code_hash (c ∷ cs) rows =
    elim (select (code_matches code_hash) (c ∷ cs)) [
      | a ∷ matched ↦ (
        (map (λ (m : AuthAttempt). m.app_id) (a ∷ matched), none),
        update (λ r. is_candidate r && code_matches code_hash r) (set_status consumed) rows,
      )
      | [] ↦ (([], some (guess_reason cfg (c ∷ cs))), update is_candidate (count_guess cfg) rows)
    ]

unfoldable pub consume_admin_login_code :
    Platform
    → Settings
    → ℕ
    → String
    → String
    → List AuthAttempt
    → (List ℕ × Option Reason) × List AuthAttempt
unfolding settle_admin_code admin_candidate hash_token select
consume_admin_login_code sys cfg now email code rows =
    let is_candidate = admin_candidate now email in
    settle_admin_code cfg is_candidate (hash_token sys code) (select is_candidate rows) rows
