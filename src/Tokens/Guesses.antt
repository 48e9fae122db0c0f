-- ===== src/Tokens/Guesses.antt =====
-- How wrong guesses at a code are bounded, in src/ezauth/services/tokens.py.
use ezauth.Prelude.{
  ℕ, suc, ◌+◌, ◌≤◌, ◌<◌, String, Bool, true, false, ◌&&◌, Option, none, some, List, [], ◌∷◌, ◌≡◌,
  refl, sym, length, clash, Bool-cases, inl, inr, update-All-false, string_eq, nat_eq, All, arith,
  select, update, All-update, All-map, All-select_nil, All-always,
}
use ezauth.Config.{Settings}
use ezauth.Platform.{Platform}
use ezauth.Models.{AuthAttempt, AuthAttemptType, attempt_status_eq, attempt_type_eq}
use ezauth.Tokens.ByCode.{
  code_candidate, stored_code, attempts_made, count_guess, settle_code,
  consume_auth_attempt_by_code,
}

module _ (sys : Platform) (cfg : Settings) (email : String) (app_id : ℕ)
    (types : Option (List AuthAttemptType)) where
  -- Guesses, each with the reading of the clock at which it is made.
  pub guess_all : List (ℕ × String) → List AuthAttempt → List AuthAttempt
  guess_all [] rows = rows
  guess_all ((t, code) ∷ guesses) rows =
      guess_all guesses (consume_auth_attempt_by_code sys cfg t email code app_id types rows).1

  -- Every guess is wrong, and none is made after `now`.
  abbrev pub AllWrong : ℕ → List (ℕ × String) → List AuthAttempt → Type 0
  AllWrong now [] rows = Unit
  AllWrong now ((t, code) ∷ guesses) rows =
      let (result, rows') = consume_auth_attempt_by_code sys cfg t email code app_id types rows in
      (t ≤ now) × (result.0 ≡ none) × AllWrong now guesses rows'

  abbrev pub has_code : AuthAttempt → Bool
  has_code r = elim (stored_code r) [ none ↦ false | some _ ↦ true ]

  -- The attempt can be consumed by a code at `now`.
  abbrev pub guessable : ℕ → AuthAttempt → Bool
  guessable now r = code_candidate now email app_id types r && has_code r

  -- What a wrong guess leaves in the table.
  rows-settle_code :
      (p : AuthAttempt → Bool) (code_hash : String) (candidates rows : List AuthAttempt)
      → candidates ≡ select p rows
      → (settle_code cfg p code_hash candidates rows).0.0 ≡ none
      → (settle_code cfg p code_hash candidates rows).1 ≡ update p (count_guess cfg) rows
  unfolding settle_code
  rows-settle_code p h [] rows e wrong =
      sym (update-All-false p (count_guess cfg) rows (All-select_nil p rows (sym e)))
  rows-settle_code p h (c ∷ cs) rows e wrong = ground arith

  rows_after_wrong :
      (t : ℕ) (code : String) (rows : List AuthAttempt)
      → (consume_auth_attempt_by_code sys cfg t email code app_id types rows).0.0 ≡ none
      → (consume_auth_attempt_by_code sys cfg t email code app_id types rows).1
        ≡ update (code_candidate t email app_id types) (count_guess cfg) rows
  unfolding consume_auth_attempt_by_code
  rows_after_wrong t code rows wrong =
      rows-settle_code (code_candidate t email app_id types) _ _ rows refl wrong

  -- A guess at `t` counts against every attempt that is still guessable later.
  count_guess_counts :
      (t now k : ℕ) (r : AuthAttempt)
      → t ≤ now
      → code_candidate t email app_id types r ≡ true
      → (guessable now r ≡ true → k ≤ attempts_made r)
      → guessable now (count_guess cfg r) ≡ true
      → (suc k ≤ attempts_made (count_guess cfg r))
        × (attempts_made (count_guess cfg r) < cfg.max_code_attempts)
  unfolding code_candidate count_guess
  count_guess_counts t now k r le cand h g = ground arith

  -- At least `k` guesses are counted against an attempt that is guessable at `now`, and fewer than
  -- are allowed.
  abbrev Counted : ℕ → ℕ → AuthAttempt → Type 0
  Counted now k r =
      guessable now r ≡ true → (k ≤ attempts_made r) × (attempts_made r < cfg.max_code_attempts)

  stays_unguessable :
      (t now : ℕ) (r : AuthAttempt)
      → t ≤ now
      → code_candidate t email app_id types r ≡ false
      → guessable now r ≡ false
  unfolding code_candidate
  stays_unguessable t now r le miss = ground arith

  update-Counted :
      (t now k : ℕ) (rows : List AuthAttempt)
      → t ≤ now
      → All (λ r. guessable now r ≡ true → k ≤ attempts_made r) rows
      → All
          (Counted now (suc k))
          (update (code_candidate t email app_id types) (count_guess cfg) rows)
  update-Counted t now k rows le =
      All-update (code_candidate t email app_id types) (count_guess cfg)
        (λ r cand h. count_guess_counts t now k r le cand h)
        (λ r miss h g. absurd (clash (stays_unguessable t now r le miss) g)) rows

  guess_all-Counted :
      (now k : ℕ) (guesses : List (ℕ × String)) (rows : List AuthAttempt)
      → AllWrong now guesses rows
      → cfg.max_code_attempts ≤ k + length guesses
      → All (Counted now k) rows
      → All (λ r. guessable now r ≡ false) (guess_all guesses rows)
  unfolding guess_all
  guess_all-Counted now k [] rows wrong enough a =
      All-map
        (λ r h. elim (Bool-cases (guessable now r)) [
          | inl g ↦ absurd (omega (arith, h g))
          | inr done ↦ done
        ])
        rows a
  guess_all-Counted now k ((t, code) ∷ guesses) rows wrong enough a =
      guess_all-Counted now (suc k) guesses
        (consume_auth_attempt_by_code sys cfg t email code app_id types rows).1 wrong.2
        (omega arith)
        (rw (rows_after_wrong t code rows wrong.1)
          (update-Counted t now k rows wrong.0 (All-map (λ r h g. (h g).0) rows a)))

  -- Once `max_code_attempts` guesses by code in a row have failed, no attempt that was open to them
  -- can be consumed by any code: at the time of the last guess or later, none is pending,
  -- unexpired, of an expected type and with a code. It holds where the limit is not zero and the
  -- table keeps what each guess writes.
  pub guess_all-exhausts :
      (now : ℕ) (guesses : List (ℕ × String)) (rows : List AuthAttempt)
      → 0 < cfg.max_code_attempts
      → AllWrong now guesses rows
      → cfg.max_code_attempts ≤ length guesses
      → All (λ r. guessable now r ≡ false) (guess_all guesses rows)
  unfolding guess_all
  guess_all-exhausts now [] rows pos wrong enough = absurd (omega arith)
  guess_all-exhausts now ((t, code) ∷ guesses) rows pos wrong enough =
      guess_all-Counted now 1 guesses
        (consume_auth_attempt_by_code sys cfg t email code app_id types rows).1 wrong.2
        (omega arith)
        (rw (rows_after_wrong t code rows wrong.1)
          (update-Counted t now 0 rows wrong.0 (All-always (λ r g. omega arith) rows)))
