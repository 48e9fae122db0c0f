-- ===== src/Tokens/Admin.antt =====
-- Admin login codes, in src/ezauth/services/tokens.py: one guess is made against the attempts that
-- an address holds across applications.
use ezauth.Prelude.{
  ℕ, ◌≤◌, String, Bool, false, ◌&&◌, none, List, [], ◌∷◌, map, ◌≡◌, refl, ap, ◌∙◌, All, arith,
  select, update, select-select, All-update, All-always, select-All-false,
}
use ezauth.Config.{Settings}
use ezauth.Platform.{Platform}
use ezauth.Models.{AuthAttempt, consumed, attempt_status_eq}
use ezauth.Tokens.{set_status, hash_token}
use ezauth.Tokens.ByCode.{
  code_matches, settle_admin_code, consume_admin_login_code, admin_candidate,
}

-- An admin login attempt of the address, open at `now`, with the digest of the code.
abbrev pub by_admin_code : Platform → ℕ → String → String → AuthAttempt → Bool
by_admin_code sys now email code r =
    admin_candidate now email r && code_matches (hash_token sys code) r

module _ (cfg : Settings) (p : AuthAttempt → Bool) (h : String) where
  app_ids-settle :
      (cs rows : List AuthAttempt)
      → (settle_admin_code cfg p h cs rows).0.0
        ≡ map (λ (m : AuthAttempt). m.app_id) (select (code_matches h) cs)
  unfolding settle_admin_code
  app_ids-settle [] rows = refl
  app_ids-settle (c ∷ cs) rows = ground arith

  rows-settle :
      (cs rows : List AuthAttempt)
      → (settle_admin_code cfg p h cs rows).0.1 ≡ none
      → (settle_admin_code cfg p h cs rows).1
        ≡ update (λ r. p r && code_matches h r) (set_status consumed) rows
  unfolding settle_admin_code
  rows-settle [] rows success = cc
  rows-settle (c ∷ cs) rows success = ground arith

module _ (sys : Platform) (cfg : Settings) (email code : String) where
  -- The applications that a guess opens are those of exactly the attempts that it matches, in the
  -- order of the rows, also when there are none.
  pub consume_admin_login_code-app_ids :
      (now : ℕ) (rows : List AuthAttempt)
      → (consume_admin_login_code sys cfg now email code rows).0.0
        ≡ map (λ (m : AuthAttempt). m.app_id) (select (by_admin_code sys now email code) rows)
  unfolding consume_admin_login_code
  consume_admin_login_code-app_ids now rows =
      let p = admin_candidate now email in
      let h = hash_token sys code in
      app_ids-settle cfg p h (select p rows) rows
      ∙ ap (map (λ (m : AuthAttempt). m.app_id)) (select-select p (code_matches h) rows)

  admin_spent :
      (t now : ℕ) (rows : List AuthAttempt)
      → t ≤ now
      → All
          (λ r. by_admin_code sys now email code r ≡ false)
          (update (by_admin_code sys t email code) (set_status consumed) rows)
  unfolding set_status admin_candidate
  admin_spent t now rows le =
      All-update (by_admin_code sys t email code) (set_status consumed) (λ r _ _. ground arith)
        (λ r miss _. ground arith) rows (All-always {P = λ _. Unit {0}} (λ r. tt) rows)

  rows_after_success :
      (t : ℕ) (rows : List AuthAttempt)
      → (consume_admin_login_code sys cfg t email code rows).0.1 ≡ none
      → (consume_admin_login_code sys cfg t email code rows).1
        ≡ update (by_admin_code sys t email code) (set_status consumed) rows
  unfolding consume_admin_login_code
  rows_after_success t rows success =
      let p = admin_candidate t email in
      rows-settle cfg p (hash_token sys code) (select p rows) rows success

  -- An admin code is spent once: after a guess that succeeded, the same code opens no application,
  -- then or later.
  pub consume_admin_login_code-once :
      (t now : ℕ) (rows : List AuthAttempt)
      → t ≤ now
      → (consume_admin_login_code sys cfg t email code rows).0.1 ≡ none
      → (consume_admin_login_code sys cfg now email code
          (consume_admin_login_code sys cfg t email code rows).1).0.0
        ≡ []
  consume_admin_login_code-once t now rows le success =
      consume_admin_login_code-app_ids now (consume_admin_login_code sys cfg t email code rows).1
      ∙ rw
          (
            rows_after_success t rows success,
            select-All-false (by_admin_code sys now email code)
                (update (by_admin_code sys t email code) (set_status consumed) rows)
                (admin_spent t now rows le),
          )
          refl
