-- ===== src/Cleanup/Retention.antt =====
-- What a pass of src/ezauth/services/cleanup.py leaves.
use ezauth.Prelude.{
  ℕ, ◌≤◌, String, Bool, true, false, ◌&&◌, Option, List, [], ◌∷◌, ◌≡◌, refl, delete, select, first,
  arith, Bool-cases, inl, inr, ◌==◌, nat_eq, string_eq,
}
use ezauth.Config.{Settings}
use ezauth.Platform.{Platform}
use ezauth.Models.{AuthAttempt, AuthAttemptType, Session, attempt_status_eq}
use ezauth.Tokens.{consume_auth_attempt, link_candidate, hash_token}
use ezauth.Sessions.{is_session_active, live}
use ezauth.Cleanup.{cutoff, attempt_outlived, session_outlived, run_cleanup, AuditRow}

first-delete {ℓ} :
    {R : Type ℓ} (p gone : R → Bool)
    → ((r : R) → p r ≡ true → gone r ≡ false)
    → (rows : List R) → first p (delete gone rows) ≡ first p rows
unfolding first delete select
first-delete p gone spared [] = refl
first-delete p gone spared (r ∷ rows) =
    let rest = first-delete p gone spared rows in
    elim (Bool-cases (p r)) [
      | inl hit ↦ ground (arith, hit, spared r hit)
      | inr miss ↦ ground (arith, miss, rest)
    ]

module _ (cfg : Settings) (now : ℕ) (attempts : List AuthAttempt) (sessions : List Session)
    (audit : List AuditRow) where
  -- A pass deletes no session that is in use: from then on, whether a session is active is what it
  -- was without the pass.
  pub is_session_active-run_cleanup :
      (now' session_id app_id : ℕ)
      → now ≤ now'
      → is_session_active now' session_id app_id (run_cleanup cfg now attempts sessions audit).2
        ≡ is_session_active now' session_id app_id sessions
  unfolding is_session_active run_cleanup
  is_session_active-run_cleanup now' session_id app_id later =
      rw
        (
          is_session_active,
          run_cleanup,
          first-delete (λ (s : Session). s.id == session_id && (s.app_id == app_id && live now' s))
              (session_outlived (cutoff now cfg.expired_session_retention_days))
              (λ s hit. unfold live session_outlived cutoff in ground arith) sessions,
        )
        refl

  -- A pass deletes no attempt that a link token can still consume: from then on, a token gives the
  -- attempt that it gives without the pass.
  pub consume_auth_attempt-run_cleanup :
      (sys : Platform) (now' : ℕ) (raw_token : String) (app_id : ℕ) (type : Option AuthAttemptType)
      → now ≤ now'
      → (consume_auth_attempt sys now' raw_token app_id type
          (run_cleanup cfg now attempts sessions audit).1).0
        ≡ (consume_auth_attempt sys now' raw_token app_id type attempts).0
  unfolding consume_auth_attempt run_cleanup
  consume_auth_attempt-run_cleanup sys now' raw_token app_id type later =
      rw
        (
          consume_auth_attempt,
          run_cleanup,
          first-delete (link_candidate (hash_token sys raw_token) app_id now' type)
              (attempt_outlived (cutoff now cfg.auth_attempt_retention_days))
              (λ a hit.
                unfold link_candidate attempt_outlived cutoff attempt_status_eq in ground arith)
              attempts,
        )
        refl
