-- ===== src/Cleanup.antt =====
-- `run_cleanup` of src/ezauth/services/cleanup.py: rows past their retention are deleted.
pub mod Retention
use ezauth.Prelude.{
  ℕ, ◌-◌, Bool, true, false, not, ◌&&◌, ◌||◌, Option, none, some, List, ◌==◌, ltb, delete,
  row_count,
}
use ezauth.Config.{Settings, days}
use ezauth.Models.{AuthAttempt, Session, AuditLog, pending, attempt_status_eq}

-- `now - timedelta(days=…)`; an instant before the start of time is an OverflowError of datetime,
-- which no clock reaches.
unfoldable pub cutoff : ℕ → ℕ → ℕ
cutoff now retention = now - days retention

unfoldable pub attempt_outlived : ℕ → AuthAttempt → Bool
attempt_outlived t a = ltb a.expires_at t || (not (a.status == pending) && ltb a.created_at t)

-- `revoked_at < t` is not true where the session was not revoked.
unfoldable pub session_outlived : ℕ → Session → Bool
session_outlived t s = ltb s.expires_at t || elim s.revoked_at [ none ↦ false | some r ↦ ltb r t ]

-- An audit entry with the time that the server gave it.
pub record AuditRow : Type 0 where
  pub entry : AuditLog
  pub created_at : ℕ

-- The counts that a pass reports.
pub record Deleted : Type 0 where
  pub auth_attempts : ℕ
  pub sessions : ℕ
  pub audit_log : ℕ

unfoldable pub run_cleanup :
    Settings
    → ℕ
    → List AuthAttempt
    → List Session
    → List AuditRow
    → Deleted × List AuthAttempt × List Session × List AuditRow
unfolding cutoff attempt_outlived session_outlived delete row_count
run_cleanup cfg now attempts sessions audit =
    let attempt_gone = attempt_outlived (cutoff now cfg.auth_attempt_retention_days) in
    let session_gone = session_outlived (cutoff now cfg.expired_session_retention_days) in
    let audit_gone : AuditRow → Bool =
      λ l. ltb l.created_at (cutoff now cfg.audit_log_retention_days) in
    (
      record {
        auth_attempts = row_count attempt_gone attempts;
        sessions = row_count session_gone sessions;
        audit_log = row_count audit_gone audit;
      },
      delete attempt_gone attempts,
      delete session_gone sessions,
      delete audit_gone audit,
    )
