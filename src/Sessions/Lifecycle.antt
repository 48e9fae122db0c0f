-- ===== src/Sessions/Lifecycle.antt =====
-- The life of a session, in src/ezauth/services/sessions.py: created, refreshed, revoked.
use ezauth.Prelude.{
  ℕ, String, Bool, true, false, ◌&&◌, Option, none, some, List, ◌≡◌, ◌≢◌, refl, sym, ap, ◌∙◌, ◌==◌,
  ==_iff, nat_eq, string_eq, All, arith, first, update, first_holds, first-All-false, All-update,
  All-map, All-first, All-always, clash,
}
use mathlib.Core.Option.{some-injective}
use ezauth.Config.{Settings}
use ezauth.Platform.{Platform}
use ezauth.Models.{Application, ApplicationKey, Session, User}
use ezauth.Tokens.{hash_token}
use ezauth.Sessions.{
  Draws, Grant, live, refreshable, rotated, rotate_refresh, owner, refresh_session,
  is_session_active, not_revoked, revoke, revoke_session, revoke_user_sessions,
}

-- Rows after a revocation: those that it matched are no longer live.
revoked_rows :
    (p : Session → Bool) (t now : ℕ) (sessions : List Session)
    → All
        (λ s. (p s && not_revoked s) ≡ true → live now s ≡ false)
        (update (λ s. p s && not_revoked s) (revoke t) sessions)
unfolding live revoke not_revoked
revoked_rows p t now sessions =
    All-update (λ s. p s && not_revoked s) (revoke t) (λ s _ _ _. refl)
      (λ s miss _ hit. absurd (clash miss hit)) sessions
      (All-always {P = λ _. Unit {0}} (λ s. tt) sessions)

dead_of :
    (b : Bool) (s : Session) (now : ℕ)
    → ((b && not_revoked s) ≡ true → live now s ≡ false)
    → b ≡ true
    → live now s ≡ false
unfolding live not_revoked
dead_of b s now h e = ground arith

module _ (t session_id : ℕ) (sessions : List Session) where
  -- After `revoke_session` no row with the session's id is live at any time.
  revoke_session-dead :
      (now : ℕ)
      → All (λ s. s.id ≡ session_id → live now s ≡ false) (revoke_session t session_id sessions).1
  unfolding revoke_session
  revoke_session-dead now =
      All-map (λ s h e. dead_of (s.id == session_id) s now h ((==_iff s.id session_id).1 e))
        (update (λ s. s.id == session_id && not_revoked s) (revoke t) sessions)
        (revoked_rows (λ s. s.id == session_id) t now sessions)

  -- A revoked session is inactive for every application at every time, so its access token is
  -- refused although it has not expired.
  pub is_session_active-revoke_session :
      (now app_id : ℕ)
      → is_session_active now session_id app_id (revoke_session t session_id sessions).1 ≡ false
  unfolding is_session_active
  is_session_active-revoke_session now app_id =
      let p : Session → Bool = λ s. s.id == session_id && (s.app_id == app_id && live now s) in
      let rows = (revoke_session t session_id sessions).1 in
      rw
        (
          first-All-false p rows
              (All-map (λ s h. ground (arith, h)) rows (revoke_session-dead now)),
          is_session_active,
        )
        refl

module _ (t user_id app_id : ℕ) (sessions : List Session) where
  abbrev of_user : Session → Bool
  of_user s = s.user_id == user_id && s.app_id == app_id

  revoke_user-dead :
      (now : ℕ)
      → All
          (λ s. s.user_id ≡ user_id → s.app_id ≡ app_id → live now s ≡ false)
          (revoke_user_sessions t user_id app_id sessions).1
  unfolding revoke_user_sessions live not_revoked revoke
  revoke_user-dead now =
      All-update (λ s. s.user_id == user_id && (s.app_id == app_id && not_revoked s)) (revoke t)
        (λ s _ _ _ _. refl) (λ s miss _ e f. ground arith) sessions
        (All-always {P = λ _. Unit {0}} (λ s. tt) sessions)

pub refreshable_facts :
    (h : String) (app_id now : ℕ) (s : Session)
    → refreshable h app_id now s ≡ true
    → (s.app_id ≡ app_id) × (live now s ≡ true)
unfolding refreshable
refreshable_facts h app_id now s e = ground arith

user-rotated : (sys : Platform) (d : Draws) (s : Session) → (rotated sys d s).user_id ≡ s.user_id
unfolding rotated
user-rotated sys d s = refl

module _ (sys : Platform) (cfg : Settings) (d : Draws) (raw_refresh_token : String)
    (app : Application) (users : List User) (keys : List ApplicationKey) where
  abbrev pub found : List Session → Option Session
  found sessions = first (refreshable (hash_token sys raw_refresh_token) app.id d.now) sessions

  -- A refresh that grants anything rotates a live session of the application.
  rotate-some :
      (o : Option Session) (u : Option User) (sessions : List Session) (g : Grant)
      → (rotate_refresh sys cfg d app o u sessions keys).0 ≡ some g
      → (s : Session) × (o ≡ some s)
        × (g.session ≡ rotated sys d s)
        × ((rotate_refresh sys cfg d app o u sessions keys).1
            ≡ update (λ x. x.id == s.id) (rotated sys d) sessions)
  unfolding rotate_refresh
  rotate-some none u sessions g h = cc
  rotate-some (some s) none sessions g h = cc
  rotate-some (some s) (some u) sessions g h =
      (s, refl, sym (ap (λ (x : Grant). x.session) (some-injective _ _ h)), refl)

  pub refresh-some :
      (sessions : List Session) (g : Grant)
      → (refresh_session sys cfg d raw_refresh_token app users sessions keys).0 ≡ some g
      → (s : Session) × (found sessions ≡ some s)
        × (g.session ≡ rotated sys d s)
        × ((refresh_session sys cfg d raw_refresh_token app users sessions keys).1
            ≡ update (λ x. x.id == s.id) (rotated sys d) sessions)
  unfolding refresh_session
  refresh-some sessions g h =
      rotate-some (found sessions) (owner users (found sessions)) sessions g h

  -- After every session of a user is revoked, no refresh token, however obtained, yields a session
  -- of that user in the application, at any time.
  pub refresh-revoke_user_sessions :
      (t user_id : ℕ) (sessions : List Session) (g : Grant)
      → (refresh_session sys cfg d raw_refresh_token app users
          (revoke_user_sessions t user_id app.id sessions).1
          keys).0
        ≡ some g
      → g.session.user_id ≢ user_id
  refresh-revoke_user_sessions t user_id sessions g h mine =
      let rows = (revoke_user_sessions t user_id app.id sessions).1 in
      let (s, e, is, _) = refresh-some rows g h in
      let p = refreshable (hash_token sys raw_refresh_token) app.id d.now in
      let (in_app, alive) =
        refreshable_facts (hash_token sys raw_refresh_token) app.id d.now s
          (first_holds p rows s e) in
      let same_user =
        sym (user-rotated sys d s) ∙ ap (λ (x : Session). x.user_id) (sym is) ∙ mine in
      clash
        (All-first (λ x. x.user_id ≡ user_id → x.app_id ≡ app.id → live d.now x ≡ false) p rows s e
          (revoke_user-dead t user_id app.id sessions d.now) same_user in_app)
        alive
