-- ===== src/Sessions/Refresh.antt =====
-- Rotation of the refresh token, in `refresh_session` of src/ezauth/services/sessions.py.
use ezauth.Prelude.{
  ℕ, ◌+◌, ◌≤◌, ◌<◌, String, Bool, true, false, Option, none, some, List, [], ◌∷◌, ◌++◌, ◌≡◌, ◌≢◌,
  refl, ◌∙◌, ◌==◌, nat_eq, string_eq, All, arith, first, update, row_count, first-All-false,
  first-append_none, All-update, All-map, All-first_only,
}
use ezauth.Prelude.Int.{ℤ}
use ezauth.Config.{Settings, days}
use ezauth.Platform.{Platform}
use ezauth.Models.{Application, ApplicationKey, Session, User}
use ezauth.Tokens.{hash_token}
use ezauth.Sessions.{
  Draws, Grant, new_session, create_session, live, refreshable, rotated, rotate_refresh,
  rotated_grant, owner, refresh_session,
}
use ezauth.Sessions.Lifecycle.{refresh-some}

abbrev pub has_digest : String → Session → Bool
has_digest h s = s.refresh_token_hash == h

refreshable_digest :
    (h : String) (app_id now : ℕ) (s : Session)
    → refreshable h app_id now s ≡ true
    → has_digest h s ≡ true
unfolding refreshable
refreshable_digest h app_id now s e = ground arith

not_refreshable :
    (h : String) (app_id now : ℕ) (s : Session)
    → has_digest h s ≡ false
    → refreshable h app_id now s ≡ false
unfolding refreshable
not_refreshable h app_id now s e = ground arith

digest-rotated :
    (sys : Platform) (d : Draws) (h : String) (s : Session)
    → hash_token sys d.raw_refresh ≢ h
    → has_digest h (rotated sys d s) ≡ false
unfolding rotated
digest-rotated sys d h s fresh = ground arith

no_grant :
    (sys : Platform) (cfg : Settings) (d : Draws) (raw : String) (app : Application)
    (users : List User) (keys : List ApplicationKey) (rows : List Session)
    → All (λ s. has_digest (hash_token sys raw) s ≡ false) rows
    → (refresh_session sys cfg d raw app users rows keys).0 ≡ none
unfolding refresh_session
no_grant sys cfg d raw app users keys rows a =
    let p = refreshable (hash_token sys raw) app.id d.now in
    rw
      (
        first-All-false p rows
            (All-map (λ s out. not_refreshable (hash_token sys raw) app.id d.now s out) rows a),
        rotate_refresh,
      )
      refl

-- A refresh token works once: after a refresh that granted a session, the same token grants nothing,
-- to any application and at any time, where at most one session had its digest before and the new
-- token has another digest.
pub refresh_session-rotates :
    (sys : Platform) (cfg : Settings) (d d' : Draws) (raw : String) (app app' : Application)
    (users users' : List User) (keys keys' : List ApplicationKey) (sessions : List Session)
    (g : Grant)
    → row_count (has_digest (hash_token sys raw)) sessions ≤ 1
    → hash_token sys d.raw_refresh ≢ hash_token sys raw
    → (refresh_session sys cfg d raw app users sessions keys).0 ≡ some g
    → (refresh_session sys cfg d' raw app' users'
        (refresh_session sys cfg d raw app users sessions keys).1
        keys').0
      ≡ none
refresh_session-rotates sys cfg d d' raw app app' users users' keys keys' sessions g once fresh h =
    let digest = hash_token sys raw in
    let (s, e, _, after) = refresh-some sys cfg d raw app users keys sessions g h in
    let only =
      All-first_only (has_digest digest) (refreshable digest app.id d.now) sessions s
        (refreshable_digest digest app.id d.now) once e in
    rw after (
      no_grant sys cfg d' raw app' users' keys'
        (update (λ x. x.id == s.id) (rotated sys d) sessions)
        (All-update (λ x. x.id == s.id) (rotated sys d)
          (λ r _ _. digest-rotated sys d digest r fresh) (λ r miss alone. ground (arith, alone))
          sessions only))

module _ (sys : Platform) (cfg : Settings) (c d : Draws) (app : Application) (user : User)
    (lifetime : Option ℤ) (users : List User) where
  new_refreshable :
      d.now < c.now + days cfg.jwt_refresh_token_expire_days
      → refreshable (hash_token sys c.raw_refresh) app.id d.now (new_session sys cfg c app user)
        ≡ true
  unfolding refreshable new_session live
  new_refreshable h = ground arith

  owner_found :
      first (λ u. u.id == user.id) users ≡ some user
      → owner users (some (new_session sys cfg c app user)) ≡ some user
  unfolding owner new_session
  owner_found h = h

  -- The refresh token that a session was created with refreshes that session until it expires: the
  -- grant is for the same session id and user, with the next version and the new token. It holds
  -- where no older session has the token's digest and the user is in the table.
  pub create_session-refresh :
      (sessions : List Session) (keys keys' : List ApplicationKey)
      → All (λ s. has_digest (hash_token sys c.raw_refresh) s ≡ false) sessions
      → first (λ u. u.id == user.id) users ≡ some user
      → d.now < c.now + days cfg.jwt_refresh_token_expire_days
      → (g : Grant) × ((refresh_session sys cfg d c.raw_refresh app users
            (create_session sys cfg c app user lifetime sessions keys).1
            keys').0
          ≡ some g)
        × (g.session.id ≡ c.session_id)
        × (g.session.user_id ≡ user.id)
        × (g.session.session_version ≡ 2)
        × (g.raw_refresh ≡ d.raw_refresh)
  unfolding create_session refresh_session rotate_refresh rotated_grant new_session
  create_session-refresh sessions keys keys' fresh known live_still =
      let digest = hash_token sys c.raw_refresh in
      let p = refreshable digest app.id d.now in
      let s = new_session sys cfg c app user in
      let none_before =
        first-All-false p sessions
          (All-map (λ r out. not_refreshable digest app.id d.now r out) sessions fresh) in
      let found_it : first p (sessions ++ s ∷ []) ≡ some s =
        first-append_none p sessions (s ∷ []) none_before
        ∙ unfold first in rw (new_refreshable live_still) refl in
      (
        rotated_grant sys cfg d app s user keys',
        rw (found_it, owner_found known) refl,
        refl,
        refl,
        refl,
        refl,
      )
