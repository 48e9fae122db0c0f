-- ===== src/Auth/Scope.antt =====
-- What a sign-in grants, and what it requires.
use Prim.Native.String.{◌++◌ as ◌<>◌}
use ezauth.Prelude.{
  String, true, false, Option, none, some, List, ◌≡◌, ◌≢◌, refl, nat_eq, string_eq, All, arith,
  Option-cases, inl, inr, All-map, first_holds, first, first-update, ◌++◌, [], ◌∷◌, ◌==◌, ==_iff,
  subst, sym, ap,
}
use ezauth.Config.{Settings}
use ezauth.Platform.{Platform}
use ezauth.Models.{
  Application, User, AuthAttempt, AuthAttemptType, verify_email, signin, attempt_type_eq,
}
use ezauth.Outcome.{ok, raised, invalid_token}
use ezauth.World.{World}
use ezauth.Tokens.{hash_token, link_candidate}
use ezauth.Tokens.ByCode.{Reason, consume_auth_attempt_by_code}
use ezauth.Tokens.Consume.{consume_auth_attempt-miss}
use ezauth.Sessions.{create_session, new_session, is_set}
use ezauth.Auth.Steps.{
  Draws, Client, ip_key, enforce_limit, log_event, user_by_email, has_email, open_session, set_db,
  save_user, verify_password,
}
use ezauth.Auth.Consume.{
  SignedIn, verifies, mark_verified, complete_for, complete_found, complete_attempt, user_of,
  try_link, or_try_signin, complete_or_invalid, consume_email_link_token, try_code, complete_code,
  consume_code,
}
use ezauth.Auth.Signin.{rehashed, signin_with, signin_found, signin_password}

-- A sign-in to the application: the session is the application's and the user's, it is not revoked,
-- and the user belongs to the application and has a verified address.
pub record IsScoped (app : Application) (s : SignedIn) : Type 0 where
  pub user_in_app : s.user.app_id ≡ app.id
  pub session_in_app : s.grant.session.app_id ≡ app.id
  pub session_of_user : s.grant.session.user_id ≡ s.user.id
  pub verified : is_set s.user.email_verified_at ≡ true
  pub not_revoked : s.grant.session.revoked_at ≡ none

-- What a sign-in leaves in the database: its session is the new last row of the sessions, and the
-- row of the user is the one that the sign-in returns.
pub record Stored (before after : World) (s : SignedIn) : Type 0 where
  pub stored_session : after.db.sessions ≡ before.db.sessions ++ s.grant.session ∷ []
  pub stored_user : first (λ u. u.id == s.user.id) after.db.users ≡ some s.user

module _ (sys : Platform) (cfg : Settings) (d : Draws) (app : Application) (c : Client) where
  complete_for-IsScoped :
      (attempt : AuthAttempt) (user : User) (w : World) (s : SignedIn)
      → (complete_for sys cfg d app c attempt user w).0 ≡ ok s
      → IsScoped app s
  unfolding complete_for open_session create_session new_session log_event mark_verified verifies
      is_set
  complete_for-IsScoped attempt user w s h = ground arith

  complete_for-Stored :
      (attempt : AuthAttempt) (user : User) (w : World) (s : SignedIn)
      → first (λ u. u.id == user.id) w.db.users ≡ some user
      → (complete_for sys cfg d app c attempt user w).0 ≡ ok s
      → Stored w (complete_for sys cfg d app c attempt user w).1 s
  unfolding complete_for open_session create_session log_event mark_verified save_user set_db
  complete_for-Stored attempt user w s found h =
      let mark = mark_verified sys cfg d.verified_at (verifies sys cfg attempt user) in
      let is : mark user ≡ s.user = ground (arith, h) in
      let kept =
        first-update (λ u. u.id == user.id) mark user w.db.users ((==_iff user.id user.id).1 refl)
          found in
      record {
        stored_session = ground (arith, h);
        stored_user = rw (sym (ap (λ (u : User). u.id) is)) (ground (arith, kept, is));
      }

  complete_attempt-IsScoped :
      (attempt : AuthAttempt) (w : World) (s : SignedIn)
      → (complete_attempt sys cfg d app c attempt w).0 ≡ ok s
      → IsScoped app s
  unfolding complete_attempt complete_found
  complete_attempt-IsScoped attempt w s h = elim (Option-cases (user_of sys cfg attempt w)) [
    | inl e ↦ absurd (ground arith)
    | inr (u, e) ↦ complete_for-IsScoped attempt u w s (ground arith)
  ]

  user_of-first :
      (attempt : AuthAttempt) (w : World) (u : User)
      → user_of sys cfg attempt w ≡ some u
      → first (λ x. x.id == u.id) w.db.users ≡ some u
  unfolding user_of
  user_of-first attempt w u e = elim (Option-cases attempt.user_id) [
    | inl anonymous ↦ absurd (ground (arith, anonymous))
    | inr (id, named) ↦
        let found : first (λ x. x.id == id) w.db.users ≡ some u = ground (arith, named) in
        subst (λ n. first (λ x. x.id == n) w.db.users ≡ some u)
          (sym ((==_iff u.id id).0 (first_holds (λ x. x.id == id) w.db.users u found))) found
  ]

  complete_attempt-Stored :
      (attempt : AuthAttempt) (w : World) (s : SignedIn)
      → (complete_attempt sys cfg d app c attempt w).0 ≡ ok s
      → Stored w (complete_attempt sys cfg d app c attempt w).1 s
  unfolding complete_attempt complete_found
  complete_attempt-Stored attempt w s h = elim (Option-cases (user_of sys cfg attempt w)) [
    | inl e ↦ absurd (ground arith)
    | inr (u, e) ↦
        rw e
          (complete_for-Stored attempt u w s (user_of-first attempt w u e) (ground (arith, e, h)))
  ]

  complete_code-Stored :
      (result : Option AuthAttempt × Option Reason) (w : World) (s : SignedIn)
      → (complete_code sys cfg d app c result w).0 ≡ ok s
      → Stored w (complete_code sys cfg d app c result w).1 s
  unfolding complete_code
  complete_code-Stored (some attempt, reason) w s h = complete_attempt-Stored attempt w s h
  complete_code-Stored (none, some Reason.too_many_attempts) w s h = absurd (ground (arith, h))
  complete_code-Stored (none, some Reason.invalid_code) w s h = absurd (ground (arith, h))
  complete_code-Stored (none, none) w s h = absurd (ground (arith, h))

  -- A link that signs somebody in opens a session of the application in which it was presented, for
  -- a user of that application, whose address is verified from then on.
  pub consume_email_link_token-IsScoped :
      (raw_token : String) (w : World) (s : SignedIn)
      → (consume_email_link_token sys cfg d app c raw_token w).0 ≡ ok s
      → IsScoped app s
  unfolding consume_email_link_token try_link or_try_signin complete_or_invalid
  consume_email_link_token-IsScoped raw_token w s h = grind (arith, complete_attempt-IsScoped)

  -- A sign-in by code opens a session of the application in which the code was presented, for a user
  -- of that application. The session is inserted as the new last row of the sessions, and the row of
  -- the user that the database then holds has a verified address.
  pub consume_code-IsScoped :
      (email code : String) (w : World) (s : SignedIn)
      → (consume_code sys cfg d app c email code w).0 ≡ ok s
      → IsScoped app s × Stored w (consume_code sys cfg d app c email code w).1 s
  unfolding consume_code try_code complete_code set_db
  consume_code-IsScoped email code w s h =
      let result =
        (consume_auth_attempt_by_code sys cfg d.consumed_at email code app.id
          (some (verify_email ∷ signin ∷ [])) w.db.attempts).0 in
      let w1 = (try_code sys cfg d app email code w).1 in
      let opened = complete_code-Stored result w1 s h in
      (
        grind (arith, complete_attempt-IsScoped),
        record { stored_session = opened.stored_session; stored_user = opened.stored_user },
      )

  other_app :
      (raw_token : String) (type : AuthAttemptType) (rows : List AuthAttempt)
      → All (λ r. r.token_hash ≡ hash_token sys raw_token → r.app_id ≢ app.id) rows
      → All
          (λ r.
            link_candidate (hash_token sys raw_token) app.id d.consumed_at (some type) r ≡ false)
          rows
  unfolding link_candidate
  other_app raw_token type rows a = All-map (λ r h. ground (arith, h)) rows a

  try_link-other_app :
      (raw_token : String) (type : AuthAttemptType) (w : World)
      → All (λ r. r.token_hash ≡ hash_token sys raw_token → r.app_id ≢ app.id) w.db.attempts
      → try_link sys cfg d app raw_token type w ≡ (ok none, w)
  unfolding try_link set_db
  try_link-other_app raw_token type w a = ground (
    arith,
    consume_auth_attempt-miss sys d.consumed_at raw_token app.id (some type) w.db.attempts
        (other_app raw_token type w.db.attempts a),
  )

  -- A link of one application is worth nothing in another: where no attempt with the token's digest
  -- belongs to this application, the answer is that the token is invalid, and nothing is written,
  -- so the link can still be used where it belongs.
  pub consume_email_link_token-other_app :
      (raw_token : String) (w : World)
      → All (λ r. r.token_hash ≡ hash_token sys raw_token → r.app_id ≢ app.id) w.db.attempts
      → consume_email_link_token sys cfg d app c raw_token w ≡ (raised invalid_token, w)
  unfolding consume_email_link_token or_try_signin complete_or_invalid
  consume_email_link_token-other_app raw_token w a = ground (
    arith,
    try_link-other_app raw_token verify_email w a,
    try_link-other_app raw_token signin w a,
  )

  -- The conditions of a password sign-in.
  pub record Authenticated (email password : String) (w : World) (s : SignedIn) : Type 0 where
    pub account : User
    pub hash : String
    pub found : user_by_email sys app email w ≡ some account
    pub has_hash : account.password_hash ≡ some hash
    pub password_ok : verify_password sys password hash ≡ true
    pub email_ok : is_set account.email_verified_at ≡ true
    pub user_is : s.user.id ≡ account.id
    pub session_of_user : s.grant.session.user_id ≡ account.id
    pub session_in_app : s.grant.session.app_id ≡ app.id

  signin_with-Authenticated :
      (email password : String) (account : User) (hash : String) (w w' : World) (s : SignedIn)
      → user_by_email sys app email w ≡ some account
      → account.app_id ≡ app.id
      → account.password_hash ≡ some hash
      → (signin_with sys cfg d app c password account hash w').0 ≡ ok s
      → Authenticated email password w s
  unfolding signin_with open_session create_session new_session log_event rehashed
  signin_with-Authenticated email password account hash w w' s found in_app has_hash h = record {
    account = account;
    hash = hash;
    found = found;
    has_hash = has_hash;
    password_ok = ground arith;
    email_ok = ground arith;
    user_is = ground arith;
    session_of_user = ground arith;
    session_in_app = ground arith;
  }

  has_email_app : (email : String) (u : User) → has_email sys app email u ≡ true → u.app_id ≡ app.id
  unfolding has_email
  has_email_app email u h = ground arith

  found_in_app :
      (email : String) (w : World) (u : User)
      → user_by_email sys app email w ≡ some u
      → u.app_id ≡ app.id
  unfolding user_by_email
  found_in_app email w u e =
      has_email_app email u (first_holds (has_email sys app email) w.db.users u e)

  signin_found-Authenticated :
      (email password : String) (o : Option User) (w w' : World) (s : SignedIn)
      → user_by_email sys app email w ≡ o
      → (signin_found sys cfg d app c password o w').0 ≡ ok s
      → Authenticated email password w s
  unfolding signin_found
  signin_found-Authenticated email password none w w' s e h = absurd (ground arith)
  signin_found-Authenticated email password (some u) w w' s e h =
      elim (Option-cases u.password_hash) [
        | inl no_hash ↦ absurd (ground arith)
        | inr (hash, has_hash) ↦
            signin_with-Authenticated email password u hash w w' s e (found_in_app email w u e)
              has_hash (ground arith)
      ]

  -- Nobody signs in with a password unless an account of this application has the address, the
  -- password verifies against its stored hash, and its address is verified; the session is then the
  -- account's, in this application.
  pub signin_password-Authenticated :
      (email password : String) (w : World) (s : SignedIn)
      → (signin_password sys cfg d app c email password w).0 ≡ ok s
      → Authenticated email password w s
  unfolding signin_password enforce_limit user_by_email
  signin_password-Authenticated email password w s h =
      let m1 = enforce_limit sys d.limit_ip_at cfg.signin_rate_limit_ip (ip_key c) app in
      let m2 =
        enforce_limit sys d.limit_email_at cfg.signin_rate_limit_email ("pw:" <> sys.lower email)
          app in
      let w2 = (m2 (m1 w).1).1 in
      signin_found-Authenticated email password (user_by_email sys app email w) w w2 s refl
        (ground arith)
