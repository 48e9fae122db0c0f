-- ===== src/Auth/Enumeration.antt =====
-- Signup and magic links do not tell whether an address has an account.
use ezauth.Prelude.{
  ℕ, String, List, Option, none, some, ◌≡◌, refl, arith, Option-cases, inl, inr, ◌≤◌, row_count,
  first, ◌++◌, ◌∷◌, [], row_count-append, row_count-All-false, All-first-none,
}
use ezauth.Config.{Settings}
use ezauth.Platform.{Platform}
use ezauth.Models.{Application, User}
use ezauth.Outcome.{Exec, ok, pure, ◌>>◌}
use ezauth.World.{World}
use ezauth.Auth.Steps.{
  Draws, Client, ip_key, enforce_limit, validated_redirect, issue_credential, log_event,
  user_by_email, set_db, send, has_email,
}
use ezauth.Auth.Signup.{signup, register, add_user, new_user, send_magic_link, signin_magic_link}

module _ (sys : Platform) (cfg : Settings) (d : Draws) (app : Application) (c : Client)
    (email : String) where
  -- What a request that knows nothing of the accounts answers: the two limits and the redirect
  -- target decide it.
  pub blind : List (ℕ × ℕ) → List (ℕ × ℕ) → String → Option String → Exec World String
  blind ip_limits email_limits answer redirect_url = do
    enforce_limit sys d.limit_ip_at ip_limits (ip_key c) app
    enforce_limit sys d.limit_email_at email_limits (sys.lower email) app
    validated_redirect sys app redirect_url
    pure answer

  register-answer :
      (password redirect : Option String) (o : Option User) (w : World)
      → (register sys cfg d app c email password redirect o w).0 ≡ ok "verification_sent"
  unfolding register issue_credential log_event
  register-answer password redirect none w = refl
  register-answer password redirect (some u) w = refl

  magic_link-answer :
      (redirect : Option String) (o : Option User) (w : World)
      → (send_magic_link sys cfg d app c email redirect o w).0 ≡ ok "magic_link_sent"
  unfolding send_magic_link issue_credential log_event
  magic_link-answer redirect none w = refl
  magic_link-answer redirect (some u) w = refl

  -- The answer of a signup, error or not, is that of a request that never looks at the users: it is
  -- the same whether or not the address has an account, with or without a password.
  pub signup-blind :
      (password redirect_url : Option String) (w : World)
      → (signup sys cfg d app c email password redirect_url w).0
        ≡ (blind cfg.signup_rate_limit_ip cfg.signup_rate_limit_email "verification_sent"
            redirect_url w).0
  unfolding signup blind
  signup-blind password redirect_url w = grind (arith, register-answer)

  -- The answer to a request for a magic link does not depend on the users.
  pub signin_magic_link-blind :
      (redirect_url : Option String) (w : World)
      → (signin_magic_link sys cfg d app c email redirect_url w).0
        ≡ (blind cfg.signin_rate_limit_ip cfg.signin_rate_limit_email "magic_link_sent" redirect_url
            w).0
  unfolding signin_magic_link blind
  signin_magic_link-blind redirect_url w = grind (arith, magic_link-answer)

  users-register_new :
      (password redirect : Option String) (w : World)
      → (register sys cfg d app c email password redirect none w).1.db.users
        ≡ w.db.users ++ new_user sys cfg d app email password ∷ []
  unfolding register issue_credential log_event add_user set_db send
  users-register_new password redirect w = refl

  users-register_known :
      (password redirect : Option String) (u : User) (w : World)
      → (register sys cfg d app c email password redirect (some u) w).1.db.users ≡ w.db.users
  unfolding register issue_credential set_db send
  users-register_known password redirect u w = refl

  row_count-one : (u : User) → row_count (has_email sys app email) (u ∷ []) ≤ 1
  unfolding row_count
  row_count-one u = ground arith

  register-accounts :
      (password redirect : Option String) (w : World)
      → row_count (has_email sys app email) w.db.users ≤ 1
      → row_count
          (has_email sys app email)
          (register sys cfg d app c email password redirect
            (user_by_email sys app email w)
            w).1.db.users
        ≤ 1
  unfolding user_by_email
  register-accounts password redirect w h =
      let p = has_email sys app email in
      let u = new_user sys cfg d app email password in
      elim (Option-cases (first p w.db.users)) [
        | inl absent ↦
            rw
              (
                absent,
                users-register_new password redirect w,
                row_count-append p w.db.users (u ∷ []),
                row_count-All-false p w.db.users (All-first-none p w.db.users absent),
              )
              (omega (arith, row_count-one u))
        | inr (x, present) ↦ rw (present, users-register_known password redirect x w) h
      ]

  -- A signup never makes a second account: where at most one account of the application has the
  -- address, up to case, at most one has it afterwards, whatever the outcome.
  pub signup-one_account :
      (password redirect_url : Option String) (w : World)
      → row_count (has_email sys app email) w.db.users ≤ 1
      → row_count
          (has_email sys app email)
          (signup sys cfg d app c email password redirect_url w).1.db.users
        ≤ 1
  unfolding signup enforce_limit validated_redirect
  signup-one_account password redirect_url w h = grind (arith, register-accounts)
