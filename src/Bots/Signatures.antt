-- ===== src/Bots/Signatures.antt =====
-- What a sign-in of a bot in src/ezauth/services/bots.py requires and opens.
use Prim.Native.String.{◌++◌ as ◌<>◌}
use ezauth.Prelude.{
  suc, ◌+◌, ◌≤◌, ◌++◌, [], ◌∷◌, Bool, ◌⊎◌, ℕ, String, true, false, Option, none, some, List, ==_iff,
  nat_eq, first, first_holds, ◌≡◌, sym, ap, subst, ◌∙◌, arith, inl, inr, Bool-cases, Option-cases,
}
use ezauth.Prelude.Int.{ℤ, pos, negsuc, ◌-ℤ◌}
use ezauth.Config.{Settings}
use ezauth.Platform.{Platform}
use ezauth.Models.{Application, User}
use ezauth.Outcome.{ok, Result-cases}
use ezauth.World.{World}
use ezauth.Sessions.{create_session, new_session}
use ezauth.Auth.Steps.{Draws, Client, open_session, log_event, set_db}
use ezauth.Auth.Consume.{SignedIn}
use ezauth.Bots.{
  BotLib, auth_bot, enforce_bot_limit, out_of_range, find_bot, is_bot_user, signed, bot_message,
  key_verifies,
}

-- The key of the user's row, in base64, is an Ed25519 key that verifies the signature of the
-- message.
pub record SignedBy (lib : BotLib) (user : User) (signature_b64 message : String) : Type 0 where
  pub key_text : String
  pub key : List ℕ
  pub signature : List ℕ
  pub stored_key : user.public_key_ed25519 ≡ some key_text
  pub key_bytes : lib.b64decode key_text ≡ some key
  pub is_ed25519 : lib.is_ed25519 key ≡ true
  pub signature_bytes : lib.b64decode signature_b64 ≡ some signature
  pub verified : lib.verify key signature message ≡ true

-- The time lies at most the tolerance before and at most the tolerance after `now`.
abbrev pub WithinTolerance : ℕ → ℕ → ℤ → Type 0
WithinTolerance tolerance now (pos n) = (n ≤ now + tolerance) × (now ≤ n + tolerance)
WithinTolerance tolerance now (negsuc n) = now + suc n ≤ tolerance

-- A row of the table.
abbrev pub Stands : User → List User → Type 0
Stands u [] = ⊥
Stands u (x ∷ users) = (x ≡ u) ⊎ Stands u users

-- A stored bot of the application with the id signed the application's id, its own id and the
-- time, which is within the tolerance, with the key of its row; the session is the bot's, in the
-- application, is not revoked, and is the new last row of the sessions.
pub record BySignature (sys : Platform) (cfg : Settings) (lib : BotLib) (now : ℕ)
    (app : Application) (bot_id : String) (timestamp : ℤ) (signature_b64 : String)
    (before after : World) (s : SignedIn) : Type 0 where
  pub in_time : WithinTolerance cfg.bot_auth_timestamp_tolerance now timestamp
  pub stored : Stands s.user before.db.users
  pub id : lib.uuid_of bot_id ≡ some s.user.id
  pub in_app : s.user.app_id ≡ app.id
  pub is_bot : s.user.is_bot ≡ true
  pub verified : SignedBy lib s.user signature_b64 (
      "ezauth:bot_auth:"
      <> (sys.str_uuid app.id <> (":" <> (bot_id <> (":" <> lib.str_int timestamp)))))
  pub session_of_bot : s.grant.session.user_id ≡ s.user.id
  pub session_in_app : s.grant.session.app_id ≡ app.id
  pub not_revoked : s.grant.session.revoked_at ≡ none
  pub stored_session : after.db.sessions ≡ before.db.sessions ++ s.grant.session ∷ []

first-Stands :
    (p : User → Bool) (users : List User) (u : User) → first p users ≡ some u → Stands u users
unfolding first
first-Stands p [] u h = ground (arith, h)
first-Stands p (x ∷ users) u h = elim (Bool-cases (p x)) [
  | inl hit ↦ inl (ground (arith, hit, h))
  | inr miss ↦ inr (first-Stands p users u (ground (arith, miss, h)))
]

module _ (sys : Platform) (cfg : Settings) (lib : BotLib) where
  find_bot-ok :
      (app : Application) (id : Option ℕ) (users : List User) (u : User)
      → find_bot sys cfg lib app id users ≡ ok u
      → Stands u users × ((id ≡ some u.id) × (u.app_id ≡ app.id) × (u.is_bot ≡ true))
  unfolding find_bot is_bot_user
  find_bot-ok app none users u h = absurd (ground arith)
  find_bot-ok app (some i) users u h =
      elim (Option-cases (first (is_bot_user sys cfg lib app i) users)) [
        | inl missing ↦ absurd (ground (arith, missing))
        | inr (v, found) ↦
            let is : v ≡ u = ground (arith, found) in
            let holds = first_holds (is_bot_user sys cfg lib app i) users v found in
            (
              first-Stands (is_bot_user sys cfg lib app i) users u (found ∙ ap (λ x. some x) is),
              subst (λ x. (some i ≡ some x.id) × (x.app_id ≡ app.id) × (x.is_bot ≡ true)) is
                  (ground (arith, ==_iff v.id i, ==_iff v.app_id app.id)),
            )
      ]

  signed-SignedBy :
      (user : User) (signature_b64 message : String)
      → signed sys cfg lib user signature_b64 message ≡ true
      → SignedBy lib user signature_b64 message
  unfolding signed key_verifies
  signed-SignedBy user signature_b64 message h = elim (Option-cases user.public_key_ed25519) [
    | inl no_key ↦ absurd (ground (arith, no_key))
    | inr (key_text, stored_key) ↦ elim (Option-cases (lib.b64decode key_text)) [
      | inl bad_key ↦ absurd (ground (arith, stored_key, bad_key))
      | inr (key, key_bytes) ↦ elim (Option-cases (lib.b64decode signature_b64)) [
        | inl bad ↦ absurd (ground (arith, stored_key, key_bytes, bad))
        | inr (signature, signature_bytes) ↦
            let both : (lib.is_ed25519 key ≡ true) × (lib.verify key signature message ≡ true) =
              ground (arith, stored_key, key_bytes, signature_bytes) in
            record {
              key_text = key_text;
              key = key;
              signature = signature;
              stored_key = stored_key;
              key_bytes = key_bytes;
              is_ed25519 = both.0;
              signature_bytes = signature_bytes;
              verified = both.1;
            }
      ]
    ]
  ]

  out_of_range-WithinTolerance :
      (now : ℕ) (timestamp : ℤ)
      → out_of_range sys cfg lib now timestamp ≡ false
      → WithinTolerance cfg.bot_auth_timestamp_tolerance now timestamp
  unfolding out_of_range ◌-ℤ◌
  out_of_range-WithinTolerance now (pos n) h = (ground (arith, h), ground (arith, h))
  out_of_range-WithinTolerance now (negsuc n) h = ground (arith, h)

  -- A bot gets a session only where the id names a stored bot of the application and the key in its
  -- row verifies the signature of the text "ezauth:bot_auth:", the application's id, the bot's id
  -- and the timestamp, which is no further from the present than the tolerance. The session is then
  -- the bot's, in the application, and is inserted as the new last row of the sessions.
  pub auth_bot-BySignature :
      (d : Draws) (now : ℕ) (app : Application) (c : Client) (bot_id : String) (timestamp : ℤ)
      (signature_b64 : String) (w : World) (s : SignedIn)
      → (auth_bot sys cfg lib d now app c bot_id timestamp signature_b64 w).0 ≡ ok s
      → BySignature sys cfg lib now app bot_id timestamp signature_b64 w
          (auth_bot sys cfg lib d now app c bot_id timestamp signature_b64 w).1
          s
  unfolding auth_bot enforce_bot_limit open_session create_session new_session log_event set_db
      bot_message
  auth_bot-BySignature d now app c bot_id timestamp signature_b64 w s h =
      elim (Result-cases
        (enforce_bot_limit sys cfg lib d.limit_ip_at cfg.signin_rate_limit_ip c app w).0) [
          | inl (e, bad) ↦ absurd (ground (arith, bad))
          | inr (ok_limit, room) ↦ elim (Bool-cases (out_of_range sys cfg lib now timestamp)) [
            | inl late ↦ absurd (ground (arith, room, late))
            | inr in_time ↦
                elim (Result-cases (find_bot sys cfg lib app (lib.uuid_of bot_id) w.db.users)) [
                  | inl (e, bad) ↦ absurd (ground (arith, room, in_time, bad))
                  | inr (u, found) ↦
                      let message = bot_message sys cfg lib app bot_id timestamp in
                      elim (Bool-cases (signed sys cfg lib u signature_b64 message)) [
                        | inr forged ↦ absurd (ground (arith, room, in_time, found, forged))
                        | inl valid ↦
                            let (stored, (id, in_app, is_bot)) =
                              find_bot-ok app (lib.uuid_of bot_id) w.db.users u found in
                            let same : u ≡ s.user = ground (arith, room, in_time, found, valid) in
                            let of_bot : s.grant.session.user_id ≡ u.id =
                              ground (arith, room, in_time, found, valid) in
                            record {
                              in_time = out_of_range-WithinTolerance now timestamp in_time;
                              stored = subst (λ x. Stands x w.db.users) same stored;
                              id = id ∙ ap (λ (x : User). some x.id) same;
                              in_app = ap (λ (x : User). x.app_id) (sym same) ∙ in_app;
                              is_bot = ap (λ (x : User). x.is_bot) (sym same) ∙ is_bot;
                              verified = signed-SignedBy s.user signature_b64 message (
                                  subst (λ x. signed sys cfg lib x signature_b64 message ≡ true)
                                    same valid);
                              session_of_bot = of_bot ∙ ap (λ (x : User). x.id) same;
                              session_in_app = ground (arith, room, in_time, found, valid);
                              not_revoked = ground (arith, room, in_time, found, valid);
                              stored_session = ground (arith, room, in_time, found, valid);
                            }
                      ]
                ]
          ]
        ]
