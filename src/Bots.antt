-- ===== src/Bots.antt =====
-- src/ezauth/services/bots.py: the signup of bots and their sign-in by signature. base64, Ed25519,
-- UUIDs and the confirmations API are parameters.
use Prim.Native.String.{◌++◌ as ◌<>◌}
pub mod Signatures
use ezauth.Prelude.{
  ℕ, String, Bool, true, false, not, ◌&&◌, ◌||◌, Option, none, some, List, [], ◌∷◌, ◌++◌, ◌==◌,
  nat_eq, string_eq, option_eq, any, first, length, if◌then◌else◌,
}
use ezauth.Prelude.Int.{ℤ, pos, ◌-ℤ◌, ltb_ℤ}
use ezauth.Config.{Settings}
use ezauth.Platform.{Platform}
use ezauth.Models.{Application, User}
use ezauth.Outcome.{
  Exec, Result, ok, raised, pure, gets, lift, modify, raise_if, ◌>>=◌, ◌>>◌, rate_limited,
  invalid_key, challenge_used, key_exists, upstream_error, challenge_not_found,
  challenge_not_confirmed, timestamp_expired, invalid_bot_id, bot_not_found, invalid_signature,
}
use ezauth.World.{World}
use ezauth.RateLimiter.{RateLimiter, check_and_consume}
use ezauth.Auth.Steps.{Draws, Client, ip_key, log_event, open_session, set_db}
use ezauth.Auth.Consume.{SignedIn}

-- What the confirmations API answers: nothing, or a status code with the field "status" of the body.
pub data Answer : Type 0 where
  unreachable : Answer
  answered : ℕ → String → Answer

pub record BotLib : Type 0 where
  -- base64.b64decode, none where it raises
  pub b64decode : String → Option (List ℕ)
  -- whether Ed25519PublicKey.from_public_bytes returns
  pub is_ed25519 : List ℕ → Bool
  -- whether the key verifies the signature of the message
  pub verify : List ℕ → List ℕ → String → Bool
  -- uuid.UUID(text), none where it raises
  pub uuid_of : String → Option ℕ
  -- str(n)
  pub str_int : ℤ → String
  pub confirmations : String → Answer

unfoldable pub validate_public_key : BotLib → String → Result (List ℕ)
validate_public_key lib public_key_b64 = elim (lib.b64decode public_key_b64) [
  | none ↦ raised invalid_key
  | some raw ↦
      if not (length raw == 32)
      then raised invalid_key
      else if not (lib.is_ed25519 raw)
      then raised invalid_key
      else ok raw
]

unfoldable pub judge_answer : Answer → Result (Unit {0})
judge_answer unreachable = raised upstream_error
judge_answer (answered code status) =
    if code == 404
    then raised challenge_not_found
    else if not (code == 200)
    then raised upstream_error
    else if not (status == "CONFIRMED")
    then raised challenge_not_confirmed
    else ok tt

unfoldable pub verify_challenge : BotLib → String → Result (Unit {0})
unfolding judge_answer
verify_challenge lib challenge_id = judge_answer (lib.confirmations challenge_id)

module _ (sys : Platform) (cfg : Settings) (lib : BotLib) where
  -- The limiter of an address, in the namespace of the bots of the application.
  unfoldable pub enforce_bot_limit : ℕ → List (ℕ × ℕ) → Client → Application → Exec World (Unit {0})
  unfolding check_and_consume ip_key
  enforce_bot_limit now limits c app w =
      let limiter : RateLimiter = record {
        limits = limits;
        user_id = ip_key c;
        namespace = sys.str_uuid app.id <> ":bot";
      } in
      let (allowed, redis') = check_and_consume sys now limiter w.redis in
      (if allowed then ok tt else raised rate_limited, record w { redis = redis' })

  unfoldable pub new_bot : ℕ → Application → String → String → User
  new_bot user_id app challenge_id public_key_b64 = record {
    id = user_id;
    app_id = app.id;
    email = none;
    email_verified_at = none;
    password_hash = none;
    is_bot = true;
    public_key_ed25519 = some public_key_b64;
    challenge_id = some challenge_id;
  }

  -- The id of the new bot and its key.
  unfoldable pub signup_bot :
      Draws → Application → Client → String → String → Exec World (ℕ × String)
  unfolding enforce_bot_limit validate_public_key verify_challenge new_bot log_event set_db
  signup_bot d app c challenge_id public_key_b64 = do
    enforce_bot_limit d.limit_ip_at cfg.signup_rate_limit_ip c app
    lift (validate_public_key lib public_key_b64)
    users ← gets (λ (w : World). w.db.users)
    raise_if (any (λ u. u.challenge_id == some challenge_id) users) challenge_used
    raise_if (any (λ u. u.app_id == app.id && u.public_key_ed25519 == some public_key_b64) users)
        key_exists
    lift (verify_challenge lib challenge_id)
    let user = new_bot d.user_id app challenge_id public_key_b64
    modify (set_db (λ db. record db { users = db.users ++ user ∷ [] }))
    log_event app "bot.signup" (some user.id) none c
    pure (user.id, public_key_b64)

  -- abs(now - timestamp) > settings.bot_auth_timestamp_tolerance
  unfoldable pub out_of_range : ℕ → ℤ → Bool
  out_of_range now timestamp =
      ltb_ℤ (pos cfg.bot_auth_timestamp_tolerance) (pos now -ℤ timestamp)
      || ltb_ℤ (pos cfg.bot_auth_timestamp_tolerance) (timestamp -ℤ pos now)

  unfoldable pub is_bot_user : Application → ℕ → User → Bool
  is_bot_user app bot_id u = u.id == bot_id && (u.app_id == app.id && u.is_bot)

  unfoldable pub find_bot : Application → Option ℕ → List User → Result User
  unfolding is_bot_user first
  find_bot app none users = raised invalid_bot_id
  find_bot app (some bot_id) users = elim (first (is_bot_user app bot_id) users) [
    | none ↦ raised bot_not_found
    | some u ↦ ok u
  ]

  unfoldable pub bot_message : Application → String → ℤ → String
  bot_message app bot_id timestamp =
      "ezauth:bot_auth:"
      <> (sys.str_uuid app.id <> (":" <> (bot_id <> (":" <> lib.str_int timestamp))))

  -- The stored key, decoded and loaded, verifies the decoded signature.
  unfoldable pub key_verifies : Option (List ℕ) → Option (List ℕ) → String → Bool
  key_verifies (some key) (some sig) message = lib.is_ed25519 key && lib.verify key sig message
  key_verifies key sig message = false

  abbrev pub decoded_key : Option String → Option (List ℕ)
  decoded_key none = none
  decoded_key (some key) = lib.b64decode key

  unfoldable pub signed : User → String → String → Bool
  unfolding key_verifies
  signed user signature_b64 message =
      key_verifies (decoded_key user.public_key_ed25519) (lib.b64decode signature_b64) message

  -- `now` is int(time.time()).
  unfoldable pub auth_bot :
      Draws → (now : ℕ) → Application → Client → String → ℤ → String → Exec World SignedIn
  unfolding enforce_bot_limit out_of_range find_bot signed bot_message open_session log_event
  auth_bot d now app c bot_id timestamp signature_b64 = do
    enforce_bot_limit d.limit_ip_at cfg.signin_rate_limit_ip c app
    raise_if (out_of_range now timestamp) timestamp_expired
    users ← gets (λ (w : World). w.db.users)
    user ← lift (find_bot app (lib.uuid_of bot_id) users)
    raise_if (not (signed user signature_b64 (bot_message app bot_id timestamp))) invalid_signature
    grant ← open_session sys cfg d app user
    log_event app "bot.auth" (some user.id) (some grant.session.id) c
    pure (record { user = user; grant = grant; redirect_url = none })
