-- ===== src/Tests/Bots.antt =====
-- A bot whose key is four letters long, and signs with four letters.
use ezauth.Prelude.{true, none, some, [], ◌∷◌, ◌==◌, nat_eq, string_eq, length, if◌then◌else◌, refl}
use ezauth.Prelude.Int.{pos, ◌-ℤ◌}
use ezauth.Config.{defaults}
use ezauth.Models.{User}
use ezauth.World.{World}
use ezauth.Sessions.{Grant, create_session}
use ezauth.Auth.Consume.{SignedIn}
use ezauth.Bots.{BotLib, answered, auth_bot}
use ezauth.Bots.Signatures.{BySignature, auth_bot-BySignature}
use ezauth.Tests.Data.{toy, shop, ann, world, session, key, draws, session_draws, client}

abbrev bot_lib : BotLib
bot_lib = record {
  b64decode = λ s. if s == "four" then some (1 ∷ 2 ∷ 3 ∷ 4 ∷ []) else none;
  is_ed25519 = λ raw. true;
  verify = λ key sig message. length key == length sig;
  uuid_of = λ s. if s == "bot" then some 12 else none;
  str_int = λ n. "n";
  confirmations = λ id. answered 200 "CONFIRMED";
}

abbrev bot : User
bot = record ann {
  id = 12;
  email = none;
  email_verified_at = none;
  password_hash = none;
  is_bot = true;
  public_key_ed25519 = some "four";
}

abbrev with_bot : World
with_bot = record world { db = record world.db { users = ann ∷ bot ∷ [] } }

abbrev bot_grant : Grant
bot_grant = (create_session toy defaults session_draws shop bot none (session ∷ []) (key ∷ [])).0

abbrev bot_signed_in : SignedIn
bot_signed_in = record { user = bot; grant = bot_grant; redirect_url = none }

auth_bot-BySignature_example :
    BySignature toy defaults bot_lib 1_000 shop "bot"
      (pos 900)
      "four"
      with_bot
      (auth_bot toy defaults bot_lib draws 1_000 shop client "bot" (pos 900) "four" with_bot).1
      bot_signed_in
unfolding auth_bot create_session string_eq nat_eq ◌-ℤ◌
auth_bot-BySignature_example =
    auth_bot-BySignature toy defaults bot_lib draws 1_000 shop client "bot" (pos 900) "four"
      with_bot bot_signed_in refl
