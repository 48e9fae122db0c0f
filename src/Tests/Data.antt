-- ===== src/Tests/Data.antt =====
-- A small platform, an application with two accounts, and rows for the tests. The digest of the
-- platform marks its text, so that it is injective; its hash of a password is the password.
use Prim.Native.String.{◌++◌ as ◌<>◌}
use ezauth.Prelude.{
  ℕ, String, true, false, Option, none, some, [], ◌∷◌, ◌==◌, string_eq, if◌then◌else◌,
}
use ezauth.Platform.{Platform, ParsedUrl}
use ezauth.Models.{
  Application, ApplicationKey, User, Session, AuthAttempt, AuthAttemptType, AuthAttemptStatus,
}
use ezauth.Redis.{Redis}
use ezauth.World.{World, Db}
use ezauth.Tokens
use ezauth.Sessions
use ezauth.Auth.Steps

abbrev pub parse : String → Option ParsedUrl
parse url =
    if url == "https://evil.example/"
    then some (record { scheme = "https"; hostname = some "evil.example" })
    else if url == "https://Shop.example/in"
    then some (record { scheme = "https"; hostname = some "shop.example" })
    else none

abbrev pub toy : Platform
toy = record {
  sha256_hex = λ s. "sha256:" <> s;
  urlparse = parse;
  str_uuid = λ _. "app";
  str_int = λ _. "n";
  lower = λ s. s;
  hasher_hash = λ salt password. password;
  hasher_verify = λ hash password. hash == password;
  hasher_needs_rehash = λ _. false;
  jwt_encode = λ _ pem kid. kid <> pem;
}

abbrev pub shop : Application
shop = record {
  id = 1;
  tenant_id = 9;
  name = "shop";
  primary_domain = some "shop.example";
  email_from_name = none;
  email_from_address = none;
  verification_method = "code";
  jwk_private_pem = "pem";
  jwk_kid = "k1";
}

abbrev pub blog : Application
blog = record shop { id = 2; name = "blog" }

abbrev pub ann : User
ann = record {
  id = 10;
  app_id = 1;
  email = some "ann@example.org";
  email_verified_at = some 5;
  password_hash = some "correct horse";
  is_bot = false;
  public_key_ed25519 = none;
  challenge_id = none;
}

-- A pending code attempt of ann for the shop, with the code 123456 and the link token "t1".
abbrev pub attempt : AuthAttempt
attempt = record {
  id = 100;
  app_id = 1;
  type = AuthAttemptType.signin;
  email = "ann@example.org";
  user_id = some 10;
  token_hash = "sha256:t1";
  status = AuthAttemptStatus.pending;
  redirect_url = none;
  expires_at = 1000;
  metadata_json = record { code_hash = some "sha256:123456"; attempts = some 0 };
  created_at = 0;
}

abbrev pub admin_attempt : AuthAttempt
admin_attempt = record attempt { id = 101; type = AuthAttemptType.admin_login }

abbrev pub session : Session
session = record {
  id = 50;
  app_id = 1;
  user_id = 10;
  refresh_token_hash = "sha256:r1";
  created_at = 0;
  expires_at = 1000;
  revoked_at = none;
  last_seen_at = none;
  session_version = 1;
}

abbrev pub key : ApplicationKey
key = record {
  id = 70;
  app_id = 1;
  kid = "k1";
  private_pem = "pem";
  is_active = true;
  created_at = 0;
  retired_at = none;
}

abbrev pub db : Db
db = record {
  users = ann ∷ [];
  attempts = attempt ∷ [];
  sessions = session ∷ [];
  keys = key ∷ [];
  domains = [];
  audit_log = [];
}

abbrev pub no_counters : Redis ℕ
no_counters _ = none

abbrev pub world : World
world = record { db = db; redis = no_counters; outbox = [] }

abbrev pub drawn : Tokens.Drawn
drawn = record { id = 200; raw_token = "t2"; now = 100 }

abbrev pub session_draws : Sessions.Draws
session_draws = record {
  session_id = 60;
  raw_refresh = "r2";
  key_id = 71;
  now = 200;
  minted_at = 201;
}

abbrev pub draws : Steps.Draws
draws = record {
  limit_ip_at = 90;
  limit_email_at = 91;
  attempt = drawn;
  code = "654321";
  user_id = 11;
  salt = "salt";
  consumed_at = 100;
  verified_at = 101;
  revoked_at = 102;
  session = session_draws;
}

abbrev pub client : Steps.Client
client = record { ip_address = some "192.0.2.1"; user_agent = none }
