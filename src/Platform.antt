-- ===== src/Platform.antt =====
-- What the services call and the repository does not hold: the digest of hashlib, the texts of
-- numbers and UUIDs, `str.lower`, `urlparse`, the Argon2 hasher of argon2-cffi, and the RS256
-- signer of python-jose.
use ezauth.Prelude.{ℕ, Bool, String, Option}

-- The claims that `mint_jwt` of src/ezauth/services/sessions.py signs. A missing `email` key is
-- `none`; identifiers stand for their text.
pub record Claims : Type 0 where
  pub iss : String
  pub sub : ℕ
  pub aud : ℕ
  pub iat : ℕ
  pub exp : ℕ
  pub sid : ℕ
  pub is_bot : Bool
  pub email : Option String
  pub email_verified : Bool

-- The parts of `urlparse(url)` that the program reads.
pub record ParsedUrl : Type 0 where
  pub scheme : String
  pub hostname : Option String

pub record Platform : Type 0 where
  -- hashlib.sha256(text.encode()).hexdigest()
  pub sha256_hex : String → String
  -- urllib.parse.urlparse, none where it raises ValueError
  pub urlparse : String → Option ParsedUrl
  -- the text of a UUID
  pub str_uuid : ℕ → String
  -- str(n)
  pub str_int : ℕ → String
  -- str.lower, and the `lower` of the generated column `email_lower`
  pub lower : String → String
  -- PasswordHasher().hash, at the salt that it draws
  pub hasher_hash : String → String → String
  -- PasswordHasher().verify(hash, password), false where it raises
  pub hasher_verify : String → String → Bool
  -- PasswordHasher().check_needs_rehash
  pub hasher_needs_rehash : String → Bool
  -- jwt.encode(claims, private_pem, algorithm="RS256", headers={"kid": kid})
  pub jwt_encode : Claims → String → String → String
