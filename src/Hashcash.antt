-- ===== src/Hashcash.antt =====
-- src/ezauth/services/hashcash.py: the proof of work that a signup asks for. Challenges are keys in
-- Redis; the digest of argon2-cffi and `bytes.fromhex` are parameters.
pub mod Bits
pub mod Challenges
use Prim.Native.String.{count, ◌++◌ as ◌<>◌}
use ezauth.Prelude.{
  ℕ, zero, suc, ◌+◌, ◌-◌, ◌*◌, ◌/◌, ◌%◌, ◌^◌, String, Bool, true, false, not, ◌&&◌, ◌||◌, Option,
  none, some, List, [], ◌∷◌, ◌==◌, nat_eq, string_eq, ltb, if◌then◌else◌, length,
}
use ezauth.Config.{Settings}
use ezauth.Redis.{Redis, get, set_ex, del}
use ezauth.Outcome.{Result, ok, raised, challenge_expired, invalid_proof}

pub record Argon2 : Type 0 where
  -- bytes.fromhex, none where it raises ValueError
  pub fromhex : String → Option (List ℕ)
  -- argon2.low_level.hash_secret_raw of a text and a salt, with the costs of the settings
  pub hash_secret_raw : Settings → String → List ℕ → List ℕ

abbrev pub max_nonce_length : ℕ
max_nonce_length = 256

unfoldable pub compute_argon2 : Argon2 → Settings → String → String → Option (List ℕ)
compute_argon2 lib cfg challenge nonce = elim (lib.fromhex challenge) [
  | none ↦ none
  | some salt ↦ some (lib.hash_secret_raw cfg (challenge <> (":" <> nonce)) salt)
]

-- Python's `a & b`, on the lowest `width` bits of both.
unfoldable pub bit_and : ℕ → ℕ → ℕ → ℕ
bit_and zero a b = 0
bit_and (suc width) a b = (if b % 2 == 0 then 0 else a % 2) + 2 * bit_and width (a / 2) (b / 2)

-- `data[i] == 0` for the first n bytes; the caller has checked that there are so many.
unfoldable pub leading_bytes_zero : ℕ → List ℕ → Bool
leading_bytes_zero zero bytes = true
leading_bytes_zero (suc n) [] = true
leading_bytes_zero (suc n) (b ∷ bytes) = b == 0 && leading_bytes_zero n bytes

-- `data[i]`, none out of range
unfoldable pub byte_at : ℕ → List ℕ → Option ℕ
byte_at i [] = none
byte_at zero (b ∷ bytes) = some b
byte_at (suc i) (b ∷ bytes) = byte_at i bytes

-- `data[full_bytes] & mask != 0` is false; the mask, 0xFF << (8 - r), has fewer than 16 bits.
unfoldable pub high_bits_zero : ℕ → Option ℕ → Bool
unfolding bit_and
high_bits_zero r none = false
high_bits_zero r (some b) = bit_and 16 b (255 * 2 ^ (8 - r)) == 0

unfoldable pub check_leading_zero_bits : List ℕ → ℕ → Bool
unfolding leading_bytes_zero byte_at high_bits_zero
check_leading_zero_bits bytes difficulty =
    let full_bytes = difficulty / 8 in
    let remaining_bits = difficulty % 8 in
    if ltb (length bytes) (full_bytes + (if remaining_bits == 0 then 0 else 1))
    then false
    else if not (leading_bytes_zero full_bytes bytes)
    then false
    else if remaining_bits == 0
    then true
    else high_bits_zero remaining_bits (byte_at full_bytes bytes)

unfoldable pub challenge_key : String → String
challenge_key challenge = "hashcash:" <> challenge

-- The challenge that `os.urandom(16).hex()` draws is an argument; the answer repeats settings.
unfoldable pub create_challenge : Settings → ℕ → String → Redis String → String × Redis String
unfolding challenge_key set_ex
create_challenge cfg now challenge r =
    (challenge, set_ex now (challenge_key challenge) "1" cfg.hashcash_challenge_ttl r)

-- The checks that follow the lookup of the challenge.
unfoldable pub judge_proof : Argon2 → Settings → String → String → Result (Unit {0})
unfolding compute_argon2 check_leading_zero_bits
judge_proof lib cfg challenge nonce =
    if nonce == "" || ltb max_nonce_length (count nonce)
    then raised invalid_proof
    else elim (compute_argon2 lib cfg challenge nonce) [
      | none ↦ raised invalid_proof
      | some hash_output ↦
          if check_leading_zero_bits hash_output cfg.hashcash_difficulty
          then ok tt
          else raised invalid_proof
    ]

-- GET and DEL in one pipeline, then the checks.
unfoldable pub verify_proof :
    Argon2 → Settings → ℕ → String → String → Redis String → Result (Unit {0}) × Redis String
unfolding challenge_key get del judge_proof
verify_proof lib cfg now challenge nonce r = (
  elim (get now (challenge_key challenge) r) [
    | none ↦ raised challenge_expired
    | some _ ↦ judge_proof lib cfg challenge nonce
  ],
  del (challenge_key challenge) r,
)
