-- ===== src/Hashcash/Challenges.antt =====
-- Challenges of src/ezauth/services/hashcash.py are used once.
use Prim.Native.String.{count}
use ezauth.Prelude.{
  ◌≤◌, ◌<◌, ◌+◌, ◌*◌, ℕ, String, true, none, some, ◌≡◌, ◌≢◌, refl, string_eq, List, arith,
}
use ezauth.Config.{Settings, second}
use ezauth.Redis.{Redis, get, set_ex, del, alive, write_self}
use ezauth.Outcome.{ok, raised, challenge_expired}
use ezauth.Hashcash.{
  Argon2, challenge_key, create_challenge, verify_proof, judge_proof, compute_argon2,
  check_leading_zero_bits,
}

get-del : (now : ℕ) (key : String) (r : Redis String) → get now key (del key r) ≡ none
unfolding get del alive
get-del now key r = rw (get, del, write_self key none r) refl

-- A challenge is spent by the first proof that is offered for it, good or bad: whatever nonce is
-- offered later, the answer is that the challenge expired.
pub verify_proof-once :
    (lib : Argon2) (cfg : Settings) (challenge nonce nonce' : String) (r : Redis String)
    (now now' : ℕ)
    → (verify_proof lib cfg now' challenge nonce' (verify_proof lib cfg now challenge nonce r).1).0
      ≡ raised challenge_expired
unfolding verify_proof
verify_proof-once lib cfg challenge nonce nonce' r now now' =
    rw (verify_proof, get-del now' (challenge_key challenge) r) refl

get-set_ex :
    (now now' : ℕ) (key v : String) (ttl : ℕ) (r : Redis String)
    → now' < now + ttl * second
    → get now' key (set_ex now key v ttl r) ≡ some v
unfolding get set_ex alive
get-set_ex now now' key v ttl r early =
    rw
      (
        get,
        set_ex,
        write_self key (some (record { value = v; expires_at = some (now + ttl * second) })) r,
      )
      (ground arith)

-- A challenge that was created can be answered until its time is over: a nonce of 1 to 256
-- characters is accepted where its digest has the zero bits that the settings ask for.
pub create_challenge-verify_proof :
    (lib : Argon2) (cfg : Settings) (challenge nonce : String) (r : Redis String) (now now' : ℕ)
    (hash_output : List ℕ)
    → now' < now + cfg.hashcash_challenge_ttl * second
    → nonce ≢ ""
    → count nonce ≤ 256
    → compute_argon2 lib cfg challenge nonce ≡ some hash_output
    → check_leading_zero_bits hash_output cfg.hashcash_difficulty ≡ true
    → (verify_proof lib cfg now' challenge nonce (create_challenge cfg now challenge r).1).0 ≡ ok tt
unfolding verify_proof create_challenge judge_proof
create_challenge-verify_proof lib cfg challenge nonce r now now' hash_output early some_text short
      digest zeros =
    rw
      (
        verify_proof,
        get-set_ex now now' (challenge_key challenge) "1" cfg.hashcash_challenge_ttl r early,
      )
      (ground (arith, digest, zeros))
