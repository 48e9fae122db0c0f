-- ===== src/Tests/Hashcash.antt =====
-- The proof of work at concrete inputs.
use ezauth.Prelude.{
  String, true, false, ◌≢◌, some, none, [], ◌∷◌, ◌≡◌, refl, ne_of_test, arith, string_eq, nat_eq,
}
use ezauth.Config.{defaults}
use ezauth.Redis.{Redis}
use ezauth.Outcome.{ok, raised, challenge_expired}
use ezauth.Hashcash.{
  Argon2, verify_proof, create_challenge, compute_argon2, check_leading_zero_bits,
}
use ezauth.Hashcash.Bits.{bits, zeros, check_leading_zero_bits-zeros}
use ezauth.Hashcash.Challenges.{verify_proof-once, create_challenge-verify_proof}

-- Every digest is 0x07 0xff.
abbrev toy_argon2 : Argon2
toy_argon2 = record { fromhex = λ _. some []; hash_secret_raw = λ _ _ _. 7 ∷ 255 ∷ [] }

abbrev empty : Redis String
empty _ = none

check_leading_zero_bits-zeros_example :
    check_leading_zero_bits (0 ∷ 31 ∷ []) 11 ≡ zeros 11 (bits (0 ∷ 31 ∷ []))
check_leading_zero_bits-zeros_example =
    check_leading_zero_bits-zeros (0 ∷ 31 ∷ []) 11 (omega arith, (omega arith, tt))

eleven_zeros : check_leading_zero_bits (0 ∷ 31 ∷ []) 11 ≡ true
unfolding check_leading_zero_bits nat_eq
eleven_zeros = refl

not_twelve : check_leading_zero_bits (0 ∷ 31 ∷ []) 12 ≡ false
unfolding check_leading_zero_bits nat_eq
not_twelve = refl

verify_proof-once_example :
    (verify_proof toy_argon2 defaults 20 "c0" "n1"
      (verify_proof toy_argon2 defaults 10 "c0" "n0"
        (create_challenge defaults 0 "c0" empty).1).1).0
    ≡ raised challenge_expired
verify_proof-once_example =
    verify_proof-once toy_argon2 defaults "c0" "n0" "n1" (create_challenge defaults 0 "c0" empty).1
      10 20

abbrev nonce : String
nonce = "n0"

some_nonce : nonce ≢ ""
unfolding string_eq
some_nonce = ne_of_test nonce "" refl

create_challenge-verify_proof_example :
    (verify_proof toy_argon2 defaults 10 "c0" "n0" (create_challenge defaults 0 "c0" empty).1).0
    ≡ ok tt
unfolding compute_argon2 check_leading_zero_bits nat_eq
create_challenge-verify_proof_example =
    create_challenge-verify_proof toy_argon2 defaults "c0" "n0" empty 0 10 (7 ∷ 255 ∷ [])
      (omega arith) some_nonce (omega arith) refl refl
