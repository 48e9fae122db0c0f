-- ===== src/Hashcash/Bits.antt =====
-- The zero bits that src/ezauth/services/hashcash.py counts.
use ezauth.Prelude.{
  ℕ, zero, suc, ◌+◌, ◌*◌, ◌/◌, ◌%◌, ◌<◌, Bool, true, false, not, ◌&&◌, List, [], ◌∷◌, ◌≡◌, sym, ap,
  ◌==◌, nat_eq, ltb, if◌then◌else◌, length, All, arith, some, ◌∙◌,
}
use ezauth.Hashcash.{bit_and, leading_bytes_zero, byte_at, high_bits_zero, check_leading_zero_bits}

-- The bits of a text of bytes, the highest of each byte first.
abbrev bit : ℕ → ℕ → Bool
bit weight b = b / weight % 2 == 1

unfoldable pub bits : List ℕ → List Bool
bits [] = []
bits (b ∷ bytes) =
    bit 128 b ∷ bit 64 b ∷ bit 32 b ∷ bit 16 b ∷ bit 8 b ∷ bit 4 b ∷ bit 2 b ∷ bit 1 b ∷ bits bytes

-- The list has at least n bits and the first n of them are zero.
unfoldable pub zeros : ℕ → List Bool → Bool
zeros zero bs = true
zeros (suc n) [] = false
zeros (suc n) (b ∷ bs) = not b && zeros n bs

byte_zero :
    (b : ℕ) (rest : Bool)
    → b < 256
    → (not (bit 128 b)
        && (not (bit 64 b)
            && (not (bit 32 b)
                && (not (bit 16 b)
                    && (not (bit 8 b)
                        && (not (bit 4 b) && (not (bit 2 b) && (not (bit 1 b) && rest))))))))
      ≡ (b == 0 && rest)
unfolding nat_eq
byte_zero b rest h = ground arith

seven_zeros : (b : ℕ) (bs : List ℕ) → b < 256 → zeros 7 (bits (b ∷ bs)) ≡ ltb b 2
unfolding zeros bits nat_eq
seven_zeros b bs h = ground arith steps 20000000

seven_masked : (b : ℕ) → b < 256 → ltb b 2 ≡ high_bits_zero 7 (some b)
unfolding high_bits_zero bit_and nat_eq
seven_masked b h = ground arith steps 20000000

high_bits :
    (r b : ℕ) (bs : List ℕ) → r < 8 → b < 256 → zeros r (bits (b ∷ bs)) ≡ high_bits_zero r (some b)
unfolding zeros bits high_bits_zero bit_and nat_eq
high_bits zero b bs hr hb = ground arith
high_bits (suc zero) b bs hr hb = ground arith
high_bits (suc (suc zero)) b bs hr hb = ground arith
high_bits (suc (suc (suc zero))) b bs hr hb = ground arith
high_bits (suc (suc (suc (suc zero)))) b bs hr hb = ground arith
high_bits (suc (suc (suc (suc (suc zero))))) b bs hr hb = ground arith
high_bits (suc (suc (suc (suc (suc (suc zero)))))) b bs hr hb = ground arith
high_bits (suc (suc (suc (suc (suc (suc (suc zero))))))) b bs hr hb =
    seven_zeros b bs hb ∙ seven_masked b hb
high_bits (suc (suc (suc (suc (suc (suc (suc (suc r)))))))) b bs hr hb = absurd (omega (arith, hr))

one_byte :
    (n r : ℕ) (x : Bool)
    → x ≡ (
        if ltb (suc n) (0 + (if suc r == 0 then 0 else 1))
        then false
        else if not true
        then false
        else if suc r == 0
        then true
        else x)
unfolding nat_eq
one_byte n r x = ground arith

step0 : (r : ℕ) → 0 * 8 + r ≡ r
step0 r = omega arith

step8 :
    (full r : ℕ) → suc full * 8 + r ≡ suc (suc (suc (suc (suc (suc (suc (suc (full * 8 + r))))))))
step8 full r = omega arith

-- Within the bytes that the digest has.
zeros_fit :
    (r : ℕ) (full : ℕ) (bytes : List ℕ)
    → r < 8
    → All (λ b. b < 256) bytes
    → zeros (full * 8 + r) (bits bytes) ≡ (
        if ltb (length bytes) (full + (if r == 0 then 0 else 1))
        then false
        else if not (leading_bytes_zero full bytes)
        then false
        else if r == 0
        then true
        else high_bits_zero r (byte_at full bytes))
unfolding zeros bits leading_bytes_zero byte_at high_bits_zero nat_eq
zeros_fit zero zero [] hr hs = ground arith
zeros_fit (suc r) zero [] hr hs = ground arith
zeros_fit zero zero (b ∷ bytes) hr hs = ground arith
zeros_fit (suc r) zero (b ∷ bytes) hr (hb, hs) =
    rw (step0 (suc r)) (
      high_bits (suc r) b bytes hr hb ∙ one_byte (length bytes) r (high_bits_zero (suc r) (some b)))
zeros_fit r (suc full) [] hr hs = rw (step8 full r) (ground arith)
zeros_fit r (suc full) (b ∷ bytes) hr (hb, hs) = rw (step8 full r) (
    byte_zero b (zeros (full * 8 + r) (bits bytes)) hb
    ∙ rw (zeros_fit r full bytes hr hs) (ground arith))

divided : (d : ℕ) → d ≡ d / 8 * 8 + d % 8
divided d = omega arith

-- The check of a digest is the test that its bits, the highest of each byte first, start with as
-- many zeros as the difficulty says, for every digest of bytes and every difficulty; a digest with
-- fewer bits than that is refused.
pub check_leading_zero_bits-zeros :
    (bytes : List ℕ) (difficulty : ℕ)
    → All (λ b. b < 256) bytes
    → check_leading_zero_bits bytes difficulty ≡ zeros difficulty (bits bytes)
unfolding check_leading_zero_bits
check_leading_zero_bits-zeros bytes difficulty h = sym (
    ap (λ d. zeros d (bits bytes)) (divided difficulty)
    ∙ zeros_fit (difficulty % 8) (difficulty / 8) bytes (omega arith) h)
