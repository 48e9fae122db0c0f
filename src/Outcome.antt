-- ===== src/Outcome.antt =====
-- Calls that change a state and may raise. What was written before a raise stays written until the
-- transaction ends, so the state comes back beside the error too. An error is the `code` of an
-- `AuthError` (its message is not modelled), or a `ValueError` of the standard library.
use ezauth.Prelude.{Bool, if◌then◌else◌, ◌≡◌, refl, ◌⊎◌, inl, inr}

pub data Error : Type 0 where
  rate_limited invalid_redirect_url invalid_token too_many_attempts invalid_code user_not_found
        invalid_credentials email_not_verified weak_password value_error challenge_expired
        invalid_proof storage_unavailable storage_error not_found invalid_key invalid_content_type
        bucket_exists invalid_limit object_too_large storage_limit_exceeded no_result_found
        integrity_error invalid_cursor table_exists column_exists row_limit_exceeded
        validation_error invalid_filter invalid_sort type_error overflow_error challenge_used
        key_exists upstream_error challenge_not_found challenge_not_confirmed timestamp_expired
        invalid_bot_id bot_not_found invalid_signature database_error :
      Error

pub data Result {ℓ} (A : Type ℓ) : Type ℓ where
  ok : A → Result A
  raised : Error → Result A

abbrev pub Exec {ℓ} : Type ℓ → Type ℓ → Type ℓ
Exec S A = S → Result A × S

module _ {ℓ} {S A : Type ℓ} where
  abbrev pub pure : A → Exec S A
  pure a s = (ok a, s)

  abbrev pub raise : Error → Exec S A
  raise e s = (raised e, s)

  abbrev pub gets : (S → A) → Exec S A
  gets f s = (ok (f s), s)

  abbrev pub lift : Result A → Exec S A
  lift r s = (r, s)

module _ {ℓ} {S A B : Type ℓ} where
  abbrev pub and_then : Result A → (A → Exec S B) → Exec S B
  and_then (ok a) f s = f a s
  and_then (raised e) f s = (raised e, s)

  infixl 5 ◌>>=◌ ◌>>◌
  abbrev pub ◌>>=◌ : Exec S A → (A → Exec S B) → Exec S B
  ◌>>=◌ m f s = let (r, s') = m s in and_then r f s'

  abbrev pub ◌>>◌ : Exec S A → Exec S B → Exec S B
  m >> k = m >>= λ _. k

abbrev pub modify : {S : Type 0} → (S → S) → Exec S (Unit {0})
modify f s = (ok tt, f s)

abbrev pub raise_if : {S : Type 0} → Bool → Error → Exec S (Unit {0})
raise_if b e s = (if b then raised e else ok tt, s)

pub Result-cases {ℓ} :
    {A : Type ℓ} (r : Result A) → ((e : Error) × (r ≡ raised e)) ⊎ ((a : A) × (r ≡ ok a))
Result-cases (raised e) = inl (e, refl)
Result-cases (ok a) = inr (a, refl)

and_then-cases :
    {S A B : Type 0} (r : Result A) (f : A → Exec S B) (s : S) (b : B)
    → (and_then r f s).0 ≡ ok b
    → (a : A) × (r ≡ ok a) × (and_then r f s ≡ f a s)
and_then-cases (ok a) f s b h = (a, refl, refl)
and_then-cases (raised e) f s b h = cc

-- A sequence that returns has run its first part to a result, and then its second part.
pub bind-ok :
    {S A B : Type 0} (m : Exec S A) (f : A → Exec S B) (s : S) (b : B)
    → ((m >>= f) s).0 ≡ ok b
    → (a : A) × ((m s).0 ≡ ok a) × ((m >>= f) s ≡ f a (m s).1)
bind-ok m f s b h = and_then-cases (m s).0 f (m s).1 b h

-- A sequence is its first part where that raises, and else its second part.
pub bind-Result {ℓ} :
    {S A B : Type 0} (P : S → Type ℓ) (m : Exec S A) (f : A → Exec S B) (s : S)
    → P (m s).1
    → ((a : A) → (m s).0 ≡ ok a → P (f a (m s).1).1)
    → P ((m >>= f) s).1
bind-Result P m f s early late = elim (Result-cases (m s).0) [
  | inl (e, h) ↦ rw h early
  | inr (a, h) ↦ rw h (late a h)
]
