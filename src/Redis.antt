-- ===== src/Redis.antt =====
-- The Redis commands that the program sends, over a store of keys with a value and an expiry. The
-- store is a service outside the repository: these are the documented effects of INCR, EXPIRE … NX,
-- GET, SET … EX, SET … NX EX and DEL, at the instant of the call.
use ezauth.Prelude.{
  ℕ, ◌+◌, ◌*◌, String, Option, none, some, ◌==◌, string_eq, ltb, if◌then◌else◌, ◌≡◌, ◌≢◌, refl,
  ==_iff, Bool-cases, inl, inr,
}
use ezauth.Config.{second}

pub record Entry {ℓ} (V : Type ℓ) : Type ℓ where
  pub value : V
  pub expires_at : Option ℕ

abbrev pub Redis {ℓ} : Type ℓ → Type ℓ
Redis V = String → Option (Entry V)

module _ {ℓ} {V : Type ℓ} where
  -- An entry that has not expired.
  unfoldable pub alive : ℕ → Option (Entry V) → Option (Entry V)
  alive now none = none
  alive now (some e) = elim e.expires_at [
    | none ↦ some e
    | some t ↦ if ltb now t then some e else none
  ]

  unfoldable pub write : String → Option (Entry V) → Redis V → Redis V
  write key e r k = if key == k then e else r k

  -- GET
  unfoldable pub get : ℕ → String → Redis V → Option V
  unfolding alive
  get now key r = elim (alive now (r key)) [ none ↦ none | some e ↦ some e.value ]

  -- SET key value EX seconds
  unfoldable pub set_ex : ℕ → String → V → ℕ → Redis V → Redis V
  unfolding write
  set_ex now key v ttl =
      write key (some (record { value = v; expires_at = some (now + ttl * second) }))

  -- DEL
  unfoldable pub del : String → Redis V → Redis V
  unfolding write
  del key = write key none

-- INCR: a missing key counts from 0 and has no expiry.
unfoldable pub incremented : Option (Entry ℕ) → Entry ℕ
incremented none = record { value = 1; expires_at = none }
incremented (some e) = record e { value = e.value + 1 }

-- EXPIRE key seconds NX: only where the key has no expiry.
unfoldable pub expire_nx : ℕ → ℕ → Entry ℕ → Entry ℕ
expire_nx now ttl e = elim e.expires_at [
  | none ↦ record e { expires_at = some (now + ttl * second) }
  | some _ ↦ e
]

-- INCR key, then EXPIRE key seconds NX, in one pipeline: the entry that they leave.
unfoldable pub counted : ℕ → ℕ → Option (Entry ℕ) → Entry ℕ
unfolding alive incremented expire_nx
counted now ttl e = expire_nx now ttl (incremented (alive now e))

module _ {ℓ} {V : Type ℓ} (key : String) (e : Option (Entry V)) (r : Redis V) where
  pub write_self : write key e r key ≡ e
  unfolding write
  write_self = rw ((==_iff key key).1 refl) refl

  pub write-ne : (k : String) → key ≢ k → write key e r k ≡ r k
  unfolding write
  write-ne k apart = elim (Bool-cases (key == k)) [
    | inl same ↦ absurd (apart ((==_iff key k).0 same))
    | inr other ↦ rw other refl
  ]

  pub get-write_ne : (now : ℕ) (k : String) → key ≢ k → get now k (write key e r) ≡ get now k r
  unfolding get
  get-write_ne now k apart = rw (get, write-ne k apart) refl
