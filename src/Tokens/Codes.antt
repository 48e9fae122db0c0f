-- ===== src/Tokens/Codes.antt =====
-- Codes, in src/ezauth/services/tokens.py.
use ezauth.Prelude.{
  ℕ, ◌<◌, ◌≢◌, ◌⊎◌, clash, any, ==_iff, Bool-cases, All-map, String, Bool, true, ◌&&◌, Option, none,
  some, List, [], ◌∷◌, ◌≡◌, refl, sym, ap, ◌∙◌, ◌↔◌, ◌==◌, string_eq, nat_eq, All, arith, select,
  first, update, first_holds, first-select, All-update, All-always, first-All-false, All-first-none,
  Option-cases, inl, inr,
}
use mathlib.Core.Option.{some-injective, some-ne-none}
use ezauth.Config.{Settings}
use ezauth.Platform.{Platform}
use ezauth.Models.{
  AuthAttempt, AuthAttemptType, pending, consumed, attempt_status_eq, attempt_type_eq,
}
use ezauth.Tokens.{set_status, hash_token, constant_time_compare}
use ezauth.Tokens.ByCode.{
  type_in, stored_code, Reason, code_candidate, code_matches, settle_code,
  consume_auth_attempt_by_code,
}

-- The first candidate with the code, in the order of the rows.
abbrev pub by_code :
    Platform → ℕ → String → String → ℕ → Option (List AuthAttemptType) → AuthAttempt → Bool
by_code sys now email code app_id types r =
    code_candidate now email app_id types r && code_matches (hash_token sys code) r

abbrev Among : List AuthAttemptType → AuthAttemptType → Type 0
Among [] t = ⊥
Among (u ∷ us) t = (t ≡ u) ⊎ Among us t

-- No list and an empty list ask for no type.
abbrev pub Asked : Option (List AuthAttemptType) → AuthAttemptType → Type 0
Asked none t = Unit
Asked (some []) t = Unit
Asked (some (u ∷ us)) t = Among (u ∷ us) t

any_Among :
    (us : List AuthAttemptType) (t : AuthAttemptType) → (any (λ u. t == u) us ≡ true) ↔ Among us t
any_Among [] t = ground arith
any_Among (u ∷ us) t = let rest = any_Among us t in ground (arith, rest, ==_iff t u)

type_in_Asked :
    (types : Option (List AuthAttemptType)) (r : AuthAttempt)
    → (type_in types r ≡ true) ↔ Asked types r.type
unfolding type_in
type_in_Asked none r = ((λ h. tt), (λ h. refl))
type_in_Asked (some []) r = ((λ h. tt), (λ h. refl))
type_in_Asked (some (u ∷ us)) r = any_Among (u ∷ us) r.type

code_matches_digest :
    (h : String) (r : AuthAttempt)
    → (code_matches h r ≡ true) ↔ ((r.metadata_json.code_hash ≡ some h) × (h ≢ ""))
unfolding code_matches stored_code constant_time_compare
code_matches_digest h r = elim (Option-cases r.metadata_json.code_hash) [
  | inl absent ↦ ground (arith, absent)
  | inr (g, present) ↦ ground (arith, present, ==_iff g "", ==_iff g h)
]

module _ (cfg : Settings) (p : AuthAttempt → Bool) (h : String) where
  settle_found :
      (cs rows : List AuthAttempt) (r : AuthAttempt)
      → first (code_matches h) cs ≡ some r
      → settle_code cfg p h cs rows ≡ (
        (some (set_status consumed r), none),
        update (λ x. x.id == r.id) (set_status consumed) rows,
      )
  unfolding settle_code first
  settle_found [] rows r e = cc
  settle_found (c ∷ cs) rows r e = rw (e, settle_code) refl

  settle_none :
      (cs rows : List AuthAttempt)
      → first (code_matches h) cs ≡ none
      → (settle_code cfg p h cs rows).0.0 ≡ none
  unfolding settle_code
  settle_none [] rows e = refl
  settle_none (c ∷ cs) rows e = rw (e, settle_code) refl

module _ (sys : Platform) (cfg : Settings) (now : ℕ) (email code : String) (app_id : ℕ)
    (types : Option (List AuthAttemptType)) where
  -- The attempt is open to the code.
  abbrev pub Open : AuthAttempt → Type 0
  Open r =
      (r.app_id ≡ app_id)
      × (r.email ≡ email)
      × (r.status ≡ pending)
      × (now < r.expires_at)
      × Asked types r.type
      × (r.metadata_json.code_hash ≡ some (hash_token sys code))
      × (hash_token sys code ≢ "")

  consume_found :
      (rows : List AuthAttempt) (r : AuthAttempt)
      → first (by_code sys now email code app_id types) rows ≡ some r
      → consume_auth_attempt_by_code sys cfg now email code app_id types rows ≡ (
        (some (set_status consumed r), none),
        update (λ x. x.id == r.id) (set_status consumed) rows,
      )
  unfolding consume_auth_attempt_by_code
  consume_found rows r e =
      let p = code_candidate now email app_id types in
      let q = code_matches (hash_token sys code) in
      settle_found cfg p (hash_token sys code) (select p rows) rows r (first-select p q rows ∙ e)

  found_result :
      (rows : List AuthAttempt) (r : AuthAttempt)
      → first (by_code sys now email code app_id types) rows ≡ some r
      → (consume_auth_attempt_by_code sys cfg now email code app_id types rows).0.0
        ≡ some (set_status consumed r)
  found_result rows r e =
      ap (λ (t : (Option AuthAttempt × Option Reason) × List AuthAttempt). t.0.0)
        (consume_found rows r e)

  consume_none :
      (rows : List AuthAttempt)
      → first (by_code sys now email code app_id types) rows ≡ none
      → (consume_auth_attempt_by_code sys cfg now email code app_id types rows).0.0 ≡ none
  unfolding consume_auth_attempt_by_code
  consume_none rows e =
      let p = code_candidate now email app_id types in
      let q = code_matches (hash_token sys code) in
      settle_none cfg p (hash_token sys code) (select p rows) rows (first-select p q rows ∙ e)

  pub by_code-Open : (r : AuthAttempt) → (by_code sys now email code app_id types r ≡ true) ↔ Open r
  unfolding code_candidate
  by_code-Open r =
      let of_type = type_in_Asked types r in
      let digest = code_matches_digest (hash_token sys code) r in
      ground (
        arith,
        of_type,
        digest,
        ==_iff r.app_id app_id,
        ==_iff r.email email,
        ==_iff r.status pending,
      )

  -- A code is refused exactly when no attempt of the application and the address, of one of the types
  -- asked for, is pending, not expired, and has the code's digest, which is not empty.
  pub accepted_iff :
      (rows : List AuthAttempt)
      → ((consume_auth_attempt_by_code sys cfg now email code app_id types rows).0.0 ≡ none)
        ↔ All (λ r. ¬ Open r) rows
  accepted_iff rows = (
    λ h. elim (Option-cases (first (by_code sys now email code app_id types) rows)) [
      | inl e ↦
          All-map (λ r miss found. absurd (clash miss ((by_code-Open r).1 found))) rows
            (All-first-none _ rows e)
      | inr (r, e) ↦ absurd (some-ne-none _ (sym (found_result rows r e) ∙ h))
    ],
    λ h. consume_none rows (
        first-All-false _ rows (
          All-map
            (λ r closed. elim (Bool-cases (by_code sys now email code app_id types r)) [
              | inl yes_open ↦ absurd (closed ((by_code-Open r).0 yes_open))
              | inr no_open ↦ no_open
            ])
            rows h)),
  )

  by_code_facts :
      (r : AuthAttempt)
      → by_code sys now email code app_id types r ≡ true
      → (r.app_id ≡ app_id)
        × (r.email ≡ email)
        × (now < r.expires_at)
        × (r.metadata_json.code_hash ≡ some (hash_token sys code))
  unfolding code_candidate code_matches
  by_code_facts r h = ground arith

  by_id_consumed :
      (a : AuthAttempt) (rows : List AuthAttempt)
      → All
          (λ r. r.id ≡ a.id → r.status ≡ consumed)
          (update (λ x. x.id == a.id) (set_status consumed) rows)
  unfolding set_status
  by_id_consumed a rows =
      All-update (λ x. x.id == a.id) (set_status consumed) (λ r _ _ _. refl)
        (λ r miss _ e. absurd (ground arith)) rows (All-always {P = λ _. Unit {0}} (λ r. tt) rows)

  abbrev Sound : AuthAttempt → Option Reason → List AuthAttempt → Type 0
  Sound a reason rows' =
      (reason ≡ none)
      × (a.app_id ≡ app_id)
      × (a.email ≡ email)
      × (now < a.expires_at)
      × (a.metadata_json.code_hash ≡ some (hash_token sys code))
      × (a.status ≡ consumed)
      × All (λ r. r.id ≡ a.id → r.status ≡ consumed) rows'

  Sound-at :
      (rows : List AuthAttempt) (r a : AuthAttempt)
      → first (by_code sys now email code app_id types) rows ≡ some r
      → (consume_auth_attempt_by_code sys cfg now email code app_id types rows).0.0 ≡ some a
      → Sound a
          (consume_auth_attempt_by_code sys cfg now email code app_id types rows).0.1
          (consume_auth_attempt_by_code sys cfg now email code app_id types rows).1
  unfolding set_status
  Sound-at rows r a e h =
      let (in_app, to, live, digest) =
        by_code_facts r (first_holds (by_code sys now email code app_id types) rows r e) in
      let marked : set_status consumed r ≡ a =
        some-injective _ _ (sym (found_result rows r e) ∙ h) in
      rw (consume_found rows r e, ← marked)
        (refl, in_app, to, live, digest, refl, by_id_consumed r rows)

  -- What an accepted code returns: an attempt of this application and address, not expired, whose
  -- stored digest is the digest of the code. It is marked consumed, the reason is none, and no row
  -- of the table with its id is left in another status.
  pub consume_by_code_sound :
      (rows : List AuthAttempt) (a : AuthAttempt)
      → let (result, rows') =
          consume_auth_attempt_by_code sys cfg now email code app_id types rows in
        result.0 ≡ some a
        → (result.1 ≡ none)
          × (a.app_id ≡ app_id)
          × (a.email ≡ email)
          × (now < a.expires_at)
          × (a.metadata_json.code_hash ≡ some (hash_token sys code))
          × (a.status ≡ consumed)
          × All (λ r. r.id ≡ a.id → r.status ≡ consumed) rows'
  consume_by_code_sound rows a h =
      elim (Option-cases (first (by_code sys now email code app_id types) rows)) [
        | inl e ↦ absurd (cc (consume_none rows e))
        | inr (r, e) ↦ Sound-at rows r a e h
      ]
