-- ===== src/Objects/Lookup.antt =====
-- An upload in src/ezauth/services/objects.py keeps the table's constraint and is found again.
use ezauth.Prelude.{
  ℕ, String, Bool, true, ◌&&◌, Option, List, [], ◌∷◌, ◌≡◌, refl, ◌∙◌, ◌==◌, nat_eq, string_eq, any,
  first, row_count, arith, All, Bool-cases, inl, inr, sym, ap, subst, ◌≤◌, All-map, All-update,
  All-append,
}
use ezauth.Config.{Settings}
use ezauth.Platform.{Platform}
use ezauth.Outcome.{ok, bind-ok, bind-Result}
use ezauth.Objects.{StorageObject, Storage, S3, same_object}
use ezauth.Objects.Store.{
  rewritten, upsert, stored, admit_object, store_object, put_object, get_object, send,
}
use ezauth.Objects.Keys.{validate_object_key}
use ezauth.Objects.Buckets.{lock_bucket}
use ezauth.Objects.Usage.{row_count-upsert, first-upsert}
use ezauth.Objects.Quota.{admit_object-keeps, store_object-objects}

-- Where the objects at a key belong to the application, asking for the application changes nothing.
first_owned :
    (q : StorageObject → Bool) (app_id : ℕ) (rows : List StorageObject)
    → All (λ r. q r ≡ true → r.app_id ≡ app_id) rows
    → first (λ r. q r && r.app_id == app_id) rows ≡ first q rows
unfolding first
first_owned q app_id [] h = refl
first_owned q app_id (r ∷ rows) (here, there) = elim (Bool-cases (q r)) [
  | inl hit ↦ ground (arith, hit, here hit)
  | inr miss ↦ ground (arith, miss, first_owned q app_id rows there)
]

All-upsert :
    (P : StorageObject → Type 0) (new : StorageObject)
    → P new
    → ((r : StorageObject) → P r → P (rewritten new r))
    → (rows : List StorageObject) → All P rows
    → All P (upsert new rows)
unfolding upsert
All-upsert P new fresh kept rows all =
    let q : StorageObject → Bool = same_object new.bucket_id new.user_id new.key in
    elim (Bool-cases (any q rows)) [
      | inl hit ↦ rw hit (All-update q (rewritten new) (λ r _ p. kept r p) (λ r _ p. p) rows all)
      | inr miss ↦ rw miss (All-append P rows (new ∷ []) all (fresh, tt))
    ]

get_stored :
    (sys : Platform) (strip : String → String) (cfg : Settings) (client : Option S3)
    (new : StorageObject) (s : Storage)
    → All (λ r. r.bucket_id ≡ new.bucket_id → r.app_id ≡ new.app_id) s.objects
    → (s' : Storage) → s'.objects ≡ upsert new s.objects
    → (get_object sys strip cfg client new.app_id new.bucket_id new.user_id new.key s').0
      ≡ ok (stored new s.objects)
unfolding get_object
get_stored sys strip cfg client new s owned s' after =
    let q : StorageObject → Bool = same_object new.bucket_id new.user_id new.key in
    let all : All (λ (r : StorageObject). q r ≡ true → r.app_id ≡ new.app_id)
        (upsert new s.objects) =
      All-upsert (λ (r : StorageObject). q r ≡ true → r.app_id ≡ new.app_id) new (λ _. refl)
        (λ r p hit. unfold rewritten same_object in p hit) s.objects
        (All-map (λ r own hit. unfold same_object in ground (arith, own)) s.objects owned) in
    rw
      (
        get_object,
        after,
        first_owned q new.app_id (upsert new s.objects) all,
        first-upsert new s.objects,
      )
      refl

get_at :
    (sys : Platform) (strip : String → String) (cfg : Settings) (client : Option S3)
    (new : StorageObject) (s : Storage) (app_id bucket_id user_id : ℕ) (key : String)
    → (new.app_id ≡ app_id)
      × (new.bucket_id ≡ bucket_id)
      × (new.user_id ≡ user_id)
      × (new.key ≡ key)
    → All (λ r. r.bucket_id ≡ bucket_id → r.app_id ≡ app_id) s.objects
    → (s' : Storage) → s'.objects ≡ upsert new s.objects
    → (get_object sys strip cfg client app_id bucket_id user_id key s').0
      ≡ ok (stored new s.objects)
get_at sys strip cfg client new s app_id bucket_id user_id key (a, b, u, k) owned s' after =
    rw (sym a, sym b, sym u, sym k)
      (get_stored sys strip cfg client new s (rw (a, b) owned) s' after)

module _ (sys : Platform) (strip : String → String) (cfg : Settings) (client : Option S3)
    (id now app_id bucket_id user_id : ℕ) (key : String) (content_type : Option String)
    (bytes : List ℕ) (s : Storage) where
  -- An upload keeps the constraint of the table, whether it succeeds or not: where the table had at
  -- most one object for a bucket, user and key, it has at most one afterwards.
  pub put_object_unique :
      (b u : ℕ) (k : String)
      → row_count (same_object b u k) s.objects ≤ 1
      → row_count
          (same_object b u k)
          (put_object sys strip cfg client id now app_id bucket_id user_id key content_type bytes
            s).1.objects
        ≤ 1
  unfolding put_object
  put_object_unique b u k unique =
      let admit =
        admit_object sys strip cfg client id now app_id bucket_id user_id key content_type bytes in
      let kept =
        admit_object-keeps sys strip cfg client id now app_id bucket_id user_id key content_type
          bytes s in
      bind-Result (λ (x : Storage). row_count (same_object b u k) x.objects ≤ 1) admit
        (λ a. store_object sys strip cfg client a.0 a.1 bytes) s (rw kept unique)
        (λ x good.
          rw
            (
              kept,
              store_object-objects sys strip cfg client id now app_id bucket_id user_id key
                  content_type bytes s x.0 x.1,
            )
            (row_count-upsert b u k x.1 s.objects unique))

  -- The row that the checks let through is at the application, bucket, user and key of the call.
  pub admit_object-place :
      (x : S3 × StorageObject)
      → (admit_object sys strip cfg client id now app_id bucket_id user_id key content_type bytes
          s).0
        ≡ ok x
      → (x.1.app_id ≡ app_id)
        × (x.1.bucket_id ≡ bucket_id)
        × (x.1.user_id ≡ user_id)
        × (x.1.key ≡ key)
  unfolding admit_object lock_bucket validate_object_key
  admit_object-place x h = grind arith

  store_object-returns :
      (s3 : S3) (new obj : StorageObject)
      → (store_object sys strip cfg client s3 new bytes s).0 ≡ ok obj
      → obj ≡ stored new s.objects
  unfolding store_object send
  store_object-returns s3 new obj h = grind arith

  -- An object that was uploaded is found again: after an upload that succeeds, the same
  -- application, bucket, user and key give the row that the upload returned. The objects of the
  -- bucket belong to the application.
  pub put_object-get_object :
      (obj : StorageObject)
      → All (λ r. r.bucket_id ≡ bucket_id → r.app_id ≡ app_id) s.objects
      → (put_object sys strip cfg client id now app_id bucket_id user_id key content_type bytes s).0
        ≡ ok obj
      → (get_object sys strip cfg client app_id bucket_id user_id key
          (put_object sys strip cfg client id now app_id bucket_id user_id key content_type bytes
            s).1).0
        ≡ ok obj
  unfolding put_object
  put_object-get_object obj owned h =
      let admit =
        admit_object sys strip cfg client id now app_id bucket_id user_id key content_type bytes in
      let (x, good, run) =
        bind-ok admit (λ a. store_object sys strip cfg client a.0 a.1 bytes) s obj h in
      let kept =
        admit_object-keeps sys strip cfg client id now app_id bucket_id user_id key content_type
          bytes s in
      let run' : put_object sys strip cfg client id now app_id bucket_id user_id key content_type
            bytes s
          ≡ store_object sys strip cfg client x.0 x.1 bytes s =
        run ∙ ap (λ t. store_object sys strip cfg client x.0 x.1 bytes t) kept in
      rw (run', store_object-returns x.0 x.1 obj (subst (λ r. r.0 ≡ ok obj) run' h))
        (get_at sys strip cfg client x.1 s app_id bucket_id user_id key (admit_object-place x good)
          owned (store_object sys strip cfg client x.0 x.1 bytes s).1
          (store_object-objects sys strip cfg client id now app_id bucket_id user_id key
            content_type bytes s x.0 x.1))
