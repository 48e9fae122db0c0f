-- ===== src/Objects/Quota.antt =====
-- The quotas of src/ezauth/services/objects.py hold after a write.
use ezauth.Prelude.{
  ℕ, ◌+◌, String, true, false, Option, none, some, List, ◌≡◌, refl, ◌==◌, nat_eq, string_eq, first,
  row_count, arith, All, subst, first_holds, ◌≤◌, All-map,
}
use ezauth.Prelude.Int.{pos, ◌+ℤ◌, ◌-ℤ◌, ltb_ℤ, -ℤ_parts, +ℤ_parts}
use ezauth.Config.{Settings}
use ezauth.Platform.{Platform}
use ezauth.Outcome.{ok, bind-ok}
use ezauth.Objects.{
  Bucket, StorageObject, Storage, S3, same_object, sum_sizes, app_usage, bucket_usage, in_bucket,
}
use ezauth.Objects.Buckets.{lock_bucket, found_bucket, is_bucket}
use ezauth.Objects.Store.{
  growth, check_app_storage, check_bucket_limit, rewritten, upsert, admit_object, store_object,
  put_object, send, invalidate,
}
use ezauth.Objects.Usage.{sum_sizes-upsert}

-- What the tests on the usage say, in numbers.
fits :
    (limit used size replaced : ℕ)
    → ltb_ℤ (pos limit) (pos used +ℤ (pos size -ℤ pos replaced)) ≡ false
    → (after : ℕ) → after + replaced ≡ used + size
    → after ≤ limit
fits limit used size replaced h after e =
    ground
      (arith, -ℤ_parts (pos size) (pos replaced), +ℤ_parts (pos used) (pos size -ℤ pos replaced))

-- A limit that is set is respected.
abbrev pub Within : Option ℕ → ℕ → Type 0
Within none used = Unit
Within (some limit) used = used ≤ limit

limit_Within :
    (limit : Option ℕ) (used size replaced after : ℕ)
    → check_bucket_limit used limit (pos size -ℤ pos replaced) ≡ false
    → after + replaced ≡ used + size
    → Within limit after
unfolding check_bucket_limit
limit_Within none used size replaced after h e = tt
limit_Within (some limit) used size replaced after h e = fits limit used size replaced h after e

-- A row of the same bucket, user and key.
same_parts :
    (b u : ℕ) (k : String) (r : StorageObject)
    → same_object b u k r ≡ true
    → (r.bucket_id ≡ b) × (r.user_id ≡ u)
unfolding same_object
same_parts b u k r h = ground arith

module _ (sys : Platform) (strip : String → String) (cfg : Settings) (client : Option S3)
    (id now app_id bucket_id user_id : ℕ) (key : String) (content_type : Option String)
    (bytes : List ℕ) (s : Storage) where
  -- What `put_object` has checked when it writes the row `new`.
  abbrev Admitted : Bucket → StorageObject → Type 0
  Admitted bucket new =
      let delta = growth new.bucket_id new.user_id new.key new.size_bytes s.objects in
      (first (is_bucket app_id bucket_id) s.buckets ≡ some bucket)
      × (check_app_storage cfg app_id delta s.objects ≡ false)
      × (check_bucket_limit (bucket_usage bucket.id none s.objects) bucket.max_size_bytes delta
          ≡ false)
      × (check_bucket_limit (bucket_usage bucket.id (some user_id) s.objects)
            bucket.max_size_bytes_per_user delta
          ≡ false)
      × (new.app_id ≡ app_id)
      × (new.bucket_id ≡ bucket_id)
      × (new.user_id ≡ user_id)

  upsert-Within :
      (bucket : Bucket) (new : StorageObject)
      → ((b u : ℕ) (k : String) → row_count (same_object b u k) s.objects ≤ 1)
      → All (λ r. r.bucket_id ≡ bucket_id → r.app_id ≡ app_id) s.objects
      → bucket.id ≡ bucket_id
      → Admitted bucket new
      → let after = upsert new s.objects in
        (app_usage app_id after ≤ cfg.object_storage_limit_bytes)
        × Within bucket.max_size_bytes (bucket_usage bucket_id none after)
        × Within bucket.max_size_bytes_per_user (bucket_usage bucket_id (some user_id) after)
  unfolding app_usage bucket_usage growth check_app_storage rewritten
  upsert-Within bucket new unique owned same_id
        (_, app_fits, bucket_fits, user_fits, of_app, of_bucket, of_user) =
      let after : List StorageObject = upsert new s.objects in
      let replaced : ℕ = sum_sizes (same_object new.bucket_id new.user_id new.key) s.objects in
      (
        fits cfg.object_storage_limit_bytes (app_usage app_id s.objects) new.size_bytes replaced
            app_fits (app_usage app_id after)
            (sum_sizes-upsert (λ r. r.app_id == app_id) new s.objects (ground arith) (λ r. refl)
              (All-map
                (λ r own hit. ground (arith, same_parts new.bucket_id new.user_id new.key r hit))
                s.objects owned)
              (unique new.bucket_id new.user_id new.key)),
        limit_Within bucket.max_size_bytes (bucket_usage bucket_id none s.objects) new.size_bytes
            replaced (bucket_usage bucket_id none after)
            (subst
              (λ b.
                check_bucket_limit (bucket_usage b none s.objects) bucket.max_size_bytes
                  (pos new.size_bytes -ℤ pos replaced)
                ≡ false)
              same_id bucket_fits)
            (sum_sizes-upsert (in_bucket bucket_id none) new s.objects (ground arith) (λ r. refl)
              (All-map
                (λ r own hit. ground (arith, same_parts new.bucket_id new.user_id new.key r hit))
                s.objects owned)
              (unique new.bucket_id new.user_id new.key)),
        limit_Within bucket.max_size_bytes_per_user
            (bucket_usage bucket_id (some user_id) s.objects) new.size_bytes replaced
            (bucket_usage bucket_id (some user_id) after)
            (subst
              (λ b.
                check_bucket_limit (bucket_usage b (some user_id) s.objects)
                  bucket.max_size_bytes_per_user (pos new.size_bytes -ℤ pos replaced)
                ≡ false)
              same_id user_fits)
            (sum_sizes-upsert (in_bucket bucket_id (some user_id)) new s.objects (ground arith)
              (λ r. refl)
              (All-map
                (λ r own hit. ground (arith, same_parts new.bucket_id new.user_id new.key r hit))
                s.objects owned)
              (unique new.bucket_id new.user_id new.key)),
      )

  pub admit_object-keeps :
      (admit_object sys strip cfg client id now app_id bucket_id user_id key content_type bytes s).1
      ≡ s
  unfolding admit_object lock_bucket
  admit_object-keeps = grind arith

  admit_object-Admitted :
      (x : S3 × StorageObject) (bucket : Bucket)
      → first (is_bucket app_id bucket_id) s.buckets ≡ some bucket
      → (admit_object sys strip cfg client id now app_id bucket_id user_id key content_type bytes
          s).0
        ≡ ok x
      → Admitted bucket x.1
  unfolding admit_object lock_bucket found_bucket
  admit_object-Admitted x bucket found h = grind arith

  pub store_object-objects :
      (s3 : S3) (new : StorageObject)
      → (store_object sys strip cfg client s3 new bytes s).1.objects ≡ upsert new s.objects
  unfolding store_object send invalidate
  store_object-objects s3 new = grind arith

  -- After an upload that succeeds, the application is within its limit, the bucket within its
  -- own, and the user within the bucket's limit for a user, at the row that the upload wrote. The
  -- table holds at most one object for a bucket, user and key, and the objects of the bucket belong
  -- to the application.
  pub put_object-Within :
      (bucket : Bucket) (obj : StorageObject)
      → ((b u : ℕ) (k : String) → row_count (same_object b u k) s.objects ≤ 1)
      → All (λ r. r.bucket_id ≡ bucket_id → r.app_id ≡ app_id) s.objects
      → first (is_bucket app_id bucket_id) s.buckets ≡ some bucket
      → (put_object sys strip cfg client id now app_id bucket_id user_id key content_type bytes s).0
        ≡ ok obj
      → let after =
          (put_object sys strip cfg client id now app_id bucket_id user_id key content_type bytes
            s).1.objects in
        (app_usage app_id after ≤ cfg.object_storage_limit_bytes)
        × Within bucket.max_size_bytes (bucket_usage bucket_id none after)
        × Within bucket.max_size_bytes_per_user (bucket_usage bucket_id (some user_id) after)
  unfolding put_object
  put_object-Within bucket obj unique owned found h =
      let admit =
        admit_object sys strip cfg client id now app_id bucket_id user_id key content_type bytes in
      let (x, good, run) =
        bind-ok admit (λ a. store_object sys strip cfg client a.0 a.1 bytes) s obj h in
      let id_of : bucket.id ≡ bucket_id =
        ground
          (arith, is_bucket, first_holds (is_bucket app_id bucket_id) s.buckets bucket found) in
      let kept = admit_object-keeps in
      rw (run, kept, store_object-objects x.0 x.1)
        (upsert-Within bucket x.1 unique owned id_of (admit_object-Admitted x bucket found good))
