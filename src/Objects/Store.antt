-- ===== src/Objects/Store.antt =====
-- The objects of src/ezauth/services/objects.py: put, get, open and delete.
use Prim.Native.String.{◌++◌ as ◌<>◌}
use ezauth.Prelude.{
  ℕ, String, Bool, false, ◌&&◌, Option, none, some, List, [], ◌∷◌, ◌++◌, ◌==◌, string_eq, nat_eq,
  if◌then◌else◌, ltb, first, any, update, delete, inl, inr, length, ◌⊎◌,
}
use ezauth.Prelude.Int.{ℤ, pos, ◌+ℤ◌, ◌-ℤ◌, ltb_ℤ}
use ezauth.Config.{Settings}
use ezauth.Platform.{Platform}
use ezauth.Redis.{del}
use ezauth.Outcome.{
  Exec, Result, ok, raised, pure, gets, lift, modify, raise_if, ◌>>=◌, ◌>>◌, object_too_large,
  storage_limit_exceeded, not_found,
}
use ezauth.Objects.{
  StorageObject, Storage, S3, S3Fault, s3_key, require_s3, storage_failure, same_object, sum_sizes,
  app_usage, bucket_usage,
}
use ezauth.Objects.Keys.{validate_object_key, validate_content_type}
use ezauth.Objects.Buckets.{lock_bucket}

-- `size - (replaced.scalar() or 0)`: what the write adds to the usage.
unfoldable pub growth : ℕ → ℕ → String → ℕ → List StorageObject → ℤ
unfolding sum_sizes same_object
growth bucket_id user_id key size rows =
    pos size -ℤ pos (sum_sizes (same_object bucket_id user_id key) rows)

unfoldable pub check_app_storage : Settings → ℕ → ℤ → List StorageObject → Bool
unfolding app_usage
check_app_storage cfg app_id additional rows =
    ltb_ℤ (pos cfg.object_storage_limit_bytes) (pos (app_usage app_id rows) +ℤ additional)

unfoldable pub check_bucket_limit : ℕ → Option ℕ → ℤ → Bool
check_bucket_limit used none additional = false
check_bucket_limit used (some limit) additional = ltb_ℤ (pos limit) (pos used +ℤ additional)

-- ON CONFLICT (bucket_id, user_id, key) DO UPDATE
unfoldable pub rewritten : StorageObject → StorageObject → StorageObject
rewritten new r = record r {
  content_type = new.content_type;
  size_bytes = new.size_bytes;
  updated_at = new.updated_at;
}

unfoldable pub upsert : StorageObject → List StorageObject → List StorageObject
unfolding same_object rewritten update
upsert new rows =
    if any (same_object new.bucket_id new.user_id new.key) rows
    then update (same_object new.bucket_id new.user_id new.key) (rewritten new) rows
    else rows ++ new ∷ []

-- RETURNING: the row of the upsert, as it now stands.
unfoldable pub stored : StorageObject → List StorageObject → StorageObject
unfolding same_object rewritten first
stored new rows = elim (first (same_object new.bucket_id new.user_id new.key) rows) [
  | none ↦ new
  | some old ↦ rewritten new old
]

unfoldable pub invalidate : Platform → ℕ → ℕ → ℕ → Storage → Storage
unfolding del
invalidate sys app_id bucket_id user_id s = record s {
  cache =
      del ("bucket_user_storage:" <> (sys.str_uuid bucket_id <> (":" <> sys.str_uuid user_id))) (
        del ("bucket_storage:" <> sys.str_uuid bucket_id)
          (del ("object_storage:" <> sys.str_uuid app_id) s.cache));
}

-- A call of the client: its exception is translated, and its payloads are kept either way.
unfoldable pub send :
    (Storage → Option S3Fault × (String → Option (List ℕ))) → Exec Storage (Unit {0})
unfolding storage_failure
send call s =
    let (fault, payloads) = call s in
    (
      elim fault [ none ↦ ok tt | some f ↦ raised (storage_failure f) ],
      record s { payloads = payloads },
    )

module _ (sys : Platform) (strip : String → String) (cfg : Settings) (client : Option S3) where
  -- Everything that `put_object` checks, in order; it returns the client and the row to write.
  -- `id` and `now` are what the insert draws.
  unfoldable pub admit_object :
      (id now app_id bucket_id user_id : ℕ)
      → String
      → Option String
      → List ℕ
      → Exec Storage (S3 × StorageObject)
  unfolding require_s3 validate_object_key validate_content_type lock_bucket growth
      check_app_storage check_bucket_limit bucket_usage
  admit_object id now app_id bucket_id user_id key content_type bytes = do
    s3 ← lift (require_s3 cfg client)
    key' ← lift (validate_object_key key)
    value ← lift (validate_content_type strip content_type)
    raise_if (ltb cfg.object_storage_max_object_bytes (length bytes)) object_too_large
    bucket ← lock_bucket app_id bucket_id
    rows ← gets (λ (s : Storage). s.objects)
    let delta = growth bucket_id user_id key' (length bytes) rows
    raise_if (check_app_storage cfg app_id delta rows) storage_limit_exceeded
    raise_if (check_bucket_limit (bucket_usage bucket.id none rows) bucket.max_size_bytes delta)
        storage_limit_exceeded
    raise_if
        (check_bucket_limit (bucket_usage bucket.id (some user_id) rows)
          bucket.max_size_bytes_per_user delta)
        storage_limit_exceeded
    pure (
      s3,
      record {
        id = id;
        app_id = app_id;
        bucket_id = bucket_id;
        user_id = user_id;
        key = key';
        content_type = value;
        size_bytes = length bytes;
        updated_at = now;
      },
    )

  unfoldable pub store_object : S3 → StorageObject → List ℕ → Exec Storage StorageObject
  unfolding stored upsert send s3_key invalidate
  store_object s3 new bytes = do
    rows ← gets (λ (s : Storage). s.objects)
    modify (λ (s : Storage). record s { objects = upsert new s.objects })
    send (λ s.
        s3.put_payload cfg.s3_bucket_name (s3_key sys new.app_id new.bucket_id new.user_id new.key)
          bytes s.payloads)
    modify (invalidate sys new.app_id new.bucket_id new.user_id)
    pure (stored new rows)

  unfoldable pub put_object :
      (id now app_id bucket_id user_id : ℕ)
      → String
      → Option String
      → List ℕ
      → Exec Storage StorageObject
  unfolding admit_object store_object
  put_object id now app_id bucket_id user_id key content_type bytes = do
    admitted ← admit_object id now app_id bucket_id user_id key content_type bytes
    store_object admitted.0 admitted.1 bytes

  unfoldable pub get_object : (app_id bucket_id user_id : ℕ) → String → Exec Storage StorageObject
  unfolding same_object first
  get_object app_id bucket_id user_id key s = (
    elim (first (λ r. same_object bucket_id user_id key r && r.app_id == app_id) s.objects) [
      | none ↦ raised not_found
      | some r ↦ ok r
    ],
    s,
  )

  unfoldable pub read_payload : S3Fault ⊎ List ℕ → Result (List ℕ)
  unfolding storage_failure
  read_payload (inl f) = raised (storage_failure f)
  read_payload (inr bytes) = ok bytes

  -- The body is the whole payload; `iter_object_body` reads it in pieces.
  unfoldable pub open_object :
      (app_id bucket_id user_id : ℕ) → String → Exec Storage (StorageObject × List ℕ)
  unfolding require_s3 validate_object_key get_object read_payload s3_key
  open_object app_id bucket_id user_id key = do
    s3 ← lift (require_s3 cfg client)
    key' ← lift (validate_object_key key)
    obj ← get_object app_id bucket_id user_id key'
    payloads ← gets (λ (s : Storage). s.payloads)
    bytes ← lift (
        read_payload
          (s3.get_payload cfg.s3_bucket_name (s3_key sys app_id bucket_id user_id key') payloads))
    pure (obj, bytes)

  unfoldable pub delete_object : (app_id bucket_id user_id : ℕ) → String → Exec Storage (Unit {0})
  unfolding require_s3 validate_object_key get_object send s3_key invalidate delete
  delete_object app_id bucket_id user_id key = do
    s3 ← lift (require_s3 cfg client)
    key' ← lift (validate_object_key key)
    obj ← get_object app_id bucket_id user_id key'
    modify (λ (s : Storage). record s { objects = delete (λ r. r.id == obj.id) s.objects })
    send (λ s.
        s3.delete_payload cfg.s3_bucket_name (s3_key sys app_id bucket_id user_id key') s.payloads)
    modify (invalidate sys app_id bucket_id user_id)
