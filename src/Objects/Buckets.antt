-- ===== src/Objects/Buckets.antt =====
-- The buckets of src/ezauth/services/objects.py.
use ezauth.Prelude.{
  ℕ, String, Bool, true, false, ◌&&◌, Option, none, some, List, [], ◌∷◌, ◌++◌, ◌==◌, string_eq,
  nat_eq, ltb, first, select, update, order_by, row_count,
}
use ezauth.Outcome.{
  Exec, Result, ok, raised, pure, gets, modify, raise_if, ◌>>=◌, ◌>>◌, bucket_exists, invalid_limit,
  not_found,
}
use ezauth.Objects.{Bucket, Storage}

unfoldable pub validate_bucket_limit : Option ℕ → Bool
validate_bucket_limit none = false
validate_bucket_limit (some n) = n == 0

unfoldable pub is_named : ℕ → String → Bucket → Bool
is_named app_id name b = b.app_id == app_id && b.name == name

-- `id` and `now` are what the insert draws.
unfoldable pub create_bucket :
    (id now app_id : ℕ) → String → Option ℕ → Option ℕ → Exec Storage Bucket
unfolding is_named validate_bucket_limit first
create_bucket id now app_id name max_size max_per_user = do
  existing ← gets (λ (s : Storage). first (is_named app_id name) s.buckets)
  raise_if (elim existing [ none ↦ false | some _ ↦ true ]) bucket_exists
  raise_if (validate_bucket_limit max_size) invalid_limit
  raise_if (validate_bucket_limit max_per_user) invalid_limit
  let bucket : Bucket = record {
    id = id;
    app_id = app_id;
    name = name;
    max_size_bytes = max_size;
    max_size_bytes_per_user = max_per_user;
    created_at = now;
  }
  modify (λ (s : Storage). record s { buckets = s.buckets ++ bucket ∷ [] })
  pure bucket

unfoldable pub list_buckets : ℕ → Storage → List Bucket × ℕ
unfolding order_by select row_count
list_buckets app_id s = (
  order_by (λ a b. ltb a.created_at b.created_at) (select (λ b. b.app_id == app_id) s.buckets),
  row_count (λ (b : Bucket). b.app_id == app_id) s.buckets,
)

unfoldable pub is_bucket : ℕ → ℕ → Bucket → Bool
is_bucket app_id bucket_id b = b.id == bucket_id && b.app_id == app_id

unfoldable pub found_bucket : Option Bucket → Result Bucket
found_bucket none = raised not_found
found_bucket (some b) = ok b

unfoldable pub get_bucket : ℕ → ℕ → Exec Storage Bucket
unfolding is_bucket found_bucket first
get_bucket app_id bucket_id s = (found_bucket (first (is_bucket app_id bucket_id) s.buckets), s)

-- SELECT … FOR UPDATE
unfoldable pub lock_bucket : ℕ → ℕ → Exec Storage Bucket
unfolding is_bucket found_bucket first
lock_bucket app_id bucket_id s = (found_bucket (first (is_bucket app_id bucket_id) s.buckets), s)

-- A new limit, where one is given: `none` is the `...` that leaves the limit as it is.
unfoldable pub new_limit : Option (Option ℕ) → Option ℕ → Option ℕ
new_limit none old = old
new_limit (some limit) old = limit

unfoldable pub bad_limit : Option (Option ℕ) → Bool
unfolding validate_bucket_limit
bad_limit none = false
bad_limit (some limit) = validate_bucket_limit limit

unfoldable pub with_limits : Option (Option ℕ) → Option (Option ℕ) → Bucket → Bucket
unfolding new_limit
with_limits max_size max_per_user b = record b {
  max_size_bytes = new_limit max_size b.max_size_bytes;
  max_size_bytes_per_user = new_limit max_per_user b.max_size_bytes_per_user;
}

-- A limit that is refused ends the transaction, so that the limit set before it is not kept.
unfoldable pub update_bucket : ℕ → ℕ → Option (Option ℕ) → Option (Option ℕ) → Exec Storage Bucket
unfolding get_bucket bad_limit with_limits update
update_bucket app_id bucket_id max_size max_per_user = do
  bucket ← get_bucket app_id bucket_id
  raise_if (bad_limit max_size) invalid_limit
  raise_if (bad_limit max_per_user) invalid_limit
  modify (λ (s : Storage). record s {
    buckets = update (λ b. b.id == bucket.id) (with_limits max_size max_per_user) s.buckets;
  })
  pure (with_limits max_size max_per_user bucket)
