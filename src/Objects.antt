-- ===== src/Objects.antt =====
-- src/ezauth/services/objects.py, with the rows of src/ezauth/models/bucket.py and
-- src/ezauth/models/storage_object.py: what the bucket and object operations share. The S3 client of
-- boto3 and `str.strip` are parameters.
pub mod Keys
pub mod Buckets
pub mod Store
pub mod Usage
pub mod Quota
pub mod Lookup
pub mod Removal
pub mod Download
pub mod Listing
pub mod Pages
use Prim.Native.String.{◌++◌ as ◌<>◌}
use ezauth.Prelude.{
  ℕ, ◌+◌, String, Bool, ◌&&◌, Option, none, some, List, [], ◌∷◌, ◌⊎◌, ◌==◌, nat_eq, string_eq,
  if◌then◌else◌,
}
use ezauth.Config.{Settings}
use ezauth.Platform.{Platform}
use ezauth.Redis.{Redis}
use ezauth.Outcome.{Error, Result, ok, raised, storage_unavailable, storage_error, not_found}

pub record Bucket : Type 0 where
  pub id : ℕ
  pub app_id : ℕ
  pub name : String
  pub max_size_bytes : Option ℕ
  pub max_size_bytes_per_user : Option ℕ
  pub created_at : ℕ

pub record StorageObject : Type 0 where
  pub id : ℕ
  pub app_id : ℕ
  pub bucket_id : ℕ
  pub user_id : ℕ
  pub key : String
  pub content_type : String
  pub size_bytes : ℕ
  pub updated_at : ℕ

abbrev pub Payloads : Type 0
Payloads = String → Option (List ℕ)

-- An exception of botocore: a ClientError with its code, or a BotoCoreError.
pub data S3Fault : Type 0 where
  client_error : String → S3Fault
  botocore_error : S3Fault

-- The calls of the client, at a bucket and a key. A call raises or returns.
pub record S3 : Type 0 where
  pub put_payload : String → String → List ℕ → Payloads → Option S3Fault × Payloads
  pub get_payload : String → String → Payloads → S3Fault ⊎ List ℕ
  pub delete_payload : String → String → Payloads → Option S3Fault × Payloads

-- The two tables, the payloads in S3, and the cached sizes in Redis.
pub record Storage : Type 0 where
  pub buckets : List Bucket
  pub objects : List StorageObject
  pub payloads : Payloads
  pub cache : Redis ℕ

unfoldable pub s3_key : Platform → ℕ → ℕ → ℕ → String → String
s3_key sys app_id bucket_id user_id key =
    sys.str_uuid app_id
    <> ("/" <> (sys.str_uuid bucket_id <> ("/" <> (sys.str_uuid user_id <> ("/" <> key)))))

unfoldable pub require_s3 : Settings → Option S3 → Result S3
require_s3 cfg none = raised storage_unavailable
require_s3 cfg (some s3) = if cfg.s3_bucket_name == "" then raised storage_unavailable else ok s3

unfoldable pub storage_failure : S3Fault → Error
storage_failure botocore_error = storage_error
storage_failure (client_error c) =
    if c == "NoSuchKey"
    then not_found
    else if c == "NoSuchBucket"
    then not_found
    else if c == "404"
    then not_found
    else storage_error

-- The constraint of the table: bucket, user and key.
unfoldable pub same_object : ℕ → ℕ → String → StorageObject → Bool
same_object bucket_id user_id key r =
    r.bucket_id == bucket_id && (r.user_id == user_id && r.key == key)

-- coalesce(sum(size_bytes), 0) WHERE p
unfoldable pub sum_sizes : (StorageObject → Bool) → List StorageObject → ℕ
sum_sizes p [] = 0
sum_sizes p (r ∷ rs) = (if p r then r.size_bytes else 0) + sum_sizes p rs

unfoldable pub app_usage : ℕ → List StorageObject → ℕ
unfolding sum_sizes
app_usage app_id rows = sum_sizes (λ r. r.app_id == app_id) rows

abbrev pub in_bucket : ℕ → Option ℕ → StorageObject → Bool
in_bucket bucket_id none r = r.bucket_id == bucket_id
in_bucket bucket_id (some user_id) r = r.bucket_id == bucket_id && r.user_id == user_id

unfoldable pub bucket_usage : ℕ → Option ℕ → List StorageObject → ℕ
unfolding sum_sizes
bucket_usage bucket_id user_id rows = sum_sizes (in_bucket bucket_id user_id) rows
