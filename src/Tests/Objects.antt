-- ===== src/Tests/Objects.antt =====
-- Object storage at concrete inputs.
use ezauth.Prelude.{
  ℕ, String, Option, none, some, [], ◌∷◌, ◌≡◌, ◌≤◌, refl, arith, inl, inr, ◌==◌, string_eq, nat_eq,
  row_count, first, subst, ==_iff, List, if◌then◌else◌,
}
use ezauth.Prelude.Int.{◌+ℤ◌, ◌-ℤ◌}
use ezauth.Config.{Settings, defaults}
use ezauth.Outcome.{Result, ok, raised, storage_limit_exceeded, invalid_key, not_found}
use ezauth.Objects.{
  Bucket, StorageObject, Storage, S3, botocore_error, require_s3, same_object, app_usage,
  bucket_usage,
}
use ezauth.Objects.Keys.{validate_object_key, validate_content_type}
use ezauth.Objects.Buckets.{is_bucket, lock_bucket}
use ezauth.Objects.Store.{
  open_object, delete_object, put_object, get_object, admit_object, growth, stored,
}
use ezauth.Objects.Download.{put_object-open_object}
use ezauth.Objects.Removal.{delete_object-get_object}
use ezauth.Objects.Quota.{put_object-Within}
use ezauth.Objects.Lookup.{put_object_unique, put_object-get_object}
use ezauth.Tests.Data.{toy, no_counters}

-- A client whose calls succeed.
abbrev client : S3
client = record {
  put_payload = λ _ key bytes payloads. (none, λ k. if k == key then some bytes else payloads k);
  get_payload =
      λ _ key payloads. elim (payloads key) [ none ↦ inl botocore_error | some bytes ↦ inr bytes ];
  delete_payload = λ _ key payloads. (none, λ k. if k == key then none else payloads k);
}

abbrev configured : Settings
configured = record defaults { s3_bucket_name = "files"; object_storage_limit_bytes = 10 }

abbrev bucket : Bucket
bucket = record {
  id = 7;
  app_id = 1;
  name = "avatars";
  max_size_bytes = some 6;
  max_size_bytes_per_user = some 5;
  created_at = 0;
}

abbrev pub old : StorageObject
old = record {
  id = 70;
  app_id = 1;
  bucket_id = 7;
  user_id = 10;
  key = "me.png";
  content_type = "image/png";
  size_bytes = 4;
  updated_at = 0;
}

abbrev storage : Storage
storage = record {
  buckets = bucket ∷ [];
  objects = old ∷ [];
  payloads = λ _. none;
  cache = no_counters;
}

-- The upload replaces four bytes by three.
abbrev new : StorageObject
new = record old { size_bytes = 3; updated_at = 9 }

abbrev put : Result StorageObject × Storage
put =
    put_object toy (λ s. s) configured (some client) 71 9 1 7 10 "me.png" (some "image/png")
      (1 ∷ 2 ∷ 3 ∷ []) storage

one_each : (b u : ℕ) (k : String) → row_count (same_object b u k) storage.objects ≤ 1
unfolding row_count
one_each b u k = ground arith

put_returns : put.0 ≡ ok new
unfolding put_object admit_object stored require_s3 validate_object_key validate_content_type
    lock_bucket growth ◌+ℤ◌ ◌-ℤ◌ string_eq nat_eq
put_returns = refl

put_object-Within_example :
    (app_usage 1 put.1.objects ≤ 10)
    × (bucket_usage 7 none put.1.objects ≤ 6)
    × (bucket_usage 7 (some 10) put.1.objects ≤ 5)
unfolding is_bucket nat_eq first
put_object-Within_example =
    put_object-Within toy (λ s. s) configured (some client) 71 9 1 7 10 "me.png" (some "image/png")
      (1 ∷ 2 ∷ 3 ∷ []) storage bucket new one_each ((λ _. refl), tt) refl put_returns

put_object_unique_example : row_count (same_object 7 10 "me.png") put.1.objects ≤ 1
put_object_unique_example =
    put_object_unique toy (λ s. s) configured (some client) 71 9 1 7 10 "me.png" (some "image/png")
      (1 ∷ 2 ∷ 3 ∷ []) storage 7 10 "me.png" (one_each 7 10 "me.png")

put_object-get_object_example :
    (get_object toy (λ s. s) configured (some client) 1 7 10 "me.png" put.1).0 ≡ ok new
put_object-get_object_example =
    put_object-get_object toy (λ s. s) configured (some client) 71 9 1 7 10 "me.png"
      (some "image/png") (1 ∷ 2 ∷ 3 ∷ []) storage new ((λ _. refl), tt) put_returns

too_large :
    (put_object toy
      (λ s. s)
      configured
      (some client)
      71
      9
      1
      7
      10
      "you.png"
      none
      (1 ∷ 2 ∷ 3 ∷ [])
      storage).0
    ≡ raised storage_limit_exceeded
unfolding put_object admit_object require_s3 validate_object_key validate_content_type lock_bucket
    growth ◌+ℤ◌ ◌-ℤ◌ string_eq nat_eq
too_large = refl

escaping : validate_object_key "a/../b" ≡ raised invalid_key
unfolding validate_object_key string_eq nat_eq
escaping = refl

delete_object-get_object_example :
    (get_object toy
      (λ s. s)
      configured
      (some client)
      1
      7
      10
      "me.png"
      (delete_object toy (λ s. s) configured (some client) 1 7 10 "me.png" storage).1).0
    ≡ raised not_found
unfolding delete_object validate_object_key require_s3 string_eq nat_eq
delete_object-get_object_example =
    delete_object-get_object toy (λ s. s) configured (some client) 1 7 10 "me.png" storage
      (one_each 7 10 "me.png") refl

client_gets :
    (name k : String) (b : List ℕ) (ps : String → Option (List ℕ))
    → client.get_payload name k (client.put_payload name k b ps).1 ≡ inr b
client_gets name k b ps = rw (client, (==_iff k k).1 refl) refl

client_keeps :
    (s3 : S3)
    → require_s3 configured (some client) ≡ ok s3
    → (name k : String) (b : List ℕ) (ps : String → Option (List ℕ))
    → (s3.put_payload name k b ps).0 ≡ none
    → s3.get_payload name k (s3.put_payload name k b ps).1 ≡ inr b
unfolding require_s3 string_eq
client_keeps s3 e name k b ps sent =
    subst
      (λ (x : Result S3). elim x [
        | ok c ↦ c.get_payload name k (c.put_payload name k b ps).1 ≡ inr b
        | raised _ ↦ Unit
      ])
      e (client_gets name k b ps)

put_object-open_object_example :
    (open_object toy (λ s. s) configured (some client) 1 7 10 "me.png" put.1).0
    ≡ ok (new, 1 ∷ 2 ∷ 3 ∷ [])
put_object-open_object_example =
    put_object-open_object toy (λ s. s) configured (some client) 71 9 1 7 10 "me.png"
      (some "image/png") (1 ∷ 2 ∷ 3 ∷ []) storage new client_keeps ((λ _. refl), tt) put_returns
