-- ===== src/Objects/Download.antt =====
-- What is uploaded in src/ezauth/services/objects.py is downloaded again.
use ezauth.Prelude.{
  ℕ, String, Option, none, List, inr, ◌≡◌, refl, sym, ap, subst, ◌∙◌, nat_eq, string_eq, arith, All,
}
use ezauth.Config.{Settings}
use ezauth.Platform.{Platform}
use ezauth.Outcome.{ok, bind-ok}
use ezauth.Objects.{StorageObject, Storage, S3, require_s3, s3_key}
use ezauth.Objects.Keys.{validate_object_key}
use ezauth.Objects.Buckets.{lock_bucket}
use ezauth.Objects.Store.{
  admit_object, store_object, put_object, get_object, open_object, read_payload, send, invalidate,
}
use ezauth.Objects.Quota.{admit_object-keeps}
use ezauth.Objects.Lookup.{put_object-get_object, admit_object-place}

-- The payload of a row, asked for by the parts of its key.
got_at :
    (sys : Platform) (s3 : S3) (name : String) (new : StorageObject) (bytes : List ℕ)
    (app_id bucket_id user_id : ℕ) (key : String) (ps ps' : String → Option (List ℕ))
    → (new.app_id ≡ app_id)
      × (new.bucket_id ≡ bucket_id)
      × (new.user_id ≡ user_id)
      × (new.key ≡ key)
    → ps' ≡ ps
    → s3.get_payload name (s3_key sys new.app_id new.bucket_id new.user_id new.key) ps ≡ inr bytes
    → s3.get_payload name (s3_key sys app_id bucket_id user_id key) ps' ≡ inr bytes
got_at sys s3 name new bytes app_id bucket_id user_id key ps ps' (a, b, u, k) same there =
    rw (sym a, sym b, sym u, sym k, same) there

module _ (sys : Platform) (strip : String → String) (cfg : Settings) (client : Option S3)
    (id now app_id bucket_id user_id : ℕ) (key : String) (content_type : Option String)
    (bytes : List ℕ) (s : Storage) where
  admit_object-client :
      (x : S3 × StorageObject)
      → (admit_object sys strip cfg client id now app_id bucket_id user_id key content_type bytes
          s).0
        ≡ ok x
      → (require_s3 cfg client ≡ ok x.0) × (validate_object_key key ≡ ok key)
  unfolding admit_object lock_bucket validate_object_key
  admit_object-client x h = grind arith

  store_object-sends :
      (s3 : S3) (new obj : StorageObject)
      → (store_object sys strip cfg client s3 new bytes s).0 ≡ ok obj
      → let sent =
          s3.put_payload cfg.s3_bucket_name
            (s3_key sys new.app_id new.bucket_id new.user_id new.key)
            bytes
            s.payloads in
        (sent.0 ≡ none) × ((store_object sys strip cfg client s3 new bytes s).1.payloads ≡ sent.1)
  unfolding store_object send invalidate
  store_object-sends s3 new obj h = grind arith

  open_at :
      (s3 : S3) (obj : StorageObject) (s' : Storage)
      → require_s3 cfg client ≡ ok s3
      → validate_object_key key ≡ ok key
      → (get_object sys strip cfg client app_id bucket_id user_id key s').0 ≡ ok obj
      → s3.get_payload cfg.s3_bucket_name (s3_key sys app_id bucket_id user_id key) s'.payloads
        ≡ inr bytes
      → (open_object sys strip cfg client app_id bucket_id user_id key s').0 ≡ ok (obj, bytes)
  unfolding open_object read_payload get_object
  open_at s3 obj s' has_client valid found stored =
      rw (open_object, has_client, valid, found, stored) refl

  -- What was uploaded is downloaded: after an upload that succeeds, opening the same application,
  -- bucket, user and key gives the row that the upload returned and the uploaded bytes. A payload that
  -- the client has put is the one that it then gets, and the objects of the bucket belong to the
  -- application.
  pub put_object-open_object :
      (obj : StorageObject)
      → ((s3 : S3)
          → require_s3 cfg client ≡ ok s3
          → (name k : String) (b : List ℕ) (ps : String → Option (List ℕ))
          → (s3.put_payload name k b ps).0 ≡ none
          → s3.get_payload name k (s3.put_payload name k b ps).1 ≡ inr b)
      → All (λ r. r.bucket_id ≡ bucket_id → r.app_id ≡ app_id) s.objects
      → (put_object sys strip cfg client id now app_id bucket_id user_id key content_type bytes s).0
        ≡ ok obj
      → (open_object sys strip cfg client app_id bucket_id user_id key
          (put_object sys strip cfg client id now app_id bucket_id user_id key content_type bytes
            s).1).0
        ≡ ok (obj, bytes)
  unfolding put_object
  put_object-open_object obj law owned h =
      let admit =
        admit_object sys strip cfg client id now app_id bucket_id user_id key content_type bytes in
      let (x, good, run) =
        bind-ok admit (λ a. store_object sys strip cfg client a.0 a.1 bytes) s obj h in
      let run' : put_object sys strip cfg client id now app_id bucket_id user_id key content_type
            bytes s
          ≡ store_object sys strip cfg client x.0 x.1 bytes s =
        run
        ∙ ap (λ t. store_object sys strip cfg client x.0 x.1 bytes t)
            (admit_object-keeps sys strip cfg client id now app_id bucket_id user_id key
              content_type bytes s) in
      let (has_client, valid) = admit_object-client x good in
      let (sent, holds) = store_object-sends x.0 x.1 obj (subst (λ r. r.0 ≡ ok obj) run' h) in
      let there =
        law x.0 has_client cfg.s3_bucket_name
          (s3_key sys x.1.app_id x.1.bucket_id x.1.user_id x.1.key) bytes s.payloads sent in
      open_at x.0 obj
        (put_object sys strip cfg client id now app_id bucket_id user_id key content_type bytes s).1
        has_client valid
        (put_object-get_object sys strip cfg client id now app_id bucket_id user_id key content_type
          bytes s obj owned h)
        (got_at sys x.0 cfg.s3_bucket_name x.1 bytes app_id bucket_id user_id key
          (x.0.put_payload cfg.s3_bucket_name
            (s3_key sys x.1.app_id x.1.bucket_id x.1.user_id x.1.key) bytes s.payloads).1
          (put_object sys strip cfg client id now app_id bucket_id user_id key content_type bytes
            s).1.payloads
          (admit_object-place sys strip cfg client id now app_id bucket_id user_id key content_type
            bytes s x good)
          (ap (λ r. r.1.payloads) run' ∙ holds) there)
