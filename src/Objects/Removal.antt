-- ===== src/Objects/Removal.antt =====
-- A deletion in src/ezauth/services/objects.py.
use ezauth.Prelude.{
  ℕ, String, Bool, true, false, ◌&&◌, Option, some, none, List, [], ◌∷◌, ◌≡◌, refl, ap, ◌==◌,
  ==_iff, nat_eq, first, delete, select, row_count, arith, All, All-map, All-first_only,
  first-All-false, Bool-cases, Option-cases, inl, inr, ◌≤◌,
}
use ezauth.Config.{Settings}
use ezauth.Platform.{Platform}
use ezauth.Outcome.{ok, raised, not_found}
use ezauth.Objects.{StorageObject, Storage, S3, same_object, require_s3}
use ezauth.Objects.Keys.{validate_object_key}
use ezauth.Objects.Store.{get_object, delete_object, send, invalidate}

delete_misses :
    (p gone : StorageObject → Bool) (rows : List StorageObject)
    → All (λ r. p r ≡ true → gone r ≡ true) rows
    → All (λ r. p r ≡ false) (delete gone rows)
unfolding delete select
delete_misses p gone [] h = tt
delete_misses p gone (r ∷ rows) (here, there) =
    let rest = delete_misses p gone rows there in
    elim (Bool-cases (gone r)) [
      | inl out ↦ rw out rest
      | inr stays ↦ rw stays (ground (arith, here, stays), rest)
    ]

module _ (sys : Platform) (strip : String → String) (cfg : Settings) (client : Option S3)
    (app_id bucket_id user_id : ℕ) (key : String) (s : Storage) where
  abbrev at_place : StorageObject → Bool
  at_place r = same_object bucket_id user_id key r && r.app_id == app_id

  delete_object-objects :
      (obj : StorageObject)
      → first at_place s.objects ≡ some obj
      → (delete_object sys strip cfg client app_id bucket_id user_id key s).0 ≡ ok tt
      → (delete_object sys strip cfg client app_id bucket_id user_id key s).1.objects
        ≡ delete (λ r. r.id == obj.id) s.objects
  unfolding delete_object get_object validate_object_key require_s3 send invalidate
  delete_object-objects obj found done = grind arith

  delete_object-missing :
      first at_place s.objects ≡ none
      → (delete_object sys strip cfg client app_id bucket_id user_id key s).0 ≡ ok tt
      → ⊥
  unfolding delete_object get_object validate_object_key require_s3
  delete_object-missing missing done = grind arith

  -- A deleted object is gone: after a deletion that succeeds, the same application, bucket, user and
  -- key give no object, where the table held at most one for the bucket, user and key.
  pub delete_object-get_object :
      row_count (same_object bucket_id user_id key) s.objects ≤ 1
      → (delete_object sys strip cfg client app_id bucket_id user_id key s).0 ≡ ok tt
      → (get_object sys strip cfg client app_id bucket_id user_id key
          (delete_object sys strip cfg client app_id bucket_id user_id key s).1).0
        ≡ raised not_found
  unfolding get_object
  delete_object-get_object unique done = elim (Option-cases (first at_place s.objects)) [
    | inl missing ↦ absurd (delete_object-missing missing done)
    | inr (obj, found) ↦
        rw
          (
            get_object,
            delete_object-objects obj found done,
            first-All-false at_place (delete (λ r. r.id == obj.id) s.objects) (
                delete_misses at_place (λ r. r.id == obj.id) s.objects
                  (All-map
                    (λ r only hit.
                      (==_iff r.id obj.id).1
                        (ap (λ (x : StorageObject). x.id) (only (ground (arith, hit)))))
                    s.objects
                    (All-first_only (same_object bucket_id user_id key) at_place s.objects obj
                      (λ r hit. ground arith) unique found))),
          )
          refl
  ]
