-- ===== src/Objects/Listing.antt =====
-- The listing of objects in src/ezauth/services/objects.py, with its cursor. The collation of the
-- database orders keys; base64, json and uuid are those of the codec.
use mathlib.Core.Option
use ezauth.Prelude.{
  ℕ, String, Bool, ◌&&◌, ◌||◌, Option, none, some, List, ◌==◌, nat_eq, string_eq, ltb,
  if◌then◌else◌, select, order_by,
}
use ezauth.Prelude.Paging.{cut_page}
use ezauth.Json.{Json, str, obj, field, end, get_field, Codec}
use ezauth.Outcome.{Result, ok, raised, invalid_cursor}
use ezauth.Objects.{StorageObject}

unfoldable pub cursor_payload : Codec → String → ℕ → Json
cursor_payload lib key object_id =
    obj (field "k" (str key) (field "id" (str (lib.str_uuid object_id)) end))

unfoldable pub encode_cursor : Codec → String → ℕ → String
unfolding cursor_payload
encode_cursor lib key object_id = lib.encode (cursor_payload lib key object_id)

-- A cursor is an object with a text at "k" and a UUID at "id"; every failure is `invalid_cursor`.
unfoldable pub cursor_parts : Codec → Option Json → Option Json → Option (String × ℕ)
cursor_parts lib (some (str key)) (some id) = elim (lib.uuid_of id) [
  | none ↦ none
  | some object_id ↦ some (key, object_id)
]
cursor_parts lib key id = none

unfoldable pub cursor_object : Codec → Json → Option (String × ℕ)
unfolding cursor_parts get_field
cursor_object lib (obj fs) = cursor_parts lib (get_field "k" fs) (get_field "id" fs)
cursor_object lib v = none

unfoldable pub decode_cursor : Codec → String → Option (String × ℕ)
unfolding cursor_object
decode_cursor lib cursor = elim (lib.decode cursor) [ none ↦ none | some v ↦ cursor_object lib v ]

module _ (text_lt : String → String → Bool) where
  -- (key, id) < (other key, other id), as rows of the database compare
  unfoldable pub key_lt : String → ℕ → String → ℕ → Bool
  key_lt k i k' i' = text_lt k k' || (k == k' && ltb i i')

  -- ORDER BY key, id
  unfoldable pub object_before : StorageObject → StorageObject → Bool
  unfolding key_lt
  object_before a b = key_lt a.key a.id b.key b.id

  unfoldable pub after_cursor : String × ℕ → StorageObject → Bool
  unfolding key_lt
  after_cursor c r = key_lt c.0 c.1 r.key r.id

  unfoldable pub listed : ℕ → ℕ → Option ℕ → StorageObject → Bool
  listed app_id bucket_id none r = r.bucket_id == bucket_id && r.app_id == app_id
  listed app_id bucket_id (some user_id) r =
      (r.bucket_id == bucket_id && r.app_id == app_id) && r.user_id == user_id

  -- The query from a decoded cursor, LIMIT limit + 1, cut to the page.
  unfoldable pub list_page :
      Codec → ℕ → (StorageObject → Bool) → List StorageObject → List StorageObject × Option String
  unfolding object_before encode_cursor cut_page order_by select
  list_page lib limit wanted rows =
      let (objects, next) = cut_page limit (order_by object_before (select wanted rows)) in
      (objects, Option.map (λ (r : StorageObject). encode_cursor lib r.key r.id) next)

  -- `if cursor:` takes the empty text for no cursor.
  unfoldable pub list_objects :
      Codec
      → (app_id bucket_id : ℕ) → Option ℕ
      → ℕ
      → Option String
      → List StorageObject
      → Result (List StorageObject × Option String)
  unfolding listed after_cursor decode_cursor list_page
  list_objects lib app_id bucket_id user_id limit none rows =
      ok (list_page lib limit (listed app_id bucket_id user_id) rows)
  list_objects lib app_id bucket_id user_id limit (some cursor) rows =
      if cursor == ""
      then ok (list_page lib limit (listed app_id bucket_id user_id) rows)
      else elim (decode_cursor lib cursor) [
        | none ↦ raised invalid_cursor
        | some c ↦
            ok (
              list_page lib limit (λ r. listed app_id bucket_id user_id r && after_cursor c r) rows)
      ]
