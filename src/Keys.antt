-- ===== src/Keys.antt =====
-- src/ezauth/services/keys.py: the signing keys of an application. The table of keys is passed in
-- and returned. `ensure_keys` never returns an empty list, so its result is a key and a list.
pub mod Rotation
use ezauth.Prelude.{
  ℕ, ◌+◌, String, Bool, true, false, not, ◌&&◌, ◌||◌, Option, none, some, List, [], ◌∷◌, ◌++◌, ◌==◌,
  nat_eq, ltb, if◌then◌else◌, select, first, update, row_count, delete, order_by,
}
use ezauth.Models.{Application, ApplicationKey}

-- ORDER BY is_active DESC, created_at DESC
unfoldable pub key_before : ApplicationKey → ApplicationKey → Bool
key_before a b =
    if a.is_active
    then not b.is_active || ltb b.created_at a.created_at
    else not b.is_active && ltb b.created_at a.created_at

unfoldable pub app_keys : Application → List ApplicationKey → List ApplicationKey
unfolding key_before order_by select
app_keys app rows = order_by key_before (select (λ k. k.app_id == app.id) rows)

unfoldable pub adopted_key : ℕ → ℕ → Application → ApplicationKey
adopted_key key_id now app = record {
  id = key_id;
  app_id = app.id;
  kid = app.jwk_kid;
  private_pem = app.jwk_private_pem;
  is_active = true;
  created_at = now;
  retired_at = none;
}

unfoldable pub adopt :
    ApplicationKey
    → List ApplicationKey
    → List ApplicationKey
    → (ApplicationKey × List ApplicationKey) × List ApplicationKey
adopt adopted [] rows = ((adopted, []), rows ++ adopted ∷ [])
adopt adopted (k ∷ ks) rows = ((k, ks), rows)

-- `key_id` and `now` are the id and the creation time of the row, if one is added.
unfoldable pub ensure_keys :
    ℕ
    → ℕ
    → Application
    → List ApplicationKey
    → (ApplicationKey × List ApplicationKey) × List ApplicationKey
unfolding adopt adopted_key app_keys
ensure_keys key_id now app rows = adopt (adopted_key key_id now app) (app_keys app rows) rows

unfoldable pub pick_active : ApplicationKey × List ApplicationKey → ApplicationKey
unfolding first
pick_active (k, ks) = elim (first (λ x. x.is_active) (k ∷ ks)) [ some a ↦ a | none ↦ k ]

unfoldable pub active_key :
    ℕ → ℕ → Application → List ApplicationKey → ApplicationKey × List ApplicationKey
unfolding ensure_keys pick_active
active_key key_id now app rows =
    let (keys, rows') = ensure_keys key_id now app rows in (pick_active keys, rows')

unfoldable pub verification_keys :
    ℕ → ℕ → Application → List ApplicationKey → List ApplicationKey × List ApplicationKey
unfolding ensure_keys
verification_keys key_id now app rows =
    let ((k, ks), rows') = ensure_keys key_id now app rows in (k ∷ ks, rows')

-- What a rotation draws: the ids of the adopted row and the new row, the key pair, the clock.
pub record NewKey : Type 0 where
  pub adopted_id : ℕ
  pub id : ℕ
  pub kid : String
  pub private_pem : String
  pub now : ℕ

unfoldable pub retire : ℕ → ApplicationKey → ApplicationKey
retire now k = record k { is_active = false; retired_at = some now }

unfoldable pub rotated_key : NewKey → Application → ApplicationKey
rotated_key d app = record {
  id = d.id;
  app_id = app.id;
  kid = d.kid;
  private_pem = d.private_pem;
  is_active = true;
  created_at = d.now;
  retired_at = none;
}

-- The new key, the application row with the new key inline, and the table of keys.
unfoldable pub rotate_key :
    NewKey → Application → List ApplicationKey → ApplicationKey × Application × List ApplicationKey
unfolding ensure_keys retire rotated_key update
rotate_key d app rows =
    let (_, rows') = ensure_keys d.adopted_id d.now app rows in
    let new_key = rotated_key d app in
    (
      new_key,
      record app { jwk_private_pem = d.private_pem; jwk_kid = d.kid },
      update (λ k. k.app_id == app.id && k.is_active) (retire d.now) rows' ++ new_key ∷ [],
    )

unfoldable pub retired_of : Application → ApplicationKey → Bool
retired_of app k = k.app_id == app.id && not k.is_active

unfoldable pub drop_retired_keys :
    ℕ → ℕ → Application → List ApplicationKey → ℕ × List ApplicationKey
unfolding ensure_keys retired_of delete row_count
drop_retired_keys key_id now app rows =
    let (_, rows') = ensure_keys key_id now app rows in
    (row_count (retired_of app) rows', delete (retired_of app) rows')
