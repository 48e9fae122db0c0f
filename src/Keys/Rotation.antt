-- ===== src/Keys/Rotation.antt =====
-- Rotation and retirement of signing keys, in src/ezauth/services/keys.py.
use ezauth.Prelude.{
  ℕ, String, Bool, true, false, ◌&&◌, some, List, [], ◌∷◌, ◌++◌, ◌≡◌, refl, ◌∙◌, ◌==◌, nat_eq,
  string_eq, All, any, arith, select, first, update, row_count, All-update, All-always,
  row_count-append, row_count-All-false, first-order_by_last, any-order_by, select-last, All-select,
  ==_iff, any-append, any-select, any-update_same,
}
use ezauth.Models.{Application, ApplicationKey}
use ezauth.Keys.{
  NewKey, key_before, app_keys, adopt, ensure_keys, adopted_key, pick_active, active_key,
  rotate_key, rotated_key, retire,
}

abbrev pub active_of : Application → ApplicationKey → Bool
active_of app k = k.app_id == app.id && k.is_active

module _ (d : NewKey) (app : Application) (rows : List ApplicationKey) where
  retired_rows :
      (rows' : List ApplicationKey)
      → All (λ k. active_of app k ≡ false) (update (active_of app) (retire d.now) rows')
  unfolding retire
  retired_rows rows' =
      All-update (active_of app) (retire d.now) (λ r _ _. ground arith) (λ r miss _. miss) rows'
        (All-always {P = λ _. Unit {0}} (λ r. tt) rows')

  -- After a rotation exactly one key of the application is active, whatever the table held.
  rotate_key-one_active : row_count (active_of app) (rotate_key d app rows).2 ≡ 1
  unfolding rotate_key row_count
  rotate_key-one_active =
      let rows' = (ensure_keys d.adopted_id d.now app rows).1 in
      let old = update (active_of app) (retire d.now) rows' in
      rw
        (
          row_count-append (active_of app) old (rotated_key d app ∷ []),
          row_count-All-false (active_of app) old (retired_rows rows'),
        )
        (unfold rotated_key in ground arith)

pick_first :
    (k0 a : ApplicationKey) (ks rows : List ApplicationKey)
    → first (λ x. x.is_active) ks ≡ some a
    → pick_active (adopt k0 ks rows).0 ≡ a
unfolding pick_active adopt
pick_first k0 a [] rows h = unfold first in cc
pick_first k0 a (k ∷ ks) rows h = rw (h, pick_active) refl

module _ (app : Application) (new_key : ApplicationKey) (in_app : new_key.app_id ≡ app.id)
    (active : new_key.is_active ≡ true) where
  first_active_last :
      (old : List ApplicationKey)
      → All (λ k. active_of app k ≡ false) old
      → first (λ x. x.is_active) (app_keys app (old ++ new_key ∷ [])) ≡ some new_key
  unfolding app_keys
  first_active_last old none_active =
      let p : ApplicationKey → Bool = λ k. k.app_id == app.id in
      let q : ApplicationKey → Bool = λ k. k.is_active in
      rw (select-last p new_key old ((==_iff new_key.app_id app.id).1 in_app)) (
        first-order_by_last q key_before new_key (select p old) (All-select p q old none_active)
          active)

  active_key-last :
      (key_id now : ℕ) (old : List ApplicationKey)
      → All (λ k. active_of app k ≡ false) old
      → (active_key key_id now app (old ++ new_key ∷ [])).0 ≡ new_key
  unfolding active_key ensure_keys
  active_key-last key_id now old none_active =
      pick_first (adopted_key key_id now app) new_key (app_keys app (old ++ new_key ∷ []))
        (old ++ new_key ∷ []) (first_active_last old none_active)

module _ (d : NewKey) (app : Application) (rows : List ApplicationKey) where
  -- New tokens are signed with the new key: after a rotation `active_key` returns the key that the
  -- rotation made, for the application row that the rotation wrote.
  pub active_key-rotate_key :
      (key_id now : ℕ)
      → let (new_key, app', rows') = rotate_key d app rows in
        (active_key key_id now app' rows').0 ≡ new_key
  unfolding rotate_key
  active_key-rotate_key key_id now =
      let app' = (rotate_key d app rows).1 in
      let rows' = (ensure_keys d.adopted_id d.now app rows).1 in
      active_key-last app' (rotated_key d app) refl refl key_id now
        (update (active_of app) (retire d.now) rows') (retired_rows d app rows rows')

  any-adopt :
      (q : ApplicationKey → Bool) (k0 : ApplicationKey) (ks rs : List ApplicationKey)
      → any q rs ≡ true
      → any q (adopt k0 ks rs).1 ≡ true
  unfolding adopt
  any-adopt q k0 [] rs h = any-append q rs (k0 ∷ []) ∙ rw h refl
  any-adopt q k0 (k ∷ ks) rs h = h

  -- A key that was published stays published: whatever key of the application has the key id
  -- before a rotation, a key of the application has it afterwards, so tokens that it signed verify.
  rotate_key-keeps :
      (kid : String)
      → any (λ k. k.app_id == app.id && k.kid == kid) rows ≡ true
      → any (λ k. k.kid == kid) (app_keys app (rotate_key d app rows).2) ≡ true
  unfolding rotate_key app_keys ensure_keys
  rotate_key-keeps kid h =
      let p : ApplicationKey → Bool = λ k. k.app_id == app.id in
      let q : ApplicationKey → Bool = λ k. k.kid == kid in
      let both : ApplicationKey → Bool = λ k. k.app_id == app.id && k.kid == kid in
      let rows' = (ensure_keys d.adopted_id d.now app rows).1 in
      let old = update (active_of app) (retire d.now) rows' in
      any-order_by q key_before (select p (old ++ rotated_key d app ∷ []))
      ∙ any-select p q (old ++ rotated_key d app ∷ [])
      ∙ any-append both old (rotated_key d app ∷ [])
      ∙ rw
          (
            any-update_same (active_of app) both (retire d.now) (λ r. unfold retire in refl) rows',
            any-adopt both (adopted_key d.adopted_id d.now app) (app_keys app rows) rows h,
          )
          refl
