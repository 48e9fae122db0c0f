-- ===== src/Objects/Pages.antt =====
-- Paging through the objects of a bucket, in src/ezauth/services/objects.py.
use ezauth.Prelude.{
  ℕ, String, Bool, true, false, ◌&&◌, Option, none, some, List, ◌==◌, ==_iff, nat_eq, string_eq,
  ◌≡◌, ◌≢◌, ◌≤◌, ◌<◌, refl, ap, ◌∙◌, arith, select, order_by, length, All-always,
}
use ezauth.Prelude.Paging.{IsOrder, Distinct}
use ezauth.Prelude.Pages.{read_pages, read_pages-order_by, page_of, Agrees, select-same}
use ezauth.Json.{str, get_field, Codec}
use ezauth.Outcome.{Result, ok, raised}
use ezauth.Objects.{StorageObject}
use ezauth.Objects.Listing.{
  list_objects, list_page, listed, object_before, after_cursor, key_lt, cursor_payload,
  encode_cursor, decode_cursor, cursor_object, cursor_parts,
}

-- What the standard library documents of base64, json and uuid, at the payloads of cursors.
pub record CodecLaws (lib : Codec) : Type 0 where
  pub decode-encode :
      (k : String) (i : ℕ)
      → lib.decode (lib.encode (cursor_payload lib k i)) ≡ some (cursor_payload lib k i)
  pub encode_full : (k : String) (i : ℕ) → lib.encode (cursor_payload lib k i) ≢ ""
  pub uuid_of-str_uuid : (i : ℕ) → lib.uuid_of (str (lib.str_uuid i)) ≡ some i

not_empty : (s : String) → s ≢ "" → (s == "") ≡ false
not_empty s h = ground (arith, ==_iff s "")

decode-encode_cursor :
    (lib : Codec)
    → CodecLaws lib
    → (key : String) (i : ℕ) → decode_cursor lib (encode_cursor lib key i) ≡ some (key, i)
unfolding decode_cursor encode_cursor cursor_payload cursor_object cursor_parts get_field string_eq
decode-encode_cursor lib laws key i =
    rw
      (
        decode_cursor,
        encode_cursor,
        laws.decode-encode key i,
        cursor_payload,
        cursor_object,
        cursor_parts,
        laws.uuid_of-str_uuid i,
      )
      refl

abbrev pub shown :
    Result (List StorageObject × Option String) → Option (List StorageObject × Option String)
shown (ok page) = some page
shown (raised e) = none

-- A client that asks for the page from a cursor.
abbrev pub listing :
    (String → String → Bool)
    → Codec
    → (app_id bucket_id : ℕ) → Option ℕ
    → ℕ
    → List StorageObject
    → Option String
    → Option (List StorageObject × Option String)
listing text_lt lib app_id bucket_id user_id limit rows c =
    shown (list_objects text_lt lib app_id bucket_id user_id limit c rows)

after_decoded : (String → String → Bool) → Option (String × ℕ) → StorageObject → Bool
after_decoded text_lt none r = false
after_decoded text_lt (some c) r = after_cursor text_lt c r

module _ (text_lt : String → String → Bool) (o : IsOrder text_lt) where
  key_lt_trans :
      (k k' k'' : String) (i i' i'' : ℕ)
      → key_lt text_lt k i k' i' ≡ true
      → key_lt text_lt k' i' k'' i'' ≡ true
      → key_lt text_lt k i k'' i'' ≡ true
  unfolding key_lt
  key_lt_trans k k' k'' i i' i'' h h' =
      ground (arith, o.transitive k k' k'', ==_iff k k', ==_iff k' k'', ==_iff k k'')

  object_before-IsOrder : IsOrder (object_before text_lt)
  object_before-IsOrder = record {
    irreflexive = λ a. unfold object_before key_lt in ground (arith, o.irreflexive a.key);
    transitive =
        λ a b c h h'. unfold object_before in key_lt_trans a.key b.key c.key a.id b.id c.id h h';
  }

module _ (text_lt : String → String → Bool) (o : IsOrder text_lt) (lib : Codec)
    (laws : CodecLaws lib) (app_id bucket_id : ℕ) (user_id : Option ℕ) (limit : ℕ)
    (rows : List StorageObject) where
  cursor_of : StorageObject → String
  cursor_of r = encode_cursor lib r.key r.id

  wanted : StorageObject → Bool
  wanted = listed text_lt app_id bucket_id user_id

  after_text : String → StorageObject → Bool
  after_text k = after_decoded text_lt (decode_cursor lib k)

  full : (key : String) (i : ℕ) → encode_cursor lib key i ≢ ""
  unfolding encode_cursor
  full key i = laws.encode_full key i

  first_page :
      listing text_lt lib app_id bucket_id user_id limit rows none
      ≡ some (
          page_of
            (object_before text_lt)
            (object_before-IsOrder text_lt o)
            wanted
            after_text
            cursor_of
            limit
            rows
            none)
  unfolding list_objects list_page wanted cursor_of
  first_page =
      rw
        (
          list_page,
          select-same wanted (λ r. wanted r && true) rows (All-always (λ r. ground arith) rows),
        )
        refl

  from_cursor_of :
      (l : StorageObject)
      → list_objects text_lt lib app_id bucket_id user_id limit (some (cursor_of l)) rows
        ≡ ok (
            list_page text_lt lib limit
              (λ r.
                listed text_lt app_id bucket_id user_id r && after_cursor text_lt (l.key, l.id) r)
              rows)
  unfolding cursor_of list_objects list_page
  from_cursor_of l =
      rw
        (
          list_objects,
          not_empty (encode_cursor lib l.key l.id) (full l.key l.id),
          decode-encode_cursor lib laws l.key l.id,
        )
        refl

  next_page :
      (l : StorageObject)
      → listing text_lt lib app_id bucket_id user_id limit rows (some (cursor_of l))
        ≡ some (
            page_of
              (object_before text_lt)
              (object_before-IsOrder text_lt o)
              wanted
              after_text
              cursor_of
              limit
              rows
              (some (cursor_of l)))
  unfolding list_page cursor_of wanted after_text after_decoded
  next_page l = ap shown (from_cursor_of l) ∙ rw (decode-encode_cursor lib laws l.key l.id) refl

  agrees :
      Agrees
        (object_before text_lt)
        (object_before-IsOrder text_lt o)
        wanted
        after_text
        cursor_of
        limit
        rows
  unfolding after_text cursor_of after_decoded object_before after_cursor
  agrees =
      All-always (λ l. All-always (λ r. rw (decode-encode_cursor lib laws l.key l.id) refl) rows)
        rows

  -- Reading the listing of a bucket page by page, from the start and by the cursor of each page,
  -- gives the objects of the application, the bucket and, where one is asked for, the user, sorted
  -- by key and then id, each once, and comes to a page without a cursor: no page is refused, and
  -- there is at most one page more than there are objects. A page holds at least one object, of two
  -- objects one comes before the other, the collation is a strict order, and the codec reads back
  -- what it wrote.
  pub read_pages-list_objects :
      1 ≤ limit
      → Distinct (object_before text_lt) rows
      → (fuel : ℕ)
      → length
          (order_by (object_before text_lt) (select (listed text_lt app_id bucket_id user_id) rows))
        < fuel
      → read_pages (listing text_lt lib app_id bucket_id user_id limit rows) fuel none
        ≡ some (
            order_by
              (object_before text_lt)
              (select (listed text_lt app_id bucket_id user_id) rows))
  unfolding listed wanted
  read_pages-list_objects pos d fuel enough =
      read_pages-order_by (object_before text_lt) (object_before-IsOrder text_lt o)
        (listed text_lt app_id bucket_id user_id) after_text cursor_of limit rows
        (listing text_lt lib app_id bucket_id user_id limit rows) first_page
        (All-always next_page rows) pos d agrees fuel enough
