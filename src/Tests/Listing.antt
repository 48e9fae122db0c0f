-- ===== src/Tests/Listing.antt =====
-- Paging through objects with a concrete codec: the text of an id is a row of letters, and a cursor
-- is that text, a bar and the key.
use Prim.Native.Char.{code}
use ezauth.Prelude.{
  ℕ, zero, suc, String, Bool, none, some, [], ◌∷◌, ◌≡◌, ◌≢◌, inl, inr, refl, ap, arith, ◌==◌,
  string_eq, nat_eq, if◌then◌else◌, ltb, select, order_by,
}
use ezauth.Prelude.Paging.{IsOrder}
use ezauth.Prelude.Pages.{read_pages}
use ezauth.Json.{Json, str, obj, field, end, Codec}
use ezauth.Objects.{StorageObject}
use ezauth.Objects.Listing.{cursor_payload, object_before, listed}
use ezauth.Objects.Pages.{CodecLaws, listing, read_pages-list_objects}
use ezauth.Tests.Objects.{old}

unfoldable pub unary : ℕ → String
unary zero = ""
unary (suc n) = String.◌∷◌ "a" (unary n)

unfoldable pub letters : String → ℕ
letters String.[] = 0
letters (String.◌∷◌ c s) = suc (letters s)

unfoldable pub parts : String → String × String
parts String.[] = ("", "")
parts (String.◌∷◌ c s) =
    let (u, k) = parts s in if code c == b'|' then ("", s) else (String.◌∷◌ c u, k)

unfoldable pub glue : String → String → String
glue String.[] t = t
glue (String.◌∷◌ c s) t = String.◌∷◌ c (glue s t)

join : Json → String
unfolding glue
join (obj (field a (str k) (field b (str u) end))) = glue u (String.◌∷◌ "|" k)
join v = ""

codec : Codec
unfolding join parts unary letters
codec = record {
  encode = join;
  decode = λ s. let (u, k) = parts s in some (obj (field "k" (str k) (field "id" (str u) end)));
  str_uuid = unary;
  uuid_of = λ v. elim v [ str u ↦ some (letters u) | _ ↦ none ];
}

pub letters-unary : (n : ℕ) → letters (unary n) ≡ n
unfolding letters unary
letters-unary zero = refl
letters-unary (suc n) = ap suc (letters-unary n)

pub parts-unary : (n : ℕ) (k : String) → parts (glue (unary n) (String.◌∷◌ "|" k)) ≡ (unary n, k)
unfolding parts glue unary nat_eq
parts-unary zero k = refl
parts-unary (suc n) k = rw (parts-unary n k) refl

-- Keys sorted by their length.
abbrev shorter : String → String → Bool
shorter a b = ltb (letters a) (letters b)

shorter-IsOrder : IsOrder shorter
shorter-IsOrder = record {
  irreflexive = λ a. ground arith;
  transitive = λ a b c h h'. ground arith;
}

not_empty : (i : ℕ) (k : String) → letters (glue (unary i) (String.◌∷◌ "|" k)) ≢ 0
unfolding letters glue unary
not_empty zero k e = absurd (omega (arith, e))
not_empty (suc i) k e = absurd (omega (arith, e))

laws : CodecLaws codec
unfolding codec cursor_payload join letters
laws = record {
  decode-encode = λ k i. rw (parts-unary i k) refl;
  encode_full = λ k i e. not_empty i k (ap letters e);
  uuid_of-str_uuid = λ i. rw (letters-unary i) refl;
}

abbrev wider : StorageObject
wider = record old { id = 71; key = "wider.png" }

abbrev widest : StorageObject
widest = record old { id = 72; key = "much-wider.png" }

read_pages-list_objects_example :
    read_pages (listing shorter codec 1 7 none 2 (widest ∷ old ∷ wider ∷ [])) 4 none
    ≡ some (
        order_by
          (object_before shorter)
          (select (listed shorter 1 7 none) (widest ∷ old ∷ wider ∷ [])))
unfolding letters object_before listed nat_eq string_eq select order_by
read_pages-list_objects_example =
    read_pages-list_objects shorter shorter-IsOrder codec laws 1 7 none 2
      (widest ∷ old ∷ wider ∷ []) (omega arith)
      ((inr refl, (inr refl, tt)), ((inl refl, tt), (tt, tt))) 4 (omega arith)
