-- ===== src/Objects/Keys.antt =====
-- The validation of object keys and content types in src/ezauth/services/objects.py.
use Prim.Native.Char.{Char, code}
use Prim.Native.String.{count}
use text.Mathlib.Text.{starts_with}
use ezauth.Prelude.{
  ℕ, String, Bool, false, ◌||◌, Option, none, some, List, [], ◌∷◌, ◌==◌, string_eq, nat_eq,
  if◌then◌else◌, ltb, any,
}
use ezauth.Outcome.{Result, ok, raised, invalid_key, invalid_content_type}

abbrev pub max_object_key_length : ℕ
max_object_key_length = 1024

abbrev pub max_content_type_length : ℕ
max_content_type_length = 255

-- A match of `[\x00-\x1f\x7f]`.
unfoldable pub has_control_chars : String → Bool
has_control_chars String.[] = false
has_control_chars (String.◌∷◌ c s) = (ltb (code c) 32 || code c == 127) || has_control_chars s

abbrev pub put_char : Char → List String → List String
put_char c [] = String.◌∷◌ c "" ∷ []
put_char c (s ∷ ss) = String.◌∷◌ c s ∷ ss

-- key.split("/")
unfoldable pub split_slash : String → List String
split_slash String.[] = "" ∷ []
split_slash (String.◌∷◌ c s) =
    let rest = split_slash s in if code c == b'/' then "" ∷ rest else put_char c rest

unfoldable pub bad_segment : String → Bool
bad_segment s = s == "" || (s == "." || s == "..")

unfoldable pub validate_object_key : String → Result String
unfolding has_control_chars split_slash bad_segment
validate_object_key key =
    if key == ""
    then raised invalid_key
    else if ltb max_object_key_length (count key)
    then raised invalid_key
    else if has_control_chars key
    then raised invalid_key
    else if starts_with key "/"
    then raised invalid_key
    else if any bad_segment (split_slash key)
    then raised invalid_key
    else ok key

-- (content_type or "").strip() or DEFAULT_CONTENT_TYPE
unfoldable pub content_type_or_default : (String → String) → Option String → String
content_type_or_default strip content_type =
    let stripped = strip (elim content_type [ none ↦ "" | some t ↦ t ]) in
    if stripped == "" then "application/octet-stream" else stripped

unfoldable pub validate_content_type : (String → String) → Option String → Result String
unfolding content_type_or_default has_control_chars
validate_content_type strip content_type =
    let value = content_type_or_default strip content_type in
    if ltb max_content_type_length (count value)
    then raised invalid_content_type
    else if has_control_chars value
    then raised invalid_content_type
    else ok value
