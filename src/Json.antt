-- ===== src/Json.antt =====
-- Values of JSON, as `json.loads` returns them and JSONB columns hold them, with the parts of the
-- Python standard library that the services apply to them. A float is the number of its bits, an
-- instant a number: the code only hands them on.
use ezauth.Prelude.{
  ℕ, String, Bool, Option, none, some, List, [], ◌∷◌, ◌==◌, string_eq, if◌then◌else◌,
}
use ezauth.Prelude.Int.{ℤ}

mutual
  pub data Json : Type 0 where
    null : Json
    bool : Bool → Json
    int : ℤ → Json
    float : ℕ → Json
    str : String → Json
    arr : Elems → Json
    obj : Fields → Json

  pub data Elems : Type 0 where
    nil : Elems
    cons : Json → Elems → Elems

  pub data Fields : Type 0 where
    end : Fields
    field : String → Json → Fields → Fields

abbrev pub elems : Elems → List Json
elems nil = []
elems (cons v vs) = v ∷ elems vs

-- `d.get(key)` and `key in d`, none where the key is missing
unfoldable pub get_field : String → Fields → Option Json
get_field key end = none
get_field key (field k v fs) = if k == key then some v else get_field key fs

-- `d.get(key)`, where a missing key and null are alike
unfoldable pub get_or_null : String → Fields → Json
unfolding get_field
get_or_null key fs = elim (get_field key fs) [ none ↦ null | some v ↦ v ]

pub record Codec : Type 0 where
  -- base64.urlsafe_b64encode(json.dumps(v).encode()).decode()
  pub encode : Json → String
  -- json.loads(base64.urlsafe_b64decode(text.encode()).decode()), none where a step raises
  pub decode : String → Option Json
  -- str(id) of a UUID
  pub str_uuid : ℕ → String
  -- uuid.UUID(str(v)), none where it raises
  pub uuid_of : Json → Option ℕ
