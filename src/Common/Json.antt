-- ===== src/Common/Json.antt =====
-- The values of `json.loads`. An object is a dict, whose keys are distinct; a number with a fraction or an exponent keeps
-- only its text, since the repository reads none.
use github_delivery_intellig.Common.{
  ℕ, ℤ, pos, Bool, Option, none, some, List, [], ◌∷◌, if◌then◌else◌, ◌=?◌,
}
use github_delivery_intellig.Common.Text.{Text, text_eq}

mutual
  pub data Json : Type 0 where
    null : Json
    boolean : Bool → Json
    integer : ℤ → Json
    real : Text → Json
    str : Text → Json
    array : Items → Json
    object : Fields → Json

  pub data Items : Type 0 where
    no_items : Items
    item : Json → Items → Items

  pub data Fields : Type 0 where
    no_fields : Fields
    field : Text → Json → Fields → Fields

-- `container.get(name)`: `none` where the key is missing.
unfoldable pub get : Text → Fields → Option Json
get k no_fields = none
get k (field j v fs) = if j =? k then some v else get k fs

-- `isinstance(value, dict)`, and the dict.
abbrev pub as_object : Json → Option Fields
as_object (object fs) = some fs
as_object _ = none

-- `isinstance(value, str)`, and the text.
abbrev pub as_text : Json → Option Text
as_text (str s) = some s
as_text _ = none

abbrev pub to_list : Items → List Json
to_list no_items = []
to_list (item v vs) = v ∷ to_list vs

-- `isinstance(value, list)`, and the list.
abbrev pub as_list : Json → Option (List Json)
as_list (array vs) = some (to_list vs)
as_list _ = none

-- `isinstance(value, list) and all(isinstance(node, dict) for node in value)`, and the dicts.
abbrev pub to_objects : List Json → Option (List Fields)
to_objects [] = some []
to_objects (v ∷ vs) = elim (as_object v) [
  | none ↦ none
  | some node ↦ elim (to_objects vs) [ none ↦ none | some nodes ↦ some (node ∷ nodes) ]
]

abbrev pub as_objects : Json → Option (List Fields)
as_objects (array vs) = to_objects (to_list vs)
as_objects _ = none

-- `isinstance(value, int) and not isinstance(value, bool) and value >= 0`, and the number.
abbrev pub as_natural : Json → Option ℕ
as_natural (integer (pos n)) = some n
as_natural _ = none

-- `container[name] = value`
unfoldable pub set_field : Text → Json → Fields → Fields
set_field k v no_fields = field k v no_fields
set_field k v (field j u fs) =
    let later = set_field k v fs in if j =? k then field j v fs else field j u later
