-- ===== src/Contracts/Json.antt =====
-- What `json.loads` returns, as the adapters of src/vortex_ai_gateway/providers read it. A number that is
-- no integer is its text, except that a zero is the integer, which `_int` reads alike.
use vortex_ai_gateway.Base.{
  ℤ, is_zero, Text, Bool, true, false, not, Option, none, some, is_empty, text_eq, if◌then◌else◌,
}

mutual
  pub data Json : Type 0 where
    null : Json
    bool : Bool → Json
    number : ℤ → Json
    other_number : Text → Json
    text : Text → Json
    array : Items → Json
    object : Fields → Json

  pub data Items : Type 0 where
    end_items : Items
    item : Json → Items → Items

  pub data Fields : Type 0 where
    end_fields : Fields
    field : Text → Json → Fields → Fields

-- `mapping.get(k)`: the value of a key that stands twice is the last, which `loads` keeps.
unfoldable pub get_field : Text → Fields → Option Json
get_field k end_fields = none
get_field k (field j v fs) =
    let rest = get_field k fs in
    elim rest [ some w ↦ some w | none ↦ if text_eq j k then some v else none ]

-- `mapping.get(k)`, where a missing key is `None`
unfoldable pub get : Text → Fields → Json
unfolding get_field
get k fs = elim (get_field k fs) [ some v ↦ v | none ↦ null ]

-- `bool(value)`
unfoldable pub truthy : Json → Bool
truthy null = false
truthy (bool b) = b
truthy (number n) = not (is_zero n)
truthy (other_number t) = true
truthy (text t) = not (is_empty t)
truthy (array end_items) = false
truthy (array (item x xs)) = true
truthy (object end_fields) = false
truthy (object (field k v fs)) = true

-- `value if isinstance(value, Mapping) else {}`
abbrev pub mapping_or_empty : Json → Fields
mapping_or_empty (object fs) = fs
mapping_or_empty _ = end_fields

-- `value if isinstance(value, str) else None`
abbrev pub text_or_none : Json → Option Text
text_or_none (text t) = some t
text_or_none _ = none
