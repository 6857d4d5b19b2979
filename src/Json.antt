-- ===== src/Json.antt =====
-- JSON values as the program holds them: Python's `dict`, `list`, `str`, numbers, `bool` and
-- `None`. A number is kept as its text, since the program never computes with one.
use nexus_mcp.Base.{String, Bool, false, Option, none, some, ◌==◌, if◌then◌else◌}

mutual
  pub data Value : Type 0 where
    null : Value
    truth : Bool → Value
    number : String → Value
    text : String → Value
    array : Values → Value
    object : Fields → Value

  pub data Values : Type 0 where
    nil : Values
    cons : Value → Values → Values

  pub data Fields : Type 0 where
    end : Fields
    field : String → Value → Fields → Fields

-- `mapping.get(key)`
unfoldable pub field_of : String → Fields → Option Value
field_of key end = none
field_of key (field name value rest) = if key == name then some value else field_of key rest

-- `value == text`, for a value that may be missing.
abbrev pub is_text : String → Option Value → Bool
is_text s (some (Value.text t)) = s == t
is_text s _ = false
