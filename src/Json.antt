-- ===== src/Json.antt =====
-- Decoded JSON, Go's `interface{}` as encoding/json fills it. A number is kept as its literal,
-- and the entries of an object stand in the order in which `range` visits them.
use mcp_proxy.Prelude.{Bool, Option, String, if◌then◌else◌, none, some, ◌==◌}

mutual
  pub data Value : Type 0 where
    null : Value
    bool : Bool → Value
    number : String → Value
    str : String → Value
    obj : Fields → Value
    arr : Items → Value

  pub data Fields : Type 0 where
    end : Fields
    field : String → Value → Fields → Fields

  pub data Items : Type 0 where
    nil : Items
    cons : Value → Items → Items

-- v, ok := m[k]
unfoldable pub get_field : String → Fields → Option Value
get_field k end = none
get_field k (field j v fs) = if j == k then some v else get_field k fs

abbrev pub as_bool : Option Value → Option Bool
as_bool (some (bool b)) = some b
as_bool _ = none

abbrev pub as_str : Option Value → Option String
as_str (some (str s)) = some s
as_str _ = none

abbrev pub as_arr : Option Value → Option Items
as_arr (some (arr xs)) = some xs
as_arr _ = none

abbrev pub as_obj : Option Value → Option Fields
as_obj (some (obj fs)) = some fs
as_obj _ = none
