-- ===== src/Value/Document.antt =====
-- A parsed JSON document, with the members of an object in order and repeated ones kept.
use integration_efi.Base.{String, Bool, Option, none, some}
use integration_efi.Value.Numbers.{Float}
use integration_efi.Value.Data.{Value, Values, nil, cons, Fields, end, put}
use integration_efi.Value.Data

mutual
  pub data Json : Type 0 where
    null : Json
    bool : Bool → Json
    number : Float → Json
    string : String → Json
    array : Jsons → Json
    object : Members → Json

  pub data Jsons : Type 0 where
    empty : Jsons
    item : Json → Jsons → Jsons

  pub data Members : Type 0 where
    closed : Members
    member : String → Json → Members → Members

-- json.Unmarshal into an `any`: of repeated members the last wins.
unfoldable mutual
  pub to_value : Json → Value
  to_value null = Data.Value.null
  to_value (bool b) = Data.Value.bool b
  to_value (number x) = Data.Value.float64 x
  to_value (string s) = Data.Value.string s
  to_value (array js) = Data.Value.array (to_values js)
  to_value (object ms) = Data.Value.object (to_entries ms end)

  to_values : Jsons → Values
  to_values empty = nil
  to_values (item j js) = cons (to_value j) (to_values js)

  to_entries : Members → Fields → Fields
  to_entries closed m = m
  to_entries (member k j ms) m = to_entries ms (put m k (to_value j))

-- json.Unmarshal into a `map[string]any`: an object, or null for the nil map.
unfoldable pub to_fields : Json → Option Fields
unfolding to_value
to_fields null = some end
to_fields (object ms) = some (to_entries ms end)
to_fields _ = none
