-- ===== src/Json/Access.antt =====
-- framework/webui/src/protocol/json.cpp: what a parsed node answers, a default where it is of another type.
use thorium.Prelude.{ℕ, Bool, Option, none, some, Text, text_eq, ◌==◌, if◌then◌else◌}
use thorium.Json.Parser.{
  Json, boolean, number, string, array, object, Items, no_items, Fields, no_fields, field,
}

-- `boolean( fallback)`, `number( fallback)`, `text( fallback)`, `items()`
abbrev pub boolean_of : Bool → Json → Bool
boolean_of fallback (boolean b) = b
boolean_of fallback _ = fallback

-- A `double` is its bits.
abbrev pub number_of : ℕ → Json → ℕ
number_of fallback (number bits) = bits
number_of fallback _ = fallback

abbrev pub text_of : Text → Json → Text
text_of fallback (string t) = t
text_of fallback _ = fallback

abbrev pub items_of : Json → Items
items_of (array items) = items
items_of _ = no_items

-- `mKeys.find( key)`: `emplace` keeps the first of two fields with one key.
unfoldable pub find_field : Text → Fields → Option Json
find_field key no_fields = none
find_field key (field k node rest) =
    let later = find_field key rest in if k == key then some node else later

abbrev pub at : Text → Json → Option Json
at key (object known) = find_field key known
at key _ = none

-- `textAt` and `boolAt` of what `at` found.
abbrev pub text_found : Text → Option Json → Text
text_found fallback none = fallback
text_found fallback (some node) = text_of fallback node

abbrev pub boolean_found : Bool → Option Json → Bool
boolean_found fallback none = fallback
boolean_found fallback (some node) = boolean_of fallback node

abbrev pub text_at : Text → Text → Json → Text
text_at key fallback node = text_found fallback (at key node)

abbrev pub boolean_at : Text → Bool → Json → Bool
boolean_at key fallback node = boolean_found fallback (at key node)
