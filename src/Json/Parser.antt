-- ===== src/Json/Parser.antt =====
-- framework/webui/src/protocol/json.cpp: `JsonParser` and `Json::parse`. A `take` that fails leaves the
-- cursor where it was: the white space that it has skipped, every later read skips too. A `double` is
-- the bits that `strtod` gives.
use thorium.Prelude.{
  ℕ, zero, suc, ◌*◌, Bool, true, false, ◌&&◌, ◌||◌, Option, none, some, [], ◌∷◌, ◌++◌, Text, text,
  text_eq, eqb, leb, if◌then◌else◌, length,
}
use thorium.Json.{between, read_string}

-- A node; an object's keys and values in the order of the text.
mutual
  pub data Json : Type 0 where
    null : Json
    boolean : Bool → Json
    number : ℕ → Json
    string : Text → Json
    array : Items → Json
    object : Fields → Json

  pub data Items : Type 0 where
    no_items : Items
    item : Json → Items → Items

  pub data Fields : Type 0 where
    no_fields : Fields
    field : Text → Json → Fields → Fields

-- A node with the text behind it, or a null pointer.
pub data Parsing : Type 0 where
  read : Json → Text → Parsing
  refused out_of_fuel : Parsing

-- What a value begins with: a loop's elements follow, or the value has ended.
pub data Opening : Type 0 where
  ends : Parsing → Opening
  items_follow fields_follow : Text → Opening

-- `push_back`
unfoldable pub add_item : Items → Json → Items
add_item no_items x = item x no_items
add_item (item y rest) x = item y (add_item rest x)

unfoldable pub add_field : Fields → Text → Json → Fields
add_field no_fields key x = field key x no_fields
add_field (field k y rest) key x = field k y (add_field rest key x)

abbrev pub is_space : ℕ → Bool
is_space c = eqb c 32 || eqb c 9 || eqb c 10 || eqb c 13

unfoldable pub skip_space : Text → Text
skip_space [] = []
skip_space (c ∷ t) = let later = skip_space t in if is_space c then later else c ∷ t

abbrev pub at_front : ℕ → Text → Option Text
at_front expected [] = none
at_front expected (c ∷ t) = if eqb c expected then some t else none

-- `take`
unfoldable pub take_char : ℕ → Text → Option Text
take_char expected t = at_front expected (skip_space t)

-- `mText.compare( mAt, spelling.size(), spelling) == 0`, with the text behind it.
unfoldable pub spelled : Text → Text → Option Text
spelled [] t = some t
spelled (s ∷ spelling) [] = none
spelled (s ∷ spelling) (c ∷ t) = let later = spelled spelling t in if eqb c s then later else none

abbrev pub literal : Json → Option Text → Parsing
literal node none = refused
literal node (some rest) = read node rest

abbrev pub is_digit : ℕ → Bool
is_digit c = leb b'0' c && leb c b'9'

abbrev pub is_number_char : ℕ → Bool
is_number_char c = is_digit c || eqb c b'.' || eqb c b'e' || eqb c b'E' || eqb c b'-' || eqb c b'+'

-- The bytes of a number, whether a digit is among them, and the text behind them.
unfoldable pub number_chars : Text → Text × Bool × Text
number_chars [] = ([], false, [])
number_chars (c ∷ t) =
    let (taken, any_digit, rest) = number_chars t in
    if is_number_char c then (c ∷ taken, is_digit c || any_digit, rest) else ([], false, c ∷ t)

module _ (strtod : Text → ℕ) where
  abbrev pub number_node : Text → Text × Bool × Text → Parsing
  number_node sign (taken, any_digit, rest) =
      if any_digit then read (number (strtod (sign ++ taken))) rest else refused

  -- `parseNumber`
  unfoldable pub parse_number : Text → Parsing
  parse_number [] = refused
  parse_number (c ∷ t) =
      if eqb c b'-' || eqb c b'+'
      then number_node (c ∷ []) (number_chars t)
      else number_node [] (number_chars (c ∷ t))

  abbrev pub string_node : Option (Text × Text) → Parsing
  string_node none = refused
  string_node (some (value, rest)) = read (string value) rest

  -- What an object's loop reads before each value: the key, and the text behind the colon.
  abbrev pub behind_colon : Text → Option Text → Option (Text × Text)
  behind_colon key none = none
  behind_colon key (some t) = some (key, t)

  abbrev pub key_of : Option (Text × Text) → Option (Text × Text)
  key_of none = none
  key_of (some (key, t)) = behind_colon key (take_char b':' t)

  abbrev pub key_behind : Option Text → Option (Text × Text)
  key_behind none = none
  key_behind (some t) = key_of (read_string between t)

  -- `parseString` of the key and `take( ':')`
  unfoldable pub read_key : Text → Option (Text × Text)
  read_key t = key_behind (take_char b'"' t)

  abbrev pub closed : ℕ → Json → Text → Parsing
  closed expected node t = literal node (take_char expected t)

  -- What is behind `{` and `[`, where they do not close at once.
  abbrev pub object_opening : Text → Option Text → Opening
  object_opening t (some rest) = ends (read (object no_fields) rest)
  object_opening t none = fields_follow t

  abbrev pub array_opening : Text → Option Text → Opening
  array_opening t (some rest) = ends (read (array no_items) rest)
  array_opening t none = items_follow t

  -- The `switch` of `parseValue`.
  unfoldable pub opening : Text → Opening
  opening [] = ends refused
  opening (c ∷ t) =
      if eqb c b'{'
      then object_opening t (take_char b'}' t)
      else if eqb c b'['
      then array_opening t (take_char b']' t)
      else if eqb c b'"'
      then ends (string_node (read_string between t))
      else if eqb c b't'
      then ends (literal (boolean true) (spelled (text "true") (c ∷ t)))
      else if eqb c b'f'
      then ends (literal (boolean false) (spelled (text "false") (c ∷ t)))
      else if eqb c b'n'
      then ends (literal null (spelled (text "null") (c ∷ t)))
      else ends (parse_number (c ∷ t))

  -- `parseValue`, and the loops of `parseArray` and `parseObject`, on fuel.
  unfoldable mutual
    pub parse_value : ℕ → Text → Parsing
    parse_value zero t = out_of_fuel
    parse_value (suc fuel) t = elim (opening (skip_space t)) [
      | ends parsing ↦ parsing
      | items_follow u ↦ parse_items fuel no_items u
      | fields_follow u ↦ parse_fields fuel no_fields u
    ]

    pub parse_items : ℕ → Items → Text → Parsing
    parse_items zero so_far t = out_of_fuel
    parse_items (suc fuel) so_far t = elim (parse_value fuel t) [
      | read node rest ↦ elim (take_char b',' rest) [
        | some more ↦ parse_items fuel (add_item so_far node) more
        | none ↦ closed b']' (array (add_item so_far node)) rest
      ]
      | refused ↦ refused
      | out_of_fuel ↦ out_of_fuel
    ]

    pub parse_fields : ℕ → Fields → Text → Parsing
    parse_fields zero so_far t = out_of_fuel
    parse_fields (suc fuel) so_far t = elim (read_key t) [
      | none ↦ refused
      | some (key, u) ↦ elim (parse_value fuel u) [
        | read node rest ↦ elim (take_char b',' rest) [
          | some more ↦ parse_fields fuel (add_field so_far key node) more
          | none ↦ closed b'}' (object (add_field so_far key node)) rest
        ]
        | refused ↦ refused
        | out_of_fuel ↦ out_of_fuel
      ]
    ]

  abbrev pub parsed : Parsing → Option Json
  parsed (read node rest) = elim (skip_space rest) [ [] ↦ some node | _ ∷ _ ↦ none ]
  parsed refused = none
  parsed out_of_fuel = none

  abbrev pub enough : Text → ℕ
  enough t = suc (2 * length t)

  -- `Json::parse`
  unfoldable pub parse : Text → Option Json
  parse t = parsed (parse_value (enough t) t)
