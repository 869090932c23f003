-- ===== src/Events/Written.antt =====
-- What a line of the event sink holds: its fields in their order, each as it is spelled and as the node
-- that it is read back as. A field that is left out is none.
use thorium.Prelude.{
  ℕ, Bool, Option, none, some, List, [], ◌∷◌, ◌++◌, Text, text, ◌≡◌, refl, ap, sym, ◌∙◌,
}
use mathlib.Core.List.{append_assoc, append-nil}
use thorium.Json.{json_quoted}
use thorium.Json.Parser.{
  Json, boolean, number, string, array, object, Items, no_items, add_item, Fields, no_fields,
  add_field,
}
use thorium.Events.Sink.{
  Line, spelled_bool, key_text, and_field, field_text, field_bool, field_verdict, more_values,
  field_count, field_number,
}

abbrev pub Cell : Type 0
Cell = Option (Text × Json)

abbrev pub Cells : Type 0
Cells = List (Text × Cell)

abbrev pub words : Text → Cell
words [] = none
words (c ∷ t) = some (json_quoted (c ∷ t), string (c ∷ t))

abbrev pub verdict : Option Bool → Cell
verdict none = none
verdict (some b) = some (spelled_bool b, boolean b)

abbrev pub and_values : Items → List Text → Items
and_values items [] = items
and_values items (value ∷ values) = and_values (add_item items (string value)) values

abbrev pub listed : List Text → Cell
listed [] = none
listed (value ∷ values) = some (
  b'[' ∷ (json_quoted value ++ (more_values values ++ text "]")),
  array (and_values no_items (value ∷ values)),
)

abbrev pub entry_text : Text → Text → Text
entry_text key value = key_text key ++ value

-- The fields behind one that is there, and the fields of an object.
abbrev pub more_cells : Cells → Text
more_cells [] = []
more_cells ((key, none) ∷ cells) = more_cells cells
more_cells ((key, some (value, node)) ∷ cells) = b',' ∷ (entry_text key value ++ more_cells cells)

abbrev pub rendered : Cells → Text
rendered [] = []
rendered ((key, none) ∷ cells) = rendered cells
rendered ((key, some (value, node)) ∷ cells) = entry_text key value ++ more_cells cells

abbrev pub and_cells : Fields → Cells → Fields
and_cells fields [] = fields
and_cells fields ((key, none) ∷ cells) = and_cells fields cells
and_cells fields ((key, some (value, node)) ∷ cells) = and_cells (add_field fields key node) cells

abbrev pub node_of : Cells → Json
node_of cells = object (and_cells no_fields cells)

abbrev pub nest : Cells → Cell
nest cells = some (b'{' ∷ (rendered cells ++ text "}"), node_of cells)

module _ (strtod : Text → ℕ) where
  abbrev pub figure : Text → Cell
  figure t = some (t, number (strtod t))

  abbrev pub figure_if : (ℕ → Text) → Option ℕ → Cell
  figure_if fixed none = none
  figure_if fixed (some value) = figure (fixed value)

pub more_cells-append : (xs ys : Cells) → more_cells (xs ++ ys) ≡ more_cells xs ++ more_cells ys
more_cells-append [] ys = refl
more_cells-append ((key, none) ∷ xs) ys = more_cells-append xs ys
more_cells-append ((key, some (value, node)) ∷ xs) ys =
    ap (λ t. b',' ∷ (entry_text key value ++ t)) (more_cells-append xs ys)
    ∙ ap (◌∷◌ b',') (sym (append_assoc (entry_text key value) (more_cells xs) (more_cells ys)))

-- Behind what opens it, the line has these fields.
pub record Tells (opened : Text) (line : Line) (cells : Cells) : Type 0 where
  pub text_is : line.so_far ≡ opened ++ more_cells cells

abbrev and_cell : Text → Cell → Line → Line
and_cell key none line = line
and_cell key (some (value, node)) line = and_field key value line

pub Tells-and_cell :
    (opened key : Text) (cell : Cell) (line : Line) (cells : Cells)
    → Tells opened line cells
    → Tells opened (and_cell key cell line) (cells ++ (key, cell) ∷ [])
Tells-and_cell opened key none line cells h = record {
  text_is =
      h.text_is
      ∙ ap (◌++◌ opened)
          (sym (more_cells-append cells ((key, none) ∷ []) ∙ append-nil (more_cells cells)));
}
Tells-and_cell opened key (some (value, node)) line cells h = record {
  text_is =
      ap (λ t. t ++ (b',' ∷ entry_text key value)) h.text_is
      ∙ append_assoc opened (more_cells cells) (b',' ∷ entry_text key value)
      ∙ ap (λ t. opened ++ (more_cells cells ++ (b',' ∷ t)))
          (sym (append-nil (entry_text key value)))
      ∙ ap (◌++◌ opened) (sym (more_cells-append cells ((key, some (value, node)) ∷ [])));
}

module _ {opened : Text} {line : Line} {cells : Cells} (key : Text)
    (h : Tells opened line cells) where
  pub Tells-left_out : Tells opened line (cells ++ (key, none) ∷ [])
  Tells-left_out = Tells-and_cell opened key none line cells h

  pub Tells-field_text :
      (value : Text) → Tells opened (field_text key value line) (cells ++ (key, words value) ∷ [])
  unfolding field_text
  Tells-field_text [] = Tells-and_cell opened key none line cells h
  Tells-field_text (c ∷ t) = Tells-and_cell opened key (words (c ∷ t)) line cells h

  pub Tells-field_bool :
      (value : Bool)
      → Tells opened (field_bool key value line) (cells ++ (key, verdict (some value)) ∷ [])
  unfolding field_bool
  Tells-field_bool value = Tells-and_cell opened key (verdict (some value)) line cells h

  pub Tells-field_verdict :
      (value : Option Bool)
      → Tells opened (field_verdict key value line) (cells ++ (key, verdict value) ∷ [])
  unfolding field_verdict
  Tells-field_verdict none = Tells-and_cell opened key none line cells h
  Tells-field_verdict (some value) = Tells-and_cell opened key (verdict (some value)) line cells h

  pub Tells-field_count :
      (strtod : Text → ℕ) (decimal fixed : ℕ → Text) (value : ℕ)
      → Tells opened
          (field_count decimal fixed key value line)
          (cells ++ (key, figure strtod (decimal value)) ∷ [])
  unfolding field_count
  Tells-field_count strtod decimal fixed value =
      Tells-and_cell opened key (figure strtod (decimal value)) line cells h

  pub Tells-field_number :
      (strtod : Text → ℕ) (decimal fixed : ℕ → Text) (value : Option ℕ)
      → Tells opened
          (field_number decimal fixed key value line)
          (cells ++ (key, figure_if strtod fixed value) ∷ [])
  unfolding field_number
  Tells-field_number strtod decimal fixed none = Tells-and_cell opened key none line cells h
  Tells-field_number strtod decimal fixed (some value) =
      Tells-and_cell opened key (figure strtod (fixed value)) line cells h
