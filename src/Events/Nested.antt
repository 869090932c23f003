-- ===== src/Events/Nested.antt =====
-- The fields of an object inside the line, while it is open and when it is closed.
use thorium.Prelude.{
  Bool, true, false, none, some, List, [], ◌∷◌, ◌++◌, Text, text, if◌then◌else◌, ◌≡◌, refl, ap, sym,
  ◌∙◌,
}
use mathlib.Core.List.{append_assoc, append-nil}
use thorium.Json.Parser.{Json}
use thorium.Events.Sink.{
  Line, key_text, open_object, and_nested, nested_text, nested_bool, nested_array, close_object,
}
use thorium.Events.Written.{
  Cell, Cells, words, verdict, listed, nest, entry_text, more_cells, rendered, more_cells-append,
  Tells, Tells-and_cell,
}

-- The same inside an object that is not closed yet.
abbrev all_left_out : Cells → Bool
all_left_out [] = true
all_left_out ((key, none) ∷ cells) = all_left_out cells
all_left_out ((key, some _) ∷ cells) = false

pub record Nests (opened : Text) (line : Line) (cells : Cells) : Type 0 where
  pub text_is : line.so_far ≡ opened ++ rendered cells
  pub first : line.first_nested ≡ all_left_out cells

rendered-append :
    (xs : Cells) (key value : Text) (node : Json)
    → rendered (xs ++ (key, some (value, node)) ∷ [])
      ≡ rendered xs ++ ((if all_left_out xs then [] else text ",") ++ entry_text key value)
rendered-append [] key value node = append-nil (entry_text key value)
rendered-append ((k, none) ∷ xs) key value node = rendered-append xs key value node
rendered-append ((k, some (v, n)) ∷ xs) key value node =
    ap (λ t. entry_text k v ++ t) (more_cells-append xs ((key, some (value, node)) ∷ []))
    ∙ ap (λ t. entry_text k v ++ (more_cells xs ++ (b',' ∷ t))) (append-nil (entry_text key value))
    ∙ sym (append_assoc (entry_text k v) (more_cells xs) (b',' ∷ entry_text key value))

left_out-append :
    (xs : Cells) (key : Text)
    → (rendered (xs ++ (key, none) ∷ []) ≡ rendered xs)
      × (all_left_out (xs ++ (key, none) ∷ []) ≡ all_left_out xs)
left_out-append [] key = (refl, refl)
left_out-append ((k, none) ∷ xs) key = left_out-append xs key
left_out-append ((k, some (v, n)) ∷ xs) key = (
  ap (◌++◌ (entry_text k v)) (more_cells-append xs ((key, none) ∷ []) ∙ append-nil (more_cells xs)),
  refl,
)

there-append :
    (xs : Cells) (key value : Text) (node : Json)
    → all_left_out (xs ++ (key, some (value, node)) ∷ []) ≡ false
there-append [] key value node = refl
there-append ((k, none) ∷ xs) key value node = there-append xs key value node
there-append ((k, some _) ∷ xs) key value node = refl

abbrev nested_cell : Text → Cell → Line → Line
nested_cell key none line = line
nested_cell key (some (value, node)) line = and_nested key value line

Nests-nested_cell :
    (opened key : Text) (cell : Cell) (line : Line) (cells : Cells)
    → Nests opened line cells
    → Nests opened (nested_cell key cell line) (cells ++ (key, cell) ∷ [])
Nests-nested_cell opened key none line cells h = record {
  text_is = h.text_is ∙ ap (◌++◌ opened) (sym (left_out-append cells key).0);
  first = h.first ∙ sym (left_out-append cells key).1;
}
Nests-nested_cell opened key (some (value, node)) line cells h = record {
  text_is =
      ap (λ (l : Line). (nested_cell key (some (value, node)) l).so_far) same
      ∙ append_assoc opened (rendered cells)
          ((if all_left_out cells then [] else text ",") ++ entry_text key value)
      ∙ ap (◌++◌ opened) (sym (rendered-append cells key value node));
  first = sym (there-append cells key value node);
}
  where
    same : line ≡ record { so_far = opened ++ rendered cells; first_nested = all_left_out cells }
    same = cc (h.text_is, h.first)

module _ {opened : Text} {line : Line} {cells : Cells} (key : Text)
    (h : Nests opened line cells) where
  pub Nests-nested_text :
      (value : Text) → Nests opened (nested_text key value line) (cells ++ (key, words value) ∷ [])
  unfolding nested_text
  Nests-nested_text [] = Nests-nested_cell opened key none line cells h
  Nests-nested_text (c ∷ t) = Nests-nested_cell opened key (words (c ∷ t)) line cells h

  pub Nests-nested_bool :
      (value : Bool)
      → Nests opened (nested_bool key value line) (cells ++ (key, verdict (some value)) ∷ [])
  unfolding nested_bool
  Nests-nested_bool value = Nests-nested_cell opened key (verdict (some value)) line cells h

  pub Nests-nested_array :
      (values : List Text)
      → Nests opened (nested_array key values line) (cells ++ (key, listed values) ∷ [])
  unfolding nested_array
  Nests-nested_array [] = Nests-nested_cell opened key none line cells h
  Nests-nested_array (value ∷ values) =
      Nests-nested_cell opened key (listed (value ∷ values)) line cells h

pub Nests-open_object :
    (key : Text) (line : Line)
    → Nests (line.so_far ++ (b',' ∷ (key_text key ++ text "{"))) (open_object key line) []
unfolding open_object
Nests-open_object key line = record { text_is = sym (append-nil _); first = refl }

closing_text :
    (before key inner : Text)
    → ((before ++ (b',' ∷ (key ++ text "{"))) ++ inner) ++ text "}"
      ≡ before ++ (b',' ∷ (key ++ (b'{' ∷ (inner ++ text "}"))))
closing_text before key inner = simp append_assoc

pub Tells-close_object :
    {opened : Text} {before line : Line} {cells inner : Cells} (key : Text)
    → Tells opened before cells
    → Nests (before.so_far ++ (b',' ∷ (key_text key ++ text "{"))) line inner
    → Tells opened (close_object line) (cells ++ (key, nest inner) ∷ [])
unfolding close_object
Tells-close_object {opened} {before} {line} {cells} {inner} key h n = record {
  text_is =
      ap (λ t. t ++ text "}") n.text_is
      ∙ closing_text before.so_far (key_text key) (rendered inner)
      ∙ (Tells-and_cell opened key (nest inner) before cells h).text_is;
}
