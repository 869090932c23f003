-- ===== src/Events/Fields.antt =====
-- What `Json::at` finds in the object that a line is read back as.
use thorium.Prelude.{
  Bool, true, false, not, ◌&&◌, ◌||◌, Option, none, some, List, [], ◌∷◌, ◌++◌, Text, text_eq, ◌==◌,
  if◌then◌else◌, ◌≡◌, refl, ap, sym, subst, ◌∙◌, arith, fun_ext,
}
use mathlib.Core.List.{append_assoc, append-nil}
use thorium.Json.Parser.{
  Json, string, Items, no_items, item, Fields, no_fields, field, add_field, add_item,
}
use thorium.Json.Access.{find_field, at, text_of, text_found}
use thorium.Events.{optional_bool, texts_of, instruments_of}
use thorium.Events.Written.{Cell, Cells, and_cells, node_of, words, verdict, listed, and_values}

abbrev pub cell_node : Cell → Option Json
cell_node none = none
cell_node (some (value, node)) = some node

-- The field with that key.
abbrev pub cell_found : Cells → Text → Option Json
cell_found [] wanted = none
cell_found ((key, cell) ∷ cells) wanted =
    if key == wanted then cell_node cell else cell_found cells wanted

abbrev first_of : Option Json → Option Json → Option Json
first_of none later = later
first_of (some node) later = some node

find_field-add_field :
    (known : Fields) (key wanted : Text) (node : Json)
    → find_field wanted (add_field known key node)
      ≡ first_of (find_field wanted known) (if key == wanted then some node else none)
unfolding find_field add_field
find_field-add_field no_fields key wanted node = refl
find_field-add_field (field k x rest) key wanted node =
    by_key (k == wanted) (find_field-add_field rest key wanted node)
  where
    by_key :
        (here : Bool)
        → find_field wanted (add_field rest key node)
          ≡ first_of (find_field wanted rest) (if key == wanted then some node else none)
        → (if here then some x else find_field wanted (add_field rest key node))
          ≡ first_of
              (if here then some x else find_field wanted rest)
              (if key == wanted then some node else none)
    by_key true h = refl
    by_key false h = h

abbrev among : Text → Cells → Bool
among wanted [] = false
among wanted ((key, cell) ∷ cells) = key == wanted || among wanted cells

abbrev pub distinct : Cells → Bool
distinct [] = true
distinct ((key, cell) ∷ cells) = not (among key cells) && distinct cells

cell_found-among :
    (cells : Cells) (wanted : Text) → among wanted cells ≡ false → cell_found cells wanted ≡ none
cell_found-among [] wanted h = refl
cell_found-among ((key, cell) ∷ cells) wanted h = ground (arith, cell_found-among cells wanted)

first_of-none : (o : Option Json) → first_of o none ≡ o
first_of-none none = refl
first_of-none (some node) = refl

find_field-and_cells :
    (cells : Cells) (known : Fields) (wanted : Text)
    → distinct cells ≡ true
    → find_field wanted (and_cells known cells)
      ≡ first_of (find_field wanted known) (cell_found cells wanted)
find_field-and_cells [] known wanted h = sym (first_of-none (find_field wanted known))
find_field-and_cells ((key, none) ∷ cells) known wanted h =
    find_field-and_cells cells known wanted (ground arith)
    ∙ ap (first_of (find_field wanted known)) (by_key (key == wanted) refl)
  where
    by_key :
        (here : Bool)
        → (key == wanted) ≡ here
        → cell_found cells wanted ≡ (if here then none else cell_found cells wanted)
    by_key true e =
        let same : key ≡ wanted = (text_eq.same_iff key wanted).0 e in
        cell_found-among cells wanted (subst (λ k. among k cells ≡ false) same (ground arith))
    by_key false e = refl
find_field-and_cells ((key, some (value, node)) ∷ cells) known wanted h =
    find_field-and_cells cells (add_field known key node) wanted (ground arith)
    ∙ ap (λ o. first_of o (cell_found cells wanted)) (find_field-add_field known key wanted node)
    ∙ by_key (key == wanted) (find_field wanted known)
  where
    by_key :
        (here : Bool) (o : Option Json)
        → first_of (first_of o (if here then some node else none)) (cell_found cells wanted)
          ≡ first_of o (if here then some node else cell_found cells wanted)
    by_key true none = refl
    by_key true (some first) = refl
    by_key false none = refl
    by_key false (some first) = refl

-- Each field of the object, where no key is there twice.
pub at-node_of :
    (cells : Cells) → distinct cells ≡ true → (λ key. at key (node_of cells)) ≡ cell_found cells
unfolding find_field
at-node_of cells h = fun_ext λ key. find_field-and_cells cells no_fields key h

pub text_found-words : (t : Text) → text_found [] (cell_node (words t)) ≡ t
text_found-words [] = refl
text_found-words (c ∷ t) = refl

pub optional_bool-verdict : (o : Option Bool) → optional_bool (cell_node (verdict o)) ≡ o
optional_bool-verdict none = refl
optional_bool-verdict (some b) = refl

texts_of-add_item :
    (items : Items) (t : Text) → texts_of (add_item items (string t)) ≡ texts_of items ++ t ∷ []
unfolding add_item
texts_of-add_item no_items t = refl
texts_of-add_item (item node rest) t = ap (◌∷◌ (text_of [] node)) (texts_of-add_item rest t)

texts_of-and_values :
    (values : List Text) (items : Items)
    → texts_of (and_values items values) ≡ texts_of items ++ values
texts_of-and_values [] items = sym (append-nil (texts_of items))
texts_of-and_values (value ∷ values) items =
    texts_of-and_values values (add_item items (string value))
    ∙ ap (λ ts. ts ++ values) (texts_of-add_item items value)
    ∙ append_assoc (texts_of items) (value ∷ []) values

pub instruments_of-listed :
    (values : List Text) → instruments_of (cell_node (listed values)) ≡ values
instruments_of-listed [] = refl
instruments_of-listed (value ∷ values) = texts_of-and_values (value ∷ values) no_items
