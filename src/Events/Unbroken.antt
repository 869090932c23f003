-- ===== src/Events/Unbroken.antt =====
-- A line of the event sink holds no newline: `jsonEscape` spells every control byte.
use thorium.Prelude.{
  ℕ, Bool, true, false, not, none, some, List, [], ◌∷◌, ◌++◌, Text, text, eqb, all, ◌≡◌, refl,
  arith,
}
use thorium.Json.{escape_char, json_escape, json_quoted}
use thorium.Events.Sink.{key_text, more_values, spelled_bool}
use thorium.Events.Written.{Cells, more_cells, rendered, entry_text}

abbrev pub no_newline : ℕ → Bool
no_newline c = not (eqb c b'\n')

abbrev pub Unbroken : Text → Type 0
Unbroken t = all no_newline t ≡ true

pub Unbroken-append : (s t : Text) → Unbroken s → Unbroken t → Unbroken (s ++ t)
Unbroken-append [] t h k = k
Unbroken-append (c ∷ s) t h k = ground (arith, Unbroken-append s t)

escape_char-Unbroken : (c : ℕ) → Unbroken (escape_char c)
escape_char-Unbroken c = ground arith

json_escape-Unbroken : (t : Text) → Unbroken (json_escape t)
unfolding json_escape
json_escape-Unbroken [] = refl
json_escape-Unbroken (c ∷ t) =
    Unbroken-append (escape_char c) (json_escape t) (escape_char-Unbroken c)
      (json_escape-Unbroken t)

pub json_quoted-Unbroken : (t : Text) → Unbroken (json_quoted t)
unfolding json_quoted
json_quoted-Unbroken t = Unbroken-append (json_escape t) (b'"' ∷ []) (json_escape-Unbroken t) refl

entry_text-Unbroken : (key value : Text) → Unbroken value → Unbroken (entry_text key value)
entry_text-Unbroken key value h =
    Unbroken-append (key_text key) value
      (Unbroken-append (json_quoted key) (text ":") (json_quoted-Unbroken key) refl) h

pub more_values-Unbroken : (values : List Text) → Unbroken (more_values values)
unfolding more_values
more_values-Unbroken [] = refl
more_values-Unbroken (value ∷ values) =
    Unbroken-append (json_quoted value) (more_values values) (json_quoted-Unbroken value)
      (more_values-Unbroken values)

pub spelled_bool-Unbroken : (b : Bool) → Unbroken (spelled_bool b)
spelled_bool-Unbroken true = refl
spelled_bool-Unbroken false = refl

abbrev pub UnbrokenCells : Cells → Type 0
UnbrokenCells [] = Unit
UnbrokenCells ((key, none) ∷ cells) = UnbrokenCells cells
UnbrokenCells ((key, some (value, node)) ∷ cells) = Unbroken value × UnbrokenCells cells

more_cells-Unbroken : (cells : Cells) → UnbrokenCells cells → Unbroken (more_cells cells)
more_cells-Unbroken [] h = refl
more_cells-Unbroken ((key, none) ∷ cells) h = more_cells-Unbroken cells h
more_cells-Unbroken ((key, some (value, node)) ∷ cells) h =
    Unbroken-append (entry_text key value) (more_cells cells) (entry_text-Unbroken key value h.0)
      (more_cells-Unbroken cells h.1)

pub rendered-Unbroken : (cells : Cells) → UnbrokenCells cells → Unbroken (rendered cells)
rendered-Unbroken [] h = refl
rendered-Unbroken ((key, none) ∷ cells) h = rendered-Unbroken cells h
rendered-Unbroken ((key, some (value, node)) ∷ cells) h =
    Unbroken-append (entry_text key value) (more_cells cells) (entry_text-Unbroken key value h.0)
      (more_cells-Unbroken cells h.1)
