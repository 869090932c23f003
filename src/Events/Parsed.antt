-- ===== src/Events/Parsed.antt =====
-- `Json::parse` reads the objects of a line back: each field to the node that it was written from.
use thorium.Prelude.{
  ℕ, zero, suc, ◌+◌, ◌*◌, ◌≤◌, Bool, Option, none, some, List, [], ◌∷◌, ◌++◌, Text, text, length,
  length-append, ◌≡◌, inl, inr, refl, ap, ◌∙◌, arith,
}
use mathlib.Core.List.{append_assoc}
use thorium.Json.{json_escape, json_quoted}
use thorium.Json.Strings.{read_string-json_quoted}
use thorium.Json.Parser.{
  Json, object, Fields, no_fields, Parsing, read, refused, out_of_fuel, add_field, skip_space,
  take_char, closed, opening, key_of, read_key, parse_value, parse_fields, parsed, parse,
}
use thorium.Events.Sink.{more_values}
use thorium.Events.Written.{
  Cell, Cells, entry_text, more_cells, rendered, and_cells, words, verdict, listed, nest, node_of,
  figure,
}
use thorium.Events.Unbroken.{
  Unbroken, UnbrokenCells, Unbroken-append, rendered-Unbroken, json_quoted-Unbroken,
  spelled_bool-Unbroken, more_values-Unbroken,
}
use thorium.Events.Reads.{
  Delimited, Reads, Reads-json_quoted, Reads-spelled_bool, Numeral, Numeral-Unbroken, Reads-figure,
}
use thorium.Events.Arrays.{Reads-values}

Delimited-more_cells : (cells : Cells) (rest : Text) → Delimited (more_cells cells ++ (b'}' ∷ rest))
Delimited-more_cells [] rest = inr (inl refl)
Delimited-more_cells ((key, none) ∷ cells) rest = Delimited-more_cells cells rest
Delimited-more_cells ((key, some (value, node)) ∷ cells) rest = inl refl

key_first :
    (key value rest : Text)
    → entry_text key value ++ rest ≡ b'"' ∷ (json_escape key ++ (b'"' ∷ b':' ∷ (value ++ rest)))
unfolding json_quoted
key_first key value rest = simp append_assoc

pub length-entry_text :
    (key value rest : Text) → length value + length rest + 3 ≤ length (entry_text key value ++ rest)
unfolding json_quoted
length-entry_text key value rest = simp (length-append) (omega arith)

module _ (strtod : Text → ℕ) where
  abbrev pub SoundCell : Cell → Type 0
  SoundCell none = Unit
  SoundCell (some (value, node)) = Unbroken value × Reads strtod value node

  infixr 20 ◌also◌
  -- Each field of an object is.
  pub data Sound : Cells → Type 0 where
    done : Sound []
    ◌also◌ :
        {key : Text} {cell : Cell} {cells : Cells}
        → SoundCell cell
        → Sound cells
        → Sound ((key, cell) ∷ cells)

  pub read_key-entry_text :
      (key value rest : Text)
      → read_key strtod (entry_text key value ++ rest) ≡ some (key, value ++ rest)
  unfolding read_key take_char skip_space
  read_key-entry_text key value rest =
      ap (read_key strtod) (key_first key value rest)
      ∙ ap (key_of strtod) (read_string-json_quoted key (b':' ∷ (value ++ rest)))

  -- Behind a value of an object.
  abbrev pub after_value : ℕ → Fields → Text → Parsing
  after_value fuel known t = elim (take_char b',' t) [
    | some more ↦ parse_fields strtod fuel known more
    | none ↦ closed strtod b'}' (object known) t
  ]

  abbrev pub behind_value : ℕ → Fields → Text → Parsing → Parsing
  behind_value fuel known key parsing = elim parsing [
    | read node rest ↦ after_value fuel (add_field known key node) rest
    | refused ↦ refused
    | out_of_fuel ↦ out_of_fuel
  ]

  abbrev pub behind_key : ℕ → Fields → Option (Text × Text) → Parsing
  behind_key fuel known o = elim o [
    | none ↦ refused
    | some (key, u) ↦ behind_value fuel known key (parse_value strtod fuel u)
  ]

  pub parse_fields-entry :
      (fuel : ℕ) (known : Fields) (key value rest : Text) (node : Json)
      → Reads strtod value node
      → Delimited rest
      → 2 * length value + 2 ≤ fuel
      → parse_fields strtod (suc fuel) known (entry_text key value ++ rest)
        ≡ after_value fuel (add_field known key node) rest
  unfolding parse_fields
  parse_fields-entry zero known key value rest node r d h = absurd (omega arith)
  parse_fields-entry (suc fuel) known key value rest node r d h =
      ap (behind_key (suc fuel) known) (read_key-entry_text key value rest)
      ∙ ap (behind_value (suc fuel) known key) (r fuel rest d (omega arith))

  after_value-more_cells :
      (cells : Cells) (fuel : ℕ) (known : Fields) (rest : Text)
      → Sound cells
      → 2 * length (more_cells cells) ≤ fuel
      → after_value fuel known (more_cells cells ++ (b'}' ∷ rest))
        ≡ read (object (and_cells known cells)) rest
  unfolding take_char skip_space
  after_value-more_cells [] fuel known rest s h = refl
  after_value-more_cells ((key, none) ∷ cells) fuel known rest (r also s) h =
      after_value-more_cells cells fuel known rest s h
  after_value-more_cells ((key, some (value, node)) ∷ cells) zero known rest (r also s) h =
      absurd (omega arith)
  after_value-more_cells ((key, some (value, node)) ∷ cells) (suc fuel) known rest (r also s) h =
      let size = length-entry_text key value (more_cells cells) in
      ap (parse_fields strtod (suc fuel) known)
        (append_assoc (entry_text key value) (more_cells cells) (b'}' ∷ rest))
      ∙ parse_fields-entry fuel known key value (more_cells cells ++ (b'}' ∷ rest)) node r.1
          (Delimited-more_cells cells rest) (omega (arith, size))
      ∙ after_value-more_cells cells fuel (add_field known key node) rest s (omega (arith, size))

  -- The fields of an object up to its closing bracket.
  parse_fields-rendered :
      (cells : Cells) (fuel : ℕ) (rest : Text)
      → Sound cells
      → 2 * length (rendered cells) ≤ fuel
      → parse_value strtod (suc fuel) (b'{' ∷ (rendered cells ++ (b'}' ∷ rest)))
        ≡ read (node_of cells) rest
  unfolding parse_value opening take_char skip_space json_quoted
  parse_fields-rendered [] fuel rest s h = refl
  parse_fields-rendered ((key, none) ∷ cells) fuel rest (r also s) h =
      parse_fields-rendered cells fuel rest s h
  parse_fields-rendered ((key, some (value, node)) ∷ cells) zero rest (r also s) h =
      absurd (omega (arith, length-entry_text key value (more_cells cells)))
  parse_fields-rendered ((key, some (value, node)) ∷ cells) (suc fuel) rest (r also s) h =
      let size = length-entry_text key value (more_cells cells) in
      ap (parse_fields strtod (suc fuel) no_fields)
        (append_assoc (entry_text key value) (more_cells cells) (b'}' ∷ rest))
      ∙ parse_fields-entry fuel no_fields key value (more_cells cells ++ (b'}' ∷ rest)) node r.1
          (Delimited-more_cells cells rest) (omega (arith, size))
      ∙ after_value-more_cells cells fuel (add_field no_fields key node) rest s
          (omega (arith, size))

  Sound-Unbroken : {cells : Cells} → Sound cells → UnbrokenCells cells
  Sound-Unbroken done = tt
  Sound-Unbroken (◌also◌ {cell = none} r s) = Sound-Unbroken s
  Sound-Unbroken (◌also◌ {cell = some (value, node)} r s) = (r.0, Sound-Unbroken s)

  pub object-Unbroken :
      (cells : Cells) → Sound cells → Unbroken (b'{' ∷ (rendered cells ++ text "}"))
  object-Unbroken cells s =
      Unbroken-append (rendered cells) (text "}") (rendered-Unbroken cells (Sound-Unbroken s)) refl

  pub SoundCell-nest : (cells : Cells) → Sound cells → SoundCell (nest cells)
  SoundCell-nest cells s = (
    object-Unbroken cells s,
    λ fuel rest d h.
        ap (λ t. parse_value strtod (suc fuel) (b'{' ∷ t))
          (append_assoc (rendered cells) (text "}") rest)
        ∙ parse_fields-rendered cells fuel rest s
            (omega (arith, h, length-append (rendered cells) (text "}"))),
  )

  pub SoundCell-words : (t : Text) → SoundCell (words t)
  SoundCell-words [] = tt
  SoundCell-words (c ∷ t) = (json_quoted-Unbroken (c ∷ t), Reads-json_quoted strtod (c ∷ t))

  pub SoundCell-verdict : (o : Option Bool) → SoundCell (verdict o)
  SoundCell-verdict none = tt
  SoundCell-verdict (some b) = (spelled_bool-Unbroken b, Reads-spelled_bool strtod b)

  pub SoundCell-figure : (t : Text) → Numeral t → SoundCell (figure strtod t)
  SoundCell-figure t n = (Numeral-Unbroken t n, Reads-figure strtod t n)

  pub SoundCell-listed : (values : List Text) → SoundCell (listed values)
  SoundCell-listed [] = tt
  SoundCell-listed (value ∷ values) = (
    Unbroken-append (json_quoted value) (more_values values ++ text "]")
        (json_quoted-Unbroken value)
        (Unbroken-append (more_values values) (text "]") (more_values-Unbroken values) refl),
    Reads-values strtod value values,
  )

  -- A whole line, without its newline.
  pub parse-rendered :
      (cells : Cells)
      → Sound cells
      → parse strtod (b'{' ∷ (rendered cells ++ text "}")) ≡ some (node_of cells)
  unfolding parse skip_space
  parse-rendered cells s = ap (parsed strtod) (
      parse_fields-rendered cells (2 * suc (length (rendered cells ++ text "}"))) [] s
        (omega (arith, length-append (rendered cells) (text "}"))))
