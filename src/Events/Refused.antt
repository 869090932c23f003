-- ===== src/Events/Refused.antt =====
-- `Json::parse` of an object with a field whose value is no JSON.
use thorium.Prelude.{
  ℕ, zero, suc, ◌*◌, ◌≤◌, none, some, [], ◌∷◌, ◌++◌, Text, text, length, length-append, ◌≡◌, inl,
  refl, ap, ◌∙◌, arith,
}
use mathlib.Core.List.{append_assoc}
use thorium.Json.{json_quoted}
use thorium.Json.Parser.{
  Json, Fields, no_fields, refused, add_field, skip_space, take_char, opening, parse_value,
  parse_fields, parsed, parse,
}
use thorium.Events.Written.{Cells, entry_text, more_cells, rendered}
use thorium.Events.Reads.{Delimited}
use thorium.Events.Parsed.{
  Sound, ◌also◌, length-entry_text, read_key-entry_text, after_value, behind_value, behind_key,
  parse_fields-entry,
}

Delimited-there :
    (cells later : Cells) (key value rest : Text) (node : Json)
    → Delimited (more_cells (cells ++ (key, some (value, node)) ∷ later) ++ rest)
Delimited-there [] later key value rest node = inl refl
Delimited-there ((k, none) ∷ cells) later key value rest node =
    Delimited-there cells later key value rest node
Delimited-there ((k, some (v, n)) ∷ cells) later key value rest node = inl refl

module _ (strtod : Text → ℕ) where
  after_value-refused :
      (cells later : Cells) (fuel : ℕ) (known : Fields) (key value rest : Text) (node : Json)
      → Sound strtod cells
      → ((f : ℕ) (t : Text) → parse_value strtod (suc f) (value ++ t) ≡ refused)
      → 2 * length (more_cells (cells ++ (key, some (value, node)) ∷ later)) ≤ fuel
      → after_value strtod fuel known
          (more_cells (cells ++ (key, some (value, node)) ∷ later) ++ rest)
        ≡ refused
  unfolding take_char skip_space parse_fields
  after_value-refused [] later zero known key value rest node s bad h = absurd (omega arith)
  after_value-refused [] later (suc zero) known key value rest node s bad h = absurd (omega arith)
  after_value-refused [] later (suc (suc fuel)) known key value rest node s bad h =
      let t = more_cells later ++ rest in
      ap (parse_fields strtod (suc (suc fuel)) known)
        (append_assoc (entry_text key value) (more_cells later) rest)
      ∙ ap (behind_key strtod (suc fuel) known) (read_key-entry_text strtod key value t)
      ∙ ap (behind_value strtod (suc fuel) known key) (bad fuel t)
  after_value-refused ((k, none) ∷ cells) later fuel known key value rest node (r also s) bad h =
      after_value-refused cells later fuel known key value rest node s bad h
  after_value-refused ((k, some (v, n)) ∷ cells) later zero known key value rest node (r also s) bad
        h =
      absurd (omega arith)
  after_value-refused ((k, some (v, n)) ∷ cells) later (suc fuel) known key value rest node
        (r also s) bad h =
      let behind = cells ++ (key, some (value, node)) ∷ later in
      let size = length-entry_text k v (more_cells behind) in
      ap (parse_fields strtod (suc fuel) known)
        (append_assoc (entry_text k v) (more_cells behind) rest)
      ∙ parse_fields-entry strtod fuel known k v (more_cells behind ++ rest) n r.1
          (Delimited-there cells later key value rest node) (omega (arith, size))
      ∙ after_value-refused cells later fuel (add_field known k n) key value rest node s bad
          (omega (arith, size))

  module _ (first_value : Text) (first : Json) (cells later : Cells) (first_key key value : Text)
      (node : Json) where
    abbrev pub with_bad : Cells
    with_bad = (first_key, some (first_value, first)) ∷ (cells ++ (key, some (value, node)) ∷ later)

    parse_fields-refused :
        Sound strtod ((first_key, some (first_value, first)) ∷ cells)
        → ((f : ℕ) (t : Text) → parse_value strtod (suc f) (value ++ t) ≡ refused)
        → (fuel : ℕ) → 2 * length (rendered with_bad ++ text "}") ≤ fuel
        → parse_fields strtod fuel no_fields (rendered with_bad ++ text "}") ≡ refused
    parse_fields-refused (r also s) bad zero h = absurd (
        omega (
          arith,
          length-entry_text first_key first_value
              (more_cells (cells ++ (key, some (value, node)) ∷ later)),
          length-append (rendered with_bad) (text "}"),
        ))
    parse_fields-refused (r also s) bad (suc fuel) h =
        let behind = cells ++ (key, some (value, node)) ∷ later in
        let size = length-entry_text first_key first_value (more_cells behind) in
        let longer = length-append (rendered with_bad) (text "}") in
        ap (parse_fields strtod (suc fuel) no_fields)
          (append_assoc (entry_text first_key first_value) (more_cells behind) (text "}"))
        ∙ parse_fields-entry strtod fuel no_fields first_key first_value
            (more_cells behind ++ text "}") first r.1
            (Delimited-there cells later key value (text "}") node) (omega (arith, size, longer))
        ∙ after_value-refused cells later fuel (add_field no_fields first_key first) key value
            (text "}") node s bad (omega (arith, size, longer))

    -- A field whose value is no JSON makes the whole line none.
    pub parse-refused :
        Sound strtod ((first_key, some (first_value, first)) ∷ cells)
        → ((f : ℕ) (t : Text) → parse_value strtod (suc f) (value ++ t) ≡ refused)
        → parse strtod (b'{' ∷ (rendered with_bad ++ text "}")) ≡ none
    unfolding parse parse_value opening take_char skip_space json_quoted
    parse-refused s bad = ap (parsed strtod) (
        parse_fields-refused s bad (2 * suc (length (rendered with_bad ++ text "}"))) (omega arith))
