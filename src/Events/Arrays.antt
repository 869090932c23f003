-- ===== src/Events/Arrays.antt =====
-- What `Json::parse` reads an array of strings as.
use thorium.Prelude.{
  ℕ, zero, suc, ◌*◌, ◌≤◌, none, some, List, [], ◌∷◌, ◌++◌, Text, text, length, length-append, ◌≡◌,
  inl, inr, refl, ap, ◌∙◌, arith,
}
use mathlib.Core.List.{append_assoc}
use thorium.Json.{json_quoted}
use thorium.Json.Parser.{
  string, array, Items, no_items, Parsing, read, refused, out_of_fuel, add_item, skip_space,
  take_char, closed, opening, parse_value, parse_items,
}
use thorium.Events.Sink.{more_values}
use thorium.Events.Written.{and_values}
use thorium.Events.Reads.{Delimited, Reads, Reads-json_quoted}

module _ (strtod : Text → ℕ) where
  abbrev behind_item : ℕ → Items → Text → Parsing
  behind_item fuel known t = elim (take_char b',' t) [
    | some more ↦ parse_items strtod fuel known more
    | none ↦ closed strtod b']' (array known) t
  ]

  abbrev behind_item_value : ℕ → Items → Parsing → Parsing
  behind_item_value fuel known parsing = elim parsing [
    | read node rest ↦ behind_item fuel (add_item known node) rest
    | refused ↦ refused
    | out_of_fuel ↦ out_of_fuel
  ]

  Delimited-more_values :
      (values : List Text) (rest : Text) → Delimited (more_values values ++ (b']' ∷ rest))
  unfolding more_values
  Delimited-more_values [] rest = inr (inr refl)
  Delimited-more_values (value ∷ values) rest = inl refl

  first_item :
      (value t : Text) (fuel : ℕ) (known : Items)
      → Delimited t
      → 2 * length (json_quoted value) ≤ fuel
      → parse_items strtod (suc (suc fuel)) known (json_quoted value ++ t)
        ≡ behind_item (suc fuel) (add_item known (string value)) t
  unfolding parse_items
  first_item value t fuel known d h =
      ap (behind_item_value (suc fuel) known) (Reads-json_quoted strtod value fuel t d h)

  parse_items-values :
      (values : List Text) (value : Text) (fuel : ℕ) (known : Items) (rest : Text)
      → 2 * length (json_quoted value ++ more_values values) ≤ fuel
      → parse_items strtod
          (suc (suc fuel))
          known
          (json_quoted value ++ (more_values values ++ (b']' ∷ rest)))
        ≡ read (array (and_values (add_item known (string value)) values)) rest
  unfolding more_values take_char skip_space
  parse_items-values [] value fuel known rest h =
      first_item value (b']' ∷ rest) fuel known (inr (inr refl))
        (omega (arith, length-append (json_quoted value) []))
  parse_items-values (next ∷ later) value zero known rest h =
      absurd (omega (arith, length-append (json_quoted value) (more_values (next ∷ later))))
  parse_items-values (next ∷ later) value (suc fuel) known rest h =
      let size = length-append (json_quoted value) (more_values (next ∷ later)) in
      first_item value (more_values (next ∷ later) ++ (b']' ∷ rest)) (suc fuel) known (inl refl)
        (omega (arith, size))
      ∙ ap (parse_items strtod (suc (suc fuel)) (add_item known (string value)))
          (append_assoc (json_quoted next) (more_values later) (b']' ∷ rest))
      ∙ parse_items-values later next fuel (add_item known (string value)) rest
          (omega (arith, size))

  values_text :
      (value rest : Text) (values : List Text)
      → (json_quoted value ++ (more_values values ++ text "]")) ++ rest
        ≡ json_quoted value ++ (more_values values ++ (b']' ∷ rest))
  values_text value rest values = simp append_assoc

  -- An array of strings.
  pub Reads-values :
      (value : Text) (values : List Text)
      → Reads strtod
          (b'[' ∷ (json_quoted value ++ (more_values values ++ text "]")))
          (array (and_values no_items (value ∷ values)))
  unfolding parse_value opening take_char skip_space json_quoted
  Reads-values value values zero rest d h = absurd (omega arith)
  Reads-values value values (suc zero) rest d h = absurd (omega arith)
  Reads-values value values (suc (suc fuel)) rest d h =
      ap (λ t. parse_value strtod (suc (suc (suc fuel))) (b'[' ∷ t)) (values_text value rest values)
      ∙ parse_items-values values value fuel no_items rest (
          omega (
            arith,
            h,
            length-append (json_quoted value) (more_values values),
            length-append (json_quoted value) (more_values values ++ text "]"),
            length-append (more_values values) (text "]"),
          ))
