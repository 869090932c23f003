-- ===== src/Json/Fuel.antt =====
-- The fuel of `Json::parse` is enough: every value takes a byte at least.
use thorium.Prelude.{
  ℕ, zero, suc, ◌+◌, ◌*◌, ◌≤◌, ◌≡◌, refl, Option, none, some, Text, length, arith,
}
use thorium.Json.Parser.{
  Json, array, object, Items, no_items, Fields, no_fields, Parsing, read, refused, out_of_fuel,
  Opening, ends, items_follow, fields_follow, add_item, add_field, skip_space, take_char, read_key,
  closed, opening, parse_value, parse_items, parse_fields, enough,
}
use thorium.Json.Lengths.{
  Left, Ends, length-skip_space, take_char-Behind, take_char-shorter, literal-Ends, Ends-le,
}
use thorium.Json.Openings.{Opens, opening-Opens, read_key-Left}

module _ (strtod : Text → ℕ) where
  record Enough (fuel : ℕ) : Type 0 where
    value : (t : Text) → 2 * length t + 1 ≤ fuel → Ends (length t) (parse_value strtod fuel t)
    items :
        (so_far : Items) (t : Text)
        → 2 * length t + 2 ≤ fuel
        → Ends (length t) (parse_items strtod fuel so_far t)
    fields :
        (so_far : Fields) (t : Text)
        → 2 * length t + 2 ≤ fuel
        → Ends (length t) (parse_fields strtod fuel so_far t)

  closed-Ends : (n e : ℕ) (node : Json) (t : Text) → length t ≤ n → Ends n (closed strtod e node t)
  closed-Ends n e node t h =
      literal-Ends n node (take_char e t) (take_char-Behind e t n (omega arith))

  parse_value-Enough :
      (fuel : ℕ)
      → Enough fuel
      → (t : Text) → 2 * length t + 1 ≤ suc fuel
      → Ends (length t) (parse_value strtod (suc fuel) t)
  unfolding parse_value
  parse_value-Enough fuel enough_for t h =
      by_opening (opening strtod (skip_space t)) (opening-Opens strtod (skip_space t))
    where
      by_opening :
          (o : Opening)
          → Opens strtod (length (skip_space t)) o
          → Ends (length t) (elim o [
            | ends parsing ↦ parsing
            | items_follow u ↦ parse_items strtod fuel no_items u
            | fields_follow u ↦ parse_fields strtod fuel no_fields u
          ])
      by_opening (ends parsing) k =
          Ends-le (length (skip_space t)) (length t) parsing (length-skip_space t) k
      by_opening (items_follow u) k =
          Ends-le (length u) (length t) _ (omega (arith, length-skip_space t))
            (enough_for.items no_items u (omega (arith, length-skip_space t)))
      by_opening (fields_follow u) k =
          Ends-le (length u) (length t) _ (omega (arith, length-skip_space t))
            (enough_for.fields no_fields u (omega (arith, length-skip_space t)))

  parse_items-Enough :
      (fuel : ℕ)
      → Enough fuel
      → (so_far : Items) (t : Text) → 2 * length t + 2 ≤ suc fuel
      → Ends (length t) (parse_items strtod (suc fuel) so_far t)
  unfolding parse_items
  parse_items-Enough fuel enough_for so_far t h =
      by_value (parse_value strtod fuel t) (enough_for.value t (omega arith))
    where
      by_comma :
          (node : Json) (rest : Text) (o : Option Text)
          → suc (length rest) ≤ suc (length t)
          → ((more : Text) → o ≡ some more → suc (length more) ≤ length rest)
          → Ends (length t) (elim o [
            | some more ↦ parse_items strtod fuel (add_item so_far node) more
            | none ↦ closed strtod b']' (array (add_item so_far node)) rest
          ])
      by_comma node rest none le shorter =
          closed-Ends (length t) b']' (array (add_item so_far node)) rest (omega arith)
      by_comma node rest (some more) le shorter =
          Ends-le (length more) (length t) _ (omega (arith, shorter more refl))
            (enough_for.items (add_item so_far node) more (omega (arith, shorter more refl)))

      by_value :
          (parsing : Parsing)
          → Ends (length t) parsing
          → Ends (length t) (elim parsing [
            | read node rest ↦ elim (take_char b',' rest) [
              | some more ↦ parse_items strtod fuel (add_item so_far node) more
              | none ↦ closed strtod b']' (array (add_item so_far node)) rest
            ]
            | refused ↦ refused
            | out_of_fuel ↦ out_of_fuel
          ])
      by_value (read node rest) k =
          by_comma node rest (take_char b',' rest) (omega arith) (take_char-shorter b',' rest)
      by_value refused k = tt
      by_value out_of_fuel k = k

  parse_fields-Enough :
      (fuel : ℕ)
      → Enough fuel
      → (so_far : Fields) (t : Text) → 2 * length t + 2 ≤ suc fuel
      → Ends (length t) (parse_fields strtod (suc fuel) so_far t)
  unfolding parse_fields
  parse_fields-Enough fuel enough_for so_far t h =
      by_key (read_key strtod t) (read_key-Left strtod t)
    where
      by_comma :
          (key : Text) (node : Json) (rest : Text) (o : Option Text)
          → suc (length rest) ≤ suc (length t)
          → ((more : Text) → o ≡ some more → suc (length more) ≤ length rest)
          → Ends (length t) (elim o [
            | some more ↦ parse_fields strtod fuel (add_field so_far key node) more
            | none ↦ closed strtod b'}' (object (add_field so_far key node)) rest
          ])
      by_comma key node rest none le shorter =
          closed-Ends (length t) b'}' (object (add_field so_far key node)) rest (omega arith)
      by_comma key node rest (some more) le shorter =
          Ends-le (length more) (length t) _ (omega (arith, shorter more refl))
            (enough_for.fields (add_field so_far key node) more (omega (arith, shorter more refl)))

      by_value :
          (key u : Text) (parsing : Parsing)
          → length u ≤ length t
          → Ends (length u) parsing
          → Ends (length t) (elim parsing [
            | read node rest ↦ elim (take_char b',' rest) [
              | some more ↦ parse_fields strtod fuel (add_field so_far key node) more
              | none ↦ closed strtod b'}' (object (add_field so_far key node)) rest
            ]
            | refused ↦ refused
            | out_of_fuel ↦ out_of_fuel
          ])
      by_value key u (read node rest) le k =
          by_comma key node rest (take_char b',' rest) (omega arith) (take_char-shorter b',' rest)
      by_value key u refused le k = tt
      by_value key u out_of_fuel le k = k

      by_key :
          (o : Option (Text × Text))
          → Left (length t) o
          → Ends (length t) (elim o [
            | none ↦ refused
            | some (key, u) ↦ elim (parse_value strtod fuel u) [
              | read node rest ↦ elim (take_char b',' rest) [
                | some more ↦ parse_fields strtod fuel (add_field so_far key node) more
                | none ↦ closed strtod b'}' (object (add_field so_far key node)) rest
              ]
              | refused ↦ refused
              | out_of_fuel ↦ out_of_fuel
            ]
          ])
      by_key none k = tt
      by_key (some (key, u)) k =
          by_value key u (parse_value strtod fuel u) k (enough_for.value u (omega arith))

  all-Enough : (fuel : ℕ) → Enough fuel
  all-Enough zero = record {
    value = λ t h. absurd (omega arith);
    items = λ so_far t h. absurd (omega arith);
    fields = λ so_far t h. absurd (omega arith);
  }
  all-Enough (suc fuel) = record {
    value = parse_value-Enough fuel (all-Enough fuel);
    items = parse_items-Enough fuel (all-Enough fuel);
    fields = parse_fields-Enough fuel (all-Enough fuel);
  }

  -- The parser never runs out of the fuel that `Json::parse` gives it, twice the number of bytes and
  -- one, nor of more: it reads a value, and leaves no more text than it was given, or refuses the
  -- text.
  pub parse_value-Ends :
      (fuel : ℕ) (t : Text) → enough strtod t ≤ fuel → Ends (length t) (parse_value strtod fuel t)
  parse_value-Ends fuel t h = (all-Enough fuel).value t (omega arith)
