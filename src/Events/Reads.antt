-- ===== src/Events/Reads.antt =====
-- What `Json::parse` reads a value of a line as: a string, a Boolean, a number.
use thorium.Prelude.{
  ℕ, suc, ◌*◌, ◌≤◌, Bool, true, false, [], ◌∷◌, ◌++◌, Text, all, any, length, ◌≡◌, ◌⊎◌, inl, inr,
  refl, ap, ◌∙◌, arith,
}
use mathlib.Core.List.{append_assoc}
use thorium.Json.{json_escape, json_quoted, between, read_string}
use thorium.Json.Strings.{read_string-json_quoted}
use thorium.Json.Parser.{
  Json, boolean, number, string, no_items, no_fields, Opening, ends, items_follow, fields_follow,
  Parsing, read, is_digit, is_number_char, number_chars, spelled, skip_space, opening, parse_number,
  parse_value, parse_items, parse_fields, string_node,
}
use thorium.Events.Sink.{spelled_bool}
use thorium.Events.Unbroken.{Unbroken}

-- What stands behind a value: a comma, or a closing bracket.
abbrev pub Delimited : Text → Type 0
Delimited [] = ⊥
Delimited (c ∷ t) = (c ≡ b',') ⊎ (c ≡ b'}') ⊎ (c ≡ b']')

module _ (strtod : Text → ℕ) where
  -- The text is read as that node, whatever delimiter follows.
  abbrev pub Reads : Text → Json → Type 0
  Reads t node =
      (fuel : ℕ) (rest : Text)
      → Delimited rest
      → 2 * length t ≤ fuel
      → parse_value strtod (suc fuel) (t ++ rest) ≡ read node rest

  pub Reads-json_quoted : (t : Text) → Reads (json_quoted t) (string t)
  unfolding json_quoted parse_value opening skip_space
  Reads-json_quoted t fuel rest d h =
      ap (λ u. string_node strtod (read_string between u))
        (append_assoc (json_escape t) (b'"' ∷ []) rest)
      ∙ ap (string_node strtod) (read_string-json_quoted t rest)

  pub Reads-spelled_bool : (b : Bool) → Reads (spelled_bool b) (boolean b)
  unfolding parse_value opening skip_space spelled
  Reads-spelled_bool true fuel rest d h = refl
  Reads-spelled_bool false fuel rest d h = refl

-- A number as `std::to_string` spells it: a digit, or a minus sign and a digit behind it, and only
-- bytes that a number has.
abbrev pub Numeral : Text → Type 0
Numeral [] = ⊥
Numeral (c ∷ t) =
    (all is_number_char t ≡ true) × ((is_digit c ≡ true) ⊎ (c ≡ b'-') × (any is_digit t ≡ true))

chars-Unbroken : (t : Text) → all is_number_char t ≡ true → Unbroken t
chars-Unbroken [] h = refl
chars-Unbroken (c ∷ t) h = ground (arith, chars-Unbroken t)

pub Numeral-Unbroken : (t : Text) → Numeral t → Unbroken t
Numeral-Unbroken [] n = absurd n
Numeral-Unbroken (c ∷ t) n = ground (arith, chars-Unbroken t)

number_chars-all :
    (t rest : Text)
    → Delimited rest
    → all is_number_char t ≡ true
    → number_chars (t ++ rest) ≡ (t, any is_digit t, rest)
unfolding number_chars
number_chars-all [] [] d h = absurd d
number_chars-all [] (c ∷ rest) d h = ground arith
number_chars-all (c ∷ t) rest d h = ground (arith, number_chars-all t rest d)

module _ (strtod : Text → ℕ) where
  opening-figure :
      (c : ℕ) (t : Text)
      → (is_digit c ≡ true) ⊎ (c ≡ b'-')
      → opening strtod (skip_space (c ∷ t)) ≡ ends (parse_number strtod (c ∷ t))
  unfolding opening skip_space
  opening-figure c t h = ground arith

  parse_number-Numeral :
      (c : ℕ) (t rest : Text)
      → Numeral (c ∷ t)
      → Delimited rest
      → parse_number strtod (c ∷ (t ++ rest)) ≡ read (number (strtod (c ∷ t))) rest
  unfolding parse_number
  parse_number-Numeral c t rest n d =
      ground (arith, number_chars-all (c ∷ t) rest d, number_chars-all t rest d)

  pub Reads-figure : (t : Text) → Numeral t → Reads strtod t (number (strtod t))
  unfolding parse_value
  Reads-figure [] n = λ fuel rest d h. absurd n
  Reads-figure (c ∷ t) n = λ fuel rest d h.
      ap (value_of fuel)
        (opening-figure c (t ++ rest) (elim n.1 [ inl e ↦ inl e | inr e ↦ inr e.0 ]))
      ∙ parse_number-Numeral c t rest n d
    where
      value_of : ℕ → Opening → Parsing
      value_of fuel o = elim o [
        | ends parsing ↦ parsing
        | items_follow u ↦ parse_items strtod fuel no_items u
        | fields_follow u ↦ parse_fields strtod fuel no_fields u
      ]
