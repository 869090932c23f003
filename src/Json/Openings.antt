-- ===== src/Json/Openings.antt =====
-- What is left where a value begins, where it ends at once, and behind a key.
use thorium.Prelude.{
  ℕ, suc, ◌≤◌, Bool, true, false, Option, none, some, [], ◌∷◌, ◌||◌, Text, text, eqb, if◌then◌else◌,
  length, arith,
}
use thorium.Json.{between, read_string}
use thorium.Json.Parser.{
  null, boolean, Opening, ends, items_follow, fields_follow, take_char, number_chars, number_node,
  parse_number, string_node, behind_colon, key_of, key_behind, read_key, object_opening,
  array_opening, opening,
}
use thorium.Json.Lengths.{
  Left, Behind, Ends, Left-suc, read_string-Left, take_char-Behind, spelled-Behind, literal-Ends,
  length-number_chars, Left-le,
}

module _ (strtod : Text → ℕ) where
  number_node-Ends :
      (n : ℕ) (sign : Text) (r : Text × Bool × Text)
      → length r.2 ≤ n
      → Ends n (number_node strtod sign r)
  number_node-Ends n sign (taken, true, rest) h = h
  number_node-Ends n sign (taken, false, rest) h = tt

  parse_number-Ends : (t : Text) → Ends (length t) (parse_number strtod t)
  unfolding parse_number
  parse_number-Ends [] = tt
  parse_number-Ends (c ∷ t) = by_test (eqb c b'-' || eqb c b'+')
    where
      by_test :
          (signed : Bool)
          → Ends (suc (length t)) (
              if signed
              then number_node strtod (c ∷ []) (number_chars t)
              else number_node strtod [] (number_chars (c ∷ t)))
      by_test true =
          number_node-Ends (suc (length t)) (c ∷ []) (number_chars t)
            (omega (arith, length-number_chars t))
      by_test false =
          number_node-Ends (suc (length t)) [] (number_chars (c ∷ t)) (length-number_chars (c ∷ t))

  string_node-Ends : (n : ℕ) (o : Option (Text × Text)) → Left n o → Ends n (string_node strtod o)
  string_node-Ends n none h = tt
  string_node-Ends n (some (value, rest)) h = h

  pub read_key-Left : (t : Text) → Left (length t) (read_key strtod t)
  unfolding read_key
  read_key-Left t = by_quote (take_char b'"' t) (take_char-Behind b'"' t (length t) (omega arith))
    where
      by_colon :
          (key : Text) (o : Option Text)
          → Behind (length t) o
          → Left (length t) (behind_colon strtod key o)
      by_colon key none h = tt
      by_colon key (some u) h = h

      by_key : (o : Option (Text × Text)) → Left (length t) o → Left (length t) (key_of strtod o)
      by_key none h = tt
      by_key (some (key, u)) h =
          by_colon key (take_char b':' u) (take_char-Behind b':' u (length t) (omega arith))

      by_quote : (o : Option Text) → Behind (length t) o → Left (length t) (key_behind strtod o)
      by_quote none h = tt
      by_quote (some u) h =
          by_key (read_string between u)
            (Left-le (length u) (length t) (read_string between u) h (read_string-Left between u))

  -- A loop starts behind its bracket.
  abbrev pub Opens : ℕ → Opening → Type 0
  Opens n (ends parsing) = Ends n parsing
  Opens n (items_follow u) = suc (length u) ≤ n
  Opens n (fields_follow u) = suc (length u) ≤ n

  Opens-if :
      (n : ℕ) (test : Bool) (first second : Opening)
      → Opens n first
      → Opens n second
      → Opens n (if test then first else second)
  Opens-if n true first second h k = h
  Opens-if n false first second h k = k

  object_opening-Opens :
      (t : Text) (o : Option Text)
      → Behind (length t) o
      → Opens (suc (length t)) (object_opening strtod t o)
  object_opening-Opens t none h = omega arith
  object_opening-Opens t (some rest) h = omega arith

  array_opening-Opens :
      (t : Text) (o : Option Text)
      → Behind (length t) o
      → Opens (suc (length t)) (array_opening strtod t o)
  array_opening-Opens t none h = omega arith
  array_opening-Opens t (some rest) h = omega arith

  pub opening-Opens : (t : Text) → Opens (length t) (opening strtod t)
  unfolding opening
  opening-Opens [] = tt
  opening-Opens (c ∷ t) =
      let n = suc (length t) in
      let closing : (e : ℕ) → Behind (length t) (take_char e t) =
        λ e. take_char-Behind e t (length t) (omega arith) in
      Opens-if n (eqb c b'{') _ _ (object_opening-Opens t (take_char b'}' t) (closing b'}')) (
        Opens-if n (eqb c b'[') _ _ (array_opening-Opens t (take_char b']' t) (closing b']')) (
          Opens-if n (eqb c b'"') _ _
            (string_node-Ends n (read_string between t)
              (Left-suc (length t) (read_string between t) (read_string-Left between t)))
            (Opens-if n (eqb c b't') _ _
              (literal-Ends n (boolean true) _ (spelled-Behind (text "true") (c ∷ t)))
              (Opens-if n (eqb c b'f') _ _
                (literal-Ends n (boolean false) _ (spelled-Behind (text "false") (c ∷ t)))
                (Opens-if n (eqb c b'n') _ _
                  (literal-Ends n null _ (spelled-Behind (text "null") (c ∷ t)))
                  (parse_number-Ends (c ∷ t)))))))
