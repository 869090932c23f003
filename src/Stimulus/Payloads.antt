-- ===== src/Stimulus/Payloads.antt =====
-- The values of a stimulus file: `parseValue` reads a payload that is spelled as in a log.
use thorium.Prelude.{
  ℕ, ◌≤◌, Bool, true, false, Option, some, [], ◌∷◌, ◌++◌, Text, text, text_beq, eqb, all, length,
  length-append, ◌≡◌, refl, ap, sym, ◌∙◌, arith,
}
use mathlib.Core.List.{append_assoc, append-nil}
use thorium.Session.{Bytes}
use thorium.Session.Loading.{payload}
use thorium.Payload.{hex, hex_from, from_hex, starts_with, parsed}
use thorium.Payload.Hex.{AreOctets, from_hex-hex}
use thorium.Payload.Described.{
  as_text, appended, describe_from, enclosed, described, describe_value, is_renderable_as_text,
}
use thorium.Stimulus.{payload_from, and_byte, last_of, without_last}
use thorium.Stimulus.Values.{parse_value, is_quoted}

abbrev pub escape_all : Bytes → Text
escape_all [] = []
escape_all (octet ∷ bytes) = as_text octet ++ escape_all bytes

pub describe_from-text :
    (bytes : Bytes) (body : Text)
    → (describe_from true body bytes).1 ≡ false
    → (describe_from true body bytes).0 ≡ body ++ escape_all bytes
unfolding describe_from
describe_from-text [] body h = sym (append-nil body)
describe_from-text (octet ∷ bytes) body h = ground (
  arith,
  describe_from-text bytes (body ++ as_text octet),
  append_assoc body (as_text octet) (escape_all bytes),
)

pub describe_from-hex :
    (bytes : Bytes) (body : Text)
    → (describe_from false body bytes).1 ≡ false
    → (describe_from false body bytes).0 ≡ hex_from body bytes
unfolding describe_from
describe_from-hex [] body h = refl
describe_from-hex (octet ∷ bytes) body h =
    ground (arith, describe_from-hex bytes (appended false body octet))

payload_from-plain :
    (c d : ℕ) (t : Text)
    → eqb c b'\\' ≡ false
    → payload_from (c ∷ d ∷ t) ≡ and_byte c (payload_from (d ∷ t))
unfolding payload_from
payload_from-plain c d t h = ground arith

payload_from-as_text :
    (c d : ℕ) (t : Text) → payload_from (as_text c ++ (d ∷ t)) ≡ and_byte c (payload_from (d ∷ t))
unfolding payload_from
payload_from-as_text c d t = ground (arith, payload_from-plain c d t)

payload_from-escape_all :
    (bytes : Bytes) → payload_from (escape_all bytes ++ text "\"") ≡ some bytes
unfolding payload_from
payload_from-escape_all [] = refl
payload_from-escape_all (c ∷ bytes) =
    ap payload_from (append_assoc (as_text c) (escape_all bytes) (text "\""))
    ∙ by_rest (escape_all bytes ++ text "\"")
        (omega (arith, length-append (escape_all bytes) (text "\"")))
    ∙ ap (and_byte c) (payload_from-escape_all bytes)
  where
    by_rest :
        (t : Text) → 1 ≤ length t → payload_from (as_text c ++ t) ≡ and_byte c (payload_from t)
    by_rest [] h = absurd (omega arith)
    by_rest (d ∷ t) h = payload_from-as_text c d t

last_of-append : (c d : ℕ) (t : Text) → last_of c (t ++ d ∷ []) ≡ d
last_of-append c d [] = refl
last_of-append c d (e ∷ t) = last_of-append e d t

without_last-append : (d : ℕ) (t : Text) → without_last (t ++ d ∷ []) ≡ t
without_last-append d [] = refl
without_last-append d (e ∷ []) = refl
without_last-append d (e ∷ f ∷ t) = ap (◌∷◌ e) (without_last-append d (f ∷ t))

is_quoted-append :
    (from_chars : Text → Option (ℕ × Text)) (open_file : Text → Option Text) (t : Text)
    → is_quoted from_chars open_file (t ++ text "\"") ≡ true
is_quoted-append from_chars open_file [] = refl
is_quoted-append from_chars open_file (c ∷ t) = ap (λ d. eqb d b'"') (last_of-append c b'"' t)

module _ (to_string : ℕ → Text) (from_chars : Text → Option (ℕ × Text))
    (open_file : Text → Option Text) where
  parse_value-quoted :
      (bytes : Bytes)
      → parse_value from_chars open_file (enclosed true (escape_all bytes)) ≡ some (payload bytes)
  unfolding parse_value text_beq starts_with
  parse_value-quoted bytes = ground (
    arith,
    is_quoted-append from_chars open_file (escape_all bytes),
    payload_from-escape_all bytes,
  )

  parse_value-hex :
      (bytes : Bytes)
      → AreOctets bytes
      → parse_value from_chars open_file (enclosed false (hex bytes)) ≡ some (payload bytes)
  unfolding parse_value text_beq starts_with
  parse_value-hex bytes o =
      let t = hex bytes ++ text ">" in
      let closing : eqb (last_of b'<' t) b'>' ≡ true =
        ap (λ c. eqb c b'>') (last_of-append b'<' b'>' (hex bytes)) in
      let read : from_hex (without_last t) ≡ parsed bytes =
        ap from_hex (without_last-append b'>' (hex bytes)) ∙ from_hex-hex bytes o in
      ground (arith, closing, read)

  -- One value, as `parseValue` reads it.
  pub parse_value-describe_value :
      (bytes : Bytes)
      → AreOctets bytes
      → (describe_from (all is_renderable_as_text bytes) [] bytes).1 ≡ false
      → parse_value from_chars open_file (describe_value to_string bytes) ≡ some (payload bytes)
  unfolding describe_value hex
  parse_value-describe_value bytes o h = by_shape (all is_renderable_as_text bytes) h
    where
      by_shape :
          (is_text : Bool)
          → (describe_from is_text [] bytes).1 ≡ false
          → parse_value from_chars open_file
              (described to_string is_text bytes (describe_from is_text [] bytes))
            ≡ some (payload bytes)
      by_shape true e =
          ap
            (λ b.
              parse_value from_chars open_file
                (described to_string true bytes ((describe_from true [] bytes).0, b)))
            e
          ∙ ap (λ t. parse_value from_chars open_file (enclosed true t))
              (describe_from-text bytes [] e)
          ∙ parse_value-quoted bytes
      by_shape false e =
          ap
            (λ b.
              parse_value from_chars open_file
                (described to_string false bytes ((describe_from false [] bytes).0, b)))
            e
          ∙ ap (λ t. parse_value from_chars open_file (enclosed false t))
              (describe_from-hex bytes [] e)
          ∙ parse_value-hex bytes o
