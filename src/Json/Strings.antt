-- ===== src/Json/Strings.antt =====
-- What `parseString` reads where `jsonQuoted` wrote.
use thorium.Prelude.{ℕ, ◌/◌, ◌%◌, ◌<◌, ◌≡◌, refl, ap, ◌∙◌, none, some, [], ◌∷◌, ◌++◌, Text, arith}
use mathlib.Core.List.{append_assoc}
use thorium.Payload.{hex_digit}
use thorium.Json.Parser.{string, skip_space, string_node, opening, parse_value, parsed, parse}
use thorium.Json.{
  lower_digit, unicode_escape, escape_char, json_escape, json_quoted, hex_value, strtoul,
  whole_code, closes, escapes, plain, stands_for, code_follows, unknown, piece, escape, prepend,
  between, escaped, code, read_string,
}

-- Two bytes that stand for one.
read-pair :
    (e b : ℕ) (t : Text)
    → escape e ≡ stands_for b
    → read_string between (b'\\' ∷ e ∷ t) ≡ prepend b (read_string between t)
unfolding read_string
read-pair e b t h =
    ap
      (λ x. elim x [
        | stands_for d ↦ prepend d (read_string between t)
        | code_follows ↦ read_string code t
        | unknown ↦ none
      ])
      h

whole_code-control :
    (c : ℕ)
    → c < 32
    → whole_code (strtoul (b'0' ∷ b'0' ∷ lower_digit (c / 16) ∷ lower_digit (c % 16) ∷ [])) ≡ some c
unfolding strtoul hex_value hex_digit
whole_code-control c h = ground arith

unicode_escape-control :
    (c : ℕ)
    → c < 32
    → unicode_escape c
      ≡ b'\\' ∷ b'u' ∷ b'0' ∷ b'0' ∷ lower_digit (c / 16) ∷ lower_digit (c % 16) ∷ []
unicode_escape-control c h =
    let e3 : c / 4096 % 16 ≡ 0 = omega arith in
    let e2 : c / 256 % 16 ≡ 0 = omega arith in
    let e1 : c / 16 % 16 ≡ c / 16 = omega arith in
    ap
      (λ x.
        b'\\'
        ∷ b'u'
        ∷ lower_digit x
        ∷ lower_digit (c / 256 % 16)
        ∷ lower_digit (c / 16 % 16)
        ∷ lower_digit (c % 16)
        ∷ [])
      e3
    ∙ ap
        (λ x.
          b'\\'
          ∷ b'u'
          ∷ b'0'
          ∷ lower_digit x
          ∷ lower_digit (c / 16 % 16)
          ∷ lower_digit (c % 16)
          ∷ [])
        e2
    ∙ ap (λ x. b'\\' ∷ b'u' ∷ b'0' ∷ b'0' ∷ lower_digit x ∷ lower_digit (c % 16) ∷ []) e1

read-control :
    (c : ℕ) (t : Text)
    → c < 32
    → read_string between (unicode_escape c ++ t) ≡ prepend c (read_string between t)
unfolding read_string
read-control c t h =
    ap (λ x. read_string between (x ++ t)) (unicode_escape-control c h)
    ∙ ap (λ x. elim x [ none ↦ none | some b ↦ prepend b (read_string between t) ])
        (whole_code-control c h)

read-plain :
    (c : ℕ) (t : Text)
    → piece c ≡ plain
    → read_string between (c ∷ t) ≡ prepend c (read_string between t)
unfolding read_string
read-plain c t h =
    ap
      (λ x. elim x [
        | closes ↦ some ([], t)
        | escapes ↦ read_string escaped t
        | plain ↦ prepend c (read_string between t)
      ])
      h

read-escape_char :
    (c : ℕ) (t : Text)
    → read_string between (escape_char c ++ t) ≡ prepend c (read_string between t)
read-escape_char c t = ground (
  arith,
  read-pair b'"' b'"' t refl,
  read-pair b'\\' b'\\' t refl,
  read-pair b'b' 8 t refl,
  read-pair b'f' 12 t refl,
  read-pair b'n' 10 t refl,
  read-pair b'r' 13 t refl,
  read-pair b't' 9 t refl,
  read-control c t,
  read-plain c t,
)

-- What is read behind the first quote of a text that `jsonQuoted` wrote is that text, and the reader
-- stands behind its last quote, whatever follows.
pub read_string-json_quoted :
    (s rest : Text) → read_string between (json_escape s ++ (b'"' ∷ rest)) ≡ some (s, rest)
unfolding json_escape read_string
read_string-json_quoted [] rest = refl
read_string-json_quoted (c ∷ s) rest =
    ap (read_string between) (append_assoc (escape_char c) (json_escape s) (b'"' ∷ rest))
    ∙ read-escape_char c (json_escape s ++ (b'"' ∷ rest))
    ∙ ap (prepend c) (read_string-json_quoted s rest)

-- A text that a sink wrote with `jsonQuoted` is parsed to the string node of that text.
pub parse-json_quoted :
    (strtod : Text → ℕ) (s : Text) → parse strtod (json_quoted s) ≡ some (string s)
unfolding parse parse_value opening skip_space json_quoted
parse-json_quoted strtod s =
    ap (λ o. parsed strtod (string_node strtod o)) (read_string-json_quoted s [])
