-- ===== src/Json.antt =====
-- framework/core/src/journal/json.cpp: `jsonEscape` and `jsonQuoted`, which the sinks write strings with,
-- and framework/webui/src/protocol/json.cpp: `JsonParser`, which reads the lines that the event sink
-- wrote. The cursor is the text behind it. `strtod` is an argument.
pub mod Strings
pub mod Parser
pub mod Access
pub mod Lengths
pub mod Openings
pub mod Fuel
mod Examples
use thorium.Prelude.{
  ℕ, ◌+◌, ◌-◌, ◌*◌, ◌/◌, ◌%◌, ◌^◌, Bool, true, false, not, ◌&&◌, ◌||◌, Option, none, some, List, [],
  ◌∷◌, ◌++◌, Text, text, eqb, ltb, leb, if◌then◌else◌,
}
use thorium.Payload.{hex_digit}

-- A digit as `%x` prints it.
abbrev pub lower_digit : ℕ → ℕ
lower_digit n = if ltb n 10 then 48 + n else 87 + n

-- `snprintf( …, "\\u%04x", c)`
abbrev pub unicode_escape : ℕ → Text
unicode_escape c =
    b'\\'
    ∷ b'u'
    ∷ lower_digit (c / 4096 % 16)
    ∷ lower_digit (c / 256 % 16)
    ∷ lower_digit (c / 16 % 16)
    ∷ lower_digit (c % 16)
    ∷ []

abbrev pub escape_char : ℕ → Text
escape_char c =
    if eqb c b'"'
    then b'\\' ∷ b'"' ∷ []
    else if eqb c b'\\'
    then b'\\' ∷ b'\\' ∷ []
    else if eqb c 8
    then b'\\' ∷ b'b' ∷ []
    else if eqb c 12
    then b'\\' ∷ b'f' ∷ []
    else if eqb c 10
    then b'\\' ∷ b'n' ∷ []
    else if eqb c 13
    then b'\\' ∷ b'r' ∷ []
    else if eqb c 9
    then b'\\' ∷ b't' ∷ []
    else if ltb c 32
    then unicode_escape c
    else c ∷ []

unfoldable pub json_escape : Text → Text
json_escape [] = []
json_escape (c ∷ t) = escape_char c ++ json_escape t

unfoldable pub json_quoted : Text → Text
json_quoted t = b'"' ∷ (json_escape t ++ b'"' ∷ [])

-- `strtoul( …, 16)`: white space, a sign, `0x`, and the digits. The result is the value with the text
-- that was not read, and none where there is no digit.
abbrev pub is_white : ℕ → Bool
is_white c = eqb c 32 || (leb 9 c && leb c 13)

unfoldable pub hex_value : ℕ → Text → ℕ × Text
hex_value value [] = (value, [])
hex_value value (c ∷ t) = elim (hex_digit c) [
  | none ↦ (value, c ∷ t)
  | some digit ↦ hex_value (value * 16 + digit) t
]

abbrev pub hex_digits : Text → Option (ℕ × Text)
hex_digits [] = none
hex_digits (c ∷ t) = elim (hex_digit c) [ none ↦ none | some digit ↦ some (hex_value digit t) ]

-- A `0x` counts only before a digit; else the zero is the number.
abbrev pub after_prefix : Text → Option (ℕ × Text) → Option (ℕ × Text)
after_prefix t none = hex_digits t
after_prefix t (some r) = some r

abbrev pub hex_number : Text → Option (ℕ × Text)
hex_number [] = none
hex_number (c ∷ []) = hex_digits (c ∷ [])
hex_number (c ∷ x ∷ t) =
    if eqb c b'0' && (eqb x b'x' || eqb x b'X')
    then after_prefix (c ∷ x ∷ t) (hex_digits t)
    else hex_digits (c ∷ x ∷ t)

abbrev pub negated : Option (ℕ × Text) → Option (ℕ × Text)
negated none = none
negated (some (value, rest)) = some ((2 ^ 64 - value) % 2 ^ 64, rest)

abbrev pub hex_signed : Text → Option (ℕ × Text)
hex_signed [] = none
hex_signed (c ∷ t) =
    if eqb c b'-'
    then negated (hex_number t)
    else if eqb c b'+'
    then hex_number t
    else hex_number (c ∷ t)

unfoldable pub strtoul : Text → Option (ℕ × Text)
strtoul [] = none
strtoul (c ∷ t) = let later = strtoul t in if is_white c then later else hex_signed (c ∷ t)

-- `end != hex.c_str() + 4 || code > 0xFF`
abbrev pub whole_code : Option (ℕ × Text) → Option ℕ
whole_code none = none
whole_code (some (code, [])) = if ltb 255 code then none else some code
whole_code (some (code, c ∷ rest)) = none

-- What a byte of a string is, and what a byte behind a backslash stands for.
pub data Piece : Type 0 where
  closes escapes plain : Piece

pub data Escape : Type 0 where
  stands_for : ℕ → Escape
  code_follows unknown : Escape

abbrev pub piece : ℕ → Piece
piece c = if eqb c b'"' then closes else if eqb c b'\\' then escapes else plain

abbrev pub escape : ℕ → Escape
escape e =
    if eqb e b'"'
    then stands_for b'"'
    else if eqb e b'\\'
    then stands_for b'\\'
    else if eqb e b'/'
    then stands_for b'/'
    else if eqb e b'b'
    then stands_for 8
    else if eqb e b'f'
    then stands_for 12
    else if eqb e b'n'
    then stands_for 10
    else if eqb e b'r'
    then stands_for 13
    else if eqb e b't'
    then stands_for 9
    else if eqb e b'u'
    then code_follows
    else unknown

abbrev pub prepend : ℕ → Option (Text × Text) → Option (Text × Text)
prepend c none = none
prepend c (some (value, rest)) = some (c ∷ value, rest)

-- Where the loop of `parseString` stands: between characters, behind a backslash, or behind `\u` and
-- some of the four digits.
pub data Reading : Type 0 where
  between escaped code : Reading
  code_one : ℕ → Reading
  code_two : ℕ → ℕ → Reading
  code_three : ℕ → ℕ → ℕ → Reading

-- The loop behind the first quote: the value, and the text behind the last quote.
unfoldable pub read_string : Reading → Text → Option (Text × Text)
read_string reading [] = none
read_string between (c ∷ t) = elim (piece c) [
  | closes ↦ some ([], t)
  | escapes ↦ read_string escaped t
  | plain ↦ prepend c (read_string between t)
]
read_string escaped (c ∷ t) = elim (escape c) [
  | stands_for b ↦ prepend b (read_string between t)
  | code_follows ↦ read_string code t
  | unknown ↦ none
]
read_string code (h3 ∷ t) = read_string (code_one h3) t
read_string (code_one h3) (h2 ∷ t) = read_string (code_two h3 h2) t
read_string (code_two h3 h2) (h1 ∷ t) = read_string (code_three h3 h2 h1) t
read_string (code_three h3 h2 h1) (h0 ∷ t) = elim (whole_code (strtoul (h3 ∷ h2 ∷ h1 ∷ h0 ∷ []))) [
  | none ↦ none
  | some b ↦ prepend b (read_string between t)
]
