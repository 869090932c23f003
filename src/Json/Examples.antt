-- ===== src/Json/Examples.antt =====
-- The parser at concrete lines.
use thorium.Prelude.{ℕ, ◌≡◌, some, [], ◌∷◌, Text, length, arith}
use thorium.Json.{json_quoted}
use thorium.Json.Parser.{string, parse, parse_value}
use thorium.Json.Strings.{parse-json_quoted}
use thorium.Json.Lengths.{Ends}
use thorium.Json.Fuel.{parse_value-Ends}

abbrev no_doubles : Text → ℕ
no_doubles digits = 0

abbrev line : Text
line = b'{' ∷ b'"' ∷ b'a' ∷ b'"' ∷ b':' ∷ b'[' ∷ b'1' ∷ b',' ∷ b't' ∷ b']' ∷ b'}' ∷ []

-- A quote, a backslash, a line feed, and a control byte.
abbrev awkward : Text
awkward = b'"' ∷ b'\\' ∷ 10 ∷ 1 ∷ []

parse-json_quoted_example : parse no_doubles (json_quoted awkward) ≡ some (string awkward)
parse-json_quoted_example = parse-json_quoted no_doubles awkward

parse_value-Ends_example : Ends (length line) (parse_value no_doubles 40 line)
parse_value-Ends_example = parse_value-Ends no_doubles 40 line (omega arith)
