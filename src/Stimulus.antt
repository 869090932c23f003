-- ===== src/Stimulus.antt =====
-- framework/core/src/session/stimulus.cpp: how a line of a stimulus file is cut into values, and how each
-- value is read. An exception is none. `std::from_chars`, and the text of a file that a trace names,
-- are arguments. A `double` is its bits.
pub mod Values
pub mod Programs
pub mod Payloads
pub mod Lines
pub mod Keys
pub mod Written
pub mod Mixed
pub mod Sequences
mod Examples
use thorium.Prelude.{
  ℕ, zero, suc, ◌+◌, Bool, true, false, not, ◌&&◌, ◌||◌, Option, none, some, List, [], ◌∷◌, ◌++◌,
  Text, text, text_eq, ◌==◌, eqb, leb, if◌then◌else◌,
}
use thorium.Session.{QuantityKind, QuantityVariant, Waveform, Bytes}
use thorium.Session.Loading.{RecordedValue, reading, payload, flag, trace}
use thorium.Payload.{Parsed, parsed, not_a_digit, odd_digits, from_hex, starts_with}

-- `std::isspace`
abbrev pub is_blank : ℕ → Bool
is_blank c = eqb c 32 || (leb 9 c && leb c 13)

-- `trimmed`: the blanks in front, then those at the end.
unfoldable pub trim_front : Text → Text
trim_front [] = []
trim_front (c ∷ t) = let later = trim_front t in if is_blank c then later else c ∷ t

abbrev pub blank_end : ℕ → Text → Text
blank_end c [] = if is_blank c then [] else c ∷ []
blank_end c (d ∷ t) = c ∷ d ∷ t

unfoldable pub trim_back : Text → Text
trim_back [] = []
trim_back (c ∷ t) = blank_end c (trim_back t)

unfoldable pub trimmed : Text → Text
trimmed t = trim_back (trim_front t)

-- A quote counts unless a backslash stands before it.
abbrev pub turns_quote : Bool → ℕ → Bool
turns_quote behind_backslash c = eqb c b'"' && not behind_backslash

-- The loop of `withoutComment`, with `quoted` and whether the byte before is a backslash.
unfoldable pub cut_comment : Bool → Bool → Text → Text
cut_comment quoted behind_backslash [] = []
cut_comment quoted behind_backslash (c ∷ t) =
    let turned = cut_comment (not quoted) false t in
    let later = cut_comment quoted (eqb c b'\\') t in
    if turns_quote behind_backslash c
    then c ∷ turned
    else if eqb c b'#' && not quoted
    then []
    else c ∷ later

abbrev pub without_comment : Text → Text
without_comment line = cut_comment false false line

-- The `int` that counts brackets; it is not bounded here.
pub data Depth : Type 0 where
  inside : ℕ → Depth
  below : ℕ → Depth

abbrev pub deeper : Depth → Depth
deeper (inside n) = inside (suc n)
deeper (below zero) = inside 0
deeper (below (suc n)) = below n

abbrev pub shallower : Depth → Depth
shallower (inside zero) = below 0
shallower (inside (suc n)) = inside n
shallower (below n) = below (suc n)

abbrev pub is_outside : Depth → Bool
is_outside (inside zero) = true
is_outside (inside (suc n)) = false
is_outside (below n) = false

abbrev pub opens : ℕ → Bool
opens c = eqb c b'(' || eqb c b'[' || eqb c b'<'

abbrev pub closes : ℕ → Bool
closes c = eqb c b')' || eqb c b']' || eqb c b'>'

-- The loop of `splitValues`, with the text since `start`.
unfoldable pub split_from : Bool → Bool → Depth → Text → Text → List Text
split_from quoted behind_backslash depth since [] = trimmed since ∷ []
split_from quoted behind_backslash depth since (c ∷ t) =
    let more = since ++ c ∷ [] in
    let backslash = eqb c b'\\' in
    let turned = split_from (not quoted) backslash depth more t in
    let down = split_from quoted backslash (deeper depth) more t in
    let up = split_from quoted backslash (shallower depth) more t in
    let cut = split_from quoted backslash depth [] t in
    let later = split_from quoted backslash depth more t in
    if turns_quote behind_backslash c
    then turned
    else if not quoted && opens c
    then down
    else if not quoted && closes c
    then up
    else if eqb c b',' && not quoted && is_outside depth
    then trimmed since ∷ cut
    else later

unfoldable pub split_values : Text → List Text
split_values t = split_from false false (inside 0) [] t

-- What a byte behind a backslash stands for.
abbrev pub unescaped : ℕ → Option ℕ
unescaped c =
    if eqb c b'r'
    then some b'\r'
    else if eqb c b'n'
    then some b'\n'
    else if eqb c b't'
    then some b'\t'
    else if eqb c b'\\'
    then some b'\\'
    else if eqb c b'"'
    then some b'"'
    else none

abbrev pub and_byte : ℕ → Option Bytes → Option Bytes
and_byte c none = none
and_byte c (some body) = some (c ∷ body)

abbrev pub and_escape : Option ℕ → Option Bytes → Option Bytes
and_escape none body = none
and_escape (some c) body = and_byte c body

-- The loop of `parseTextPayload` from the byte at `i`: it runs while another byte follows. Behind a
-- backslash `++i + 1 > text.size()` is never so, as a byte follows.
unfoldable pub payload_from : Text → Option Bytes
payload_from [] = some []
payload_from (c ∷ []) = some []
payload_from (c ∷ d ∷ t) =
    let plain = payload_from (d ∷ t) in
    let behind = payload_from t in
    if not (eqb c b'\\') then and_byte c plain else and_escape (unescaped d) behind

abbrev pub parse_text_payload : Text → Option Bytes
parse_text_payload [] = some []
parse_text_payload (quote ∷ t) = payload_from t

-- The position of each symbol is its kind; `unitSymbol( kind)`.
abbrev pub unit_symbols : List Text
unit_symbols =
    text "V"
    ∷ text "A"
    ∷ text "W"
    ∷ text "VA"
    ∷ text "Ohm"
    ∷ text "s"
    ∷ text "dB"
    ∷ text "Hz"
    ∷ []
    ∷ text "var"
    ∷ text "degC"
    ∷ text "K"
    ∷ text "F"
    ∷ text "%"
    ∷ []

abbrev pub position_of : ℕ → Text → List Text → Option QuantityKind
position_of kind symbol [] = none
position_of kind symbol (s ∷ symbols) =
    if s == symbol then some kind else position_of (suc kind) symbol symbols

unfoldable pub quantity_kind_from_symbol : Text → Option QuantityKind
quantity_kind_from_symbol symbol = position_of 0 symbol unit_symbols

abbrev pub time_kind : QuantityKind
time_kind = 5

-- `find_first_of( " \t")`: the text before it, and the text from it on.
unfoldable pub at_blank : Text → Text × Text
at_blank [] = ([], [])
at_blank (c ∷ t) =
    let (first, rest) = at_blank t in if eqb c 32 || eqb c 9 then ([], c ∷ t) else (c ∷ first, rest)

abbrev pub last_of : ℕ → Text → ℕ
last_of c [] = c
last_of c (d ∷ t) = last_of d t

-- `text.substr( 1, text.size() - 2)`
abbrev pub without_last : Text → Text
without_last [] = []
without_last (c ∷ []) = []
without_last (c ∷ d ∷ t) = c ∷ without_last (d ∷ t)
