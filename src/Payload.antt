-- ===== src/Payload.antt =====
-- framework/core/src/quantities/bytes.cpp: class `Bytes`, the payload of a read or a write. An octet is
-- a number below 256. Bitwise has the operators, Described the text for a log.
pub mod Hex
pub mod Parts
pub mod Described
pub mod Bits
pub mod Bitwise
mod Examples
use thorium.Prelude.{
  ℕ, ◌+◌, ◌-◌, ◌*◌, ◌/◌, ◌%◌, Bool, true, false, ◌&&◌, ◌||◌, Option, none, some, List, [], ◌∷◌,
  ◌++◌, Text, text_beq, eqb, ltb, leb, if◌then◌else◌, length, take, drop, get_elem?,
}
use thorium.Session.{Bytes}

-- `hexDigit`, with none for -1.
unfoldable pub hex_digit : ℕ → Option ℕ
hex_digit c =
    if leb 48 c && leb c 57
    then some (c - 48)
    else (if leb 97 c && leb c 102
        then some (c - 97 + 10)
        else (if leb 65 c && leb c 70 then some (c - 65 + 10) else none))

abbrev pub is_space : ℕ → Bool
is_space c = eqb c 32 || eqb c 9 || eqb c 10 || eqb c 13

-- How `fromHex` ends: with the bytes, or with one of its two `std::invalid_argument`s.
pub data Parsed : Type 0 where
  parsed : Bytes → Parsed
  not_a_digit : ℕ → Parsed
  odd_digits : Parsed

-- The loop's `high` while a digit is pending and `data`, or the character that ended the loop.
pub data HexState : Type 0 where
  scanning : Option ℕ → Bytes → HexState
  stopped_at : ℕ → HexState

abbrev pub take_digit : ℕ → Option ℕ → Option ℕ → Bytes → HexState
take_digit c none pending bytes = stopped_at c
take_digit c (some digit) none bytes = scanning (some digit) bytes
take_digit c (some digit) (some high) bytes = scanning none (bytes ++ (high * 16 + digit) ∷ [])

abbrev pub scan : ℕ → HexState → HexState
scan c (stopped_at b) = stopped_at b
scan c (scanning pending bytes) =
    if is_space c then scanning pending bytes else take_digit c (hex_digit c) pending bytes

abbrev pub scan_all : Text → HexState → HexState
scan_all [] state = state
scan_all (c ∷ cs) state = scan_all cs (scan c state)

abbrev pub conclude : HexState → Parsed
conclude (scanning none bytes) = parsed bytes
conclude (scanning (some _) _) = odd_digits
conclude (stopped_at c) = not_a_digit c

-- `Bytes::fromHex`
unfoldable pub from_hex : Text → Parsed
from_hex hex = conclude (scan_all hex (scanning none []))

-- A digit as `%X` prints it.
abbrev pub upper_digit : ℕ → ℕ
upper_digit n = if ltb n 10 then 48 + n else 55 + n

abbrev pub spaced : Text → Text
spaced [] = []
spaced (c ∷ cs) = (c ∷ cs) ++ 32 ∷ []

-- The body of the loop of `Bytes::hex`.
abbrev pub append_hex : Text → ℕ → Text
append_hex result octet = spaced result ++ upper_digit (octet / 16) ∷ upper_digit (octet % 16) ∷ []

abbrev pub hex_from : Text → Bytes → Text
hex_from result [] = result
hex_from result (octet ∷ bytes) = hex_from (append_hex result octet) bytes

-- `Bytes::hex`
unfoldable pub hex : Bytes → Text
hex bytes = hex_from [] bytes

-- `Bytes::at`, with none for the `std::out_of_range`.
unfoldable pub at : ℕ → Bytes → Option ℕ
at index bytes = if leb (length bytes) index then none else get_elem? bytes index

-- `Bytes::slice`, with none for the `std::out_of_range`.
unfoldable pub slice : ℕ → ℕ → Bytes → Option Bytes
slice offset count bytes =
    if ltb (length bytes) offset || ltb (length bytes - offset) count
    then none
    else some (take count (drop offset bytes))

-- `Bytes::startsWith`
unfoldable pub starts_with : Bytes → Bytes → Bool
starts_with prefix bytes =
    leb (length prefix) (length bytes) && text_beq prefix (take (length prefix) bytes)

-- `Bytes::endsWith`
unfoldable pub ends_with : Bytes → Bytes → Bool
ends_with suffix bytes =
    leb (length suffix) (length bytes)
    && text_beq suffix (drop (length bytes - length suffix) bytes)

-- The octets in front of what `std::search` finds, or all of them.
pub before_match : Bytes → Bytes → Bytes
before_match delimiter [] = []
before_match delimiter (octet ∷ bytes) =
    let rest = before_match delimiter bytes in
    if starts_with delimiter (octet ∷ bytes) then [] else octet ∷ rest

abbrev is_empty : Bytes → Bool
is_empty [] = true
is_empty (_ ∷ _) = false

-- `Bytes::before`
unfoldable pub before : Bytes → Bytes → Bytes
before delimiter bytes = if is_empty delimiter then bytes else before_match delimiter bytes
