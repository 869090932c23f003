-- ===== src/Topology/Plan.antt =====
-- framework/hal/src/topology/address_plan.cpp: the addresses that a person types, on `--address` and
-- in the environment. `std::from_chars` reads an optional minus sign and the digits behind it, and
-- fails where there is none or the value leaves the range of an `int`.
pub mod Spellings
pub mod Environment
use thorium.Prelude.{
  ℕ, zero, suc, ◌+◌, ◌-◌, ◌*◌, ◌^◌, Bool, true, false, not, ◌&&◌, ◌||◌, Option, none, some, List,
  [], ◌∷◌, ◌++◌, Text, text, text_eq, text_beq, ◌==◌, eqb, leb, ltb, if◌then◌else◌, has_value,
}
use thorium.Topology.Address.{Address, gpib, lan, serial, usb, simulated, is_simulated}
use thorium.Topology.Boxes.{BoxRow}
use thorium.Topology.Tables.{contains, instrument_box_names}

-- What an `AddressSyntaxError` says; the sentences that quote a text carry it.
pub data AddressSyntaxError : Type 0 where
  no_hostname bracketed gpib_form gpib_not_whole secondary_not_whole no_kind : AddressSyntaxError
  not_a_port not_a_kind no_equals not_a_box : Text → AddressSyntaxError
  names_instrument : Text → Text → AddressSyntaxError

pub data Result {ℓ} (A : Type ℓ) : Type ℓ where
  ok : A → Result A
  err : AddressSyntaxError → Result A

infixl 5 ◌>>=◌
abbrev pub ◌>>=◌ {ℓ κ} : {A : Type ℓ} {B : Type κ} → Result A → (A → Result B) → Result B
ok a >>= f = f a
err e >>= f = err e

abbrev pub or_throw {ℓ} : {A : Type ℓ} → Option A → AddressSyntaxError → Result A
or_throw none e = err e
or_throw (some a) _ = ok a

abbrev pub is_digit : ℕ → Bool
is_digit c = leb b'0' c && leb c b'9'

-- The digits that `from_chars` consumes, as their value, how many there are, and what is left.
unfoldable pub read_digits : ℕ → ℕ → Text → ℕ × ℕ × Text
read_digits value count [] = (value, count, [])
read_digits value count (c ∷ t) =
    let rest = read_digits (value * 10 + (c - b'0')) (count + 1) t in
    if is_digit c then rest else (value, count, c ∷ t)

-- `std::from_chars` into an `int`: whether the value is negative, its size, and the text behind it.
unfoldable pub from_chars_unsigned : Bool → Text → Option (Bool × ℕ × Text)
from_chars_unsigned minus t =
    let (value, count, rest) = read_digits 0 0 t in
    if eqb count 0 || ltb (if minus then 2 ^ 31 else 2 ^ 31 - 1) value
    then none
    else some (minus && ltb 0 value, value, rest)

unfoldable pub from_chars : Text → Option (Bool × ℕ × Text)
unfolding from_chars_unsigned
from_chars [] = none
from_chars (c ∷ t) =
    if eqb c b'-' then from_chars_unsigned true t else from_chars_unsigned false (c ∷ t)

abbrev whole : Option (Bool × ℕ × Text) → Option ℕ
whole none = none
whole (some (negative, value, [])) = if negative then none else some value
whole (some (negative, value, c ∷ rest)) = none

unfoldable pub whole_number : Text → Option ℕ
unfolding from_chars
whole_number [] = none
whole_number (c ∷ t) = whole (from_chars (c ∷ t))

-- `find( c)`, with the text before the byte that is found and the text behind it.
unfoldable pub split_at : ℕ → Text → Option (Text × Text)
split_at c [] = none
split_at c (x ∷ t) =
    let later = split_at c t in
    if eqb x c
    then some ([], t)
    else (elim later [ none ↦ none | some (before, after) ↦ some (x ∷ before, after) ])

abbrev pub front_is : ℕ → Text → Bool
front_is c [] = false
front_is c (x ∷ t) = eqb x c

-- The address where exactly one colon was found.
abbrev lan_with_port : Text → Text → Result Address
lan_with_port host port_text = do
  port ← or_throw (whole_number port_text) (not_a_port port_text)
  ok (lan (record { host = host; port = port }))

abbrev lan_bare : Text → Result Address
lan_bare value = ok (lan (record { host = value; port = 5025 }))

unfoldable pub parse_lan : Text → Result Address
parse_lan [] = err no_hostname
parse_lan (c ∷ t) = if eqb c b'[' then err bracketed else (elim (split_at b':' (c ∷ t)) [
  | none ↦ lan_bare (c ∷ t)
  | some (host, behind) ↦
      if has_value (split_at b':' behind) then lan_bare (c ∷ t) else lan_with_port host behind
])

-- The comma-separated fields: one more than there are commas.
unfoldable pub split_commas : Text → List Text
split_commas [] = [] ∷ []
split_commas (c ∷ t) =
    let fields = split_commas t in
    if eqb c b','
    then [] ∷ fields
    else (elim fields [ [] ↦ (c ∷ []) ∷ [] | field ∷ rest ↦ (c ∷ field) ∷ rest ])

-- `!board || !primary`
abbrev both_whole : Option ℕ → Option ℕ → Result (ℕ × ℕ)
both_whole (some a) (some b) = ok (a, b)
both_whole _ _ = err gpib_not_whole

abbrev gpib_of : List Text → Result Address
gpib_of (board ∷ primary ∷ []) = do
  (b, p) ← both_whole (whole_number board) (whole_number primary)
  ok (gpib (record { board = b; primary = p; secondary = none }))
gpib_of (board ∷ primary ∷ third ∷ []) = do
  (b, p) ← both_whole (whole_number board) (whole_number primary)
  s ← or_throw (whole_number third) secondary_not_whole
  ok (gpib (record { board = b; primary = p; secondary = some s }))
gpib_of _ = err gpib_form

unfoldable pub parse_gpib : Text → Result Address
parse_gpib value = gpib_of (split_commas value)

unfoldable pub parse_kind : Text → Text → Result Address
unfolding parse_lan parse_gpib
parse_kind kind value =
    if kind == text "lan"
    then parse_lan value
    else if kind == text "usb"
    then ok (usb value)
    else if kind == text "serial"
    then ok (serial value)
    else if kind == text "gpib"
    then parse_gpib value
    else err (not_a_kind kind)

unfoldable pub parse_address : Text → Result Address
parse_address t =
    if t == text "sim" || t == text "simulated" then ok simulated else (elim (split_at b':' t) [
      | none ↦ err no_kind
      | some (kind, value) ↦ parse_kind kind value
    ])

-- `core::meta::fromString<InstrumentId>`: the row that an enumerator stands in. The loop runs through
-- all the enumerators and keeps the last that fits.
unfoldable pub from_string : List BoxRow → Text → Option BoxRow
from_string [] name = none
from_string (r ∷ rows) name = elim (from_string rows name) [
  | some later ↦ some later
  | none ↦ if r.row == name then some r else none
]

abbrev sim_only : BoxRow → Result Address → Option BoxRow
sim_only id (ok a) = if is_simulated a then some id else none
sim_only id (err _) = none

-- The rows are those of the rig's instrument table.
module _ (rows : List BoxRow) where
  unfoldable pub parse_face_simulation : Text → Option BoxRow
  parse_face_simulation t = elim (split_at b'=' t) [
    | none ↦ none
    | some (name, value) ↦
        if contains (instrument_box_names rows) name then none else (elim (from_string rows name) [
          | none ↦ none
          | some id ↦ sim_only id (parse_address value)
        ])
  ]

  unfoldable pub parse_override : Text → Result (Text × Address)
  parse_override t = elim (split_at b'=' t) [
    | none ↦ err (no_equals t)
    | some (name, value) ↦
        if contains (instrument_box_names rows) name
        then (do a ← parse_address value; ok (name, a))
        else (elim (from_string rows name) [
          | none ↦ err (not_a_box name)
          | some id ↦ err (names_instrument name id.box)
        ])
  ]

  -- The first loop of `environmentOverrides`: a variable that names an instrument is refused, unless
  -- the name is a box's too. The environment gives a variable's value by the name behind
  -- `THORIUM_ADDRESS_`.
  unfoldable pub refuse_instruments : (Text → Option Text) → List BoxRow → Result (Unit {0})
  refuse_instruments env [] = ok tt
  refuse_instruments env (r ∷ rest) =
      if contains (instrument_box_names rows) r.row || not (has_value (env r.row))
      then refuse_instruments env rest
      else err (names_instrument r.row r.box)

  unfoldable pub read_boxes : (Text → Option Text) → List Text → Result (List (Text × Address))
  read_boxes env [] = ok []
  read_boxes env (box ∷ boxes) = elim (env box) [
    | none ↦ read_boxes env boxes
    | some value ↦ (do a ← parse_address value; more ← read_boxes env boxes; ok ((box, a) ∷ more))
  ]

  unfoldable pub environment_overrides : (Text → Option Text) → Result (List (Text × Address))
  environment_overrides env =
      refuse_instruments env rows >>= λ _. read_boxes env (instrument_box_names rows)
