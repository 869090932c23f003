-- ===== src/Topology/Examples.antt =====
-- Tests of the address parser, and the theorems of the topology at a small rig: a mainframe with
-- two faces, a supply, and a meter that is not there.
use thorium.Prelude.{
  text_eq, ◌≡◌, ◌↔◌, refl, Bool, true, false, Option, none, some, List, [], ◌∷◌, Text, text,
  text_beq, option_beq, arith, ◌==◌, if◌then◌else◌,
}
use thorium.Topology.Address.{Address, gpib, lan, usb, simulated, address_beq}
use thorium.Topology.Boxes.{BoxRow, simulated_face, box_conflict, conflict_with, pair_conflict}
use thorium.Topology.Boxes.Conflicts.{Agree, box_conflict-Agree}
use thorium.Topology.Tables.{contains, instrument_box_names, names_from}
use thorium.Topology.Plan.{
  Result, ok, err, bracketed, split_at, parse_address, parse_kind, parse_lan, parse_gpib,
  split_commas, whole_number, from_chars, from_chars_unsigned, read_digits, from_string,
  parse_face_simulation, parse_override, environment_overrides, refuse_instruments, read_boxes,
}
use thorium.Topology.Plan.Spellings.{with_port, parse_address-Spells}
use thorium.Topology.Plan.Environment.{
  Overrides, NoneNamesInstrument, environment_overrides_iff, parse_override_accepts,
}

abbrev row : Text → Text → Address → BoxRow
row box name value = record { box = box; row = name; value = value; device = false }

abbrev psu_address : Address
psu_address = usb (text "CN65")

abbrev rows : List BoxRow
rows =
    row (text "Swu") (text "Dmm") (lan (record { host = text "swu"; port = 5025 }))
    ∷ row (text "Swu") (text "Mux") (lan (record { host = text "swu"; port = 5025 }))
    ∷ row (text "Psu1") (text "Psu1") psu_address
    ∷ row (text "Psu1") (text "Aux") simulated
    ∷ []

-- What the parser reads, with everything that it calls opened.
read : Text → Result Address
unfolding parse_address parse_kind parse_lan parse_gpib split_commas split_at whole_number
    from_chars from_chars_unsigned read_digits text_beq
read = parse_address

read_gpib :
    read (text "gpib:0,5,3") ≡ ok (gpib (record { board = 0; primary = 5; secondary = some 3 }))
unfolding read
read_gpib = refl

read_ipv6 : read (text "lan:fe80::1") ≡ ok (lan (record { host = text "fe80::1"; port = 5025 }))
unfolding read
read_ipv6 = refl

-- A port with no hostname in front of it is read as an address.
read_no_host : read (text "lan::5025") ≡ ok (lan (record { host = []; port = 5025 }))
unfolding read
read_no_host = refl

read_bracketed : read (text "lan:[::1]:80") ≡ err bracketed
unfolding read
read_bracketed = refl

rows_pass : box_conflict rows ≡ none
unfolding box_conflict conflict_with pair_conflict simulated_face address_beq text_beq option_beq
rows_pass = refl

box_conflict-Agree_example :
    Agree (row (text "Psu1") (text "Psu1") psu_address) (row (text "Psu1") (text "Aux") simulated)
box_conflict-Agree_example = box_conflict-Agree rows 2 3 _ _ rows_pass (omega arith) refl refl

parse_address-Spells_example :
    parse_address (text "lan:dev-dmm-3:5025")
    ≡ ok (lan (record { host = text "dev-dmm-3"; port = 5025 }))
parse_address-Spells_example = parse_address-Spells (
    with_port (text "lan:dev-dmm-3:5025") (text "dev-dmm-3") (text "5025") 5025 refl (λ e. cc) refl
      (omega arith)
      (record { nonempty = λ e. cc; digits = omega arith; value = refl; in_range = omega arith }))

abbrev only_psu : Text → Option Text
only_psu name = if eqb_text name then some (text "usb:CN66") else none
  where
    eqb_text : Text → Bool
    eqb_text n = n == text "Psu1"

environment_example :
    (environment_overrides rows only_psu ≡ ok ((text "Psu1", usb (text "CN66")) ∷ [])) ↔ (
      NoneNamesInstrument rows only_psu rows
      × Overrides only_psu (instrument_box_names rows) ((text "Psu1", usb (text "CN66")) ∷ []))
environment_example =
    environment_overrides_iff rows only_psu ((text "Psu1", usb (text "CN66")) ∷ [])

only_psu_read : environment_overrides rows only_psu ≡ ok ((text "Psu1", usb (text "CN66")) ∷ [])
unfolding environment_overrides refuse_instruments read_boxes instrument_box_names names_from
    contains read
only_psu_read = refl

override_read : parse_override rows (text "Psu1=usb:CN66") ≡ ok (text "Psu1", usb (text "CN66"))
unfolding parse_override instrument_box_names names_from contains read
override_read = refl

parse_override_accepts_example :
    (value : Text) × (split_at b'=' (text "Psu1=usb:CN66") ≡ some (text "Psu1", value))
    × (contains (instrument_box_names rows) (text "Psu1") ≡ true)
    × (parse_address value ≡ ok (usb (text "CN66")))
parse_override_accepts_example =
    parse_override_accepts rows (text "Psu1=usb:CN66") (text "Psu1") (usb (text "CN66"))
      override_read

face_read :
    parse_face_simulation rows (text "Mux=sim")
    ≡ some (row (text "Swu") (text "Mux") (lan (record { host = text "swu"; port = 5025 })))
unfolding parse_face_simulation from_string instrument_box_names names_from contains read
face_read = refl
