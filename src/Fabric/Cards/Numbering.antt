-- ===== src/Fabric/Cards/Numbering.antt =====
-- The channel numbers of the cards: the composite spellings against the flat ones.
use thorium.Prelude.{
  ℕ, ◌+◌, ◌*◌, ◌/◌, ◌%◌, ◌^◌, ◌-◌, ◌≤◌, ◌<◌, ◌≡◌, ◌≢◌, ◌&&◌, none, some, arith, leb, if◌then◌else◌,
}
use thorium.Fabric.Elements.{SwitchElementId}
use thorium.Fabric.Cards.{
  racal1260_45, agilent_e1472a, keysight34932a, spec_of, hop, crosspoint, row_column, bank,
  analog_bus,
}

abbrev pub element : ℕ → ℕ → SwitchElementId
element device channel = record { device = device; channel = channel }

-- A 1260-45A crosspoint whose group, row and column are in range is a channel of the card, and
-- the three parts are read back from the channel's number.
pub crosspoint_parts :
    (device group row column : ℕ)
    → group ≤ 3
    → row ≤ 3
    → column ≤ 15
    → (channel : ℕ) × (crosspoint racal1260_45 device group row column
        ≡ some (element device channel))
      × (channel / 1000 ≡ group)
      × (channel / 100 % 10 ≡ row)
      × (channel % 100 ≡ column)
unfolding crosspoint hop spec_of
crosspoint_parts device group row column hg hr hc =
    (group * 1000 + row * 100 + column, ground arith, omega arith, omega arith, omega arith)

-- Every channel of a 1260-45A is spelled by its digits.
pub crosspoint_digits :
    (device channel : ℕ)
    → hop racal1260_45 device channel ≢ none
    → crosspoint racal1260_45 device (channel / 1000) (channel / 100 % 10) (channel % 100)
      ≡ hop racal1260_45 device channel
unfolding crosspoint hop spec_of
crosspoint_digits device channel h = ground arith

pub row_column_parts :
    (device row column : ℕ)
    → 1 ≤ row
    → row ≤ 8
    → 1 ≤ column
    → column ≤ 16
    → (channel : ℕ) × (row_column keysight34932a device row column ≡ some (element device channel))
      × (channel / 100 ≡ row)
      × (channel % 100 ≡ column)
unfolding row_column hop spec_of
row_column_parts device row column r0 r1 c0 c1 =
    (row * 100 + column, ground arith, omega arith, omega arith)

-- On a 34932A the Analog Buses 1 to 4 are relays of the card, and no other bus below 2 ^ 16 - 920
-- is.
pub analog_bus_relays :
    (device bus : ℕ)
    → bus < 2 ^ 16 - 920
    → analog_bus keysight34932a device bus
      ≡ (if leb 1 bus && leb bus 4 then some (element device (920 + bus)) else none)
unfolding analog_bus hop spec_of
analog_bus_relays device bus h = ground arith

-- The packed number alone is checked: on an E1472A channel 10 of a bank is accepted, and it is
-- channel 0 of the next bank.
pub bank_alias :
    (device number : ℕ)
    → number < 5
    → (bank agilent_e1472a device number 10 ≡ some (element device (number * 10 + 10)))
      × (bank agilent_e1472a device number 10 ≡ bank agilent_e1472a device (number + 1) 0)
unfolding bank hop spec_of
bank_alias device number h = ground arith
