-- ===== src/Fabric/Cards.antt =====
-- framework/hal/include/hal/fabric/switch_device.hpp: the card models, the channels that each has,
-- and the checked spellings of a hop in switch_fabric.hpp. `unsigned` has 32 bits, a channel 16.
pub mod Numbering
use thorium.Prelude.{
  ℕ, ◌+◌, ◌*◌, ◌/◌, ◌%◌, ◌^◌, Bool, true, false, ◌&&◌, ◌||◌, Option, none, some, List, String, eqb,
  leb, if◌then◌else◌, get_elem?,
}
use thorium.Fabric.Elements.{SwitchElementId}
use thorium.Topology.Address.{Address}

pub data SwitchDeviceKind : Type 0 where
  matrix mux rf_mux spdt spst : SwitchDeviceKind

pub data SwitchDeviceModel : Type 0 where
  racal1260_45 racal1260_35 racal1260_17 racal1260_18 agilent_e1472a : SwitchDeviceModel
  keysight34932a keysight34941a : SwitchDeviceModel

-- `static_cast<std::uint16_t>` of an `unsigned`
abbrev pub to_uint16 : ℕ → ℕ
to_uint16 n = n % 2 ^ 32 % 2 ^ 16

pub racal1260_45_has_channel : ℕ → Bool
racal1260_45_has_channel channel =
    leb channel 3315
    && leb (channel / 1000) 3
    && leb (channel / 100 % 10) 3
    && leb (channel % 100) 15

pub racal1260_45_crosspoint : ℕ → ℕ → ℕ → ℕ
racal1260_45_crosspoint group row column = to_uint16 (group * 1000 + row * 100 + column)

pub racal1260_35_has_channel : ℕ → Bool
racal1260_35_has_channel channel = leb channel 96

pub racal1260_17_has_channel : ℕ → Bool
racal1260_17_has_channel channel = leb channel 79

pub racal1260_18_has_channel : ℕ → Bool
racal1260_18_has_channel channel = leb channel 151

pub agilent_e1472a_has_channel : ℕ → Bool
agilent_e1472a_has_channel channel = leb (channel / 10) 5 && leb (channel % 10) 3

pub agilent_e1472a_bank_channel : ℕ → ℕ → ℕ
agilent_e1472a_bank_channel bank channel = to_uint16 (bank * 10 + channel)

pub keysight34932a_has_channel : ℕ → Bool
keysight34932a_has_channel channel =
    let row = channel / 100 in
    let column = channel % 100 in
    if leb 1 row && leb row 8 && leb 1 column && leb column 16
    then true
    else leb 921 channel && leb channel 924

pub keysight34932a_row_column : ℕ → ℕ → ℕ
keysight34932a_row_column row column = to_uint16 (row * 100 + column)

pub keysight34932a_analog_bus : ℕ → ℕ
keysight34932a_analog_bus bus = to_uint16 (920 + bus)

pub keysight34941a_has_channel : ℕ → Bool
keysight34941a_has_channel channel =
    let bank = channel / 100 in
    let in_the_bank = channel % 100 in
    leb 1 bank && leb bank 4 && leb 1 in_the_bank && leb in_the_bank 4

pub keysight34941a_bank_channel : ℕ → ℕ → ℕ
keysight34941a_bank_channel bank channel = to_uint16 (bank * 100 + channel)

-- The function pointers that may be null are optional. `Channels`, the sentence that a failed check
-- prints, is left out.
pub record SwitchCardSpec : Type 0 where
  pub part : String
  pub kind : SwitchDeviceKind
  pub has_channel : ℕ → Bool
  pub crosspoint : Option (ℕ → ℕ → ℕ → ℕ)
  pub bank_channel : Option (ℕ → ℕ → ℕ)
  pub row_column : Option (ℕ → ℕ → ℕ)
  pub reports : String
  pub analog_bus : Option (ℕ → ℕ)

-- A row of `cardSpecs` that has no composite numbering.
abbrev flat_card : String → SwitchDeviceKind → (ℕ → Bool) → SwitchCardSpec
flat_card part kind has = record {
  part = part;
  kind = kind;
  has_channel = has;
  crosspoint = none;
  bank_channel = none;
  row_column = none;
  reports = "";
  analog_bus = none;
}

-- `cardSpecs`, read by `specOf( model)`.
unfoldable pub spec_of : SwitchDeviceModel → SwitchCardSpec
unfolding racal1260_45_has_channel racal1260_45_crosspoint racal1260_35_has_channel
    racal1260_17_has_channel racal1260_18_has_channel agilent_e1472a_has_channel
    agilent_e1472a_bank_channel keysight34932a_has_channel keysight34932a_row_column
    keysight34932a_analog_bus keysight34941a_has_channel keysight34941a_bank_channel
spec_of racal1260_45 =
    record (flat_card "Racal Instruments 1260-45A" matrix racal1260_45_has_channel) {
      crosspoint = some racal1260_45_crosspoint;
    }
spec_of racal1260_35 = flat_card "Racal Instruments 1260-35" mux racal1260_35_has_channel
spec_of racal1260_17 = flat_card "Racal Instruments 1260-17" spdt racal1260_17_has_channel
spec_of racal1260_18 = flat_card "Racal Instruments 1260-18" spst racal1260_18_has_channel
spec_of agilent_e1472a = record (flat_card "Agilent E1472A" rf_mux agilent_e1472a_has_channel) {
  bank_channel = some agilent_e1472a_bank_channel;
}
spec_of keysight34932a = record (flat_card "Keysight 34932A" matrix keysight34932a_has_channel) {
  row_column = some keysight34932a_row_column;
  reports = "34932A";
  analog_bus = some keysight34932a_analog_bus;
}
spec_of keysight34941a = record (flat_card "Keysight 34941A" rf_mux keysight34941a_has_channel) {
  bank_channel = some keysight34941a_bank_channel;
  reports = "34941A";
}

-- A row of the rig's device table. The box is the row's in `deviceBoxRows`.
pub record SwitchDeviceInfo : Type 0 where
  pub model : SwitchDeviceModel
  pub address : Address
  pub card : Option ℕ

-- The checked spellings. The card is the device's model in the rig's table, and `none` is a build
-- that a static_assert stops.
module _ (model : SwitchDeviceModel) (device : ℕ) where
  unfoldable pub hop : ℕ → Option SwitchElementId
  hop channel =
      if (spec_of model).has_channel channel
      then some (record { device = device; channel = channel })
      else none

  pub crosspoint : ℕ → ℕ → ℕ → Option SwitchElementId
  crosspoint group row column = elim (spec_of model).crosspoint [
    | none ↦ none
    | some pack ↦ hop (pack group row column)
  ]

  pub row_column : ℕ → ℕ → Option SwitchElementId
  row_column row column = elim (spec_of model).row_column [
    | none ↦ none
    | some pack ↦ hop (pack row column)
  ]

  pub bank : ℕ → ℕ → Option SwitchElementId
  bank number channel = elim (spec_of model).bank_channel [
    | none ↦ none
    | some pack ↦ hop (pack number channel)
  ]

  pub analog_bus : ℕ → Option SwitchElementId
  analog_bus bus = elim (spec_of model).analog_bus [ none ↦ none | some pack ↦ hop (pack bus) ]
