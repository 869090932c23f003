-- ===== src/Topology/Address.antt =====
-- framework/hal/include/hal/driver/address.hpp: the five ways to reach a box. A text is its bytes.
-- The `int` fields are never negative in a rig table or in a parsed address, so they are naturals.
use thorium.Prelude.{
  ℕ, ◌≡◌, Bool, true, false, ◌&&◌, Option, arith, Keyed, eqb, eqb_iff, ◌↔◌, Text, text_beq,
  text_beq_iff, option_beq, option_beq_iff,
}

pub record Gpib : Type 0 where
  pub board : ℕ
  pub primary : ℕ
  pub secondary : Option ℕ

pub record Lan : Type 0 where
  pub host : Text
  pub port : ℕ

-- `std::variant<Gpib, Lan, Serial, Usb, Simulated>`
pub data Address : Type 0 where
  gpib : Gpib → Address
  lan : Lan → Address
  serial usb : Text → Address
  simulated : Address

-- `std::holds_alternative<Simulated>`
abbrev pub is_simulated : Address → Bool
is_simulated simulated = true
is_simulated _ = false

-- The defaulted comparisons, alternative by alternative.
unfoldable pub address_beq : Address → Address → Bool
address_beq (gpib a) (gpib b) =
    eqb a.board b.board && eqb a.primary b.primary && option_beq a.secondary b.secondary
address_beq (lan a) (lan b) = text_beq a.host b.host && eqb a.port b.port
address_beq (serial a) (serial b) = text_beq a b
address_beq (usb a) (usb b) = text_beq a b
address_beq simulated simulated = true
address_beq _ _ = false

pub address_beq_iff : (a b : Address) → (address_beq a b ≡ true) ↔ (a ≡ b)
unfolding address_beq
address_beq_iff (gpib a) (gpib b) = ground (
  arith,
  eqb_iff a.board b.board,
  eqb_iff a.primary b.primary,
  option_beq_iff a.secondary b.secondary,
)
address_beq_iff (lan a) (lan b) = ground (arith, text_beq_iff a.host b.host, eqb_iff a.port b.port)
address_beq_iff (serial a) (serial b) = ground (arith, text_beq_iff a b)
address_beq_iff (usb a) (usb b) = ground (arith, text_beq_iff a b)
address_beq_iff _ _ = ground arith

instance abbrev pub address_eq : Keyed Address
address_eq = record { same = address_beq; same_iff = address_beq_iff }
