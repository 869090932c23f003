-- ===== src/Fabric/Elements.antt =====
-- framework/hal/include/hal/fabric/switch_fabric.hpp, `SwitchElementId` and `Path`: a channel of a
-- declared device. A device is its enumerator's value, the row of the rig's device table.
use thorium.Prelude.{ℕ, ◌≡◌, ◌↔◌, Bool, true, ◌&&◌, List, arith, Keyed, eqb, eqb_iff}

pub record SwitchElementId : Type 0 where
  pub device : ℕ
  pub channel : ℕ

abbrev pub RelayPath : Type 0
RelayPath = List SwitchElementId

unfoldable pub element_beq : SwitchElementId → SwitchElementId → Bool
element_beq a b = eqb a.device b.device && eqb a.channel b.channel

pub element_beq_iff : (a b : SwitchElementId) → (element_beq a b ≡ true) ↔ (a ≡ b)
unfolding element_beq
element_beq_iff a b = ground (arith, eqb_iff a.device b.device, eqb_iff a.channel b.channel)

-- The defaulted `operator==`.
instance abbrev pub element_eq : Keyed SwitchElementId
element_eq = record { same = element_beq; same_iff = element_beq_iff }
