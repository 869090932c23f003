-- ===== src/Fabric/Rig.antt =====
-- framework/hal/src/fabric/rig_switching.cpp: class `RigSwitchDriver`. The rig's tables and its
-- instruments, which the build finds by reflection, are the fields of a rig: which devices are RF
-- multiplexers, the card and the box of each device, and the switching instruments in their order of
-- declaration. What an instrument does to the bench is its own.
use thorium.Prelude.{
  ℕ, ◌≡◌, refl, sym, ap, subst, ◌∙◌, Bool, true, false, not, ◌&&◌, Option, none, some, List, [],
  ◌∷◌, eqb, if◌then◌else◌, Bool-cases, inl, inr,
}
use thorium.Fabric.Elements.{SwitchElementId}
use thorium.Fabric.{Outcome, returned, threw, SwitchDriver}

-- `CardSwitchingInstrument`
pub record SwitchingInstrument (B : Type 0) : Type 0 where
  pub box : ℕ
  pub close_on_card : ℕ → ℕ → B → Outcome × B
  pub open_on_card : ℕ → ℕ → B → Outcome × B

pub record Rig (B : Type 0) : Type 0 where
  pub is_rf_mux : ℕ → Bool
  pub card_of : ℕ → Option ℕ
  pub box_of : ℕ → ℕ
  pub instruments : List (SwitchingInstrument B)

-- The state between two rounds of the loop: `driven` and the bench, or the exception that left it.
pub data Loop (B : Type 0) : Type 0 where
  going : Bool → B → Loop B
  left_by : Outcome → B → Loop B

module _ {B : Type 0} where
  abbrev pub on_card : Bool → SwitchingInstrument B → ℕ → ℕ → B → Outcome × B
  on_card true i card channel b = i.close_on_card card channel b
  on_card false i card channel b = i.open_on_card card channel b

  abbrev pub drove : Outcome × B → Loop B
  drove (returned, b) = going true b
  drove (threw e, b) = left_by (threw e) b

  abbrev pub drive_one : Bool → ℕ → ℕ → ℕ → SwitchingInstrument B → Loop B → Loop B
  drive_one closing box card channel i (left_by e b) = left_by e b
  drive_one closing box card channel i (going driven b) =
      if not driven && eqb i.box box
      then drove (on_card closing i card channel b)
      else going driven b

  abbrev pub drive_loop : Bool → ℕ → ℕ → ℕ → List (SwitchingInstrument B) → Loop B → Loop B
  drive_loop closing box card channel [] state = state
  drive_loop closing box card channel (i ∷ is) state =
      drive_loop closing box card channel is (drive_one closing box card channel i state)

  abbrev pub ended : Loop B → Outcome × B
  ended (going driven b) = (returned, b)
  ended (left_by e b) = (e, b)

  abbrev pub drive_card : Rig B → SwitchElementId → Bool → Option ℕ → B → Outcome × B
  drive_card rig id closing none b = (returned, b)
  drive_card rig id closing (some card) b =
      ended
        (drive_loop closing (rig.box_of id.device) card id.channel rig.instruments (going false b))

  unfoldable pub drive : Rig B → SwitchElementId → Bool → B → Outcome × B
  drive rig id closing b = drive_card rig id closing (rig.card_of id.device) b

  unfoldable pub rig_switch_driver : Rig B → SwitchDriver B
  rig_switch_driver rig = record {
    close = λ id b. drive rig id true b;
    open_relay = λ id b. if rig.is_rf_mux id.device then (returned, b) else drive rig id false b;
  }

  -- The first instrument that stands in a box.
  abbrev pub first_in : ℕ → List (SwitchingInstrument B) → Option (SwitchingInstrument B)
  first_in box [] = none
  first_in box (i ∷ is) = let rest = first_in box is in if eqb i.box box then some i else rest

  abbrev pub on_first : Bool → Option (SwitchingInstrument B) → ℕ → ℕ → B → Outcome × B
  on_first closing none card channel b = (returned, b)
  on_first closing (some i) card channel b = on_card closing i card channel b

  driven-stays :
      (closing : Bool) (box card channel : ℕ) (is : List (SwitchingInstrument B)) (b : B)
      → drive_loop closing box card channel is (going true b) ≡ going true b
  driven-stays closing box card channel [] b = refl
  driven-stays closing box card channel (i ∷ is) b = driven-stays closing box card channel is b

  left-stays :
      (closing : Bool) (box card channel : ℕ) (is : List (SwitchingInstrument B)) (e : Outcome)
      (b : B)
      → drive_loop closing box card channel is (left_by e b) ≡ left_by e b
  left-stays closing box card channel [] e b = refl
  left-stays closing box card channel (i ∷ is) e b = left-stays closing box card channel is e b

  drove-ended :
      (closing : Bool) (box card channel : ℕ) (is : List (SwitchingInstrument B)) (r : Outcome × B)
      → ended (drive_loop closing box card channel is (drove r)) ≡ r
  drove-ended closing box card channel is (returned, b) =
      ap ended (driven-stays closing box card channel is b)
  drove-ended closing box card channel is (threw e, b) =
      ap ended (left-stays closing box card channel is (threw e) b)

  drive_loop-first :
      (closing : Bool) (box card channel : ℕ) (is : List (SwitchingInstrument B)) (b : B)
      → ended (drive_loop closing box card channel is (going false b))
        ≡ on_first closing (first_in box is) card channel b
  drive_loop-first closing box card channel [] b = refl
  drive_loop-first closing box card channel (i ∷ is) b = elim (Bool-cases (eqb i.box box)) [
    | inl e ↦
        subst
          (λ c.
            ended (
              drive_loop closing box card channel is
                (if c then drove (on_card closing i card channel b) else going false b))
            ≡ on_first closing (if c then some i else first_in box is) card channel b)
          (sym e) (drove-ended closing box card channel is (on_card closing i card channel b))
    | inr e ↦
        subst
          (λ c.
            ended (
              drive_loop closing box card channel is
                (if c then drove (on_card closing i card channel b) else going false b))
            ≡ on_first closing (if c then some i else first_in box is) card channel b)
          (sym e) (drive_loop-first closing box card channel is b)
  ]

  -- A device that is on a card is driven through the first instrument of its box and through no
  -- other, and the outcome is that instrument's. A device of a box that no instrument stands in
  -- leaves the bench as it is.
  pub drive-first :
      (rig : Rig B) (id : SwitchElementId) (closing : Bool) (card : ℕ) (b : B)
      → rig.card_of id.device ≡ some card
      → drive rig id closing b
        ≡ on_first closing (first_in (rig.box_of id.device) rig.instruments) card id.channel b
  unfolding drive
  drive-first rig id closing card b e =
      ap (λ o. drive_card rig id closing o b) e
      ∙ drive_loop-first closing (rig.box_of id.device) card id.channel rig.instruments b
