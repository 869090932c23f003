-- ===== src/Criteria/Examples.antt =====
-- The theorems of the criteria at concrete inputs.
use thorium.Prelude.{◌≡◌, refl, true, some, List, [], ◌∷◌, Text, text, text_beq}
use thorium.Criteria.Variants.{
  initial, active_criteria_variant_name, select_criteria_variant, find_name, default_index,
}
use thorium.Criteria.Variants.Selected.{Call, selects, locks, calls, calls-locked}

abbrev names : List Text
names = text "production" ∷ text "stress" ∷ text "aged" ∷ []

abbrev history : List Call
history = selects (text "stress") ∷ locks ∷ selects (text "aged") ∷ []

calls-locked_example :
    calls names history (record { index = 1; locked = true }) ≡ record { index = 1; locked = true }
calls-locked_example = calls-locked names history (record { index = 1; locked = true }) refl

stress_selected :
    active_criteria_variant_name names
      (select_criteria_variant names (text "stress") (initial names (text "production"))).1
    ≡ some (text "stress")
unfolding active_criteria_variant_name select_criteria_variant initial default_index find_name
    text_beq
stress_selected = refl
