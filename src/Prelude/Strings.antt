-- ===== src/Prelude/Strings.antt =====
-- `std::string_view` as its bytes.
use Prim.Native.Char.{code}
use Prim.Native.String.{String}
use Prim.Native.Nat.{ℕ}
use mathlib.Core.Path.{◌≡◌}
use mathlib.Core.Logic.{◌↔◌}
use mathlib.Core.Bool.{Bool, true, false, ◌&&◌}
use mathlib.Core.List.{List, [], ◌∷◌}
use mathlib.Core.Option.{Option, none, some}
use native.Mathlib.Omega.{arith}
use thorium.Prelude.Tests.{Keyed, eqb, eqb_iff}

abbrev pub Text : Type 0
Text = List ℕ

-- The bytes of a literal.
abbrev pub text : String → Text
text String.[] = []
text (String.◌∷◌ c s) = code c ∷ text s

unfoldable pub text_beq : Text → Text → Bool
text_beq [] [] = true
text_beq (a ∷ s) (b ∷ t) = eqb a b && text_beq s t
text_beq _ _ = false

pub text_beq_iff : (s t : Text) → (text_beq s t ≡ true) ↔ (s ≡ t)
unfolding text_beq
text_beq_iff [] [] = ground arith
text_beq_iff (a ∷ s) (b ∷ t) = ground (arith, eqb_iff a b, text_beq_iff s t)
text_beq_iff _ _ = ground arith

instance abbrev pub text_eq : Keyed Text
text_eq = record { same = text_beq; same_iff = text_beq_iff }

unfoldable pub option_beq : Option ℕ → Option ℕ → Bool
option_beq none none = true
option_beq (some a) (some b) = eqb a b
option_beq _ _ = false

pub option_beq_iff : (a b : Option ℕ) → (option_beq a b ≡ true) ↔ (a ≡ b)
unfolding option_beq
option_beq_iff none none = ground arith
option_beq_iff (some a) (some b) = ground (arith, eqb_iff a b)
option_beq_iff _ _ = ground arith
