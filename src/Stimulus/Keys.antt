-- ===== src/Stimulus/Keys.antt =====
-- What `trimmed`, the search for the equals sign and that for a blank make of the key of a line.
use thorium.Prelude.{
  ℕ, false, some, [], ◌∷◌, ◌++◌, Text, All, if◌then◌else◌, ◌≡◌, ◌≢◌, refl, ap, ◌∙◌, arith,
}
use thorium.Stimulus.{is_blank, trim_front, trim_back, blank_end, trimmed}
use thorium.Stimulus.Programs.{at_separator, has_blank}
use thorium.Stimulus.Lines.{IsKeyByte}

trim_back-last : (t : Text) (c : ℕ) → is_blank c ≡ false → trim_back (t ++ c ∷ []) ≡ t ++ c ∷ []
unfolding trim_back
trim_back-last [] c h = ground arith
trim_back-last (d ∷ []) c h = ap (blank_end d) (trim_back-last [] c h)
trim_back-last (d ∷ e ∷ t) c h = ap (blank_end d) (trim_back-last (e ∷ t) c h)

pub trimmed-solid :
    (first last : ℕ) (inner : Text)
    → is_blank first ≡ false
    → is_blank last ≡ false
    → trimmed (first ∷ (inner ++ last ∷ [])) ≡ first ∷ (inner ++ last ∷ [])
unfolding trimmed trim_front
trimmed-solid first last inner e f =
    ap
      (λ b. trim_back (if b then trim_front (inner ++ last ∷ []) else first ∷ (inner ++ last ∷ [])))
      e
    ∙ trim_back-last (first ∷ inner) last f

-- A key, with the blank behind it.
trim_back-key : (c : ℕ) (t : Text) → All IsKeyByte (c ∷ t) → trim_back (c ∷ (t ++ 32 ∷ [])) ≡ c ∷ t
unfolding trim_back
trim_back-key c [] h = ground arith
trim_back-key c (d ∷ t) h = ap (blank_end c) (trim_back-key d t h.1)

pub IsKeyByte-solid : (c : ℕ) → IsKeyByte c → is_blank c ≡ false
IsKeyByte-solid c h = ground arith

pub trimmed-key : (c : ℕ) (t : Text) → All IsKeyByte (c ∷ t) → trimmed (c ∷ (t ++ 32 ∷ [])) ≡ c ∷ t
unfolding trimmed trim_front
trimmed-key c t h =
    ap (λ b. trim_back (if b then trim_front (t ++ 32 ∷ []) else c ∷ (t ++ 32 ∷ [])))
      (IsKeyByte-solid c h.0)
    ∙ trim_back-key c t h

pub has_blank-key : (t : Text) → All IsKeyByte t → has_blank t ≡ false
has_blank-key [] h = refl
has_blank-key (c ∷ t) h = ground (arith, has_blank-key t h.1)

pub at_separator-key :
    (t v : Text) → All IsKeyByte t → at_separator (t ++ 32 ∷ b'=' ∷ v) ≡ some (t ++ 32 ∷ [], v)
unfolding at_separator
at_separator-key [] v h = refl
at_separator-key (c ∷ t) v h = ground (arith, at_separator-key t v h.1)

pub key-unquoted : (s : Text) → All IsKeyByte s → All (λ c. (c ≢ b'"') × (c ≢ b'#')) s
key-unquoted [] h = tt
key-unquoted (c ∷ s) h = ((h.0.1, h.0.2), key-unquoted s h.1)
