-- ===== src/Stimulus/Lines.antt =====
-- A line of a stimulus file that gives one payload, cut by `withoutComment`, `trimmed` and `splitValues`.
use thorium.Prelude.{
  ℕ, ◌/◌, ◌%◌, ◌<◌, Bool, true, false, [], ◌∷◌, ◌++◌, Text, text, eqb, All, ◌≡◌, ◌≢◌, refl, ap, sym,
  ◌∙◌, ◌⊎◌, inl, inr, arith,
}
use mathlib.Core.List.{append_assoc}
use thorium.Session.{Bytes}
use thorium.Payload.{hex_from, append_hex, upper_digit, spaced}
use thorium.Payload.Hex.{AreOctets}
use thorium.Payload.Described.{as_text}
use thorium.Stimulus.{trimmed, cut_comment, Depth, inside, opens, closes, turns_quote, split_from}
use thorium.Stimulus.Payloads.{escape_all}

-- A byte that neither the search for a comment nor that for the end of a value heeds in brackets.
abbrev pub IsInert : ℕ → Type 0
IsInert c = (c ≢ b'"') × (c ≢ b'#') × (opens c ≡ false) × (closes c ≡ false)

-- A byte of a key: neither blank nor a quote, a hash or an equals sign.
abbrev pub IsKeyByte : ℕ → Type 0
IsKeyByte c = (32 < c) × (c ≢ b'"') × (c ≢ b'#') × (c ≢ b'=')

All-append : (P : ℕ → Type 0) (s t : Text) → All P s → All P t → All P (s ++ t)
All-append P [] t p q = q
All-append P (c ∷ s) t p q = (p.0, All-append P s t p.1 q)

-- What is behind a text without quotes is cut as it stands.
pub cut_comment-unquoted :
    (b : Bool) (s t : Text) (d : ℕ)
    → All (λ c. (c ≢ b'"') × (c ≢ b'#')) s
    → d ≢ b'"'
    → d ≢ b'#'
    → cut_comment false b (s ++ d ∷ t) ≡ s ++ d ∷ cut_comment false (eqb d b'\\') t
unfolding cut_comment
cut_comment-unquoted b [] t d h e f = ground arith
cut_comment-unquoted b (c ∷ s) t d h e f =
    ground (arith, cut_comment-unquoted (eqb c b'\\') s t d h.1 e f)

cut_comment-as_text :
    (b : Bool) (c : ℕ) (t : Text)
    → cut_comment true b (as_text c ++ t) ≡ as_text c ++ cut_comment true (eqb c b'\\') t
unfolding cut_comment
cut_comment-as_text b c t = ground arith

pub cut_comment-escape_all :
    (b : Bool) (bytes : Bytes)
    → cut_comment true b (escape_all bytes ++ text "\"") ≡ escape_all bytes ++ text "\""
unfolding cut_comment
cut_comment-escape_all b [] = ground arith
cut_comment-escape_all b (c ∷ bytes) =
    ap (cut_comment true b) (append_assoc (as_text c) (escape_all bytes) (text "\""))
    ∙ cut_comment-as_text b c (escape_all bytes ++ text "\"")
    ∙ ap (◌++◌ (as_text c)) (cut_comment-escape_all (eqb c b'\\') bytes)
    ∙ sym (append_assoc (as_text c) (escape_all bytes) (text "\""))

-- A byte within quotes that is no quote, or stands behind a backslash.
split_from-quoted :
    (b : Bool) (depth : Depth) (since : Text) (c : ℕ) (t : Text)
    → turns_quote b c ≡ false
    → split_from true b depth since (c ∷ t)
      ≡ split_from true (eqb c b'\\') depth (since ++ c ∷ []) t
unfolding split_from
split_from-quoted b depth since c t h = ground arith

-- A byte stands for itself, or behind a backslash.
as_text-cases :
    (c : ℕ)
    → ((as_text c ≡ c ∷ []) × (eqb c b'"' ≡ false))
      ⊎ ((d : ℕ) × (as_text c ≡ b'\\' ∷ d ∷ []) × (eqb d b'\\' ≡ eqb c b'\\'))
as_text-cases c =
    by_tests (eqb c b'\t') (eqb c b'\r') (eqb c b'\n') (eqb c b'\\') (eqb c b'"') refl refl refl
      refl refl
  where
    by_tests :
        (tab return feed backslash quoted : Bool)
        → eqb c b'\t' ≡ tab
        → eqb c b'\r' ≡ return
        → eqb c b'\n' ≡ feed
        → eqb c b'\\' ≡ backslash
        → eqb c b'"' ≡ quoted
        → ((as_text c ≡ c ∷ []) × (eqb c b'"' ≡ false))
          ⊎ ((d : ℕ) × (as_text c ≡ b'\\' ∷ d ∷ []) × (eqb d b'\\' ≡ eqb c b'\\'))
    by_tests true _ _ _ _ e _ _ _ _ = inr (b't', ground arith, ground arith)
    by_tests false true _ _ _ e f _ _ _ = inr (b'r', ground arith, ground arith)
    by_tests false false true _ _ e f g _ _ = inr (b'n', ground arith, ground arith)
    by_tests false false false true _ e f g h _ = inr (b'\\', ground arith, ground arith)
    by_tests false false false false true e f g h k = inr (b'"', ground arith, ground arith)
    by_tests false false false false false e f g h k = inl (ground arith, k)

split_from-as_text :
    (b : Bool) (depth : Depth) (since : Text) (c : ℕ) (t : Text)
    → split_from true b depth since (as_text c ++ t)
      ≡ split_from true (eqb c b'\\') depth (since ++ as_text c) t
split_from-as_text b depth since c t = elim (as_text-cases c) [
  | inl (e, plain) ↦
      ap (λ s. split_from true b depth since (s ++ t)) e
      ∙ split_from-quoted b depth since c t (ground arith)
      ∙ ap (λ s. split_from true (eqb c b'\\') depth (since ++ s) t) (sym e)
  | inr (d, e, same) ↦
      ap (λ s. split_from true b depth since (s ++ t)) e
      ∙ split_from-quoted b depth since b'\\' (d ∷ t) (ground arith)
      ∙ split_from-quoted true depth (since ++ b'\\' ∷ []) d t (ground arith)
      ∙ ap (λ s. split_from true (eqb d b'\\') depth s t) (append_assoc since (b'\\' ∷ []) (d ∷ []))
      ∙ ap (λ x. split_from true x depth (since ++ b'\\' ∷ d ∷ []) t) same
      ∙ ap (λ s. split_from true (eqb c b'\\') depth (since ++ s) t) (sym e)
]

pub split_from-escape_all :
    (b : Bool) (since : Text) (bytes : Bytes)
    → split_from true b (inside 0) since (escape_all bytes ++ text "\"")
      ≡ trimmed (since ++ (escape_all bytes ++ text "\"")) ∷ []
unfolding split_from
split_from-escape_all b since [] = ground arith
split_from-escape_all b since (c ∷ bytes) =
    ap (split_from true b (inside 0) since)
      (append_assoc (as_text c) (escape_all bytes) (text "\""))
    ∙ split_from-as_text b (inside 0) since c (escape_all bytes ++ text "\"")
    ∙ split_from-escape_all (eqb c b'\\') (since ++ as_text c) bytes
    ∙ ap (λ t. trimmed t ∷ [])
        (append_assoc since (as_text c) (escape_all bytes ++ text "\"")
          ∙ ap (◌++◌ since) (sym (append_assoc (as_text c) (escape_all bytes) (text "\""))))

-- Inert bytes within brackets, and the bracket that ends them.
pub split_from-inert :
    (b : Bool) (since s : Text)
    → All IsInert s
    → split_from false b (inside 1) since (s ++ text ">") ≡ trimmed (since ++ (s ++ text ">")) ∷ []
unfolding split_from
split_from-inert b since [] h = ground arith
split_from-inert b since (c ∷ s) h = ground (
  arith,
  split_from-inert (eqb c b'\\') (since ++ c ∷ []) s h.1,
  append_assoc since (c ∷ []) (s ++ text ">"),
)

upper_digit-IsInert : (n : ℕ) → n < 16 → IsInert (upper_digit n)
upper_digit-IsInert n h = (λ e. ground arith, λ e. ground arith, ground arith, ground arith)

space-IsInert : IsInert 32
space-IsInert = (λ e. omega (arith, e), λ e. omega (arith, e), refl, refl)

spaced-IsInert : (t : Text) → All IsInert t → All IsInert (spaced t)
spaced-IsInert [] h = tt
spaced-IsInert (c ∷ t) h = All-append IsInert (c ∷ t) (32 ∷ []) h (space-IsInert, tt)

pub hex_from-IsInert :
    (t : Text) (bytes : Bytes) → All IsInert t → AreOctets bytes → All IsInert (hex_from t bytes)
hex_from-IsInert t [] h o = h
hex_from-IsInert t (octet ∷ bytes) h o =
    hex_from-IsInert (append_hex t octet) bytes
      (All-append IsInert (spaced t) _ (spaced-IsInert t h) (
        upper_digit-IsInert (octet / 16) (omega (arith, o.0)),
        (upper_digit-IsInert (octet % 16) (omega arith), tt),
      ))
      o.1
