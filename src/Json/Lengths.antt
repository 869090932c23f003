-- ===== src/Json/Lengths.antt =====
-- How much text is left behind what the parser has read.
use thorium.Prelude.{
  ℕ, suc, ◌≤◌, ◌≡◌, sym, ap, Bool, true, false, Option, none, some, [], ◌∷◌, Text, eqb,
  if◌then◌else◌, length, arith,
}
use thorium.Json.{
  Piece, closes, escapes, plain, Escape, stands_for, code_follows, unknown, piece, escape, prepend,
  Reading, between, escaped, code, code_one, code_two, code_three, read_string, whole_code, strtoul,
}
use thorium.Json.Parser.{
  Json, Parsing, read, refused, out_of_fuel, skip_space, at_front, take_char, spelled, literal,
  number_chars,
}

-- What is left is no longer than that.
abbrev pub Left : {A : Type 0} → ℕ → Option (A × Text) → Type 0
Left n none = Unit
Left n (some (a, rest)) = length rest ≤ n

abbrev pub Behind : ℕ → Option Text → Type 0
Behind n none = Unit
Behind n (some rest) = length rest ≤ n

-- The fuel was enough, and no more is left than that.
abbrev pub Ends : ℕ → Parsing → Type 0
Ends n (read node rest) = length rest ≤ n
Ends n refused = Unit
Ends n out_of_fuel = ⊥

pub length-skip_space : (t : Text) → length (skip_space t) ≤ length t
unfolding skip_space
length-skip_space [] = omega arith
length-skip_space (c ∷ t) = ground (arith, length-skip_space t)

pub Left-prepend : (n c : ℕ) (o : Option (Text × Text)) → Left n o → Left (suc n) (prepend c o)
Left-prepend n c none h = tt
Left-prepend n c (some (value, rest)) h = omega arith

pub Left-suc : (n : ℕ) (o : Option (Text × Text)) → Left n o → Left (suc n) o
Left-suc n none h = tt
Left-suc n (some (value, rest)) h = omega arith

pub read_string-Left : (reading : Reading) (t : Text) → Left (length t) (read_string reading t)
unfolding read_string
read_string-Left reading [] = tt
read_string-Left between (c ∷ t) =
    by_piece (piece c) (read_string-Left between t) (read_string-Left escaped t)
  where
    by_piece :
        (p : Piece)
        → Left (length t) (read_string between t)
        → Left (length t) (read_string escaped t)
        → Left (suc (length t)) (elim p [
          | closes ↦ some ([], t)
          | escapes ↦ read_string escaped t
          | plain ↦ prepend c (read_string between t)
        ])
    by_piece closes h k = omega arith
    by_piece escapes h k = Left-suc (length t) (read_string escaped t) k
    by_piece plain h k = Left-prepend (length t) c (read_string between t) h
read_string-Left escaped (c ∷ t) =
    by_escape (escape c) (read_string-Left between t) (read_string-Left code t)
  where
    by_escape :
        (e : Escape)
        → Left (length t) (read_string between t)
        → Left (length t) (read_string code t)
        → Left (suc (length t)) (elim e [
          | stands_for b ↦ prepend b (read_string between t)
          | code_follows ↦ read_string code t
          | unknown ↦ none
        ])
    by_escape (stands_for b) h k = Left-prepend (length t) b (read_string between t) h
    by_escape code_follows h k = Left-suc (length t) (read_string code t) k
    by_escape unknown h k = tt
read_string-Left code (h3 ∷ t) =
    Left-suc (length t) (read_string (code_one h3) t) (read_string-Left (code_one h3) t)
read_string-Left (code_one h3) (h2 ∷ t) =
    Left-suc (length t) (read_string (code_two h3 h2) t) (read_string-Left (code_two h3 h2) t)
read_string-Left (code_two h3 h2) (h1 ∷ t) =
    Left-suc (length t) (read_string (code_three h3 h2 h1) t)
      (read_string-Left (code_three h3 h2 h1) t)
read_string-Left (code_three h3 h2 h1) (h0 ∷ t) =
    by_code (whole_code (strtoul (h3 ∷ h2 ∷ h1 ∷ h0 ∷ []))) (read_string-Left between t)
  where
    by_code :
        (o : Option ℕ)
        → Left (length t) (read_string between t)
        → Left
            (suc (length t))
            (elim o [ none ↦ none | some b ↦ prepend b (read_string between t) ])
    by_code none h = tt
    by_code (some b) h = Left-prepend (length t) b (read_string between t) h

pub at_front-Behind :
    (expected : ℕ) (t : Text) (n : ℕ) → length t ≤ suc n → Behind n (at_front expected t)
at_front-Behind expected [] n h = tt
at_front-Behind expected (c ∷ t) n h = by_test (eqb c expected)
  where
    by_test : (here : Bool) → Behind n (if here then some t else none)
    by_test true = omega arith
    by_test false = tt

pub take_char-Behind :
    (expected : ℕ) (t : Text) (n : ℕ) → length t ≤ suc n → Behind n (take_char expected t)
unfolding take_char
take_char-Behind expected t n h =
    at_front-Behind expected (skip_space t) n (omega (arith, length-skip_space t))

pub take_char-shorter :
    (expected : ℕ) (t more : Text) → take_char expected t ≡ some more → suc (length more) ≤ length t
unfolding take_char
take_char-shorter expected t more e = by_front (skip_space t) (length-skip_space t) e
  where
    by_test :
        (here : Bool) (u : Text)
        → (if here then some u else none) ≡ some more
        → length more ≡ length u
    by_test true u e = let same : u ≡ more = cc in ap length (sym same)
    by_test false u e = absurd cc

    by_front :
        (u : Text)
        → length u ≤ length t
        → at_front expected u ≡ some more
        → suc (length more) ≤ length t
    by_front [] h e = absurd cc
    by_front (c ∷ u) h e = omega (arith, by_test (eqb c expected) u e)

pub spelled-Behind : (s t : Text) → Behind (length t) (spelled s t)
unfolding spelled
spelled-Behind [] t = omega arith
spelled-Behind (c ∷ s) [] = tt
spelled-Behind (c ∷ s) (d ∷ t) = by_test (eqb d c) (spelled s t) (spelled-Behind s t)
  where
    by_test :
        (here : Bool) (o : Option Text)
        → Behind (length t) o
        → Behind (suc (length t)) (if here then o else none)
    by_test true none h = tt
    by_test true (some rest) h = omega arith
    by_test false o h = tt

pub literal-Ends : (n : ℕ) (node : Json) (o : Option Text) → Behind n o → Ends n (literal node o)
literal-Ends n node none h = tt
literal-Ends n node (some rest) h = h

pub length-number_chars : (t : Text) → length (number_chars t).2 ≤ length t
unfolding number_chars
length-number_chars [] = omega arith
length-number_chars (c ∷ t) = ground (arith, length-number_chars t)

pub Behind-le : (m n : ℕ) (o : Option Text) → m ≤ n → Behind m o → Behind n o
Behind-le m n none le h = tt
Behind-le m n (some rest) le h = omega arith

pub Left-le : (m n : ℕ) (o : Option (Text × Text)) → m ≤ n → Left m o → Left n o
Left-le m n none le h = tt
Left-le m n (some (value, rest)) le h = omega arith

pub Ends-le : (m n : ℕ) (p : Parsing) → m ≤ n → Ends m p → Ends n p
Ends-le m n (read node rest) le h = omega arith
Ends-le m n refused le h = tt
Ends-le m n out_of_fuel le h = h
