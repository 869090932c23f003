-- ===== src/Payload/Bitwise.antt =====
-- framework/core/src/quantities/bytes.cpp: `combine` and the bitwise operators of `Bytes`. An octet is below 256,
-- so its complement is what is missing to 255. none stands for the `std::invalid_argument`.
use Prim.Native.Nat.{bit_and, bit_or, bit_xor}
use thorium.Prelude.{
  ℕ, zero, suc, ◌-◌, ◌<◌, Bool, true, false, not, ◌&&◌, ◌||◌, Option, none, some, [], ◌∷◌, eqb,
  if◌then◌else◌, length, map, ◌≡◌, ◌≢◌, refl, arith,
}
use thorium.Session.{Bytes}
use thorium.Payload.Hex.{AreOctets}
use thorium.Payload.Bits.{has_bit, differs, has_bit-bit_or, has_bit-bit_and, has_bit-bit_xor}

-- `std::transform` over two ranges of one length.
abbrev pub transformed : (ℕ → ℕ → ℕ) → Bytes → Bytes → Bytes
transformed op [] right = []
transformed op (a ∷ left) [] = a ∷ left
transformed op (a ∷ left) (b ∷ right) = op a b ∷ transformed op left right

unfoldable pub combine : (ℕ → ℕ → ℕ) → Bytes → Bytes → Option Bytes
combine op left right =
    if eqb (length left) (length right) then some (transformed op left right) else none

abbrev bool_eqb : Bool → Bool → Bool
bool_eqb true b = b
bool_eqb false b = not b

bool_eqb-same : (a b : Bool) → bool_eqb a b ≡ true → a ≡ b
bool_eqb-same true true e = refl
bool_eqb-same true false e = absurd cc
bool_eqb-same false true e = absurd cc
bool_eqb-same false false e = refl

abbrev pub or_assign : Bytes → Bytes → Option Bytes
or_assign left right = combine bit_or left right

abbrev pub and_assign : Bytes → Bytes → Option Bytes
and_assign left right = combine bit_and left right

abbrev pub xor_assign : Bytes → Bytes → Option Bytes
xor_assign left right = combine bit_xor left right

abbrev pub complement : Bytes → Bytes
complement bytes = map (λ octet. 255 - octet) bytes

-- A test of every octet below a bound, from the greatest down.
passes : (ℕ → Bool) → ℕ → Bool
passes test zero = true
passes test (suc bound) = if test bound then passes test bound else false

passes-lt :
    (test : ℕ → Bool) (octet bound : ℕ)
    → octet < bound
    → passes test bound ≡ true
    → test octet ≡ true
unfolding passes
passes-lt test octet zero small h = absurd (omega arith)
passes-lt test octet (suc bound) small h = ground (arith, passes-lt test octet bound)

-- Octet by octet and bit by bit, one text is an operation of two.
abbrev pub Combines : (Bool → Bool → Bool) → Bytes → Bytes → Bytes → Type 0
Combines op [] [] [] = Unit
Combines op (a ∷ left) (b ∷ right) (c ∷ out) =
    ((k : ℕ) → has_bit k c ≡ op (has_bit k a) (has_bit k b)) × Combines op left right out
Combines op _ _ _ = ⊥

-- The operands are refused where they differ in length, and else combined.
abbrev pub Operated : (Bool → Bool → Bool) → Bytes → Bytes → Option Bytes → Type 0
Operated op left right none = length left ≢ length right
Operated op left right (some out) = (length left ≡ length right) × Combines op left right out

transformed-Combines :
    (digitwise : ℕ → ℕ → ℕ) (op : Bool → Bool → Bool)
    → ((k a b : ℕ) → has_bit k (digitwise a b) ≡ op (has_bit k a) (has_bit k b))
    → (left right : Bytes) → length left ≡ length right
    → Combines op left right (transformed digitwise left right)
transformed-Combines digitwise op bits [] [] h = tt
transformed-Combines digitwise op bits [] (b ∷ right) h = absurd (omega arith)
transformed-Combines digitwise op bits (a ∷ left) [] h = absurd (omega arith)
transformed-Combines digitwise op bits (a ∷ left) (b ∷ right) h =
    (λ k. bits k a b, transformed-Combines digitwise op bits left right (omega arith))

combine-Operated :
    (digitwise : ℕ → ℕ → ℕ) (op : Bool → Bool → Bool)
    → ((k a b : ℕ) → has_bit k (digitwise a b) ≡ op (has_bit k a) (has_bit k b))
    → (left right : Bytes) → Operated op left right (combine digitwise left right)
unfolding combine
combine-Operated digitwise op bits left right = by_test (eqb (length left) (length right)) refl
  where
    by_test :
        (same : Bool)
        → eqb (length left) (length right) ≡ same
        → Operated op left right (if same then some (transformed digitwise left right) else none)
    by_test true e =
        let same : length left ≡ length right = ground arith in
        (same, transformed-Combines digitwise op bits left right same)
    by_test false e = λ same. ground arith

-- Every bit of an octet turned over.
abbrev pub TurnedOver : Bytes → Bytes → Type 0
TurnedOver [] [] = Unit
TurnedOver (a ∷ bytes) (c ∷ out) =
    ((k : ℕ) → k < 8 → has_bit k c ≡ not (has_bit k a)) × TurnedOver bytes out
TurnedOver _ _ = ⊥

abbrev turned_test : ℕ → ℕ → Bool
turned_test a k = bool_eqb (has_bit k (255 - a)) (not (has_bit k a))

turned_table : passes (λ a. passes (turned_test a) 8) 256 ≡ true
unfolding passes
turned_table = refl

has_bit-complement : (a k : ℕ) → a < 256 → k < 8 → has_bit k (255 - a) ≡ not (has_bit k a)
has_bit-complement a k small position = bool_eqb-same _ _ (
    passes-lt (turned_test a) k 8 position
      (passes-lt (λ x. passes (turned_test x) 8) a 256 small turned_table))

complement-TurnedOver : (bytes : Bytes) → AreOctets bytes → TurnedOver bytes (complement bytes)
complement-TurnedOver [] octets = tt
complement-TurnedOver (a ∷ bytes) octets =
    (λ k position. has_bit-complement a k octets.0 position, complement-TurnedOver bytes octets.1)

-- The operators `|`, `&` and `^` refuse two operands exactly when they differ in length, and else give
-- one octet for each pair, each bit of which is the disjunction, the conjunction or the difference
-- of the two bits; `~` gives one octet for each, with every one of its eight bits turned over.
pub operators-Operated :
    (left right : Bytes)
    → AreOctets left
    → Operated (◌||◌) left right (or_assign left right)
      × Operated (◌&&◌) left right (and_assign left right)
      × Operated differs left right (xor_assign left right)
      × TurnedOver left (complement left)
operators-Operated left right octets = (
  combine-Operated bit_or (◌||◌) has_bit-bit_or left right,
  combine-Operated bit_and (◌&&◌) has_bit-bit_and left right,
  combine-Operated bit_xor differs has_bit-bit_xor left right,
  complement-TurnedOver left octets,
)
