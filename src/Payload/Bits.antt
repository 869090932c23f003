-- ===== src/Payload/Bits.antt =====
-- The bits of a number, and those of `bit_or`, `bit_and` and `bit_xor`, for the operators of
-- framework/core/src/quantities/bytes.cpp.
use Prim.Native.Nat.{
  bit_and, bit_or, bit_xor, digits, differ, max, bit_and-bitwise, bit_or-bitwise, bit_xor-bitwise,
}
use thorium.Prelude.{
  ℕ, zero, suc, ◌/◌, ◌%◌, ◌≤◌, ◌<◌, min, Bool, true, false, not, ◌&&◌, ◌||◌, eqb, ◌≡◌, refl, ap,
  ◌∙◌, arith,
}

-- The binary digit at a position, the lowest first.
abbrev digit : ℕ → ℕ → ℕ
digit zero n = n % 2
digit (suc k) n = digit k (n / 2)

abbrev pub has_bit : ℕ → ℕ → Bool
has_bit k n = eqb (digit k n) 1

digit-lt : (k n : ℕ) → digit k n < 2
digit-lt zero n = omega arith
digit-lt (suc k) n = digit-lt k (n / 2)

digit_of_zero : (k : ℕ) → digit k 0 ≡ 0
digit_of_zero zero = refl
digit_of_zero (suc k) = digit_of_zero k

-- The digits of a number that is put together digit by digit.
module _ (z : ℕ → ℕ) (f : ℕ → ℕ → ℕ) (zeros : (k b : ℕ) → digit k (z b) ≡ f 0 (digit k b))
    (small : (x y : ℕ) → x < 2 → y < 2 → f x y < 2) where
  digit-digits : (k n a b : ℕ) → a ≤ n → digit k (digits z f n a b) ≡ f (digit k a) (digit k b)
  digit-digits k zero zero b h = zeros k b ∙ ap (λ x. f x (digit k b)) (rw (digit_of_zero k))
  digit-digits k zero (suc a) b h = absurd (omega arith)
  digit-digits k (suc n) zero b h = zeros k b ∙ ap (λ x. f x (digit k b)) (rw (digit_of_zero k))
  digit-digits zero (suc n) (suc a) b h =
      omega (arith, small (suc a % 2) (b % 2) (omega arith) (omega arith))
  digit-digits (suc k) (suc n) (suc a) b h =
      ap (digit k) (omega (arith, small (suc a % 2) (b % 2) (omega arith) (omega arith)))
      ∙ digit-digits k n (suc a / 2) (b / 2) (omega arith)

-- Digits of a truth value.
abbrev as_digit : Bool → ℕ
as_digit false = 0
as_digit true = 1

abbrev pub differs : Bool → Bool → Bool
differs a b = not a && b || a && not b

truth :
    (f : ℕ → ℕ → ℕ) (op : Bool → Bool → Bool)
    → ((p q : Bool) → f (as_digit p) (as_digit q) ≡ as_digit (op p q))
    → (x y : ℕ) → x < 2
    → y < 2
    → eqb (f x y) 1 ≡ op (eqb x 1) (eqb y 1)
truth f op agrees x y hx hy = by_digits (eqb x 1) (eqb y 1) (as_digit-eqb x hx) (as_digit-eqb y hy)
  where
    as_digit-eqb : (n : ℕ) → n < 2 → n ≡ as_digit (eqb n 1)
    as_digit-eqb zero h = refl
    as_digit-eqb (suc zero) h = refl
    as_digit-eqb (suc (suc n)) h = absurd (omega arith)

    eqb-as_digit : (p : Bool) → eqb (as_digit p) 1 ≡ p
    eqb-as_digit false = refl
    eqb-as_digit true = refl

    by_digits : (p q : Bool) → x ≡ as_digit p → y ≡ as_digit q → eqb (f x y) 1 ≡ op p q
    by_digits p q e g = rw (e, g, agrees p q) (eqb-as_digit (op p q))

or_small : (x y : ℕ) → x < 2 → y < 2 → max x y < 2
or_small x y hx hy = omega arith

and_small : (x y : ℕ) → x < 2 → y < 2 → min x y < 2
and_small x y hx hy = omega arith

xor_small : (x y : ℕ) → x < 2 → y < 2 → differ x y < 2
xor_small zero y hx hy = hy
xor_small (suc x) zero hx hy = hx
xor_small (suc x) (suc y) hx hy = xor_small x y (omega arith) (omega arith)

-- A bit of a disjunction, a conjunction and an exclusive or.
pub has_bit-bit_or : (k a b : ℕ) → has_bit k (bit_or a b) ≡ (has_bit k a || has_bit k b)
has_bit-bit_or k a b =
    ap (has_bit k) (bit_or-bitwise a b)
    ∙ ap (λ n. eqb n 1)
        (digit-digits (λ b. b) max (λ k b. omega arith) or_small k a a b (omega arith))
    ∙ truth max (◌||◌) (λ p q. by_cases p q) (digit k a) (digit k b) (digit-lt k a) (digit-lt k b)
  where
    by_cases : (p q : Bool) → max (as_digit p) (as_digit q) ≡ as_digit (p || q)
    by_cases false false = refl
    by_cases false true = refl
    by_cases true false = refl
    by_cases true true = refl

pub has_bit-bit_and : (k a b : ℕ) → has_bit k (bit_and a b) ≡ (has_bit k a && has_bit k b)
has_bit-bit_and k a b =
    ap (has_bit k) (bit_and-bitwise a b)
    ∙ ap (λ n. eqb n 1)
        (digit-digits (λ b. zero) min (λ k b. omega (arith, digit_of_zero k)) and_small k a a b
          (omega arith))
    ∙ truth min (◌&&◌) (λ p q. by_cases p q) (digit k a) (digit k b) (digit-lt k a) (digit-lt k b)
  where
    by_cases : (p q : Bool) → min (as_digit p) (as_digit q) ≡ as_digit (p && q)
    by_cases false false = refl
    by_cases false true = refl
    by_cases true false = refl
    by_cases true true = refl

pub has_bit-bit_xor : (k a b : ℕ) → has_bit k (bit_xor a b) ≡ differs (has_bit k a) (has_bit k b)
has_bit-bit_xor k a b =
    ap (has_bit k) (bit_xor-bitwise a b)
    ∙ ap (λ n. eqb n 1) (digit-digits (λ b. b) differ (λ k b. refl) xor_small k a a b (omega arith))
    ∙ truth differ differs (λ p q. by_cases p q) (digit k a) (digit k b) (digit-lt k a)
        (digit-lt k b)
  where
    by_cases : (p q : Bool) → differ (as_digit p) (as_digit q) ≡ as_digit (differs p q)
    by_cases false false = refl
    by_cases false true = refl
    by_cases true false = refl
    by_cases true true = refl
