-- ===== src/Prelude/Lists.antt =====
-- Lists measured and indexed by native numbers, under the library's names.
use Prim.Native.Nat.{ℕ, zero, suc, ◌+◌, min}
use mathlib.Core.Path.{◌≡◌, refl}
use mathlib.Core.Logic.{◌⊎◌, inl, inr}
use mathlib.Core.Bool.{Bool, true, ◌&&◌, ◌||◌, false}
use mathlib.Core.List.{List, [], ◌∷◌, ◌++◌}
use mathlib.Core.Option.{Option, none, some}
use native.Mathlib.Omega.{arith}

module _ {ℓ} {A : Type ℓ} where
  abbrev pub length : List A → ℕ
  length [] = 0
  length (x ∷ xs) = suc (length xs)

  abbrev pub get_elem? : List A → ℕ → Option A
  get_elem? [] i = none
  get_elem? (x ∷ xs) zero = some x
  get_elem? (x ∷ xs) (suc i) = get_elem? xs i

  abbrev pub any : (A → Bool) → List A → Bool
  any p [] = false
  any p (x ∷ xs) = p x || any p xs

  abbrev pub all : (A → Bool) → List A → Bool
  all p [] = true
  all p (x ∷ xs) = p x && all p xs

  pub length-append : (xs ys : List A) → length (xs ++ ys) ≡ length xs + length ys
  length-append [] ys = omega arith
  length-append (x ∷ xs) ys = omega (arith, length-append xs ys)

  pub get_elem?-length : (xs : List A) → get_elem? xs (length xs) ≡ none
  get_elem?-length [] = refl
  get_elem?-length (x ∷ xs) = get_elem?-length xs

  -- The element behind a prefix stands at the prefix's length.
  pub get_elem?-length_append :
      (xs : List A) (x : A) (ys : List A) → get_elem? (xs ++ x ∷ ys) (length xs) ≡ some x
  get_elem?-length_append [] x ys = refl
  get_elem?-length_append (z ∷ xs) x ys = get_elem?-length_append xs x ys

module _ {ℓ} {A : Type ℓ} where
  abbrev pub take : ℕ → List A → List A
  take zero xs = []
  take (suc n) [] = []
  take (suc n) (x ∷ xs) = x ∷ take n xs

  abbrev pub drop : ℕ → List A → List A
  drop zero xs = xs
  drop (suc n) [] = []
  drop (suc n) (x ∷ xs) = drop n xs

  pub length-take : (n : ℕ) (xs : List A) → length (take n xs) ≡ min n (length xs)
  length-take zero xs = omega arith
  length-take (suc n) [] = omega arith
  length-take (suc n) (x ∷ xs) = omega (arith, length-take n xs)

-- An element of a list, and what holds of each, by recursion.
abbrev pub Elem : {A : Type 0} → A → List A → Type 0
Elem a [] = ⊥
Elem a (x ∷ xs) = (a ≡ x) ⊎ Elem a xs

abbrev pub All : {A : Type 0} → (A → Type 0) → List A → Type 0
All P [] = Unit
All P (x ∷ xs) = P x × All P xs

-- An element of a list with one more at its end.
pub Elem-append_one :
    {A : Type 0} (a b : A) (xs : List A) → Elem a (xs ++ b ∷ []) → Elem a xs ⊎ (a ≡ b)
Elem-append_one a b [] (inl e) = inr e
Elem-append_one a b [] (inr none_left) = absurd none_left
Elem-append_one a b (x ∷ xs) (inl e) = inl (inl e)
Elem-append_one a b (x ∷ xs) (inr later) = elim (Elem-append_one a b xs later) [
  | inl here ↦ inl (inr here)
  | inr e ↦ inr e
]

pub Elem-old : {A : Type 0} (a b : A) (xs : List A) → Elem a xs → Elem a (xs ++ b ∷ [])
Elem-old a b [] none_left = absurd none_left
Elem-old a b (x ∷ xs) (inl e) = inl e
Elem-old a b (x ∷ xs) (inr later) = inr (Elem-old a b xs later)

pub Elem-new : {A : Type 0} (b : A) (xs : List A) → Elem b (xs ++ b ∷ [])
Elem-new b [] = inl refl
Elem-new b (x ∷ xs) = inr (Elem-new b xs)
