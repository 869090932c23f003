-- ===== src/Payload/Parts.antt =====
-- The parts that are cut out of a payload.
use thorium.Prelude.{
  ℕ, zero, suc, ◌+◌, ◌-◌, ◌<◌, ◌≡◌, ◌↔◌, refl, sym, ap, subst, ◌∙◌, ◌⊎◌, inl, inr, true, false,
  ◌||◌, none, some, [], ◌∷◌, ◌++◌, text_beq_iff, arith, ltb, if◌then◌else◌, length, length-append,
  take, drop, Bool-cases,
}
use thorium.Session.{Bytes}
use thorium.Payload.{slice, starts_with, ends_with, before_match, before}

take-length_append : (xs ys : Bytes) → take (length xs) (xs ++ ys) ≡ xs
take-length_append [] ys = refl
take-length_append (x ∷ xs) ys = ap (◌∷◌ x) (take-length_append xs ys)

drop-length_append : (xs ys : Bytes) → drop (length xs) (xs ++ ys) ≡ ys
drop-length_append [] ys = refl
drop-length_append (x ∷ xs) ys = drop-length_append xs ys

-- A slice at the length of the octets in front of it, as long as the part, is the part.
slice-middle :
    (front part back : Bytes)
    → slice (length front) (length part) (front ++ (part ++ back)) ≡ some part
unfolding slice
slice-middle front part back =
    let inside : (ltb (length (front ++ (part ++ back))) (length front)
          || ltb (length (front ++ (part ++ back)) - length front) (length part))
        ≡ false =
      ground (arith, length-append front (part ++ back), length-append part back) in
    subst
      (λ b.
        (if b
          then none
          else some (take (length part) (drop (length front) (front ++ (part ++ back)))))
        ≡ some part)
      (sym inside)
      (ap some (
        ap (take (length part)) (drop-length_append front (part ++ back))
        ∙ take-length_append part back))

-- A slice is refused exactly when it ends behind the payload.
slice-none_iff :
    (offset count : ℕ) (bytes : Bytes)
    → (slice offset count bytes ≡ none) ↔ (length bytes < offset + count)
unfolding slice
slice-none_iff offset count bytes = ground arith

pub starts_with-append : (prefix bytes : Bytes) → starts_with prefix (prefix ++ bytes) ≡ true
unfolding starts_with
starts_with-append prefix bytes =
    ground (
      arith,
      length-append prefix bytes,
      take-length_append prefix bytes,
      text_beq_iff prefix prefix,
    )

pub ends_with-append : (bytes suffix : Bytes) → ends_with suffix (bytes ++ suffix) ≡ true
unfolding ends_with
ends_with-append bytes suffix =
    let here : length (bytes ++ suffix) - length suffix ≡ length bytes =
      omega (arith, length-append bytes suffix) in
    ground (
      arith,
      length-append bytes suffix,
      ap (λ n. drop n (bytes ++ suffix)) here ∙ drop-length_append bytes suffix,
      text_beq_iff suffix suffix,
    )

-- What stands in front of the first occurrence of a delimiter.
pub record Before (delimiter bytes front : Bytes) : Type 0 where
  pub rest : Bytes
  pub split : front ++ rest ≡ bytes
  pub delimited : (rest ≡ []) ⊎ (starts_with delimiter rest ≡ true)
  pub first : (i : ℕ) → i < length front → starts_with delimiter (drop i bytes) ≡ false

not_earlier :
    (delimiter : Bytes) (b : ℕ) (bytes front : Bytes)
    → starts_with delimiter (b ∷ bytes) ≡ false
    → ((i : ℕ) → i < length front → starts_with delimiter (drop i bytes) ≡ false)
    → (i : ℕ) → i < length (b ∷ front)
    → starts_with delimiter (drop i (b ∷ bytes)) ≡ false
not_earlier delimiter b bytes front here later zero h = here
not_earlier delimiter b bytes front here later (suc i) h = later i (omega arith)

before_match-Before :
    (delimiter bytes : Bytes) → Before delimiter bytes (before_match delimiter bytes)
unfolding before_match
before_match-Before delimiter [] = record {
  rest = [];
  split = refl;
  delimited = inl refl;
  first = λ i h. absurd (omega arith);
}
before_match-Before delimiter (b ∷ bytes) = elim (Bool-cases (starts_with delimiter (b ∷ bytes))) [
  | inl e ↦
      subst (λ c. Before delimiter (b ∷ bytes) (if c then [] else b ∷ before_match delimiter bytes))
        (sym e)
        (record {
          rest = b ∷ bytes;
          split = refl;
          delimited = inr e;
          first = λ i h. absurd (omega arith);
        })
  | inr e ↦
      let later = before_match-Before delimiter bytes in
      subst (λ c. Before delimiter (b ∷ bytes) (if c then [] else b ∷ before_match delimiter bytes))
        (sym e)
        (record {
          rest = later.rest;
          split = ap (◌∷◌ b) later.split;
          delimited = later.delimited;
          first = not_earlier delimiter b bytes (before_match delimiter bytes) e later.first;
        })
]

-- `before` cuts the payload where a delimiter that is not empty occurs first, and keeps the whole of a
-- payload that the delimiter does not occur in.
before-Before : (d : ℕ) (ds bytes : Bytes) → Before (d ∷ ds) bytes (before (d ∷ ds) bytes)
unfolding before
before-Before d ds bytes = before_match-Before (d ∷ ds) bytes
