-- ===== src/Payload/Hex.antt =====
-- `Bytes::fromHex` against `Bytes::hex`.
use thorium.Prelude.{
  ℕ, ◌+◌, ◌*◌, ◌/◌, ◌%◌, ◌<◌, ◌≡◌, refl, sym, ap, ◌∙◌, Option, none, some, [], ◌∷◌, ◌++◌, Text,
  arith, subst, inl, inr, Bool-cases, if◌then◌else◌,
}
use mathlib.Core.List.{append_assoc, append-nil}
use thorium.Session.{Bytes}
use thorium.Payload.{
  hex_digit, is_space, parsed, HexState, scanning, stopped_at, take_digit, scan, scan_all, conclude,
  from_hex, upper_digit, spaced, append_hex, hex_from, hex,
}

abbrev pub AreOctets : Bytes → Type 0
AreOctets [] = Unit
AreOctets (b ∷ bs) = (b < 256) × AreOctets bs

scan_all-append :
    (s t : Text) (state : HexState) → scan_all (s ++ t) state ≡ scan_all t (scan_all s state)
scan_all-append [] t state = refl
scan_all-append (c ∷ s) t state = scan_all-append s t (scan c state)

hex_digit-upper_digit : (n : ℕ) → n < 16 → hex_digit (upper_digit n) ≡ some n
unfolding hex_digit
hex_digit-upper_digit n h = ground arith

scan-upper_digit :
    (n : ℕ) (pending : Option ℕ) (bytes : Bytes)
    → n < 16
    → scan (upper_digit n) (scanning pending bytes)
      ≡ take_digit (upper_digit n) (some n) pending bytes
scan-upper_digit n pending bytes h = ground (arith, hex_digit-upper_digit n h)

scan_all-spaced :
    (s : Text) (bytes : Bytes)
    → scan_all s (scanning none []) ≡ scanning none bytes
    → scan_all (spaced s) (scanning none []) ≡ scanning none bytes
scan_all-spaced [] bytes h = h
scan_all-spaced (c ∷ s) bytes h =
    scan_all-append (c ∷ s) (32 ∷ []) (scanning none []) ∙ ap (scan 32) h

scan_all-octet :
    (b : ℕ) (bytes : Bytes)
    → b < 256
    → scan_all (upper_digit (b / 16) ∷ upper_digit (b % 16) ∷ []) (scanning none bytes)
      ≡ scanning none (bytes ++ b ∷ [])
scan_all-octet b bytes h =
    ap (scan (upper_digit (b % 16))) (scan-upper_digit (b / 16) none bytes (omega arith))
    ∙ scan-upper_digit (b % 16) (some (b / 16)) bytes (omega arith)
    ∙ ap (λ n. scanning none (bytes ++ n ∷ [])) (omega arith)

scan_all-hex_from :
    (bs : Bytes) (s : Text) (bytes : Bytes)
    → AreOctets bs
    → scan_all s (scanning none []) ≡ scanning none bytes
    → scan_all (hex_from s bs) (scanning none []) ≡ scanning none (bytes ++ bs)
scan_all-hex_from [] s bytes o h = h ∙ ap (scanning none) (sym (append-nil bytes))
scan_all-hex_from (b ∷ bs) s bytes (small, o) h =
    scan_all-hex_from bs (append_hex s b) (bytes ++ b ∷ []) o (
      scan_all-append (spaced s) (upper_digit (b / 16) ∷ upper_digit (b % 16) ∷ []) _
      ∙ ap (scan_all (upper_digit (b / 16) ∷ upper_digit (b % 16) ∷ [])) (scan_all-spaced s bytes h)
      ∙ scan_all-octet b bytes small)
    ∙ ap (scanning none) (append_assoc bytes (b ∷ []) bs)

-- What `hex` prints of octets, `fromHex` reads as the same octets.
pub from_hex-hex : (bs : Bytes) → AreOctets bs → from_hex (hex bs) ≡ parsed bs
unfolding from_hex hex
from_hex-hex bs o = ap conclude (scan_all-hex_from bs [] [] o refl)

-- The octets that are read so far, and the digit that waits for its second.
abbrev IsSound : HexState → Type 0
IsSound (scanning none bytes) = AreOctets bytes
IsSound (scanning (some high) bytes) = (high < 16) × AreOctets bytes
IsSound (stopped_at c) = Unit

AreOctets-append : (bs : Bytes) (b : ℕ) → AreOctets bs → b < 256 → AreOctets (bs ++ b ∷ [])
AreOctets-append [] b o h = (h, tt)
AreOctets-append (c ∷ bs) b (small, o) h = (small, AreOctets-append bs b o h)

hex_digit-lt : (c n : ℕ) → hex_digit c ≡ some n → n < 16
unfolding hex_digit
hex_digit-lt c n h = ground arith

take_digit-IsSound :
    (c : ℕ) (digit pending : Option ℕ) (bytes : Bytes)
    → ((n : ℕ) → digit ≡ some n → n < 16)
    → IsSound (scanning pending bytes)
    → IsSound (take_digit c digit pending bytes)
take_digit-IsSound c none pending bytes small sound = tt
take_digit-IsSound c (some n) none bytes small sound = (small n refl, sound)
take_digit-IsSound c (some n) (some high) bytes small (h, sound) =
    let n_small : n < 16 = small n refl in
    AreOctets-append bytes (high * 16 + n) sound (omega arith)

scan-IsSound : (c : ℕ) (state : HexState) → IsSound state → IsSound (scan c state)
scan-IsSound c (stopped_at b) sound = tt
scan-IsSound c (scanning pending bytes) sound = elim (Bool-cases (is_space c)) [
  | inl e ↦
      subst
        (λ b.
          IsSound (if b then scanning pending bytes else take_digit c (hex_digit c) pending bytes))
        (sym e) sound
  | inr e ↦
      subst
        (λ b.
          IsSound (if b then scanning pending bytes else take_digit c (hex_digit c) pending bytes))
        (sym e) (take_digit-IsSound c (hex_digit c) pending bytes (hex_digit-lt c) sound)
]

scan_all-IsSound : (s : Text) (state : HexState) → IsSound state → IsSound (scan_all s state)
scan_all-IsSound [] state sound = sound
scan_all-IsSound (c ∷ s) state sound =
    scan_all-IsSound s (scan c state) (scan-IsSound c state sound)

conclude-AreOctets :
    (state : HexState) (bs : Bytes) → IsSound state → conclude state ≡ parsed bs → AreOctets bs
conclude-AreOctets (scanning none bytes) bs sound e =
    let same : bytes ≡ bs = cc in subst AreOctets same sound
conclude-AreOctets (scanning (some high) bytes) bs sound e = absurd cc
conclude-AreOctets (stopped_at c) bs sound e = absurd cc

-- Whatever spelling `fromHex` accepts, with spaces or without and in either case, printing the bytes
-- and reading them again gives the same bytes.
from_hex-respelled :
    (s : Text) (bs : Bytes) → from_hex s ≡ parsed bs → from_hex (hex bs) ≡ parsed bs
unfolding from_hex
from_hex-respelled s bs e =
    from_hex-hex bs (conclude-AreOctets _ bs (scan_all-IsSound s (scanning none []) tt) e)
