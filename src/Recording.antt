-- ===== src/Recording.antt =====
-- framework/core/src/session/recording.cpp: the samples of a trace as octets, least significant octet
-- first, and back. A `double` is its bit pattern, so `std::bit_cast` is the identity, and the parts of
-- `|=` have no bit in common, so they are added.
pub mod Samples
pub mod Columns
mod Examples
use thorium.Prelude.{
  ℕ, zero, suc, ◌+◌, ◌*◌, ◌/◌, ◌%◌, ◌^◌, Option, none, some, List, [], ◌∷◌, ◌++◌, eqb,
  if◌then◌else◌, length, Text,
}
use thorium.Session.{Bytes}
use thorium.Payload.{hex, Parsed, parsed, not_a_digit, odd_digits, from_hex}

-- `kSampleOctets`
abbrev pub sample_octets : ℕ
sample_octets = 8

-- The loop over one sample: `( bits >> ( 8 * i)) & 0xFF` for each i.
abbrev pub octets_from : ℕ → ℕ → ℕ → Bytes
octets_from zero i bits = []
octets_from (suc left) i bits = (bits / 2 ^ (8 * i)) % 256 ∷ octets_from left (i + 1) bits

unfoldable pub pack_samples : List ℕ → Bytes
pack_samples [] = []
pack_samples (bits ∷ samples) = octets_from sample_octets 0 bits ++ pack_samples samples

-- `octet << ( 8 * i)` for each i.
abbrev pub bits_from : ℕ → Bytes → ℕ
bits_from i [] = 0
bits_from i (octet ∷ octets) = octet * 2 ^ (8 * i) + bits_from (i + 1) octets

-- The loop over the payload, eight octets at a time.
abbrev pub samples_of : Bytes → List ℕ
samples_of (a ∷ b ∷ c ∷ d ∷ e ∷ f ∷ g ∷ h ∷ rest) =
    bits_from 0 (a ∷ b ∷ c ∷ d ∷ e ∷ f ∷ g ∷ h ∷ []) ∷ samples_of rest
samples_of _ = []

-- `unpackSamples`, with none for the error that the octets are no whole number of samples.
unfoldable pub unpack_samples : Bytes → Option (List ℕ)
unpack_samples octets =
    if eqb (length octets % sample_octets) 0 then some (samples_of octets) else none

-- `std::erase( text, ' ')`
abbrev pub erase_spaces : Text → Text
erase_spaces [] = []
erase_spaces (c ∷ s) = let rest = erase_spaces s in if eqb c 32 then rest else c ∷ rest

-- `unspacedHex`
abbrev pub unspaced_hex : Bytes → Text
unspaced_hex payload = erase_spaces (hex payload)

-- The value column of a trace that is written in its row.
abbrev pub trace_column : List ℕ → Text
trace_column samples = unspaced_hex (pack_samples samples)

abbrev pub unpack_parsed : Parsed → Option (List ℕ)
unpack_parsed (parsed octets) = unpack_samples octets
unpack_parsed (not_a_digit c) = none
unpack_parsed odd_digits = none

-- What `readRecording` makes of a column that is no reference to a sidecar file, with none for its
-- exceptions.
abbrev pub trace_samples : Text → Option (List ℕ)
trace_samples column = unpack_parsed (from_hex column)
