-- ===== src/Recording/Samples.antt =====
-- Packing and unpacking samples undo each other.
use thorium.Prelude.{
  ℕ, ◌%◌, ◌^◌, ◌<◌, ◌≡◌, ◌≢◌, ◌⊎◌, inl, inr, Bool-cases, eqb_iff, refl, ap, ◌∙◌, none, some, List,
  [], ◌∷◌, ◌++◌, arith, eqb, length,
}
use thorium.Session.{Bytes}
use thorium.Payload.Hex.{AreOctets}
use thorium.Recording.{octets_from, pack_samples, bits_from, samples_of, unpack_samples}

-- Bit patterns of 64 bits.
abbrev pub AreSamples : List ℕ → Type 0
AreSamples [] = Unit
AreSamples (bits ∷ samples) = (bits < 2 ^ 64) × AreSamples samples

bits_from-octets_from : (bits : ℕ) → bits < 2 ^ 64 → bits_from 0 (octets_from 8 0 bits) ≡ bits
bits_from-octets_from bits h = omega arith

samples_of-pack_samples :
    (samples : List ℕ) → AreSamples samples → samples_of (pack_samples samples) ≡ samples
unfolding pack_samples
samples_of-pack_samples [] h = refl
samples_of-pack_samples (bits ∷ samples) (small, h) =
    ap (λ b. b ∷ samples_of (pack_samples samples)) (bits_from-octets_from bits small)
    ∙ ap (◌∷◌ bits) (samples_of-pack_samples samples h)

length-pack_samples : (samples : List ℕ) → length (pack_samples samples) % 8 ≡ 0
unfolding pack_samples
length-pack_samples [] = refl
length-pack_samples (bits ∷ samples) = omega (arith, length-pack_samples samples)

-- The octets of a trace's samples are unpacked to the same samples.
pub unpack_samples-pack_samples :
    (samples : List ℕ) → AreSamples samples → unpack_samples (pack_samples samples) ≡ some samples
unfolding unpack_samples
unpack_samples-pack_samples samples h =
    ground (arith, length-pack_samples samples, samples_of-pack_samples samples h)

cons_congr : {x y : ℕ} {xs ys : Bytes} → x ≡ y → xs ≡ ys → x ∷ xs ≡ y ∷ ys
cons_congr e f = cc

octets_from-bits_from :
    (a b c d e f g h : ℕ)
    → AreOctets (a ∷ b ∷ c ∷ d ∷ e ∷ f ∷ g ∷ h ∷ [])
    → octets_from 8 0 (bits_from 0 (a ∷ b ∷ c ∷ d ∷ e ∷ f ∷ g ∷ h ∷ []))
      ≡ a ∷ b ∷ c ∷ d ∷ e ∷ f ∷ g ∷ h ∷ []
octets_from-bits_from a b c d e f g h (ha, (hb, (hc, (hd, (he, (hf, (hg, (hh, _)))))))) =
    cons_congr (omega arith) (
      cons_congr (omega arith) (
        cons_congr (omega arith) (
          cons_congr (omega arith) (
            cons_congr (omega arith) (
              cons_congr (omega arith)
                (cons_congr (omega arith) (cons_congr (omega arith) refl)))))))

pack_samples-samples_of :
    (octets : Bytes)
    → AreOctets octets
    → length octets % 8 ≡ 0
    → pack_samples (samples_of octets) ≡ octets
unfolding pack_samples
pack_samples-samples_of [] small even = refl
pack_samples-samples_of (a ∷ []) small even = absurd (omega arith)
pack_samples-samples_of (a ∷ b ∷ []) small even = absurd (omega arith)
pack_samples-samples_of (a ∷ b ∷ c ∷ []) small even = absurd (omega arith)
pack_samples-samples_of (a ∷ b ∷ c ∷ d ∷ []) small even = absurd (omega arith)
pack_samples-samples_of (a ∷ b ∷ c ∷ d ∷ e ∷ []) small even = absurd (omega arith)
pack_samples-samples_of (a ∷ b ∷ c ∷ d ∷ e ∷ f ∷ []) small even = absurd (omega arith)
pack_samples-samples_of (a ∷ b ∷ c ∷ d ∷ e ∷ f ∷ g ∷ []) small even = absurd (omega arith)
pack_samples-samples_of (a ∷ b ∷ c ∷ d ∷ e ∷ f ∷ g ∷ h ∷ rest)
      (ha, (hb, (hc, (hd, (he, (hf, (hg, (hh, small)))))))) even =
    ap (λ octets. octets ++ pack_samples (samples_of rest))
      (octets_from-bits_from a b c d e f g h (ha, (hb, (hc, (hd, (he, (hf, (hg, (hh, tt)))))))))
    ∙ ap (λ xs. a ∷ b ∷ c ∷ d ∷ e ∷ f ∷ g ∷ h ∷ xs)
        (pack_samples-samples_of rest small (omega arith))

-- Octets that unpack are packed to the same octets again, and those whose number is no multiple of 8
-- do not unpack.
pub unpack_samples-cases :
    (octets : Bytes)
    → AreOctets octets
    → ((samples : List ℕ) × (unpack_samples octets ≡ some samples)
        × (pack_samples samples ≡ octets))
      ⊎ ((unpack_samples octets ≡ none) × (length octets % 8 ≢ 0))
unfolding unpack_samples
unpack_samples-cases octets small = elim (Bool-cases (eqb (length octets % 8) 0)) [
  | inl e ↦ inl (
    samples_of octets,
    ground arith,
    pack_samples-samples_of octets small ((eqb_iff (length octets % 8) 0).0 e),
  )
  | inr e ↦ inr (ground arith, λ h. ground arith)
]
