-- ===== src/Recording/Columns.antt =====
-- The value columns of a recording's rows are read back as what was written.
use thorium.Prelude.{
  ℕ, ◌≡◌, refl, sym, ap, subst, ◌∙◌, none, some, List, [], ◌∷◌, Text, arith, eqb, if◌then◌else◌,
  Bool-cases, inl, inr, true,
}
use thorium.Session.{Bytes}
use thorium.Payload.{
  HexState, scanning, stopped_at, scan, scan_all, conclude, from_hex, hex, parsed,
}
use thorium.Payload.Hex.{AreOctets, from_hex-hex}
use thorium.Recording.{
  pack_samples, erase_spaces, unspaced_hex, trace_column, unpack_parsed, trace_samples,
}
use thorium.Recording.Samples.{AreSamples, unpack_samples-pack_samples}

scan-blank : (c : ℕ) (state : HexState) → eqb c 32 ≡ true → scan c state ≡ state
scan-blank c (scanning pending bytes) e = ground arith
scan-blank c (stopped_at b) e = refl

scan_all-erase_spaces :
    (s : Text) (state : HexState) → scan_all (erase_spaces s) state ≡ scan_all s state
scan_all-erase_spaces [] state = refl
scan_all-erase_spaces (c ∷ s) state = elim (Bool-cases (eqb c 32)) [
  | inl e ↦
      subst
        (λ b.
          scan_all (if b then erase_spaces s else c ∷ erase_spaces s) state
          ≡ scan_all s (scan c state))
        (sym e) (scan_all-erase_spaces s state ∙ ap (scan_all s) (sym (scan-blank c state e)))
  | inr e ↦
      subst
        (λ b.
          scan_all (if b then erase_spaces s else c ∷ erase_spaces s) state
          ≡ scan_all s (scan c state))
        (sym e) (scan_all-erase_spaces s (scan c state))
]

-- The column that a payload is written in is read as the same octets.
from_hex-unspaced_hex :
    (payload : Bytes) → AreOctets payload → from_hex (unspaced_hex payload) ≡ parsed payload
unfolding from_hex
from_hex-unspaced_hex payload o =
    ap conclude (scan_all-erase_spaces (hex payload) (scanning none [])) ∙ from_hex-hex payload o

pack_samples-AreOctets : (samples : List ℕ) → AreOctets (pack_samples samples)
unfolding pack_samples
pack_samples-AreOctets [] = tt
pack_samples-AreOctets (bits ∷ samples) = (
  omega arith,
  (
    omega arith,
    (
      omega arith,
      (
        omega arith,
        (omega arith, (omega arith, (omega arith, (omega arith, pack_samples-AreOctets samples)))),
      ),
    ),
  ),
)

-- The column that the samples of a trace are written in is read as the same samples, bit for bit.
pub trace_samples-trace_column :
    (samples : List ℕ) → AreSamples samples → trace_samples (trace_column samples) ≡ some samples
trace_samples-trace_column samples h =
    ap unpack_parsed (from_hex-unspaced_hex (pack_samples samples) (pack_samples-AreOctets samples))
    ∙ unpack_samples-pack_samples samples h
