-- ===== src/Payload/Examples.antt =====
-- The payload at a reply of an instrument.
use thorium.Prelude.{arith, ◌&&◌, ◌||◌, ◌≡◌, refl, [], ◌∷◌, text}
use thorium.Session.{Bytes}
use thorium.Payload.Hex.{AreOctets}
use thorium.Payload.Bits.{differs}
use thorium.Payload.Bitwise.{
  or_assign, and_assign, xor_assign, complement, Operated, TurnedOver, operators-Operated,
}
use thorium.Payload.{parsed, from_hex, hex_digit}

abbrev reply : Bytes
reply = 1 ∷ 254 ∷ 13 ∷ 10 ∷ 7 ∷ []

lower_case : from_hex (text "01fe 0D0a07") ≡ parsed reply
unfolding from_hex hex_digit
lower_case = refl

reply_octets : AreOctets reply
reply_octets = (omega arith, (omega arith, (omega arith, (omega arith, (omega arith, tt)))))

abbrev mask : Bytes
mask = 255 ∷ 15 ∷ 240 ∷ 10 ∷ 1 ∷ []

operators-Operated_example :
    Operated (◌||◌) reply mask (or_assign reply mask)
    × Operated (◌&&◌) reply mask (and_assign reply mask)
    × Operated differs reply mask (xor_assign reply mask)
    × TurnedOver reply (complement reply)
operators-Operated_example = operators-Operated reply mask reply_octets
