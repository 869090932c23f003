-- ===== src/Topology/Plan/Spellings.antt =====
-- The grammar of an address, and that `parseAddress` reads every text of it.
use thorium.Prelude.{
  ℕ, ◌+◌, ◌-◌, ◌*◌, ◌^◌, ◌≤◌, ◌<◌, ◌≡◌, ◌≢◌, refl, ◌∙◌, false, none, some, ◌⊎◌, inl, inr, [], ◌∷◌,
  ◌++◌, Text, text, text_eq, text_beq, length, arith,
}
use thorium.Topology.Address.{Address, gpib, lan, serial, usb, simulated}
use thorium.Topology.Plan.{
  ok, read_digits, whole_number, split_at, front_is, parse_lan, split_commas, parse_gpib,
  parse_kind, parse_address,
}

abbrev pub Lacks : ℕ → Text → Type 0
Lacks c [] = Unit
Lacks c (x ∷ t) = (x ≢ c) × Lacks c t

abbrev pub AllDigits : Text → Type 0
AllDigits [] = Unit
AllDigits (c ∷ t) = (b'0' ≤ c) × (c ≤ b'9') × AllDigits t

-- The number that digits spell behind others of the given value.
abbrev pub value_of : ℕ → Text → ℕ
value_of value [] = value
value_of value (c ∷ t) = value_of (value * 10 + (c - b'0')) t

-- Digits that spell a number an `int` holds.
pub record Number (t : Text) (n : ℕ) : Type 0 where
  pub nonempty : t ≢ []
  pub digits : AllDigits t
  pub value : value_of 0 t ≡ n
  pub in_range : n < 2 ^ 31

-- `lan:`, `usb:`, `serial:` and `gpib:` with what stands behind them, and the two bare words.
pub data Spells : Text → Address → Type 0 where
  sim : (t : Text) → t ≡ text "sim" → Spells t simulated
  whole_word : (t : Text) → t ≡ text "simulated" → Spells t simulated
  of_usb : (t v : Text) → t ≡ text "usb:" ++ v → Spells t (usb v)
  of_serial : (t v : Text) → t ≡ text "serial:" ++ v → Spells t (serial v)
  bare :
      (t host : Text)
      → t ≡ text "lan:" ++ host
      → host ≢ []
      → front_is b'[' host ≡ false
      → Lacks b':' host
      → Spells t (lan (record { host = host; port = 5025 }))
  ipv6 :
      (t host a b c : Text)
      → t ≡ text "lan:" ++ host
      → host ≡ a ++ b':' ∷ (b ++ b':' ∷ c)
      → front_is b'[' host ≡ false
      → Lacks b':' a
      → Lacks b':' b
      → Spells t (lan (record { host = host; port = 5025 }))
  with_port :
      (t host p : Text) (port : ℕ)
      → t ≡ text "lan:" ++ (host ++ b':' ∷ p)
      → host ≢ []
      → front_is b'[' (host ++ b':' ∷ p) ≡ false
      → Lacks b':' host
      → Number p port
      → Spells t (lan (record { host = host; port = port }))
  two :
      (t b p : Text) (board primary : ℕ)
      → t ≡ text "gpib:" ++ (b ++ b',' ∷ p)
      → Number b board
      → Number p primary
      → Spells t (gpib (record { board = board; primary = primary; secondary = none }))
  three :
      (t b p s : Text) (board primary secondary : ℕ)
      → t ≡ text "gpib:" ++ (b ++ b',' ∷ (p ++ b',' ∷ s))
      → Number b board
      → Number p primary
      → Number s secondary
      → Spells t (gpib (record { board = board; primary = primary; secondary = some secondary }))

split_at-Lacks : (c : ℕ) (t : Text) → Lacks c t → split_at c t ≡ none
unfolding split_at
split_at-Lacks c [] h = refl
split_at-Lacks c (x ∷ t) h = ground (arith, split_at-Lacks c t h.1)

split_at-append : (c : ℕ) (a b : Text) → Lacks c a → split_at c (a ++ c ∷ b) ≡ some (a, b)
unfolding split_at
split_at-append c [] b h = ground arith
split_at-append c (x ∷ a) b h = ground (arith, split_at-append c a b h.1)

read_digits-AllDigits :
    (v n : ℕ) (t : Text) → AllDigits t → read_digits v n t ≡ (value_of v t, length t + n, [])
unfolding read_digits
read_digits-AllDigits v n [] h = ground arith
read_digits-AllDigits v n (c ∷ t) h =
    ground (arith, read_digits-AllDigits (v * 10 + (c - b'0')) (n + 1) t h.2)

whole_number-Number : (t : Text) (n : ℕ) → Number t n → whole_number t ≡ some n
unfolding whole_number
whole_number-Number [] n h = absurd (h.nonempty refl)
whole_number-Number (c ∷ t) n h =
    ground (arith, read_digits-AllDigits 0 0 (c ∷ t) h.digits, h.value)

AllDigits-Lacks : (c : ℕ) (t : Text) → (c < b'0') ⊎ (b'9' < c) → AllDigits t → Lacks c t
AllDigits-Lacks c [] o h = tt
AllDigits-Lacks c (x ∷ t) o h = (ground arith, AllDigits-Lacks c t o h.2)

split_commas-Lacks : (t : Text) → Lacks b',' t → split_commas t ≡ t ∷ []
unfolding split_commas
split_commas-Lacks [] h = refl
split_commas-Lacks (c ∷ t) h = ground (arith, split_commas-Lacks t h.1)

split_commas-append :
    (a b : Text) → Lacks b',' a → split_commas (a ++ b',' ∷ b) ≡ a ∷ split_commas b
unfolding split_commas
split_commas-append [] b h = ground arith
split_commas-append (c ∷ a) b h = ground (arith, split_commas-append a b h.1)

Number-Lacks : (t : Text) (n : ℕ) → Number t n → Lacks b',' t
Number-Lacks t n h = AllDigits-Lacks b',' t (inl (omega arith)) h.digits

-- The three ways through `parseLan`, by what the search for a colon finds.
parse_lan-bare :
    (v : Text)
    → v ≢ []
    → front_is b'[' v ≡ false
    → split_at b':' v ≡ none
    → parse_lan v ≡ ok (lan (record { host = v; port = 5025 }))
unfolding parse_lan
parse_lan-bare [] ne f e = absurd (ne refl)
parse_lan-bare (c ∷ t) ne f e = ground arith

parse_lan-ipv6 :
    (v before behind : Text) {p : Text × Text}
    → front_is b'[' v ≡ false
    → split_at b':' v ≡ some (before, behind)
    → split_at b':' behind ≡ some p
    → parse_lan v ≡ ok (lan (record { host = v; port = 5025 }))
unfolding parse_lan split_at
parse_lan-ipv6 [] before behind f e e' = cc
parse_lan-ipv6 (c ∷ t) before behind f e e' = ground arith

parse_lan-found :
    (v before behind : Text) (port : ℕ)
    → front_is b'[' v ≡ false
    → split_at b':' v ≡ some (before, behind)
    → split_at b':' behind ≡ none
    → whole_number behind ≡ some port
    → parse_lan v ≡ ok (lan (record { host = before; port = port }))
unfolding parse_lan split_at
parse_lan-found [] before behind port f e e' n = cc
parse_lan-found (c ∷ t) before behind port f e e' n = ground arith

parse_gpib-two :
    (b p : Text) (board primary : ℕ)
    → Number b board
    → Number p primary
    → parse_gpib (b ++ b',' ∷ p)
      ≡ ok (gpib (record { board = board; primary = primary; secondary = none }))
unfolding parse_gpib
parse_gpib-two b p board primary hb hp = ground (
  arith,
  split_commas-append b p (Number-Lacks b board hb),
  split_commas-Lacks p (Number-Lacks p primary hp),
  whole_number-Number b board hb,
  whole_number-Number p primary hp,
)

parse_gpib-three :
    (b p s : Text) (board primary secondary : ℕ)
    → Number b board
    → Number p primary
    → Number s secondary
    → parse_gpib (b ++ b',' ∷ (p ++ b',' ∷ s))
      ≡ ok (gpib (record { board = board; primary = primary; secondary = some secondary }))
unfolding parse_gpib
parse_gpib-three b p s board primary secondary hb hp hs = ground (
  arith,
  split_commas-append b (p ++ b',' ∷ s) (Number-Lacks b board hb),
  split_commas-append p s (Number-Lacks p primary hp),
  split_commas-Lacks s (Number-Lacks s secondary hs),
  whole_number-Number b board hb,
  whole_number-Number p primary hp,
  whole_number-Number s secondary hs,
)

-- The host that stands before the colon is found whole.
parse_lan-port :
    (host p : Text) (port : ℕ)
    → front_is b'[' (host ++ b':' ∷ p) ≡ false
    → Lacks b':' host
    → Number p port
    → parse_lan (host ++ b':' ∷ p) ≡ ok (lan (record { host = host; port = port }))
parse_lan-port host p port f h n =
    parse_lan-found (host ++ b':' ∷ p) host p port f (split_at-append b':' host p h)
      (split_at-Lacks b':' p (AllDigits-Lacks b':' p (inr (omega arith)) n.digits))
      (whole_number-Number p port n)

parse_address-lan : (v : Text) → parse_address (text "lan:" ++ v) ≡ parse_lan v
unfolding parse_address split_at parse_kind text_beq
parse_address-lan v = refl

parse_address-usb : (v : Text) → parse_address (text "usb:" ++ v) ≡ ok (usb v)
unfolding parse_address split_at parse_kind text_beq
parse_address-usb v = refl

parse_address-serial : (v : Text) → parse_address (text "serial:" ++ v) ≡ ok (serial v)
unfolding parse_address split_at parse_kind text_beq
parse_address-serial v = refl

parse_address-gpib : (v : Text) → parse_address (text "gpib:" ++ v) ≡ parse_gpib v
unfolding parse_address split_at parse_kind text_beq
parse_address-gpib v = refl

-- Every text of the grammar is read as the address that it spells: `sim`, `simulated`, `usb:` and
-- `serial:` with any text, `lan:` with a host that is not empty, alone or with a port, or with
-- an IPv6 address, and `gpib:` with two or three numbers that an `int` holds.
pub parse_address-Spells : {t : Text} {a : Address} → Spells t a → parse_address t ≡ ok a
unfolding parse_address text_beq
parse_address-Spells (sim t e) = rw e
parse_address-Spells (whole_word t e) = rw e
parse_address-Spells (of_usb t v e) = rw e (parse_address-usb v)
parse_address-Spells (of_serial t v e) = rw e (parse_address-serial v)
parse_address-Spells (bare t host e ne f h) =
    rw e (parse_address-lan host ∙ parse_lan-bare host ne f (split_at-Lacks b':' host h))
parse_address-Spells (ipv6 t host a b c e eh f ha hb) = rw e (
    parse_address-lan host
    ∙ parse_lan-ipv6 host a (b ++ b':' ∷ c) f (rw eh (split_at-append b':' a (b ++ b':' ∷ c) ha))
        (split_at-append b':' b c hb))
parse_address-Spells (with_port t host p port e ne f h n) =
    rw e (parse_address-lan (host ++ b':' ∷ p) ∙ parse_lan-port host p port f h n)
parse_address-Spells (two t b p board primary e hb hp) =
    rw e (parse_address-gpib (b ++ b',' ∷ p) ∙ parse_gpib-two b p board primary hb hp)
parse_address-Spells (three t b p s board primary secondary e hb hp hs) = rw e (
    parse_address-gpib (b ++ b',' ∷ (p ++ b',' ∷ s))
    ∙ parse_gpib-three b p s board primary secondary hb hp hs)
