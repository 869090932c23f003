-- ===== src/Scpi.antt =====
-- framework/hal/src/io/scpi.cpp: class `ScpiSession` but for its replies that are numbers. The transport
-- is two arguments, `send` and `receive`, on a world of its own.
pub mod ErrorQueue
pub mod Questions
mod Examples
use thorium.Prelude.{
  ℕ, zero, suc, ◌+◌, ◌-◌, Bool, true, false, not, ◌&&◌, ◌||◌, Option, none, some, List, [], ◌∷◌,
  ◌++◌, Text, text, eqb, if◌then◌else◌,
}
use thorium.Topology.Plan.{split_at, from_chars}

-- `ScpiError`, whose code is an `int`.
pub record ScpiError : Type 0 where
  pub negative : Bool
  pub code : ℕ
  pub message : Text

-- A call returns, or throws a `ScpiFault` with the command and the error, a `TransportTimeout`, or
-- another `TransportError`.
pub data Outcome {ℓ} (A : Type ℓ) : Type ℓ where
  returned : A → Outcome A
  fault : Text → ScpiError → Outcome A
  timed_out : Outcome A
  transport_error : Text → Outcome A

abbrev pub Io : Type 0 → Type 0 → Type 0
Io W A = W → Outcome A × W

abbrev pub and_then : {W A B : Type 0} → (A → Io W B) → Outcome A × W → Outcome B × W
and_then f (returned a, w) = f a w
and_then f (fault command e, w) = (fault command e, w)
and_then f (timed_out, w) = (timed_out, w)
and_then f (transport_error what, w) = (transport_error what, w)

infixl 5 ◌>>=◌
abbrev pub ◌>>=◌ : {W A B : Type 0} → Io W A → (A → Io W B) → Io W B
(m >>= f) w = and_then f (m w)

abbrev pub is_white : ℕ → Bool
is_white c = eqb c 32 || eqb c 9 || eqb c 13 || eqb c 10

unfoldable pub skip_white : Text → Text
skip_white [] = []
skip_white (c ∷ t) = let later = skip_white t in if is_white c then later else c ∷ t

-- Up to the last byte that is not white.
abbrev pub keep : ℕ → Text → Text
keep c [] = if is_white c then [] else c ∷ []
keep c (d ∷ t) = c ∷ d ∷ t

unfoldable pub cut_white : Text → Text
cut_white [] = []
cut_white (c ∷ t) = keep c (cut_white t)

unfoldable pub trimmed : Text → Text
trimmed t = cut_white (skip_white t)

abbrev pub without_plus : Text → Text
without_plus [] = []
without_plus (c ∷ t) = if eqb c b'+' then t else c ∷ t

abbrev pub whole : Option (Bool × ℕ × Text) → Option (Bool × ℕ)
whole none = none
whole (some (negative, value, [])) = some (negative, value)
whole (some (negative, value, c ∷ rest)) = none

-- `parseNumber<int>`
unfoldable pub parse_number : Text → Option (Bool × ℕ)
parse_number t = whole (from_chars (without_plus (trimmed t)))

-- The text up to its last byte, where that is a quote.
unfoldable pub before_quote : Text → Option Text
before_quote [] = none
before_quote (c ∷ []) = if eqb c b'"' then some [] else none
before_quote (c ∷ d ∷ t) = elim (before_quote (d ∷ t)) [ none ↦ none | some u ↦ some (c ∷ u) ]

abbrev pub or_whole : Text → Option Text → Text
or_whole t none = t
or_whole t (some inner) = inner

unfoldable pub unquoted : Text → Text
unquoted [] = []
unquoted (c ∷ t) = if eqb c b'"' then or_whole (c ∷ t) (before_quote t) else c ∷ t

abbrev pub entry : Text → Option (Bool × ℕ) → Option ScpiError
entry message none = none
entry message (some (negative, code)) =
    some (record { negative = negative; code = code; message = unquoted (trimmed message) })

unfoldable pub parse_queue_entry : Text → Option ScpiError
parse_queue_entry reply = elim (split_at b',' reply) [
  | none ↦ none
  | some (code, message) ↦ entry message (parse_number code)
]

-- `!entry || entry->Code == 0`
abbrev pub nonzero : Option ScpiError → Option ScpiError
nonzero none = none
nonzero (some e) = if eqb e.code 0 then none else some e

module _ {W : Type 0} (send : Text → Io W (Unit {0})) (receive : Io W Text) where
  abbrev pub pure : {A : Type 0} → A → Io W A
  pure a w = (returned a, w)

  -- `ScpiSession::write`
  abbrev pub write : Text → Io W (Unit {0})
  write command = send command

  unfoldable pub query : Text → Io W Text
  query question = send question >>= λ _. receive >>= λ reply. pure (trimmed reply)

  unfoldable pub next_error : Io W (Option ScpiError)
  next_error = query (text "SYST:ERR?") >>= λ reply. pure (nonzero (parse_queue_entry reply))

  abbrev pub maximum_queue_depth : ℕ
  maximum_queue_depth = 21

  -- The loop of `clearErrors`, with how many turns are left.
  unfoldable pub drain : ℕ → Io W (Unit {0})
  drain zero = pure tt
  drain (suc left) = next_error >>= λ error. elim error [ none ↦ pure tt | some _ ↦ drain left ]

  abbrev pub clear_errors : Io W (Unit {0})
  clear_errors = drain maximum_queue_depth

  abbrev pub throw_fault : Text → ScpiError → Io W (Unit {0})
  throw_fault command error = clear_errors >>= λ _ w. (fault command error, w)

  abbrev pub report : Text → Option ScpiError → Io W (Unit {0})
  report command none = pure tt
  report command (some first) = throw_fault command first

  unfoldable pub checked : Text → Io W (Unit {0})
  checked command = send command >>= λ _. next_error >>= λ first. report command first

  -- `throw;` of the timeout, unless the queue had the reason.
  abbrev pub rethrown : Outcome (Unit {0}) × W → Outcome Text × W
  rethrown (returned u, w) = (timed_out, w)
  rethrown (fault command error, w) = (fault command error, w)
  rethrown (timed_out, w) = (timed_out, w)
  rethrown (transport_error what, w) = (timed_out, w)

  abbrev pub explained : Text → Outcome Text × W → Outcome Text × W
  explained question (returned reply, w) = (returned reply, w)
  explained question (fault command error, w) = (fault command error, w)
  explained question (timed_out, w) = rethrown ((next_error >>= λ error. report question error) w)
  explained question (transport_error what, w) = (transport_error what, w)

  unfoldable pub query_checked : Text → Io W Text
  query_checked question w = explained question (query question w)

  abbrev pub identify : Io W Text
  identify = query_checked (text "*IDN?")

  abbrev pub reset : Io W (Unit {0})
  reset = write (text "*RST") >>= λ _. write (text "*CLS")

  abbrev pub wait_for_complete : Io W (Unit {0})
  wait_for_complete = query_checked (text "*OPC?") >>= λ _. pure tt
