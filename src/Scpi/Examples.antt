-- ===== src/Scpi/Examples.antt =====
-- An instrument that knows one command only, and queues an error for every other.
use thorium.Prelude.{
  ℕ, zero, suc, ◌≡◌, refl, Bool, true, false, List, [], ◌∷◌, Text, text, text_eq, text_beq, ◌==◌,
}
use thorium.Topology.Plan.{split_at, from_chars, from_chars_unsigned, read_digits}
use thorium.Scpi.{
  ScpiError, Outcome, returned, timed_out, Io, skip_white, cut_white, trimmed, parse_number,
  before_quote, unquoted, parse_queue_entry, query, checked, query_checked,
}
use thorium.Scpi.Questions.{answers, unanswered, Explained, query_checked-Explained}
use thorium.Scpi.ErrorQueue.{Answers, Answering, reported, Ends, checked-Ends}

record Instrument : Type 0 where
  errors : ℕ
  asked : Bool

abbrev undefined_header : ScpiError
undefined_header = record { negative = true; code = 113; message = text "Undefined header" }

abbrev queued : ℕ → List ScpiError
queued zero = []
queued (suc n) = undefined_header ∷ queued n

abbrev queue : Instrument → List ScpiError
queue i = queued i.errors

abbrev asks_errors : Text
asks_errors = text "SYST:ERR?"

abbrev entered : Bool → Instrument → Instrument
entered true i = record i { asked = true }
entered false i = record { errors = suc i.errors; asked = false }

abbrev send : Text → Io Instrument (Unit {0})
send command i = (returned tt, entered (command == asks_errors) i)

abbrev entry : ℕ → Text
entry zero = text "+0,\"No error\""
entry (suc n) = text "-113,\"Undefined header\""

abbrev taken : ℕ → ℕ
taken zero = zero
taken (suc n) = n

abbrev replied : Bool → Instrument → Outcome Text × Instrument
replied true i = (returned (entry i.errors), record { errors = taken i.errors; asked = false })
replied false i = (timed_out, i)

abbrev receive : Io Instrument Text
receive i = replied i.asked i

answering : (n : ℕ) → Answers (queued n) (entry n) (queued (taken n))
unfolding parse_queue_entry trimmed skip_white cut_white split_at parse_number from_chars
    from_chars_unsigned read_digits unquoted before_quote
answering zero = (refl, refl)
answering (suc n) = (refl, refl)

instrument : Answering send receive queue
unfolding text_beq
instrument = record {
  asked = λ i. record i { asked = true };
  reply = λ i. entry i.errors;
  after = λ i. record { errors = taken i.errors; asked = false };
  sends = λ i. refl;
  receives = λ i. refl;
  answers = λ i. answering i.errors;
}

abbrev two_errors : Instrument
two_errors = record { errors = 1; asked = false }

abbrev after_command : Instrument
after_command = record { errors = 2; asked = false }

accepted : send (text "VOLT 5") two_errors ≡ (returned tt, after_command)
unfolding text_beq
accepted = refl

silent : query send receive (text "VOLT?") two_errors ≡ (timed_out, after_command)
unfolding query text_beq
silent = refl

checked-Ends_example :
    Ends send receive queue instrument
      (checked send receive (text "VOLT 5") two_errors)
      (reported (text "VOLT 5") (queue after_command))
      22
      (queue after_command)
checked-Ends_example =
    checked-Ends send receive queue instrument (text "VOLT 5") two_errors after_command accepted

-- An instrument that has gone, whose every command is sent and never answered.
abbrev sends_on : Text → Io ℕ (Unit {0})
sends_on command sent = (returned tt, suc sent)

abbrev hears_nothing : Io ℕ Text
hears_nothing sent = (timed_out, sent)

abbrev no_queue : ℕ → List ScpiError
no_queue sent = []

not_answered : query sends_on hears_nothing (text "SYST:ERR?") 1 ≡ (timed_out, 2)
unfolding query
not_answered = refl

not_answered_either : query sends_on hears_nothing (text "VOLT?") 0 ≡ (timed_out, 1)
unfolding query
not_answered_either = refl

-- Both questions time out.
silence : query_checked sends_on hears_nothing (text "VOLT?") 0 ≡ (timed_out, 2)
silence =
    query_checked-Explained sends_on hears_nothing no_queue (text "VOLT?") 0 1 not_answered_either
      (unanswered timed_out 2 tt not_answered)

query_checked-Explained_example :
    Explained send receive queue
      (text "VOLT?")
      after_command
      (query_checked send receive (text "VOLT?") two_errors)
      (answers instrument)
query_checked-Explained_example =
    query_checked-Explained send receive queue (text "VOLT?") two_errors after_command silent
      (answers instrument)
