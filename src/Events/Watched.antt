-- ===== src/Events/Watched.antt =====
-- The event sink at one end of a pipe and the event stream at the other.
use thorium.Prelude.{
  ℕ, false, List, [], ◌∷◌, ◌++◌, map, Text, text, eqb, All, if◌then◌else◌, ◌≡◌, refl, ap, ◌∙◌,
  arith,
}
use mathlib.Core.List.{append_assoc}
use thorium.Journal.Records.{SinkCall}
use thorium.Events.{parse_event}
use thorium.Events.Sink.{LogFiles, line_text, line_for, put_out}
use thorium.Events.Stream.{
  with_first, after_newline, ended_lines, without_return, with_event, events_of, consume,
  consume_each, whole_text, consume_each-whole_text,
}
use thorium.Events.Unbroken.{Unbroken}
use thorium.Events.Spelled.{HasNumerals, line_text-Unbroken}
use thorium.Events.Heard.{event_for, parse_event-sink_line}

ended_lines-Unbroken : (t : Text) → Unbroken t → ended_lines t ≡ ([], t)
unfolding ended_lines
ended_lines-Unbroken [] h = refl
ended_lines-Unbroken (c ∷ t) h =
    let other : eqb c b'\n' ≡ false = ground arith in
    ap (λ p. if eqb c b'\n' then after_newline p else with_first c p)
      (ended_lines-Unbroken t (ground arith))
    ∙ ap (λ b. if b then after_newline ([], t) else with_first c ([], t)) other

ended_lines-line :
    (line t : Text)
    → Unbroken line
    → ended_lines (line ++ (b'\n' ∷ t)) ≡ (line ∷ (ended_lines t).0, (ended_lines t).1)
unfolding ended_lines
ended_lines-line [] t h = refl
ended_lines-line (c ∷ line) t h =
    let other : eqb c b'\n' ≡ false = ground arith in
    let later : List Text × Text = (line ∷ (ended_lines t).0, (ended_lines t).1) in
    ap (λ p. if eqb c b'\n' then after_newline p else with_first c p)
      (ended_lines-line line t (ground arith))
    ∙ ap (λ b. if b then after_newline later else with_first c later) other

without_return-brace : (t : Text) → without_return (t ++ text "}") ≡ t ++ text "}"
without_return-brace [] = refl
without_return-brace (c ∷ []) = refl
without_return-brace (c ∷ d ∷ t) = ap (◌∷◌ c) (without_return-brace (d ∷ t))

module _ (strtod : Text → ℕ) (decimal fixed : ℕ → Text) (logs : LogFiles) where
  abbrev lines_of : List SinkCall → List Text
  lines_of calls = map (λ call. line_text (line_for decimal fixed logs call)) calls

  ended_lines-put_out :
      (calls : List SinkCall) (rest : Text)
      → All (HasNumerals strtod decimal fixed) calls
      → Unbroken rest
      → ended_lines (put_out decimal fixed logs calls ++ rest) ≡ (lines_of calls, rest)
  unfolding put_out
  ended_lines-put_out [] rest n h = ended_lines-Unbroken rest h
  ended_lines-put_out (call ∷ calls) rest n h =
      let line = line_text (line_for decimal fixed logs call) in
      ap ended_lines (
        append_assoc (line ++ text "\n") (put_out decimal fixed logs calls) rest
        ∙ append_assoc line (text "\n") (put_out decimal fixed logs calls ++ rest))
      ∙ ended_lines-line line (put_out decimal fixed logs calls ++ rest)
          (line_text-Unbroken strtod decimal fixed logs call n.0)
      ∙ ap (λ (p : List Text × Text). (line ∷ p.0, p.1)) (ended_lines-put_out calls rest n.1 h)

  events_of-lines_of :
      (calls : List SinkCall)
      → All (HasNumerals strtod decimal fixed) calls
      → events_of strtod (lines_of calls) ≡ map (event_for strtod decimal fixed logs) calls
  unfolding events_of
  events_of-lines_of [] n = refl
  events_of-lines_of (call ∷ calls) n =
      let line = line_for decimal fixed logs call in
      ap (λ t. with_event strtod (parse_event strtod t) (events_of strtod (lines_of calls)))
        (without_return-brace line.so_far)
      ∙ ap (λ o. with_event strtod o (events_of strtod (lines_of calls)))
          (parse_event-sink_line strtod decimal fixed logs call n.0)
      ∙ ap (◌∷◌ (event_for strtod decimal fixed logs call)) (events_of-lines_of calls n.1)

  -- However a pipe cuts what the sink has put out, and whatever part of a further line is behind it,
  -- the stream gives the event of each call, in the order of the calls, and keeps that part. This is
  -- for calls whose numbers have only bytes of a number and begin with a digit, or with a minus sign
  -- and have a digit, and for a part without a newline.
  pub consume_each-put_out :
      (calls : List SinkCall) (chunks : List Text) (rest : Text)
      → whole_text chunks ≡ put_out decimal fixed logs calls ++ rest
      → All (HasNumerals strtod decimal fixed) calls
      → Unbroken rest
      → consume_each strtod [] chunks ≡ (map (event_for strtod decimal fixed logs) calls, rest)
  unfolding consume
  consume_each-put_out calls chunks rest e n h =
      consume_each-whole_text strtod chunks
      ∙ ap (consume strtod []) e
      ∙ ap (λ (p : List Text × Text). (events_of strtod p.0, p.1))
          (ended_lines-put_out calls rest n h)
      ∙ ap (λ events. (events, rest)) (events_of-lines_of calls n)
