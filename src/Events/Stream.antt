-- ===== src/Events/Stream.antt =====
-- framework/webui/src/protocol/events.cpp: `EventStream`. What it holds is the text behind the last line.
use thorium.Prelude.{
  ℕ, Bool, true, false, Option, none, some, List, [], ◌∷◌, ◌++◌, Text, eqb, if◌then◌else◌, ◌≡◌,
  refl, ap, sym, ◌∙◌,
}
use mathlib.Core.List.{append_assoc, append-nil}
use thorium.Events.{RunEvent, parse_event}

abbrev pub with_first : ℕ → List Text × Text → List Text × Text
with_first c ([], rest) = ([], c ∷ rest)
with_first c (line ∷ lines, rest) = ((c ∷ line) ∷ lines, rest)

abbrev pub after_newline : List Text × Text → List Text × Text
after_newline (lines, rest) = ([] ∷ lines, rest)

-- The loop over `find( '\n', start)`: the lines that have ended, and what `erase` leaves.
unfoldable pub ended_lines : Text → List Text × Text
ended_lines [] = ([], [])
ended_lines (c ∷ t) =
    let later = ended_lines t in if eqb c b'\n' then after_newline later else with_first c later

-- `line.back() == '\r'` and `remove_suffix( 1)`
abbrev pub without_return : Text → Text
without_return [] = []
without_return (c ∷ []) = if eqb c b'\r' then [] else c ∷ []
without_return (c ∷ d ∷ t) = c ∷ without_return (d ∷ t)

module _ (strtod : Text → ℕ) where
  abbrev pub with_event : Option RunEvent → List RunEvent → List RunEvent
  with_event none later = later
  with_event (some event) later = event ∷ later

  unfoldable pub events_of : List Text → List RunEvent
  events_of [] = []
  events_of (line ∷ lines) = with_event (parse_event strtod (without_return line)) (events_of lines)

  -- The events, and `mPartial` behind the call.
  unfoldable pub consume : Text → Text → List RunEvent × Text
  consume partial chunk =
      let (lines, rest) = ended_lines (partial ++ chunk) in (events_of lines, rest)

  -- One call for each chunk.
  unfoldable pub consume_each : Text → List Text → List RunEvent × Text
  consume_each partial [] = ([], partial)
  consume_each partial (chunk ∷ chunks) =
      let (now, rest) = consume partial chunk in
      let (later, last) = consume_each rest chunks in (now ++ later, last)

abbrev pub whole_text : List Text → Text
whole_text [] = []
whole_text (chunk ∷ chunks) = chunk ++ whole_text chunks

-- Lines, and then those of another text that goes on behind them.
abbrev continued : List Text × Text → Text → List Text × Text
continued (lines, rest) t = let (more, last) = ended_lines (rest ++ t) in (lines ++ more, last)

by_newline :
    (c : ℕ) (b : Bool) (p : List Text × Text) (t : Text)
    → eqb c b'\n' ≡ b
    → (if b then after_newline (continued p t) else with_first c (continued p t))
      ≡ continued (if b then after_newline p else with_first c p) t
unfolding ended_lines
by_newline c true p t h = refl
by_newline c false ([], rest) t h =
    ap
      (λ b.
        if b
        then after_newline (ended_lines (rest ++ t))
        else with_first c (ended_lines (rest ++ t)))
      (sym h)
by_newline c false (line ∷ lines, rest) t h = refl

ended_lines-append : (s t : Text) → ended_lines (s ++ t) ≡ continued (ended_lines s) t
unfolding ended_lines
ended_lines-append [] t = refl
ended_lines-append (c ∷ s) t =
    ap (λ p. if eqb c b'\n' then after_newline p else with_first c p) (ended_lines-append s t)
    ∙ by_newline c (eqb c b'\n') (ended_lines s) t refl

-- What is left holds no newline.
ended_lines-rest : (t : Text) → ended_lines (ended_lines t).1 ≡ ([], (ended_lines t).1)
unfolding ended_lines
ended_lines-rest [] = refl
ended_lines-rest (c ∷ t) = by_first (eqb c b'\n') (ended_lines t) refl (ended_lines-rest t)
  where
    by_first :
        (b : Bool) (p : List Text × Text)
        → eqb c b'\n' ≡ b
        → ended_lines p.1 ≡ ([], p.1)
        → ended_lines (if b then after_newline p else with_first c p).1
          ≡ ([], (if b then after_newline p else with_first c p).1)
    by_first true p e h = h
    by_first false ([], rest) e h =
        ap (λ b. if b then after_newline (ended_lines rest) else with_first c (ended_lines rest)) e
        ∙ ap (with_first c) h
    by_first false (line ∷ lines, rest) e h = h

module _ (strtod : Text → ℕ) where
  pub events_of-append :
      (xs ys : List Text) → events_of strtod (xs ++ ys) ≡ events_of strtod xs ++ events_of strtod ys
  unfolding events_of
  events_of-append [] ys = refl
  events_of-append (x ∷ xs) ys =
      ap (with_event strtod (parse_event strtod (without_return x))) (events_of-append xs ys)
      ∙ by_event (parse_event strtod (without_return x))
    where
      by_event :
          (o : Option RunEvent)
          → with_event strtod o (events_of strtod xs ++ events_of strtod ys)
            ≡ with_event strtod o (events_of strtod xs) ++ events_of strtod ys
      by_event none = refl
      by_event (some event) = refl

  consume_each-from :
      (chunks : List Text) (partial : Text)
      → ended_lines partial ≡ ([], partial)
      → consume_each strtod partial chunks ≡ consume strtod partial (whole_text chunks)
  unfolding consume consume_each events_of
  consume_each-from [] partial h =
      ap (λ (p : List Text × Text). (events_of strtod p.0, p.1))
        (sym (ap ended_lines (append-nil partial) ∙ h))
  consume_each-from (chunk ∷ chunks) partial h =
      let first = ended_lines (partial ++ chunk) in
      let second = ended_lines (first.1 ++ whole_text chunks) in
      ap (λ (r : List RunEvent × Text). (events_of strtod first.0 ++ r.0, r.1))
        (consume_each-from chunks first.1 (ended_lines-rest (partial ++ chunk)))
      ∙ ap (λ events. (events, second.1)) (sym (events_of-append first.0 second.0))
      ∙ ap (λ (p : List Text × Text). (events_of strtod p.0, p.1))
          (sym (
            ap ended_lines (sym (append_assoc partial chunk (whole_text chunks)))
            ∙ ended_lines-append (partial ++ chunk) (whole_text chunks)))

  -- However the pipe cuts what the child writes into chunks, the events are those of the whole
  -- text at once, in its order, and the same partial line is left.
  pub consume_each-whole_text :
      (chunks : List Text) → consume_each strtod [] chunks ≡ consume strtod [] (whole_text chunks)
  unfolding ended_lines
  consume_each-whole_text chunks = consume_each-from chunks [] refl
