-- ===== src/Scpi/ErrorQueue.antt =====
-- `checked` and `queryChecked` against an instrument's error queue.
use thorium.Prelude.{
  ℕ, zero, suc, ◌≡◌, refl, ap, ◌∙◌, Option, none, some, List, [], ◌∷◌, Text, text, drop,
}
use thorium.Scpi.{
  ScpiError, Outcome, returned, fault, timed_out, Io, and_then, trimmed, parse_queue_entry, nonzero,
  query, next_error, maximum_queue_depth, drain, report, checked, rethrown, explained,
  query_checked,
}

-- What an instrument answers to `SYST:ERR?`, by what is in its queue: an entry that says there is
-- none, or the oldest, which it takes out.
abbrev pub Answers : List ScpiError → Text → List ScpiError → Type 0
Answers [] reply after = (nonzero (parse_queue_entry (trimmed reply)) ≡ none) × (after ≡ [])
Answers (e ∷ es) reply after = (nonzero (parse_queue_entry (trimmed reply)) ≡ some e) × (after ≡ es)

module _ {W : Type 0} (send : Text → Io W (Unit {0})) (receive : Io W Text)
    (queue : W → List ScpiError) where
  -- The transport reaches the instrument, which answers so in every state.
  pub record Answering : Type 0 where
    pub asked : W → W
    pub reply : W → Text
    pub after : W → W
    pub sends : (w : W) → send (text "SYST:ERR?") w ≡ (returned tt, asked w)
    pub receives : (w : W) → receive (asked w) ≡ (returned (reply w), after w)
    pub answers : (w : W) → Answers (queue w) (reply w) (queue (after w))

abbrev pub first_of : List ScpiError → Option ScpiError
first_of [] = none
first_of (e ∷ es) = some e

-- The call of a checked command that leaves such a queue.
abbrev pub reported : Text → List ScpiError → Outcome (Unit {0})
reported command [] = returned tt
reported command (e ∷ es) = fault command e

-- What a question that had no answer comes to.
abbrev pub reason : Text → List ScpiError → Outcome Text
reason question [] = timed_out
reason question (e ∷ es) = fault question e

module _ {W : Type 0} (send : Text → Io W (Unit {0})) (receive : Io W Text)
    (queue : W → List ScpiError) (instrument : Answering send receive queue) where
  Answers-first :
      (es after : List ScpiError) (reply : Text)
      → Answers es reply after
      → (nonzero (parse_queue_entry (trimmed reply)) ≡ first_of es) × (after ≡ drop 1 es)
  Answers-first [] after reply h = h
  Answers-first (e ∷ es) after reply h = h

  next_error-first :
      (w : W)
      → (next_error send receive w ≡ (returned (first_of (queue w)), instrument.after w))
        × (queue (instrument.after w) ≡ drop 1 (queue w))
  unfolding next_error query
  next_error-first w =
      let (first, rest) =
        Answers-first (queue w) (queue (instrument.after w)) (instrument.reply w)
          (instrument.answers w) in
      (
        ap
              (λ r.
                and_then (λ reply v. (returned (nonzero (parse_queue_entry reply)), v))
                  (and_then (λ _ v. and_then (λ reply u. (returned (trimmed reply), u)) (receive v))
                    r))
              (instrument.sends w)
            ∙ ap
                (λ r.
                  and_then (λ reply v. (returned (nonzero (parse_queue_entry reply)), v))
                    (and_then (λ reply v. (returned (trimmed reply), v)) r))
                (instrument.receives w)
            ∙ ap (λ o. (returned o, instrument.after w)) first,
        rest,
      )

  -- The call ends so, and the queue has lost that many of its oldest entries.
  abbrev pub Ends : {A : Type 0} → Outcome A × W → Outcome A → ℕ → List ScpiError → Type 0
  Ends r outcome count errors = (v : W) × (r ≡ (outcome, v)) × (queue v ≡ drop count errors)

  after_next :
      {A : Type 0} (w : W) (f : Option ScpiError → Io W A) (es : List ScpiError)
      → queue w ≡ es
      → and_then f (next_error send receive w) ≡ f (first_of es) (instrument.after w)
  after_next w f es e =
      ap (and_then f) ((next_error-first w).0) ∙ ap (λ xs. f (first_of xs) (instrument.after w)) e

  left_after_next :
      (w : W) (es : List ScpiError) → queue w ≡ es → queue (instrument.after w) ≡ drop 1 es
  left_after_next w es e = (next_error-first w).1 ∙ ap (drop 1) e

  drain-Ends : (n : ℕ) (w : W) → Ends (drain send receive n w) (returned tt) n (queue w)
  unfolding drain
  drain-Ends zero w = (w, refl, refl)
  drain-Ends (suc n) w = by_queue (queue w) refl (drain-Ends n (instrument.after w))
    where
      by_queue :
          (es : List ScpiError)
          → queue w ≡ es
          → Ends
              (drain send receive n (instrument.after w))
              (returned tt)
              n
              (queue (instrument.after w))
          → Ends (drain send receive (suc n) w) (returned tt) (suc n) es
      by_queue [] e h = (instrument.after w, after_next w _ [] e, left_after_next w [] e)
      by_queue (x ∷ es) e (v, drained, left) = (
        v,
        after_next w _ (x ∷ es) e ∙ drained,
        left ∙ ap (drop n) (left_after_next w (x ∷ es) e),
      )

  report-Ends :
      (command : Text) (w : W)
      → Ends
          (and_then (report send receive command) (next_error send receive w))
          (reported command (queue w))
          (suc (maximum_queue_depth send receive))
          (queue w)
  report-Ends command w =
      by_queue (queue w) refl (drain-Ends (maximum_queue_depth send receive) (instrument.after w))
    where
      by_queue :
          (es : List ScpiError)
          → queue w ≡ es
          → Ends
              (drain send receive (maximum_queue_depth send receive) (instrument.after w))
              (returned tt)
              (maximum_queue_depth send receive)
              (queue (instrument.after w))
          → Ends
              (and_then (report send receive command) (next_error send receive w))
              (reported command es)
              (suc (maximum_queue_depth send receive))
              es
      by_queue [] e h = (instrument.after w, after_next w _ [] e, left_after_next w [] e)
      by_queue (x ∷ es) e (v, drained, left) = (
        v,
        after_next w (report send receive command) (x ∷ es) e
            ∙ ap (and_then (λ _ u. (fault command x, u))) drained,
        left ∙ ap (drop (maximum_queue_depth send receive)) (left_after_next w (x ∷ es) e),
      )

  -- With an instrument that answers each `SYST:ERR?` from its error queue, a checked command that was
  -- sent returns if it left that queue empty, and else throws the fault with the oldest error, and has
  -- then taken as many as 22 errors out of the queue.
  pub checked-Ends :
      (command : Text) (w v : W)
      → send command w ≡ (returned tt, v)
      → Ends (checked send receive command w) (reported command (queue v)) 22 (queue v)
  unfolding checked
  checked-Ends command w v sent =
      let (u, ended, left) = report-Ends command v in
      (
        u,
        ap (and_then (λ _ x. and_then (report send receive command) (next_error send receive x)))
              sent
            ∙ ended,
        left,
      )

  rethrown-reason :
      (question : Text) (es : List ScpiError) (v : W)
      → rethrown send receive (reported question es, v) ≡ (reason question es, v)
  rethrown-reason question [] v = refl
  rethrown-reason question (e ∷ es) v = refl

  -- A question that timed out, with such an instrument.
  pub query_checked-Ends :
      (question : Text) (w v : W)
      → query send receive question w ≡ (timed_out, v)
      → Ends (query_checked send receive question w) (reason question (queue v)) 22 (queue v)
  unfolding query_checked
  query_checked-Ends question w v silent =
      let (u, ended, left) = report-Ends question v in
      (
        u,
        ap (explained send receive question) silent
            ∙ ap (rethrown send receive) ended
            ∙ rethrown-reason question (queue v) u,
        left,
      )
