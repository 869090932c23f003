-- ===== src/Scpi/Questions.antt =====
-- A question that had no answer: `queryChecked`, whatever the instrument makes of `SYST:ERR?`.
use thorium.Prelude.{◌≡◌, refl, ap, ◌∙◌, some, List, Text, text}
use thorium.Scpi.{
  ScpiError, Outcome, returned, fault, timed_out, transport_error, Io, and_then, parse_queue_entry,
  nonzero, query, next_error, clear_errors, report, rethrown, explained, query_checked,
}
use thorium.Scpi.ErrorQueue.{Answering, reason, Ends, query_checked-Ends}

-- No answer in time, or no transport.
abbrev Broken : {A : Type 0} → Outcome A → Type 0
Broken (returned a) = ⊥
Broken (fault command error) = ⊥
Broken timed_out = Unit
Broken (transport_error what) = Unit

module _ {W : Type 0} (send : Text → Io W (Unit {0})) (receive : Io W Text)
    (queue : W → List ScpiError) where
  -- What comes of `SYST:ERR?` behind the question: the instrument answers it each time, does not
  -- answer it, or answers with an error and then not on to the end of its queue.
  pub data Asked (v : W) : Type 0 where
    answers : Answering send receive queue → Asked v
    unanswered :
        (broken : Outcome Text) (u : W)
        → Broken broken
        → query send receive (text "SYST:ERR?") v ≡ (broken, u)
        → Asked v
    cut_short :
        (first : ScpiError) (x u : W) (broken : Outcome (Unit {0}))
        → Broken broken
        → next_error send receive v ≡ (returned (some first), x)
        → clear_errors send receive x ≡ (broken, u)
        → Asked v

  -- The queue's oldest error is thrown only if the whole queue could be read, and else the timeout
  -- of the question.
  abbrev pub Explained : Text → (v : W) → Outcome Text × W → Asked v → Type 0
  Explained question v r (answers instrument) =
      Ends send receive queue instrument r (reason question (queue v)) 22 (queue v)
  Explained question v r (unanswered broken u b e) = r ≡ (timed_out, u)
  Explained question v r (cut_short first x u broken b e f) = r ≡ (timed_out, u)

  rethrown-Broken :
      (end : Outcome (Unit {0})) (u : W)
      → Broken end
      → rethrown send receive (end, u) ≡ (timed_out, u)
  rethrown-Broken (returned a) u b = absurd b
  rethrown-Broken (fault command error) u b = absurd b
  rethrown-Broken timed_out u b = refl
  rethrown-Broken (transport_error what) u b = refl

  -- An error query that breaks breaks the report.
  rethrown-unanswered :
      (question : Text) (broken : Outcome Text) (u : W)
      → Broken broken
      → rethrown send receive (
          and_then
            (report send receive question)
            (and_then (λ reply w. (returned (nonzero (parse_queue_entry reply)), w)) (broken, u)))
        ≡ (timed_out, u)
  rethrown-unanswered question (returned a) u b = absurd b
  rethrown-unanswered question (fault command error) u b = absurd b
  rethrown-unanswered question timed_out u b = refl
  rethrown-unanswered question (transport_error what) u b = refl

  rethrown-cut_short :
      (question : Text) (first : ScpiError) (broken : Outcome (Unit {0})) (u : W)
      → Broken broken
      → rethrown send receive (and_then (λ _ w. (fault question first, w)) (broken, u))
        ≡ (timed_out, u)
  rethrown-cut_short question first (returned a) u b = absurd b
  rethrown-cut_short question first (fault command error) u b = absurd b
  rethrown-cut_short question first timed_out u b = refl
  rethrown-cut_short question first (transport_error what) u b = refl

  -- A question that timed out throws, if the instrument answers each `SYST:ERR?`, the fault with the
  -- oldest error of its queue, or the timeout if there is none, and has then taken as many as 22
  -- errors out of the queue. If the instrument or the transport fails at the first `SYST:ERR?` or at
  -- a later one, that failure is swallowed and the timeout of the question is thrown.
  pub query_checked-Explained :
      (question : Text) (w v : W)
      → query send receive question w ≡ (timed_out, v)
      → (asked : Asked v) → Explained question v (query_checked send receive question w) asked
  unfolding query_checked next_error
  query_checked-Explained question w v silent (answers instrument) =
      query_checked-Ends send receive queue instrument question w v silent
  query_checked-Explained question w v silent (unanswered broken u b e) =
      ap (explained send receive question) silent
      ∙ ap
          (λ r. rethrown send receive (
            and_then (report send receive question)
              (and_then (λ reply x. (returned (nonzero (parse_queue_entry reply)), x)) r)))
          e
      ∙ rethrown-unanswered question broken u b
  query_checked-Explained question w v silent (cut_short first x u broken b e f) =
      ap (explained send receive question) silent
      ∙ ap (λ r. rethrown send receive (and_then (report send receive question) r)) e
      ∙ ap (λ r. rethrown send receive (and_then (λ _ y. (fault question first, y)) r)) f
      ∙ rethrown-cut_short question first broken u b
