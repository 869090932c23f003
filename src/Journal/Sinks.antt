-- ===== src/Journal/Sinks.antt =====
-- What the sinks are told over a run: the same calls in the same order, the events numbered from the
-- run's beginning, and no value longer than the bound.
use thorium.Prelude.{
  ℕ, suc, ◌+◌, ◌-◌, ◌%◌, ◌≤◌, ◌≡◌, refl, sym, ap, subst, ◌∙◌, Bool, ◌&&◌, List, [], ◌∷◌, ◌++◌, Text,
  text, eqb, ltb, if◌then◌else◌, length, length-append, length-take, take, arith, Bool-cases, inl,
  inr,
}
use mathlib.Core.List.{append_assoc, append-nil}
use thorium.Journal.Records.{
  RunInfo, JournalRecord, SinkCall, on_run_start, on_group_start, on_group_end, on_test_start,
  on_phase_start, on_phase_end, on_event, on_test_end, on_run_end,
}
use thorium.Journal.{
  Journal, size_mod, max_journal_value_length, deliver, tell, begin, end_run, begin_group,
  end_group, begin_test, begin_phase, end_phase, abridged, counted, unchecked, event_of, post,
  check_any, close_test, end_test,
}

-- What the runner and the verbs ask of the journal during a run; no sink is added or taken away.
pub data Call : Type 0 where
  begins_group begins_test begins_phase : Text → Text → Call
  ends_group ends_phase : Call
  posts_record : ℕ → JournalRecord → Call
  ends_test : ℕ → Call
  ends : Bool → Call

-- The calls that one sink has had.
unfoldable pub heard_by : ℕ → List (ℕ × SinkCall) → List SinkCall
heard_by s [] = []
heard_by s ((t, told) ∷ rest) = if eqb t s then told ∷ heard_by s rest else heard_by s rest

unfoldable pub occurrences : ℕ → List ℕ → ℕ
occurrences s [] = 0
occurrences s (t ∷ ts) = if eqb t s then suc (occurrences s ts) else occurrences s ts

heard_by-append :
    (s : ℕ) (xs ys : List (ℕ × SinkCall)) → heard_by s (xs ++ ys) ≡ heard_by s xs ++ heard_by s ys
unfolding heard_by
heard_by-append s [] ys = refl
heard_by-append s ((t, told) ∷ xs) ys = ground (arith, heard_by-append s xs ys)

heard_by-deliver_none :
    (s : ℕ) (sinks : List ℕ) (told : SinkCall)
    → occurrences s sinks ≡ 0
    → heard_by s (deliver sinks told) ≡ []
unfolding heard_by occurrences deliver
heard_by-deliver_none s [] told h = refl
heard_by-deliver_none s (t ∷ sinks) told h = ground (arith, heard_by-deliver_none s sinks told)

heard_by-deliver :
    (s : ℕ) (sinks : List ℕ) (told : SinkCall)
    → occurrences s sinks ≡ 1
    → heard_by s (deliver sinks told) ≡ told ∷ []
unfolding heard_by occurrences deliver
heard_by-deliver s [] told h = absurd (omega arith)
heard_by-deliver s (t ∷ sinks) told h =
    ground (arith, heard_by-deliver s sinks told, heard_by-deliver_none s sinks told)

pub heard_by-tell :
    (s : ℕ) (told : SinkCall) (j : Journal)
    → occurrences s j.sinks ≡ 1
    → heard_by s (tell told j).heard ≡ heard_by s j.heard ++ told ∷ []
unfolding tell
heard_by-tell s told j h =
    heard_by-append s j.heard (deliver j.sinks told)
    ∙ ap (◌++◌ (heard_by s j.heard)) (heard_by-deliver s j.sinks told h)

-- The events are numbered one after the other from the given number on, and no value is longer
-- than the bound.
abbrev pub Numbered : ℕ → List SinkCall → Type 0
Numbered n [] = Unit
Numbered n (on_event e ∷ told) =
    (e.sequence ≡ n)
    × (length e.entry.value ≤ max_journal_value_length)
    × Numbered ((n + 1) % size_mod) told
Numbered n (_ ∷ told) = Numbered n told

length-abridgement :
    (n : ℕ) (value tail : Text) → n ≤ length value → length (take n value ++ tail) ≡ n + length tail
length-abridgement n value tail h =
    ground (arith, length-append (take n value) tail, length-take n value)

length-cut :
    (m : ℕ) (value tail : Text)
    → length tail ≤ m
    → length (if ltb m (length value) then take (m - length tail) value ++ tail else value) ≤ m
length-cut m value tail h = elim (Bool-cases (ltb m (length value))) [
  | inl e ↦ ground (arith, length-abridgement (m - length tail) value tail)
  | inr e ↦ ground arith
]

length-abridged : (value : Text) → length (abridged value) ≤ max_journal_value_length
unfolding abridged
length-abridged value = length-cut max_journal_value_length value (text "...") (omega arith)

module _ (iso : ℕ → Text) where
  pub call : Call → Journal → Journal
  call (begins_group group description) j = begin_group group description j
  call (begins_test test description) j = begin_test test description j
  call (begins_phase phase title) j = begin_phase phase title j
  call ends_group j = end_group j
  call ends_phase j = end_phase j
  call (posts_record now r) j = post iso now r j
  call (ends_test now) j = (end_test iso now j).1
  call (ends all_passed) j = end_run all_passed j

  pub calls : List Call → Journal → Journal
  calls [] j = j
  calls (c ∷ cs) j = calls cs (call c j)

  -- What a call tells each sink, in order.
  abbrev pub emits_event : ℕ → JournalRecord → Journal → SinkCall
  emits_event now r j = on_event (event_of iso now (record r { value = abridged r.value }) j)

  emits : Call → Journal → List SinkCall
  emits (begins_group group description) j = on_group_start group description ∷ []
  emits (begins_test test description) j = on_test_start test description ∷ []
  emits (begins_phase phase title) j = on_phase_start j.group phase title ∷ []
  emits ends_group j = on_group_end j.group ∷ []
  emits ends_phase j = on_phase_end j.phase ∷ []
  emits (posts_record now r) j = emits_event now r j ∷ []
  emits (ends_test now) j =
      let last : SinkCall = on_test_end j.group j.test (end_test iso now j).0 in
      if j.test_open && eqb j.test_checks 0
      then emits_event now unchecked j ∷ last ∷ []
      else last ∷ []
  emits (ends all_passed) j = on_run_end all_passed ∷ []

  pub post-heard :
      (s now : ℕ) (r : JournalRecord) (j : Journal)
      → occurrences s j.sinks ≡ 1
      → (heard_by s (post iso now r j).heard ≡ heard_by s j.heard ++ emits_event now r j ∷ [])
        × ((post iso now r j).sinks ≡ j.sinks)
        × ((post iso now r j).group ≡ j.group)
        × ((post iso now r j).test ≡ j.test)
  unfolding post tell counted
  post-heard s now r j h = ground (arith, heard_by-tell s (emits_event now r j) j h)

  close_test-heard :
      (s : ℕ) (passed : Bool) (k : Journal)
      → occurrences s k.sinks ≡ 1
      → (heard_by s (close_test passed k).heard
          ≡ heard_by s k.heard ++ on_test_end k.group k.test passed ∷ [])
        × ((close_test passed k).sinks ≡ k.sinks)
  unfolding close_test tell
  close_test-heard s passed k h = (heard_by-tell s (on_test_end k.group k.test passed) k h, refl)

  end_test-heard :
      (s now : ℕ) (j : Journal)
      → occurrences s j.sinks ≡ 1
      → (heard_by s (end_test iso now j).1.heard ≡ heard_by s j.heard ++ emits (ends_test now) j)
        × ((end_test iso now j).1.sinks ≡ j.sinks)
  unfolding emits end_test check_any
  end_test-heard s now j h = elim (Bool-cases (j.test_open && eqb j.test_checks 0)) [
    | inl e ↦ ground (
      arith,
      post-heard s now unchecked j h,
      close_test-heard s (end_test iso now j).0 (post iso now unchecked j),
      append_assoc (heard_by s j.heard) (emits_event now unchecked j ∷ [])
          (on_test_end j.group j.test (end_test iso now j).0 ∷ []),
    )
    | inr e ↦ ground (arith, close_test-heard s (end_test iso now j).0 j)
  ]

  call-heard :
      (s : ℕ) (c : Call) (j : Journal)
      → occurrences s j.sinks ≡ 1
      → (heard_by s (call c j).heard ≡ heard_by s j.heard ++ emits c j)
        × ((call c j).sinks ≡ j.sinks)
  unfolding call emits begin_group begin_test begin_phase end_group end_phase end_run tell
  call-heard s (begins_group group description) j h =
      (heard_by-tell s (on_group_start group description) j h, refl)
  call-heard s (begins_test test description) j h =
      (heard_by-tell s (on_test_start test description) j h, refl)
  call-heard s (begins_phase phase title) j h =
      (heard_by-tell s (on_phase_start j.group phase title) j h, refl)
  call-heard s ends_group j h = (heard_by-tell s (on_group_end j.group) j h, refl)
  call-heard s ends_phase j h = (heard_by-tell s (on_phase_end j.phase) j h, refl)
  call-heard s (posts_record now r) j h =
      let (heard, same, _, _) = post-heard s now r j h in (heard, same)
  call-heard s (ends_test now) j h = end_test-heard s now j h
  call-heard s (ends all_passed) j h = (heard_by-tell s (on_run_end all_passed) j h, refl)

  -- What a run of calls tells each sink.
  emits_all : List Call → Journal → List SinkCall
  emits_all [] j = []
  emits_all (c ∷ cs) j = emits c j ++ emits_all cs (call c j)

  calls-heard :
      (s : ℕ) (cs : List Call) (j : Journal)
      → occurrences s j.sinks ≡ 1
      → heard_by s (calls cs j).heard ≡ heard_by s j.heard ++ emits_all cs j
  unfolding calls emits_all
  calls-heard s [] j h = sym (append-nil _)
  calls-heard s (c ∷ cs) j h =
      let (heard, same) = call-heard s c j h in
      calls-heard s cs (call c j) (ap (occurrences s) same ∙ h)
      ∙ ap (λ xs. xs ++ emits_all cs (call c j)) heard
      ∙ append_assoc (heard_by s j.heard) (emits c j) (emits_all cs (call c j))

  -- Two sinks that were each added once and began with nothing told hear the same calls in the same
  -- order, whatever the run does.
  pub calls-same_story :
      (s t : ℕ) (cs : List Call) (j : Journal)
      → occurrences s j.sinks ≡ 1
      → occurrences t j.sinks ≡ 1
      → j.heard ≡ []
      → heard_by s (calls cs j).heard ≡ heard_by t (calls cs j).heard
  unfolding heard_by
  calls-same_story s t cs j hs ht none_heard =
      calls-heard s cs j hs
      ∙ ap (λ xs. heard_by s xs ++ emits_all cs j) none_heard
      ∙ sym (calls-heard t cs j ht ∙ ap (λ xs. heard_by t xs ++ emits_all cs j) none_heard)

  call-Numbered :
      (c : Call) (j : Journal) (rest : List SinkCall)
      → Numbered (call c j).next_sequence rest
      → Numbered j.next_sequence (emits c j ++ rest)
  unfolding call emits begin_group begin_test begin_phase end_group end_phase end_run end_test
      check_any close_test post counted tell event_of
  call-Numbered (begins_group group description) j rest h = h
  call-Numbered (begins_test test description) j rest h = h
  call-Numbered (begins_phase phase title) j rest h = h
  call-Numbered ends_group j rest h = h
  call-Numbered ends_phase j rest h = h
  call-Numbered (posts_record now r) j rest h = (refl, length-abridged r.value, ground arith)
  call-Numbered (ends_test now) j rest h = ground (arith, length-abridged unchecked.value)
  call-Numbered (ends all_passed) j rest h = h

  emits_all-Numbered : (cs : List Call) (j : Journal) → Numbered j.next_sequence (emits_all cs j)
  unfolding emits_all
  emits_all-Numbered [] j = tt
  emits_all-Numbered (c ∷ cs) j =
      call-Numbered c j (emits_all cs (call c j)) (emits_all-Numbered cs (call c j))

  begun_once :
      (s : ℕ) (info : RunInfo) (j : Journal)
      → occurrences s j.sinks ≡ 1
      → occurrences s (begin info j).sinks ≡ 1
  unfolding begin tell
  begun_once s info j h = h

  begun :
      (s : ℕ) (info : RunInfo) (j : Journal)
      → occurrences s j.sinks ≡ 1
      → j.heard ≡ []
      → heard_by s (begin info j).heard ≡ on_run_start info ∷ []
  unfolding begin heard_by
  begun s info j h none_heard =
      heard_by-tell s (on_run_start info) _ h
      ∙ ap (λ xs. heard_by s xs ++ on_run_start info ∷ []) none_heard

  -- The events that a sink hears after `begin`, if it was added once and had heard nothing, are
  -- numbered 0, 1, 2, … (modulo 2 ^ 64), the failure that an unchecked test is given included, and no
  -- event's value is longer than 120 bytes.
  pub calls-Numbered :
      (s : ℕ) (info : RunInfo) (cs : List Call) (j : Journal)
      → occurrences s j.sinks ≡ 1
      → j.heard ≡ []
      → Numbered 0 (heard_by s (calls cs (begin info j)).heard)
  unfolding begin tell
  calls-Numbered s info cs j h none_heard =
      subst (Numbered 0)
        (sym (
          calls-heard s cs (begin info j) (begun_once s info j h)
          ∙ ap (λ xs. xs ++ emits_all cs (begin info j)) (begun s info j h none_heard)))
        (emits_all-Numbered cs (begin info j))
