-- ===== src/Session/Loading/Programs.antt =====
-- The session that `loadFromFile` returns, against the rows of the recording.
use thorium.Prelude.{
  ◌≡◌, refl, sym, ap, subst, ◌∙◌, inl, inr, Bool, true, false, not, ◌&&◌, Option, List, [], ◌∷◌,
  Text, text_eq, eqb, eqb_iff, if◌then◌else◌, arith, Bool-cases,
}
use thorium.Prelude.Dict.{Dict, lookup}
use thorium.Session.{
  QuantityKind, kind_eq, QuantityVariant, Waveform, Bytes, Slots, range_source, ScriptedSession,
  fresh, or_empty, program_slot, program_kind, program_data, program_flag, program_trace,
}
use thorium.Session.Loading.{
  RecordedValue, RecordedSample, Sequences, Collected, nothing_collected, is_empty, collect,
  program_points, program_kinds, program_payloads, program_flags, program_traces, loaded,
  session_of, load,
}
use thorium.Session.Slots.{IsMap, gather, program_all, lookup-recorded}
use thorium.Session.Slots.Positions.{StandAt}
use thorium.Session.Loading.Rows.{
  pick_reading, pick_payload, pick_flag, pick_trace, kept, slots_of, sequences_of, lookup-changed,
  collect-gather, collect-IsMap, sort_in-kind, sort_in-payloads, sort_in-flags, sort_in-traces,
}

-- Programming, seam by seam.
if_twice :
    {B : Type 0} (b : Bool) (f g : B → B) (x : B)
    → (if b then f (if b then g x else x) else (if b then g x else x)) ≡ (if b then f (g x) else x)
if_twice true f g x = refl
if_twice false f g x = refl

program_points-slots :
    (kind other : QuantityKind) (d : Sequences QuantityVariant) (s : ScriptedSession)
    → slots_of other (program_points kind d s)
      ≡ (if eqb kind other then program_all d (slots_of other s) else slots_of other s)
unfolding program_points program_kind
program_points-slots kind other [] s = ground arith
program_points-slots kind other ((name, values) ∷ rest) s =
    program_points-slots kind other rest (program_kind name kind (range_source values) s)
    ∙ ap (λ slots. if eqb kind other then program_all rest slots else slots)
        (lookup-changed kind other (program_slot name (range_source values)) s.kind_sources)
    ∙ if_twice (eqb kind other) (program_all rest) (program_slot name (range_source values))
        (slots_of other s)

program_kinds-slots :
    (kind : QuantityKind) (d : Dict QuantityKind (Sequences QuantityVariant)) (s : ScriptedSession)
    → IsMap d
    → slots_of kind (program_kinds d s) ≡ program_all (or_empty (lookup kind d)) (slots_of kind s)
unfolding program_kinds lookup
program_kinds-slots kind [] s m = refl
program_kinds-slots kind ((k, by_point) ∷ rest) s (absent, m) =
    program_kinds-slots kind rest (program_points k by_point s) m ∙ elim (Bool-cases (eqb k kind)) [
      | inl e ↦ rw (
        program_points-slots k kind by_point s,
        e,
        ap (λ x. lookup x rest) (sym ((eqb_iff k kind).0 e)) ∙ absent,
      )
      | inr e ↦ rw (program_points-slots k kind by_point s, e)
    ]

program_payloads-sources :
    (d : Sequences Bytes) (s : ScriptedSession)
    → program_payloads d s ≡ record s { data_sources = program_all d s.data_sources }
unfolding program_payloads program_data
program_payloads-sources [] s = refl
program_payloads-sources ((name, values) ∷ rest) s =
    program_payloads-sources rest (program_data name (range_source values) s)

program_flags-sources :
    (d : Sequences Bool) (s : ScriptedSession)
    → program_flags d s ≡ record s { flag_sources = program_all d s.flag_sources }
unfolding program_flags program_flag
program_flags-sources [] s = refl
program_flags-sources ((name, values) ∷ rest) s =
    program_flags-sources rest (program_flag name (range_source values) s)

program_traces-sources :
    (d : Sequences Waveform) (s : ScriptedSession)
    → program_traces d s ≡ record s { trace_sources = program_all d s.trace_sources }
unfolding program_traces program_trace
program_traces-sources [] s = refl
program_traces-sources ((name, values) ∷ rest) s =
    program_traces-sources rest (program_trace name (range_source values) s)

record Untouched (s t : ScriptedSession) : Type 0 where
  same_data : t.data_sources ≡ s.data_sources
  same_flags : t.flag_sources ≡ s.flag_sources
  same_traces : t.trace_sources ≡ s.trace_sources

program_points-Untouched :
    (kind : QuantityKind) (d : Sequences QuantityVariant) (s : ScriptedSession)
    → Untouched s (program_points kind d s)
unfolding program_points program_kind
program_points-Untouched kind [] s = record {
  same_data = refl;
  same_flags = refl;
  same_traces = refl;
}
program_points-Untouched kind ((name, values) ∷ rest) s =
    let u = program_points-Untouched kind rest (program_kind name kind (range_source values) s) in
    record { same_data = u.same_data; same_flags = u.same_flags; same_traces = u.same_traces }

program_kinds-Untouched :
    (d : Dict QuantityKind (Sequences QuantityVariant)) (s : ScriptedSession)
    → Untouched s (program_kinds d s)
unfolding program_kinds
program_kinds-Untouched [] s = record { same_data = refl; same_flags = refl; same_traces = refl }
program_kinds-Untouched ((kind, by_point) ∷ rest) s =
    let u = program_kinds-Untouched rest (program_points kind by_point s) in
    let v = program_points-Untouched kind by_point s in
    record {
      same_data = u.same_data ∙ v.same_data;
      same_flags = u.same_flags ∙ v.same_flags;
      same_traces = u.same_traces ∙ v.same_traces;
    }

-- Every seam stands in the sequences of the rows, behind those that are done.
pub record Stands (rows done : List RecordedSample) (s : ScriptedSession) : Type 0 where
  pub of_kind : (kind : QuantityKind) → StandAt (pick_reading kind) rows done (slots_of kind s)
  pub of_data : StandAt pick_payload rows done s.data_sources
  pub of_flags : StandAt pick_flag rows done s.flag_sources
  pub of_traces : StandAt pick_trace rows done s.trace_sources

abbrev with_sources : ScriptedSession → Slots Bytes → Slots Bool → Slots Waveform → ScriptedSession
with_sources s payloads flags traces = record s {
  data_sources = payloads;
  flag_sources = flags;
  trace_sources = traces;
}

abbrev add_flags : Sequences Bool → ScriptedSession → ScriptedSession
add_flags d s = record s { flag_sources = program_all d s.flag_sources }

abbrev add_traces : Sequences Waveform → ScriptedSession → ScriptedSession
add_traces d s = record s { trace_sources = program_all d s.trace_sources }

session_of-shape :
    (c : Collected)
    → session_of c
      ≡ with_sources
          (program_kinds c.samples fresh)
          (program_all c.payloads [])
          (program_all c.flags [])
          (program_all c.traces [])
unfolding session_of
session_of-shape c =
    let k : ScriptedSession = program_kinds c.samples fresh in
    let u = program_kinds-Untouched c.samples fresh in
    program_traces-sources c.traces (program_flags c.flags (program_payloads c.payloads k))
    ∙ ap (add_traces c.traces) (
        program_flags-sources c.flags (program_payloads c.payloads k)
        ∙ ap (add_flags c.flags) (program_payloads-sources c.payloads k))
    ∙ ap
        (λ e.
          with_sources k (program_all c.payloads e) (program_all c.flags k.flag_sources)
            (program_all c.traces k.trace_sources))
        u.same_data
    ∙ ap
        (λ e.
          with_sources k (program_all c.payloads []) (program_all c.flags e)
            (program_all c.traces k.trace_sources))
        u.same_flags
    ∙ ap
        (λ e.
          with_sources k (program_all c.payloads []) (program_all c.flags [])
            (program_all c.traces e))
        u.same_traces

recorded-StandAt :
    {A : Type 0} (pick : RecordedValue → Option A) (rows : List RecordedSample) (slots : Slots A)
    (answers : Sequences A)
    → slots ≡ program_all answers []
    → answers ≡ gather pick rows []
    → StandAt pick rows [] slots
recorded-StandAt pick rows slots answers e f name =
    ap (lookup name) (e ∙ ap (λ d. program_all d []) f) ∙ lookup-recorded pick name rows

module _ (selection : List Text) (rows : List RecordedSample) where
  abbrev collected : Collected
  collected = collect selection rows nothing_collected

  session_of-Stands : Stands (kept selection rows) [] (session_of collected)
  unfolding lookup
  session_of-Stands = record {
    of_kind = λ kind.
        recorded-StandAt (pick_reading kind) (kept selection rows) _ (sequences_of kind collected)
          (ap (slots_of kind) (session_of-shape collected)
            ∙ program_kinds-slots kind collected.samples fresh
                (collect-IsMap selection rows nothing_collected tt))
          (collect-gather (pick_reading kind) (sequences_of kind) (sort_in-kind kind) (λ m c. refl)
            selection rows nothing_collected);
    of_data =
        recorded-StandAt pick_payload (kept selection rows) _ collected.payloads
          (ap (λ s. s.data_sources) (session_of-shape collected))
          (collect-gather pick_payload (λ c. c.payloads) sort_in-payloads (λ m c. refl) selection
            rows nothing_collected);
    of_flags =
        recorded-StandAt pick_flag (kept selection rows) _ collected.flags
          (ap (λ s. s.flag_sources) (session_of-shape collected))
          (collect-gather pick_flag (λ c. c.flags) sort_in-flags (λ m c. refl) selection rows
            nothing_collected);
    of_traces =
        recorded-StandAt pick_trace (kept selection rows) _ collected.traces
          (ap (λ s. s.trace_sources) (session_of-shape collected))
          (collect-gather pick_trace (λ c. c.traces) sort_in-traces (λ m c. refl) selection rows
            nothing_collected);
  }

  pub load-Stands :
      (s : ScriptedSession) → load selection rows ≡ loaded s → Stands (kept selection rows) [] s
  unfolding load
  load-Stands s e =
      elim (Bool-cases (not (is_empty selection) && not collected.matched_selection)) [
        | inl f ↦ absurd cc
        | inr f ↦
            let same : session_of collected ≡ s = cc in
            subst (Stands (kept selection rows) []) same session_of-Stands
      ]
