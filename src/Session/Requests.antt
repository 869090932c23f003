-- ===== src/Session/Requests.antt =====
-- The four fetches of a `ScriptedSession` as the answers to one kind of request, and what they do to a
-- session that stands in the rows of a recording.
use thorium.Prelude.{
  ◌≡◌, refl, sym, ap, subst, ◌∙◌, inl, inr, true, some, List, [], ◌∷◌, ◌++◌, Text, text_eq, eqb,
  eqb_iff, if◌then◌else◌, arith, Bool-cases, Option-cases,
}
use thorium.Prelude.Dict.{lookup, insert}
use thorium.Session.{
  QuantityKind, kind_eq, QuantityVariant, Slots, next, has, Fetched, fetched, nothing_programmed,
  none_left, no_bench, read_failed, kind_mismatch, ScriptedSession, or_empty, check_kind,
  fetch_of_kind, fetch, fetch_data, fetch_flag, fetch_trace,
}
use thorium.Session.Loading.{RecordedValue, reading, payload, flag, trace, RecordedSample}
use thorium.Session.Slots.Positions.{StandAt, StandAt-other, StandAt-next, next-fetched, has-here}
use thorium.Session.Loading.Rows.{
  pick_reading, pick_payload, pick_flag, pick_trace, slots_of, lookup-changed,
}
use thorium.Session.Loading.Programs.{Stands}

-- A call of one of the four fetches, as a verb makes it.
pub data Request : Type 0 where
  reads : Text → QuantityKind → Request
  reads_data reads_flag reads_trace : Text → Request

abbrev pub in_variant : {A : Type 0} → (A → RecordedValue) → Fetched A → Fetched RecordedValue
in_variant make (fetched value) = fetched (make value)
in_variant make nothing_programmed = nothing_programmed
in_variant make none_left = none_left
in_variant make no_bench = no_bench
in_variant make read_failed = read_failed
in_variant make (kind_mismatch programmed expected) = kind_mismatch programmed expected

unfoldable pub answer : Request → ScriptedSession → Fetched RecordedValue × ScriptedSession
answer (reads name kind) s =
    let (value, after) = fetch name kind s in (in_variant reading value, after)
answer (reads_data name) s =
    let (value, after) = fetch_data name s in (in_variant payload value, after)
answer (reads_flag name) s =
    let (value, after) = fetch_flag name s in (in_variant flag value, after)
answer (reads_trace name) s =
    let (value, after) = fetch_trace name s in (in_variant trace value, after)

-- The call that a row of a recording stands for.
abbrev pub request_of_value : Text → RecordedValue → Request
request_of_value name (reading value) = reads name value.kind
request_of_value name (payload _) = reads_data name
request_of_value name (flag _) = reads_flag name
request_of_value name (trace _) = reads_trace name

abbrev pub request_of : RecordedSample → Request
request_of r = request_of_value r.point_name r.value

unfoldable pub replay :
    List Request → ScriptedSession → List (Fetched RecordedValue) × ScriptedSession
replay [] s = ([], s)
replay (q ∷ qs) s =
    let (value, after) = answer q s in
    let (values, last) = replay qs after in (value ∷ values, last)

-- A fetch under a kind that the point has a slot for.
pub fetch-of_kind :
    (name : Text) (kind : QuantityKind) (s : ScriptedSession)
    → has name (slots_of kind s) ≡ true
    → fetch name kind s ≡ fetch_of_kind name kind (slots_of kind s) s
unfolding fetch lookup
fetch-of_kind name kind s h = elim (Option-cases (lookup kind s.kind_sources)) [
  | inl e ↦ absurd cc
  | inr (slots, e) ↦ ground arith
]

pub picked_reading :
    (r : RecordedSample) (v : QuantityVariant)
    → r.value ≡ reading v
    → pick_reading v.kind r.value ≡ some v
picked_reading r v e = ap (pick_reading v.kind) e ∙ (rw ((eqb_iff v.kind v.kind).1 refl))

module _ (done : List RecordedSample) (r : RecordedSample) (rest : List RecordedSample)
    (s : ScriptedSession) (stands : Stands (done ++ r ∷ rest) done s) where
  abbrev rows : List RecordedSample
  rows = done ++ r ∷ rest

  abbrev done_too : List RecordedSample
  done_too = done ++ r ∷ []

  abbrev Answered : RecordedValue → Fetched RecordedValue × ScriptedSession → Type 0
  Answered value (got, after) = (got ≡ fetched value) × Stands rows done_too after

  module _ (v : QuantityVariant) (e : r.value ≡ reading v) where
    picked : pick_reading v.kind r.value ≡ some v
    picked = picked_reading r v e

    passed : check_kind v.kind (fetched v) ≡ fetched v
    passed = rw ((eqb_iff v.kind v.kind).1 refl)

    abbrev after_next : Slots QuantityVariant
    after_next = (next r.point_name (slots_of v.kind s)).1

    kind_after :
        (kind : QuantityKind)
        → StandAt
            (pick_reading kind)
            rows
            done_too
            (or_empty (lookup kind (insert v.kind after_next s.kind_sources)))
    kind_after kind =
        subst (StandAt (pick_reading kind) rows done_too)
          (sym (lookup-changed v.kind kind (λ _. after_next) s.kind_sources))
          (elim (Bool-cases (eqb v.kind kind)) [
            | inl f ↦
                subst
                  (λ b.
                    StandAt (pick_reading kind) rows done_too
                      (if b then after_next else slots_of kind s))
                  (sym f)
                  (subst (λ k. StandAt (pick_reading k) rows done_too after_next)
                    ((eqb_iff v.kind kind).0 f)
                    (StandAt-next (pick_reading v.kind) done r rest _ (stands.of_kind v.kind) v
                      picked))
            | inr f ↦
                subst
                  (λ b.
                    StandAt (pick_reading kind) rows done_too
                      (if b then after_next else slots_of kind s))
                  (sym f)
                  (StandAt-other (pick_reading kind) done r rest _ (stands.of_kind kind)
                    (ap (pick_reading kind) e ∙ rw f))
          ])

    reading-Answered : Answered (reading v) (answer (reads r.point_name v.kind) s)
    unfolding answer
    reading-Answered =
        subst (λ x. Answered (reading v) (in_variant reading x.0, x.1))
          (sym (
            fetch-of_kind r.point_name v.kind s
              (has-here (pick_reading v.kind) done r rest _ (stands.of_kind v.kind) v picked)))
          (
            ap (in_variant reading) (
                ap (check_kind v.kind) (
                  next-fetched (pick_reading v.kind) done r rest _ (stands.of_kind v.kind) v picked)
                ∙ passed),
            record {
              of_kind = kind_after;
              of_data = StandAt-other pick_payload done r rest _ stands.of_data (ap pick_payload e);
              of_flags = StandAt-other pick_flag done r rest _ stands.of_flags (ap pick_flag e);
              of_traces = StandAt-other pick_trace done r rest _ stands.of_traces (ap pick_trace e);
            },
          )

  pub value-Answered :
      (value : RecordedValue)
      → r.value ≡ value
      → Answered value (answer (request_of_value r.point_name value) s)
  unfolding answer fetch_data fetch_flag fetch_trace
  value-Answered (reading v) e = reading-Answered v e
  value-Answered (payload v) e = (
    ap (in_variant payload)
        (next-fetched pick_payload done r rest _ stands.of_data v (ap pick_payload e)),
    record {
      of_kind = λ kind.
          StandAt-other (pick_reading kind) done r rest _ (stands.of_kind kind)
            (ap (pick_reading kind) e);
      of_data = StandAt-next pick_payload done r rest _ stands.of_data v (ap pick_payload e);
      of_flags = StandAt-other pick_flag done r rest _ stands.of_flags (ap pick_flag e);
      of_traces = StandAt-other pick_trace done r rest _ stands.of_traces (ap pick_trace e);
    },
  )
  value-Answered (flag v) e = (
    ap (in_variant flag) (next-fetched pick_flag done r rest _ stands.of_flags v (ap pick_flag e)),
    record {
      of_kind = λ kind.
          StandAt-other (pick_reading kind) done r rest _ (stands.of_kind kind)
            (ap (pick_reading kind) e);
      of_data = StandAt-other pick_payload done r rest _ stands.of_data (ap pick_payload e);
      of_flags = StandAt-next pick_flag done r rest _ stands.of_flags v (ap pick_flag e);
      of_traces = StandAt-other pick_trace done r rest _ stands.of_traces (ap pick_trace e);
    },
  )
  value-Answered (trace v) e = (
    ap (in_variant trace)
        (next-fetched pick_trace done r rest _ stands.of_traces v (ap pick_trace e)),
    record {
      of_kind = λ kind.
          StandAt-other (pick_reading kind) done r rest _ (stands.of_kind kind)
            (ap (pick_reading kind) e);
      of_data = StandAt-other pick_payload done r rest _ stands.of_data (ap pick_payload e);
      of_flags = StandAt-other pick_flag done r rest _ stands.of_flags (ap pick_flag e);
      of_traces = StandAt-next pick_trace done r rest _ stands.of_traces v (ap pick_trace e);
    },
  )
