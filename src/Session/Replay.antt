-- ===== src/Session/Replay.antt =====
-- A recording that is replayed: `loadFromFile` and the fetches of a `ScriptedSession` against the
-- rows of the recording.
use thorium.Prelude.{◌≡◌, refl, sym, ap, subst, ◌∙◌, List, [], ◌∷◌, ◌++◌, map, Text, text_eq}
use mathlib.Core.List.{append_assoc, append-nil}
use thorium.Session.{
  kind_eq, QuantityVariant, Fetched, fetched, none_left, ScriptedSession, check_kind, fetch_data,
  fetch_flag, fetch_trace,
}
use thorium.Session.Loading.{
  RecordedValue, reading, payload, flag, trace, RecordedSample, loaded, load,
}
use thorium.Session.Slots.Positions.{has-done, next-done}
use thorium.Session.Loading.Rows.{pick_reading, pick_payload, pick_flag, pick_trace, kept}
use thorium.Session.Loading.Programs.{Stands, load-Stands}
use thorium.Session.Requests.{
  reads, in_variant, answer, request_of_value, request_of, replay, fetch-of_kind, picked_reading,
  value-Answered,
}

abbrev pub recorded_value : RecordedSample → Fetched RecordedValue
recorded_value r = fetched r.value

replay-Stands :
    (done rest : List RecordedSample) (s : ScriptedSession)
    → Stands (done ++ rest) done s
    → ((replay (map request_of rest) s).0 ≡ map recorded_value rest)
      × Stands (done ++ rest) (done ++ rest) (replay (map request_of rest) s).1
unfolding replay
replay-Stands done [] s stands =
    (refl, subst (λ xs. Stands (done ++ []) xs s) (sym (append-nil done)) stands)
replay-Stands done (r ∷ rest) s stands =
    let (got, after) = value-Answered done r rest s stands r.value refl in
    let (others, last) = replay-Stands (done ++ r ∷ []) rest (answer (request_of r) s).1 (
      subst (λ xs. Stands xs (done ++ r ∷ []) (answer (request_of r) s).1)
        (sym (append_assoc done (r ∷ []) rest)) after) in
    (
      rw (got, others),
      subst (λ xs. Stands xs xs (replay (map request_of rest) (answer (request_of r) s).1).1)
          (append_assoc done (r ∷ []) rest) last,
    )

module _ (before : List RecordedSample) (r : RecordedSample) (after : List RecordedSample)
    (s : ScriptedSession) (stands : Stands (before ++ r ∷ after) (before ++ r ∷ after) s) where
  reading-exhausted :
      (v : QuantityVariant)
      → r.value ≡ reading v
      → (answer (reads r.point_name v.kind) s).0 ≡ none_left
  unfolding answer
  reading-exhausted v e =
      let picked = picked_reading r v e in
      ap (λ x. in_variant reading x.0)
        (fetch-of_kind r.point_name v.kind s
          (has-done (pick_reading v.kind) before r after _ (stands.of_kind v.kind) v picked))
      ∙ ap (λ x. in_variant reading (check_kind v.kind x))
          (next-done (pick_reading v.kind) before r after _ (stands.of_kind v.kind) v picked)

  value-exhausted :
      (value : RecordedValue)
      → r.value ≡ value
      → (answer (request_of_value r.point_name value) s).0 ≡ none_left
  unfolding answer fetch_data fetch_flag fetch_trace
  value-exhausted (reading v) e = reading-exhausted v e
  value-exhausted (payload v) e =
      ap (in_variant payload)
        (next-done pick_payload before r after _ stands.of_data v (ap pick_payload e))
  value-exhausted (flag v) e =
      ap (in_variant flag) (next-done pick_flag before r after _ stands.of_flags v (ap pick_flag e))
  value-exhausted (trace v) e =
      ap (in_variant trace)
        (next-done pick_trace before r after _ stands.of_traces v (ap pick_trace e))

module _ (selection : List Text) (rows : List RecordedSample) (s : ScriptedSession)
    (is_loaded : load selection rows ≡ loaded s) where
  -- A session that was loaded from a recording answers the calls that the kept rows stand for, made
  -- in the rows' order, with the recorded values. Kept are the rows of the selected tests and of the
  -- hooks, and every row if nothing is selected.
  pub load-replays :
      (replay (map request_of (kept selection rows)) s).0 ≡ map recorded_value (kept selection rows)
  load-replays =
      (replay-Stands [] (kept selection rows) s (load-Stands selection rows s is_loaded)).0

  -- Once the kept rows are replayed, asking once more for any of them ends in the error that nothing
  -- is left, and not in a value.
  pub load-exhausted :
      (before : List RecordedSample) (r : RecordedSample) (after : List RecordedSample)
      → kept selection rows ≡ before ++ r ∷ after
      → (answer (request_of r) (replay (map request_of (kept selection rows)) s).1).0 ≡ none_left
  load-exhausted before r after e =
      value-exhausted before r after _
        (subst (λ xs. Stands xs xs (replay (map request_of (kept selection rows)) s).1) e
          (replay-Stands [] (kept selection rows) s (load-Stands selection rows s is_loaded)).1)
        r.value refl
