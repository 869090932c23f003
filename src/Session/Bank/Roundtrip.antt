-- ===== src/Session/Bank/Roundtrip.antt =====
-- A run that the bank records, and the recording replayed.
use thorium.Prelude.{
  ◌≡◌, refl, sym, ap, subst, ◌∙◌, Bool, true, false, List, [], ◌∷◌, ◌++◌, map, Text, if◌then◌else◌,
  arith,
}
use mathlib.Core.List.{append_assoc, append-nil, map-append}
use thorium.Session.{
  QuantityKind, kind_eq, QuantityVariant, Fetched, fetched, nothing_programmed, none_left, no_bench,
  read_failed, kind_mismatch, ScriptedSession, fetch, fetch_data, fetch_flag, fetch_trace,
}
use thorium.Session.Loading.{
  RecordedValue, reading, payload, flag, trace, RecordedSample, loaded, load,
}
use thorium.Session.Loading.Refusal.{load-everything}
use thorium.Session.Loading.Rows.{kept-everything}
use thorium.Session.Requests.{
  Request, reads, reads_data, reads_flag, reads_trace, in_variant, request_of_value, request_of,
  replay,
}
use thorium.Session.Replay.{recorded_value, load-replays}
use thorium.Session.Bank.{
  placeholder_trace, scope_of, Situation, live_fetch, placeholder_reading, Current, to_live,
  to_scripted, to_placeholder, Recorder, SessionBank, record_sample, switched, through_active,
}
use thorium.Session.Kinds.{IsOfKind, fetch-IsOfKind}
use thorium.Session.Bank.Runs.{
  Asked, asks, asks_data, asks_flag, asks_trace, Call, IsHonest, AreHonest, request_made,
  perform_asked, perform, if_fetched, run,
}

abbrev pub request_and_value : RecordedSample → Request × RecordedValue
request_and_value r = (request_of r, r.value)

record Recorded (b : SessionBank) (answers : List (Request × RecordedValue)) (after : SessionBank)
    : Type 0 where
  rows : List RecordedSample
  appended : after.recorder.samples ≡ b.recorder.samples ++ rows
  heard : map request_and_value rows ≡ answers
  still_recording : after.recording ≡ true
  still_kept : after.recorder.streaming ≡ false

abbrev sample_of : Call → RecordedValue → Recorder → RecordedSample
sample_of c value recorder = record {
  sequence = recorder.next_sequence;
  wall_clock_unix_millis = c.here.now_millis;
  test_id = scope_of c.here.running_test;
  point_name = c.name;
  instrument_id = c.instrument_id;
  value = value;
}

no_row :
    (b b1 : SessionBank)
    → b1.recorder ≡ b.recorder
    → b1.recording ≡ true
    → b.recorder.streaming ≡ false
    → Recorded b [] (if b1.recording then record b1 { recorder = b1.recorder } else b1)
no_row b b1 same on still = record {
  rows = [];
  appended = ground (arith, append-nil b.recorder.samples);
  heard = refl;
  still_recording = ground arith;
  still_kept = ground arith;
}

module _ {A : Type 0} (make : A → RecordedValue) (c : Call) (q : Request) where
  through_active-Recorded :
      (value : Fetched A) (b b1 : SessionBank)
      → ((v : A) → value ≡ fetched v → request_of_value c.name (make v) ≡ q)
      → b1.recorder ≡ b.recorder
      → b1.recording ≡ true
      → b.recorder.streaming ≡ false
      → Recorded b
          (if_fetched q (in_variant make value) [])
          (through_active c.here c.name c.instrument_id make (value, b1)).1
  unfolding record_sample
  through_active-Recorded (fetched v) b b1 asked same on still = record {
    rows = sample_of c (make v) b.recorder ∷ [];
    appended = ground arith;
    heard = ap (λ p. (p, make v) ∷ []) (asked v refl);
    still_recording = ground arith;
    still_kept = ground arith;
  }
  through_active-Recorded nothing_programmed b b1 asked same on still = no_row b b1 same on still
  through_active-Recorded none_left b b1 asked same on still = no_row b b1 same on still
  through_active-Recorded no_bench b b1 asked same on still = no_row b b1 same on still
  through_active-Recorded read_failed b b1 asked same on still = no_row b b1 same on still
  through_active-Recorded (kind_mismatch _ _) b b1 asked same on still = no_row b b1 same on still

switched-recorder :
    {A : Type 0} (to : Current) (live : Fetched A) (placeholder : A)
    (scripted : Fetched A × ScriptedSession) (b : SessionBank)
    → ((switched to live placeholder scripted b).1.recorder ≡ b.recorder)
      × ((switched to live placeholder scripted b).1.recording ≡ b.recording)
switched-recorder to_live live placeholder scripted b = (refl, refl)
switched-recorder to_placeholder live placeholder scripted b = (refl, refl)
switched-recorder to_scripted live placeholder scripted b = (refl, refl)

live-IsOfKind :
    (kind : QuantityKind) (attached : Bool) (live_read : Fetched QuantityVariant)
    → IsOfKind kind live_read
    → IsOfKind kind (live_fetch attached live_read)
live-IsOfKind kind true live_read h = h
live-IsOfKind kind false live_read h = tt

switched-IsOfKind :
    (here : Situation) (name : Text) (kind : QuantityKind) (live_read : Fetched QuantityVariant)
    (to : Current) (b : SessionBank)
    → IsOfKind kind live_read
    → IsOfKind kind
        (switched to
          (live_fetch here.bench_attached live_read)
          (placeholder_reading kind)
          (fetch name kind b.scripted)
          b).0
switched-IsOfKind here name kind live_read to_live b h =
    live-IsOfKind kind here.bench_attached live_read h
switched-IsOfKind here name kind live_read to_placeholder b h = refl
switched-IsOfKind here name kind live_read to_scripted b h = fetch-IsOfKind name kind b.scripted

fetched-IsOfKind :
    (kind : QuantityKind) (x : Fetched QuantityVariant) (v : QuantityVariant)
    → IsOfKind kind x
    → x ≡ fetched v
    → v.kind ≡ kind
fetched-IsOfKind kind x v h e = subst (IsOfKind kind) e h

asked-Recorded :
    (c : Call) (asked : Asked) (b : SessionBank)
    → IsHonest asked
    → b.recording ≡ true
    → b.recorder.streaming ≡ false
    → Recorded b
        (if_fetched (request_made c.name asked) (perform_asked c asked b).0 [])
        (perform_asked c asked b).1
asked-Recorded c (asks kind live_read) b honest on still =
    let to =
      switched-recorder b.current (live_fetch c.here.bench_attached live_read)
        (placeholder_reading kind) (fetch c.name kind b.scripted) b in
    let of_kind = switched-IsOfKind c.here c.name kind live_read b.current b honest in
    through_active-Recorded reading c (reads c.name kind) _ b _
      (λ v e. ap (reads c.name) (fetched-IsOfKind kind _ v of_kind e)) to.0 (to.1 ∙ on) still
asked-Recorded c (asks_data live_read) b honest on still =
    let to =
      switched-recorder b.current (live_fetch c.here.bench_attached live_read) []
        (fetch_data c.name b.scripted) b in
    through_active-Recorded payload c (reads_data c.name) _ b _ (λ v e. refl) to.0 (to.1 ∙ on) still
asked-Recorded c (asks_flag live_read) b honest on still =
    let to =
      switched-recorder b.current (live_fetch c.here.bench_attached live_read) true
        (fetch_flag c.name b.scripted) b in
    through_active-Recorded flag c (reads_flag c.name) _ b _ (λ v e. refl) to.0 (to.1 ∙ on) still
asked-Recorded c (asks_trace live_read) b honest on still =
    let to =
      switched-recorder b.current (live_fetch c.here.bench_attached live_read) placeholder_trace
        (fetch_trace c.name b.scripted) b in
    through_active-Recorded trace c (reads_trace c.name) _ b _ (λ v e. refl) to.0 (to.1 ∙ on) still

if_fetched-append :
    (q : Request) (value : Fetched RecordedValue) (rest : List (Request × RecordedValue))
    → if_fetched q value [] ++ rest ≡ if_fetched q value rest
if_fetched-append q (fetched value) rest = refl
if_fetched-append q nothing_programmed rest = refl
if_fetched-append q none_left rest = refl
if_fetched-append q no_bench rest = refl
if_fetched-append q read_failed rest = refl
if_fetched-append q (kind_mismatch _ _) rest = refl

run-Recorded :
    (cs : List Call) (b : SessionBank)
    → AreHonest cs
    → b.recording ≡ true
    → b.recorder.streaming ≡ false
    → Recorded b (run cs b).0 (run cs b).1
unfolding run
run-Recorded [] b honest on still = record {
  rows = [];
  appended = sym (append-nil _);
  heard = refl;
  still_recording = on;
  still_kept = still;
}
run-Recorded (c ∷ cs) b (honest, others) on still =
    let one = asked-Recorded c c.asked b honest on still in
    let rest = run-Recorded cs (perform c b).1 others one.still_recording one.still_kept in
    record {
      rows = one.rows ++ rest.rows;
      appended =
          rest.appended
          ∙ ap (λ xs. xs ++ rest.rows) one.appended
          ∙ append_assoc b.recorder.samples one.rows rest.rows;
      heard =
          map-append request_and_value one.rows rest.rows
          ∙ ap (λ xs. xs ++ map request_and_value rest.rows) one.heard
          ∙ ap (◌++◌ (if_fetched _ (perform c b).0 [])) rest.heard
          ∙ if_fetched-append _ (perform c b).0 (run cs (perform c b).1).0;
      still_recording = rest.still_recording;
      still_kept = rest.still_kept;
    }

abbrev pub answered : Request × RecordedValue → Fetched RecordedValue
answered (q, value) = fetched value

abbrev pub asked_again : Request × RecordedValue → Request
asked_again (q, value) = q

asked_again-rows :
    (rows : List RecordedSample)
    → map asked_again (map request_and_value rows) ≡ map request_of rows
asked_again-rows [] = refl
asked_again-rows (r ∷ rows) = ap (◌∷◌ (request_of r)) (asked_again-rows rows)

answered-rows :
    (rows : List RecordedSample)
    → map answered (map request_and_value rows) ≡ map recorded_value rows
answered-rows [] = refl
answered-rows (r ∷ rows) = ap (◌∷◌ (recorded_value r)) (answered-rows rows)

-- A run that the bank records in memory, whatever its sessions and instruments answer, loads without
-- a selection, and replays: the requests that got a value, made again in their order, get the same
-- values. A bench's reads of quantities must be of the kinds that are asked for, and the recorder
-- begins without samples.
pub record-replay :
    (cs : List Call) (b : SessionBank)
    → AreHonest cs
    → b.recording ≡ true
    → b.recorder.streaming ≡ false
    → b.recorder.samples ≡ []
    → (s : ScriptedSession) × (load [] (run cs b).1.recorder.samples ≡ loaded s)
      × ((replay (map asked_again (run cs b).0) s).0 ≡ map answered (run cs b).0)
record-replay cs b honest on still none_yet =
    let r = run-Recorded cs b honest on still in
    let (s, is_loaded) = load-everything (run cs b).1.recorder.samples in
    let all_kept =
      kept-everything (run cs b).1.recorder.samples
      ∙ r.appended
      ∙ ap (λ xs. xs ++ r.rows) none_yet in
    (
      s,
      is_loaded,
      ap (λ qs. (replay qs s).0)
            (ap (map asked_again) (sym r.heard)
              ∙ asked_again-rows r.rows
              ∙ ap (map request_of) (sym all_kept))
          ∙ load-replays [] (run cs b).1.recorder.samples s is_loaded
          ∙ ap (map recorded_value) all_kept
          ∙ sym (answered-rows r.rows)
          ∙ ap (map answered) r.heard,
    )
