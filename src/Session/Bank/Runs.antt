-- ===== src/Session/Bank/Runs.antt =====
-- The calls of the verbs through the bank that a run makes.
use thorium.Prelude.{Bool, List, [], ◌∷◌, Text}
use thorium.Session.{
  QuantityKind, kind_eq, QuantityVariant, Waveform, Bytes, Fetched, fetched, nothing_programmed,
  none_left, no_bench, read_failed, kind_mismatch,
}
use thorium.Session.Loading.{RecordedValue, reading, payload, flag, trace}
use thorium.Session.Requests.{Request, reads, reads_data, reads_flag, reads_trace, in_variant}
use thorium.Session.Bank.{
  Situation, SessionBank, switch_fetch, switch_fetch_data, switch_fetch_flag, switch_fetch_trace,
  through_active,
}
use thorium.Session.Kinds.{IsOfKind}

-- A call of a verb, with what the instrument's read gives if it is made.
pub data Asked : Type 0 where
  asks : QuantityKind → Fetched QuantityVariant → Asked
  asks_data : Fetched Bytes → Asked
  asks_flag : Fetched Bool → Asked
  asks_trace : Fetched Waveform → Asked

pub record Call : Type 0 where
  pub here : Situation
  pub name : Text
  pub instrument_id : Text
  pub asked : Asked

-- The instrument's read is of the kind that the verb asks for.
abbrev pub IsHonest : Asked → Type 0
IsHonest (asks kind live_read) = IsOfKind kind live_read
IsHonest (asks_data _) = Unit
IsHonest (asks_flag _) = Unit
IsHonest (asks_trace _) = Unit

abbrev pub AreHonest : List Call → Type 0
AreHonest [] = Unit
AreHonest (c ∷ cs) = IsHonest c.asked × AreHonest cs

abbrev pub request_made : Text → Asked → Request
request_made name (asks kind _) = reads name kind
request_made name (asks_data _) = reads_data name
request_made name (asks_flag _) = reads_flag name
request_made name (asks_trace _) = reads_trace name

abbrev pub perform_asked : Call → Asked → SessionBank → Fetched RecordedValue × SessionBank
perform_asked c (asks kind live_read) b =
    let (value, after) =
      through_active c.here c.name c.instrument_id reading
        (switch_fetch c.here c.name kind live_read b) in
    (in_variant reading value, after)
perform_asked c (asks_data live_read) b =
    let (value, after) =
      through_active c.here c.name c.instrument_id payload
        (switch_fetch_data c.here c.name live_read b) in
    (in_variant payload value, after)
perform_asked c (asks_flag live_read) b =
    let (value, after) =
      through_active c.here c.name c.instrument_id flag
        (switch_fetch_flag c.here c.name live_read b) in
    (in_variant flag value, after)
perform_asked c (asks_trace live_read) b =
    let (value, after) =
      through_active c.here c.name c.instrument_id trace
        (switch_fetch_trace c.here c.name live_read b) in
    (in_variant trace value, after)

abbrev pub perform : Call → SessionBank → Fetched RecordedValue × SessionBank
perform c b = perform_asked c c.asked b

abbrev pub if_fetched :
    Request
    → Fetched RecordedValue
    → List (Request × RecordedValue)
    → List (Request × RecordedValue)
if_fetched q (fetched value) rest = (q, value) ∷ rest
if_fetched q nothing_programmed rest = rest
if_fetched q none_left rest = rest
if_fetched q no_bench rest = rest
if_fetched q read_failed rest = rest
if_fetched q (kind_mismatch _ _) rest = rest

-- The calls of a run, made one after the other: the requests that got a value, each with its value,
-- and the bank after the run. A call that got none leaves the list as it is.
unfoldable pub run : List Call → SessionBank → List (Request × RecordedValue) × SessionBank
run [] b = ([], b)
run (c ∷ cs) b =
    let (value, after) = perform c b in
    let (answers, last) = run cs after in
    (if_fetched (request_made c.name c.asked) value answers, last)
