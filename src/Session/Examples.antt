-- ===== src/Session/Examples.antt =====
-- The theorems of the sessions at a run of two tests that measures a rail, reads a reply and waits for
-- a trigger.
use thorium.Prelude.{◌≡◌, refl, true, false, List, [], ◌∷◌, ◌++◌, map, Text, text, any, text_beq}
use thorium.Session.{
  QuantityVariant, fetched, read_failed, ScriptedSession, fresh, fetch, none_left,
}
use thorium.Session.Kinds.{IsOfKind, fetch-IsOfKind}
use thorium.Session.Loading.{
  RecordedValue, reading, payload, flag, RecordedSample, run_scope, loaded, no_readings_selected,
  load, collect, session_of, nothing_collected, is_empty,
}
use thorium.Session.Loading.Rows.{kept}
use thorium.Session.Loading.Refusal.{is_of_selected_test, load-refuses_iff}
use thorium.Session.Requests.{request_of, answer, replay}
use thorium.Session.Replay.{recorded_value, load-replays, load-exhausted}
use thorium.Session.Bank.{Situation, to_live, SessionBank}
use thorium.Session.Bank.Runs.{Call, asks, asks_data, run}
use thorium.Session.Bank.Roundtrip.{asked_again, answered, record-replay}

abbrev row : Text → Text → RecordedValue → RecordedSample
row test name value = record {
  sequence = 0;
  wall_clock_unix_millis = 0;
  test_id = test;
  point_name = name;
  instrument_id = text "dmm";
  value = value;
}

abbrev three_volts : QuantityVariant
three_volts = record { kind = 0; amount = 4614 }

abbrev one_amp : QuantityVariant
one_amp = record { kind = 1; amount = 4607 }

abbrev rows : List RecordedSample
rows =
    row run_scope (text "rail") (reading three_volts)
    ∷ row (text "power") (text "rail") (reading one_amp)
    ∷ row (text "serial") (text "uart") (payload (79 ∷ 75 ∷ []))
    ∷ row (text "power") (text "trigger") (flag true)
    ∷ []

abbrev selection : List Text
selection = text "power" ∷ []

abbrev power_session : ScriptedSession
power_session = session_of (collect selection rows nothing_collected)

power_loads : load selection rows ≡ loaded power_session
unfolding load collect text_beq
power_loads = refl

load-replays_example :
    (replay (map request_of (kept selection rows)) power_session).0
    ≡ map recorded_value (kept selection rows)
load-replays_example = load-replays selection rows power_session power_loads

kept_rows :
    kept selection rows
    ≡ row run_scope (text "rail") (reading three_volts) ∷ []
      ++ row (text "power") (text "rail") (reading one_amp)
        ∷ row (text "power") (text "trigger") (flag true)
        ∷ []
unfolding text_beq
kept_rows = refl

load-exhausted_example :
    (answer
      (request_of (row (text "power") (text "rail") (reading one_amp)))
      (replay (map request_of (kept selection rows)) power_session).1).0
    ≡ none_left
load-exhausted_example =
    load-exhausted selection rows power_session power_loads
      (row run_scope (text "rail") (reading three_volts) ∷ [])
      (row (text "power") (text "rail") (reading one_amp))
      (row (text "power") (text "trigger") (flag true) ∷ []) kept_rows

none_selected :
    (is_empty (text "thermal" ∷ []) ≡ false)
    × (any (is_of_selected_test (text "thermal" ∷ [])) rows ≡ false)
unfolding text_beq
none_selected = (refl, refl)

load-refuses_iff_example : load (text "thermal" ∷ []) rows ≡ no_readings_selected
load-refuses_iff_example = (load-refuses_iff (text "thermal" ∷ []) rows).1 none_selected

fetch-IsOfKind_example : IsOfKind 1 (fetch (text "rail") 1 power_session).0
fetch-IsOfKind_example = fetch-IsOfKind (text "rail") 1 power_session

abbrev in_test : Text → Situation
in_test test = record { bench_attached = true; running_test = test; now_millis = 12 }

abbrev a_run : List Call
a_run =
    record {
      here = in_test (text "power");
      name = text "rail";
      instrument_id = text "dmm";
      asked = asks 0 (fetched three_volts);
    }
    ∷ record {
      here = in_test (text "power");
      name = text "rail";
      instrument_id = text "dmm";
      asked = asks 1 read_failed;
    }
    ∷ record {
      here = in_test (text "serial");
      name = text "uart";
      instrument_id = text "port";
      asked = asks_data (fetched (79 ∷ []));
    }
    ∷ []

abbrev recording_bank : SessionBank
recording_bank = record {
  scripted = fresh;
  current = to_live;
  recorder = record { next_sequence = 0; samples = []; streaming = false; written = [] };
  recording = true;
}

record-replay_example :
    (s : ScriptedSession) × (load [] (run a_run recording_bank).1.recorder.samples ≡ loaded s)
    × ((replay (map asked_again (run a_run recording_bank).0) s).0
        ≡ map answered (run a_run recording_bank).0)
record-replay_example = record-replay a_run recording_bank (refl, (tt, (tt, tt))) refl refl refl
