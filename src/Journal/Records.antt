-- ===== src/Journal/Records.antt =====
-- framework/core/include/core/journal/journal.hpp: what is posted, and what a sink is told.
use thorium.Prelude.{ℕ, Bool, Option, List, Text}

pub data Verb : Type 0 where
  measure setup apply remove connect disconnect write read arm await fetch delay : Verb
  verify safe note : Verb

pub record RunInfo : Type 0 where
  pub framework_name : Text
  pub framework_version : Text
  pub framework_revision : Text
  pub criteria_variant : Text
  pub criteria_master : Text
  pub dut_name : Text
  pub dut_serial : Text
  pub rig_name : Text
  pub operator : Text
  pub host_name : Text
  pub command_line : Text
  pub suite_version : Text
  pub dut_version : Text
  pub rig_version : Text
  pub started_utc : Text
  pub started_local : Text
  pub bench_attached : Bool
  pub instruments : List Text

pub record JournalRecord : Type 0 where
  pub method : Verb
  pub subject : Text
  pub subject_group : Text
  pub detail : Text
  pub instrument : Text
  pub value : Text
  pub numeric : Option ℕ
  pub unit : Text
  pub criterion_text : Text
  pub passed : Option Bool

-- `struct JournalEvent : JournalRecord`
pub record JournalEvent : Type 0 where
  pub entry : JournalRecord
  pub sequence : ℕ
  pub wall_clock_unix_millis : ℕ
  pub time_utc : Text
  pub group : Text
  pub test : Text
  pub phase : Text

-- The calls of `IJournalSink`.
pub data SinkCall : Type 0 where
  on_run_start : RunInfo → SinkCall
  on_group_start : Text → Text → SinkCall
  on_group_end : Text → SinkCall
  on_test_start : Text → Text → SinkCall
  on_phase_start : Text → Text → Text → SinkCall
  on_phase_end : Text → SinkCall
  on_event : JournalEvent → SinkCall
  on_test_end : Text → Text → Bool → SinkCall
  on_run_end : Bool → SinkCall
