-- ===== src/Session.antt =====
-- framework/core/include/core/session/session.hpp and framework/core/src/session/session.cpp: the
-- sessions that a verb reads through. A name is its bytes, a `double` is its bit pattern, and a
-- `QuantityKind` is its position in the enumeration, which is the index in the variant.
pub mod Slots
pub mod Loading
pub mod Bank
pub mod Kinds
pub mod Requests
pub mod Replay
mod Examples
use thorium.Prelude.{
  ℕ, ◌+◌, min, Bool, true, false, not, Option, none, some, List, [], ◌∷◌, Text, text_eq, Keyed, eqb,
  eqb_iff, if◌then◌else◌, get_elem?, has_value,
}
use thorium.Prelude.Dict.{Dict, lookup, insert}

abbrev pub QuantityKind : Type 0
QuantityKind = ℕ

instance abbrev pub kind_eq : Keyed QuantityKind
kind_eq = record { same = eqb; same_iff = eqb_iff }

pub record QuantityVariant : Type 0 where
  pub kind : QuantityKind
  pub amount : ℕ

pub record Waveform : Type 0 where
  pub unit : QuantityKind
  pub origin : ℕ
  pub increment : ℕ
  pub samples : List ℕ

abbrev pub Bytes : Type 0
Bytes = List ℕ

-- How an observation ends: with a value, or with the exception that says why there is none.
pub data Fetched (A : Type 0) : Type 0 where
  fetched : A → Fetched A
  nothing_programmed none_left no_bench read_failed : Fetched A
  kind_mismatch : QuantityKind → QuantityKind → Fetched A

-- A source is a callable with a state of its own: what it answers to its first call, its second call
-- and so on, and how often it has been called.
pub record Slot (A : Type 0) : Type 0 where
  pub source : ℕ → Option A
  pub calls : ℕ

-- `detail::rangeSource`
abbrev pub range_source : {A : Type 0} → List A → ℕ → Option A
range_source values calls = get_elem? values calls

-- `constantSource`
abbrev pub constant_source : {A : Type 0} → A → ℕ → Option A
constant_source value calls = some value

-- `detail::ObservationSlots`
abbrev pub Slots : Type 0 → Type 0
Slots A = Dict Text (Slot A)

-- `ObservationSlots::program`
abbrev pub program_slot : {A : Type 0} → Text → (ℕ → Option A) → Slots A → Slots A
program_slot name source slots = insert name (record { source = source; calls = 0 }) slots

-- `ObservationSlots::has`
abbrev pub has : {A : Type 0} → Text → Slots A → Bool
has name slots = has_value (lookup name slots)

abbrev pub value_or_none_left : {A : Type 0} → Option A → Fetched A
value_or_none_left none = none_left
value_or_none_left (some value) = fetched value

abbrev pub next_from : {A : Type 0} → Text → Option (Slot A) → Slots A → Fetched A × Slots A
next_from name none slots = (nothing_programmed, slots)
next_from name (some slot) slots = (
  value_or_none_left (slot.source slot.calls),
  insert name (record slot { calls = slot.calls + 1 }) slots,
)

-- `ObservationSlots::next`
abbrev pub next : {A : Type 0} → Text → Slots A → Fetched A × Slots A
next name slots = next_from name (lookup name slots) slots

pub record ScriptedSession : Type 0 where
  pub sources : Slots QuantityVariant
  pub kind_sources : Dict QuantityKind (Slots QuantityVariant)
  pub data_sources : Slots Bytes
  pub flag_sources : Slots Bool
  pub trace_sources : Slots Waveform

-- `ScriptedSession{}`
abbrev pub fresh : ScriptedSession
fresh = record {
  sources = [];
  kind_sources = [];
  data_sources = [];
  flag_sources = [];
  trace_sources = [];
}

-- What stands at a key of a map, or the empty value that `operator[]` or `try_emplace` puts there.
abbrev pub or_empty : {A : Type 0} → Option (List A) → List A
or_empty none = []
or_empty (some xs) = xs

-- `program( name, kind, source)`
pub program_kind :
    Text → QuantityKind → (ℕ → Option QuantityVariant) → ScriptedSession → ScriptedSession
program_kind name kind source s = record s {
  kind_sources =
      insert kind (program_slot name source (or_empty (lookup kind s.kind_sources))) s.kind_sources;
}

-- `program( name, value)`
pub program_value : Text → QuantityVariant → ScriptedSession → ScriptedSession
program_value name value s = program_kind name value.kind (constant_source value) s

-- `program( name, source)`
pub program : Text → (ℕ → Option QuantityVariant) → ScriptedSession → ScriptedSession
program name source s = record s { sources = program_slot name source s.sources }

unfoldable pub program_data : Text → (ℕ → Option Bytes) → ScriptedSession → ScriptedSession
program_data name source s = record s { data_sources = program_slot name source s.data_sources }

pub program_flag : Text → (ℕ → Option Bool) → ScriptedSession → ScriptedSession
program_flag name source s = record s { flag_sources = program_slot name source s.flag_sources }

pub program_trace : Text → (ℕ → Option Waveform) → ScriptedSession → ScriptedSession
program_trace name source s = record s { trace_sources = program_slot name source s.trace_sources }

-- `checkKind`
abbrev pub check_kind : QuantityKind → Fetched QuantityVariant → Fetched QuantityVariant
check_kind kind (fetched value) =
    if eqb value.kind kind then fetched value else kind_mismatch value.kind kind
check_kind kind nothing_programmed = nothing_programmed
check_kind kind none_left = none_left
check_kind kind no_bench = no_bench
check_kind kind read_failed = read_failed
check_kind kind (kind_mismatch programmed expected) = kind_mismatch programmed expected

abbrev least_with : QuantityKind → Option QuantityKind → QuantityKind
least_with kind none = kind
least_with kind (some other) = min kind other

-- The first kind that holds the name, in the ascending order of the `std::map`.
pub first_programmed : Text → Dict QuantityKind (Slots QuantityVariant) → Option QuantityKind
first_programmed name [] = none
first_programmed name ((kind, slots) ∷ rest) =
    let later = first_programmed name rest in
    if has name slots then some (least_with kind later) else later

-- The part of `fetch` behind the slots of the kind.
abbrev pub fetch_agnostic :
    Text → QuantityKind → ScriptedSession → Fetched QuantityVariant × ScriptedSession
fetch_agnostic name kind s =
    let (value, after) = next name s.sources in
    (check_kind kind value, record s { sources = after })

abbrev pub fetch_fallback :
    Text
    → QuantityKind
    → Option QuantityKind
    → ScriptedSession
    → Fetched QuantityVariant × ScriptedSession
fetch_fallback name kind none s = fetch_agnostic name kind s
fetch_fallback name kind (some programmed) s =
    if has name s.sources then fetch_agnostic name kind s else (kind_mismatch programmed kind, s)

abbrev pub fetch_of_kind :
    Text
    → QuantityKind
    → Slots QuantityVariant
    → ScriptedSession
    → Fetched QuantityVariant × ScriptedSession
fetch_of_kind name kind slots s =
    let (value, after) = next name slots in
    (check_kind kind value, record s { kind_sources = insert kind after s.kind_sources })

abbrev pub fetch_from :
    Text
    → QuantityKind
    → Option (Slots QuantityVariant)
    → ScriptedSession
    → Fetched QuantityVariant × ScriptedSession
fetch_from name kind none s = fetch_fallback name kind (first_programmed name s.kind_sources) s
fetch_from name kind (some slots) s =
    if has name slots
    then fetch_of_kind name kind slots s
    else fetch_fallback name kind (first_programmed name s.kind_sources) s

-- `ScriptedSession::fetch`
unfoldable pub fetch :
    Text → QuantityKind → ScriptedSession → Fetched QuantityVariant × ScriptedSession
fetch name kind s = fetch_from name kind (lookup kind s.kind_sources) s

unfoldable pub fetch_data : Text → ScriptedSession → Fetched Bytes × ScriptedSession
fetch_data name s =
    let (value, after) = next name s.data_sources in (value, record s { data_sources = after })

unfoldable pub fetch_flag : Text → ScriptedSession → Fetched Bool × ScriptedSession
fetch_flag name s =
    let (value, after) = next name s.flag_sources in (value, record s { flag_sources = after })

unfoldable pub fetch_trace : Text → ScriptedSession → Fetched Waveform × ScriptedSession
fetch_trace name s =
    let (value, after) = next name s.trace_sources in (value, record s { trace_sources = after })
