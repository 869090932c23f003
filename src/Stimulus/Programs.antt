-- ===== src/Stimulus/Programs.antt =====
-- framework/core/src/session/stimulus.cpp: `program`, which arms one key, and `injectStimulus`, which parses
-- every line before it arms the first.
use thorium.Prelude.{
  ℕ, ◌+◌, Bool, true, false, not, ◌||◌, Option, none, some, List, [], ◌∷◌, ◌++◌, Text, eqb,
  if◌then◌else◌, any,
}
use thorium.Session.{QuantityKind, QuantityVariant, Waveform, Bytes, range_source, constant_source}
use thorium.Session.Loading.{RecordedValue, reading, payload, flag, trace}
use thorium.Session.Bank.{SessionBank, inject, inject_kind, inject_data, inject_flag, inject_trace}
use thorium.Stimulus.{trimmed, without_comment, split_values}
use thorium.Stimulus.Values.{parse_value}

-- `value.index()`
abbrev pub shape_of : RecordedValue → ℕ
shape_of (reading _) = 0
shape_of (payload _) = 1
shape_of (flag _) = 2
shape_of (trace _) = 3

-- `std::get<T>` of each value, where all have the shape.
unfoldable pub readings_in : List RecordedValue → List QuantityVariant
readings_in [] = []
readings_in (reading q ∷ values) = q ∷ readings_in values
readings_in (_ ∷ values) = readings_in values

unfoldable pub payloads_in : List RecordedValue → List Bytes
payloads_in [] = []
payloads_in (payload b ∷ values) = b ∷ payloads_in values
payloads_in (_ ∷ values) = payloads_in values

unfoldable pub flags_in : List RecordedValue → List Bool
flags_in [] = []
flags_in (flag b ∷ values) = b ∷ flags_in values
flags_in (_ ∷ values) = flags_in values

unfoldable pub traces_in : List RecordedValue → List Waveform
traces_in [] = []
traces_in (trace w ∷ values) = w ∷ traces_in values
traces_in (_ ∷ values) = traces_in values

-- `byKind[ kind]`, and `order`: each kind where it is first met.
unfoldable pub of_kind : QuantityKind → List QuantityVariant → List QuantityVariant
of_kind kind [] = []
of_kind kind (q ∷ qs) = let later = of_kind kind qs in if eqb q.kind kind then q ∷ later else later

unfoldable pub kinds_from : List QuantityKind → List QuantityVariant → List QuantityKind
kinds_from met [] = met
kinds_from met (q ∷ qs) =
    let same = kinds_from met qs in
    let other = kinds_from (met ++ q.kind ∷ []) qs in
    if any (λ kind. eqb kind q.kind) met then same else other

abbrev pub program_sequence : Text → QuantityKind → List QuantityVariant → SessionBank → SessionBank
program_sequence key kind (q ∷ []) b = inject key q b
program_sequence key kind qs b = inject_kind key kind (range_source qs) b

unfoldable pub program_kinds :
    Text → List QuantityVariant → List QuantityKind → SessionBank → SessionBank
program_kinds key qs [] b = b
program_kinds key qs (kind ∷ kinds) b =
    program_kinds key qs kinds (program_sequence key kind (of_kind kind qs) b)

-- `programReadings`
abbrev pub program_readings : Text → List QuantityVariant → SessionBank → SessionBank
program_readings key qs b = program_kinds key qs (kinds_from [] qs) b

-- `programAs`: one value sticks, and more are a sequence.
abbrev pub source_as : {A : Type 0} → List A → ℕ → Option A
source_as (a ∷ []) = constant_source a
source_as values = range_source values

abbrev pub program_shape : Text → List RecordedValue → RecordedValue → SessionBank → SessionBank
program_shape key values (reading _) b = program_readings key (readings_in values) b
program_shape key values (payload _) b = inject_data key (source_as (payloads_in values)) b
program_shape key values (flag _) b = inject_flag key (source_as (flags_in values)) b
program_shape key values (trace _) b = inject_trace key (source_as (traces_in values)) b

unfoldable pub mixes : ℕ → List RecordedValue → Bool
mixes shape [] = false
mixes shape (value ∷ values) = not (eqb (shape_of value) shape) || mixes shape values

-- Whether it returned, and the bank. `splitValues` gives a value at least.
unfoldable pub program_key : Text → List RecordedValue → SessionBank → Bool × SessionBank
program_key key [] b = (true, b)
program_key key (value ∷ values) b =
    if mixes (shape_of value) (value ∷ values)
    then (false, b)
    else (true, program_shape key (value ∷ values) value b)

abbrev pub Entry : Type 0
Entry = Text × List RecordedValue

-- How `injectStimulus` ends: it returns, or it throws with the number of a line, or with a key, or as
-- there is no such file.
pub data Injected : Type 0 where
  injected no_such_file : Injected
  bad_line : ℕ → Injected
  mixed_shapes : Text → Injected

abbrev pub goes_on :
    Text → Bool × SessionBank → (SessionBank → Injected × SessionBank) → Injected × SessionBank
goes_on key (true, b) rest = rest b
goes_on key (false, b) rest = (mixed_shapes key, b)

-- The second loop of `injectStimulus`.
unfoldable pub program_all : List Entry → SessionBank → Injected × SessionBank
program_all [] b = (injected, b)
program_all ((key, values) ∷ entries) b =
    goes_on key (program_key key values b) (λ after. program_all entries after)

-- `find( '=')`
unfoldable pub at_separator : Text → Option (Text × Text)
at_separator [] = none
at_separator (c ∷ t) =
    let later = at_separator t in if eqb c b'=' then some ([], t) else and_before c later
  where
    and_before : ℕ → Option (Text × Text) → Option (Text × Text)
    and_before c none = none
    and_before c (some (first, rest)) = some (c ∷ first, rest)

-- What a line is: blank, an entry, or malformed.
pub data LineOf : Type 0 where
  blank malformed : LineOf
  entry : Text → List RecordedValue → LineOf

abbrev pub has_blank : Text → Bool
has_blank t = any (λ c. eqb c 32 || eqb c 9) t

module _ (from_chars : Text → Option (ℕ × Text)) (open_file : Text → Option Text) where
  abbrev pub and_value :
      Option RecordedValue → Option (List RecordedValue) → Option (List RecordedValue)
  and_value (some value) (some values) = some (value ∷ values)
  and_value _ _ = none

  unfoldable pub parse_values : List Text → Option (List RecordedValue)
  parse_values [] = some []
  parse_values (t ∷ texts) = and_value (parse_value from_chars open_file t) (parse_values texts)

  abbrev pub entry_of : Text → Option (List RecordedValue) → LineOf
  entry_of key none = malformed
  entry_of key (some values) = entry key values

  abbrev pub keyed_entry : Text → Text → LineOf
  keyed_entry [] values = malformed
  keyed_entry (c ∷ key) values =
      if has_blank (c ∷ key)
      then malformed
      else entry_of (c ∷ key) (parse_values (split_values values))

  abbrev pub separated : Option (Text × Text) → LineOf
  separated none = malformed
  separated (some (key, values)) = keyed_entry (trimmed key) values

  abbrev pub content_of : Text → LineOf
  content_of [] = blank
  content_of (c ∷ t) = separated (at_separator (c ∷ t))

  unfoldable pub parse_line : Text → LineOf
  parse_line line = content_of (trimmed (without_comment line))

  -- The first loop: `parsed`, or the number of the line that threw.
  pub data ParsedLines : Type 0 where
    entries_parsed : List Entry → ParsedLines
    line_refused : ℕ → ParsedLines

  abbrev pub and_entry : Entry → ParsedLines → ParsedLines
  and_entry e (entries_parsed entries) = entries_parsed (e ∷ entries)
  and_entry e (line_refused number) = line_refused number

  abbrev pub line_parsed : LineOf → ℕ → ParsedLines → ParsedLines
  line_parsed blank number later = later
  line_parsed (entry key values) number later = and_entry (key, values) later
  line_parsed malformed number later = line_refused number

  unfoldable pub parse_lines : ℕ → List Text → ParsedLines
  parse_lines number [] = entries_parsed []
  parse_lines number (line ∷ lines) =
      line_parsed (parse_line line) (number + 1) (parse_lines (number + 1) lines)

  abbrev pub inject_parsed : ParsedLines → SessionBank → Injected × SessionBank
  inject_parsed (entries_parsed entries) b = program_all entries b
  inject_parsed (line_refused number) b = (bad_line number, b)

  -- The stream's lines, as `std::getline` gives them.
  unfoldable pub inject_stimulus : List Text → SessionBank → Injected × SessionBank
  inject_stimulus lines b = inject_parsed (parse_lines 0 lines) b

  -- `injectStimulusFromFile`, with the lines of the file where it opens.
  abbrev pub inject_stimulus_from_file : Option (List Text) → SessionBank → Injected × SessionBank
  inject_stimulus_from_file none b = (no_such_file, b)
  inject_stimulus_from_file (some lines) b = inject_stimulus lines b
