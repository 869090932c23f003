-- ===== src/Stimulus/Sequences.antt =====
-- One value sticks, and a list is a sequence: what the reads of a payload get behind a line of a
-- stimulus file.
use thorium.Prelude.{
  ℕ, zero, suc, ◌+◌, Bool, true, false, Option, some, List, [], ◌∷◌, ◌++◌, map, Text, text_eq,
  if◌then◌else◌, length, get_elem?, get_elem?-length, get_elem?-length_append, length-append, ◌≡◌,
  refl, ap, sym, ◌∙◌,
}
use mathlib.Core.List.{append_assoc, append-nil}
use thorium.Prelude.Dict.{lookup, lookup-insert}
use thorium.Session.{
  Bytes, Slot, Fetched, fetched, none_left, range_source, constant_source, ScriptedSession,
  next_from, value_or_none_left, program_data, fetch_data,
}
use thorium.Session.Loading.{RecordedValue, payload}
use thorium.Session.Bank.{SessionBank, inject_data}
use thorium.Stimulus.Programs.{mixes, payloads_in, program_key, program_shape, source_as}

-- That many reads of the key, one after the other.
abbrev pub read_times : ℕ → Text → ScriptedSession → List (Fetched Bytes)
read_times zero key s = []
read_times (suc n) key s = let (value, after) = fetch_data key s in value ∷ read_times n key after

abbrev pub times : ℕ → Fetched Bytes → List (Fetched Bytes)
times zero value = []
times (suc n) value = value ∷ times n value

mixes-payloads : (values : List Bytes) → mixes 1 (map payload values) ≡ false
unfolding mixes
mixes-payloads [] = refl
mixes-payloads (v ∷ values) = mixes-payloads values

payloads_in-payloads : (values : List Bytes) → payloads_in (map payload values) ≡ values
unfolding payloads_in
payloads_in-payloads [] = refl
payloads_in-payloads (v ∷ values) = ap (◌∷◌ v) (payloads_in-payloads values)

-- A read of a slot, and the slot behind it.
read_once :
    (key : Text) (s : ScriptedSession) (source : ℕ → Option Bytes) (calls : ℕ)
    → lookup key s.data_sources ≡ some (record { source = source; calls = calls })
    → ((fetch_data key s).0 ≡ value_or_none_left (source calls))
      × (lookup key (fetch_data key s).1.data_sources
          ≡ some (record { source = source; calls = calls + 1 }))
unfolding fetch_data
read_once key s source calls h =
    let after : Slot Bytes = record { source = source; calls = calls + 1 } in
    (
      ap (λ o. (next_from key o s.data_sources).0) h,
      ap (λ o. lookup key (next_from key o s.data_sources).1) h
          ∙ lookup-insert key key after s.data_sources
          ∙ ap (λ b. if b then some after else lookup key s.data_sources)
              ((text_eq.same_iff key key).1 refl),
    )

module _ (key : Text) where
  read_times-sequence :
      (rest before : List Bytes) (s : ScriptedSession)
      → lookup key s.data_sources
        ≡ some (record { source = range_source (before ++ rest); calls = length before })
      → read_times (suc (length rest)) key s ≡ map fetched rest ++ none_left ∷ []
  read_times-sequence [] before s h =
      let last = read_once key s (range_source (before ++ [])) (length before) h in
      ap (λ value. value ∷ [])
        (last.0
          ∙ ap (λ xs. value_or_none_left (get_elem? xs (length before))) (append-nil before)
          ∙ ap value_or_none_left (get_elem?-length before))
  read_times-sequence (v ∷ rest) before s h =
      let first = read_once key s (range_source (before ++ v ∷ rest)) (length before) h in
      ap (λ value. value ∷ read_times (suc (length rest)) key (fetch_data key s).1)
        (first.0 ∙ ap value_or_none_left (get_elem?-length_append before v rest))
      ∙ ap (◌∷◌ (fetched v)) (
          read_times-sequence rest (before ++ v ∷ []) (fetch_data key s).1 (
            first.1
            ∙ ap (λ xs. some (record { source = range_source xs; calls = length before + 1 }))
                (sym (append_assoc before (v ∷ []) rest))
            ∙ ap
                (λ n.
                  some (record { source = range_source ((before ++ v ∷ []) ++ rest); calls = n }))
                (sym (length-append before (v ∷ [])))))

  read_times-sticky :
      (n calls : ℕ) (value : Bytes) (s : ScriptedSession)
      → lookup key s.data_sources ≡ some (record { source = constant_source value; calls = calls })
      → read_times n key s ≡ times n (fetched value)
  read_times-sticky zero calls value s h = refl
  read_times-sticky (suc n) calls value s h =
      let first = read_once key s (constant_source value) calls h in
      ap (λ r. r ∷ read_times n key (fetch_data key s).1) first.0
      ∙ ap (◌∷◌ (fetched value))
          (read_times-sticky n (calls + 1) value (fetch_data key s).1 first.1)

  abbrev outcome : List RecordedValue → RecordedValue → SessionBank → Bool → Bool × SessionBank
  outcome values value b mixed =
      if mixed then (false, b) else (true, program_shape key values value b)

  armed_lookup :
      (source : ℕ → Option Bytes) (b : SessionBank)
      → lookup key (inject_data key source b).scripted.data_sources
        ≡ some (record { source = source; calls = 0 })
  unfolding inject_data program_data
  armed_lookup source b =
      let slot : Slot Bytes = record { source = source; calls = 0 } in
      lookup-insert key key slot b.scripted.data_sources
      ∙ ap (λ same. if same then some slot else lookup key b.scripted.data_sources)
          ((text_eq.same_iff key key).1 refl)

  -- A list of two payloads or more is given out in its order, one for each read, and the read behind
  -- the last finds none left.
  pub program_key-sequence :
      (first second : Bytes) (rest : List Bytes) (b : SessionBank)
      → read_times
          (suc (length (first ∷ second ∷ rest)))
          key
          (program_key key (map payload (first ∷ second ∷ rest)) b).1.scripted
        ≡ map fetched (first ∷ second ∷ rest) ++ none_left ∷ []
  unfolding program_key mixes payloads_in
  program_key-sequence first second rest b =
      ap
        (λ mixed.
          read_times (suc (length (first ∷ second ∷ rest))) key
            (outcome (map payload (first ∷ second ∷ rest)) (payload first) b mixed).1.scripted)
        (mixes-payloads (first ∷ second ∷ rest))
      ∙ ap
          (λ values.
            read_times (suc (length (first ∷ second ∷ rest))) key
              (inject_data key (source_as (first ∷ second ∷ values)) b).scripted)
          (payloads_in-payloads rest)
      ∙ read_times-sequence (first ∷ second ∷ rest) []
          (inject_data key (range_source (first ∷ second ∷ rest)) b).scripted
          (armed_lookup (range_source (first ∷ second ∷ rest)) b)

  -- One payload answers every read, however many there are.
  pub program_key-sticky :
      (value : Bytes) (n : ℕ) (b : SessionBank)
      → read_times n key (program_key key (payload value ∷ []) b).1.scripted
        ≡ times n (fetched value)
  unfolding program_key mixes payloads_in
  program_key-sticky value n b =
      read_times-sticky n 0 value (inject_data key (constant_source value) b).scripted
        (armed_lookup (constant_source value) b)
