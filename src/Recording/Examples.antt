-- ===== src/Recording/Examples.antt =====
-- The theorems of the recording at a trace of two samples.
use thorium.Prelude.{ℕ, ◌≡◌, ◌≢◌, ◌⊎◌, ◌%◌, List, [], ◌∷◌, none, some, length, arith}
use thorium.Session.{Bytes}
use thorium.Payload.Hex.{AreOctets}
use thorium.Recording.{pack_samples, unpack_samples, trace_column, trace_samples}
use thorium.Recording.Samples.{unpack_samples-cases}
use thorium.Recording.Columns.{trace_samples-trace_column}

abbrev two_samples : List ℕ
two_samples = 4617315517961601024 ∷ 13830554455654793216 ∷ []

abbrev reply : Bytes
reply = 79 ∷ 75 ∷ 10 ∷ []

reply-AreOctets : AreOctets reply
reply-AreOctets = (omega arith, (omega arith, (omega arith, tt)))

trace_samples-trace_column_example : trace_samples (trace_column two_samples) ≡ some two_samples
trace_samples-trace_column_example =
    trace_samples-trace_column two_samples (omega arith, (omega arith, tt))

unpack_samples-cases_example :
    ((samples : List ℕ) × (unpack_samples reply ≡ some samples) × (pack_samples samples ≡ reply))
    ⊎ ((unpack_samples reply ≡ none) × (length reply % 8 ≢ 0))
unpack_samples-cases_example = unpack_samples-cases reply reply-AreOctets
