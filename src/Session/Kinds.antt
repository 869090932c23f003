-- ===== src/Session/Kinds.antt =====
-- The kind of what a `ScriptedSession` answers.
use thorium.Prelude.{
  ◌≡◌, sym, subst, inl, inr, Option, none, some, Text, eqb, eqb_iff, if◌then◌else◌, Bool-cases,
}
use thorium.Prelude.Dict.{lookup}
use thorium.Session.{
  QuantityKind, kind_eq, QuantityVariant, Slots, has, Fetched, fetched, nothing_programmed,
  none_left, no_bench, read_failed, kind_mismatch, ScriptedSession, check_kind, first_programmed,
  fetch_fallback, fetch_of_kind, fetch_agnostic, fetch_from, fetch, next,
}

-- A value of a reading, if there is one, has the kind.
abbrev pub IsOfKind : QuantityKind → Fetched QuantityVariant → Type 0
IsOfKind kind (fetched value) = value.kind ≡ kind
IsOfKind kind nothing_programmed = Unit
IsOfKind kind none_left = Unit
IsOfKind kind no_bench = Unit
IsOfKind kind read_failed = Unit
IsOfKind kind (kind_mismatch _ _) = Unit

check_kind-IsOfKind :
    (kind : QuantityKind) (x : Fetched QuantityVariant) → IsOfKind kind (check_kind kind x)
check_kind-IsOfKind kind (fetched value) = elim (Bool-cases (eqb value.kind kind)) [
  | inl e ↦
      subst (λ b. IsOfKind kind (if b then fetched value else kind_mismatch value.kind kind))
        (sym e) ((eqb_iff value.kind kind).0 e)
  | inr e ↦
      subst (λ b. IsOfKind kind (if b then fetched value else kind_mismatch value.kind kind))
        (sym e) tt
]
check_kind-IsOfKind kind nothing_programmed = tt
check_kind-IsOfKind kind none_left = tt
check_kind-IsOfKind kind no_bench = tt
check_kind-IsOfKind kind read_failed = tt
check_kind-IsOfKind kind (kind_mismatch _ _) = tt

fetch_fallback-IsOfKind :
    (name : Text) (kind : QuantityKind) (o : Option QuantityKind) (s : ScriptedSession)
    → IsOfKind kind (fetch_fallback name kind o s).0
fetch_fallback-IsOfKind name kind none s = check_kind-IsOfKind kind (next name s.sources).0
fetch_fallback-IsOfKind name kind (some programmed) s = elim (Bool-cases (has name s.sources)) [
  | inl e ↦
      subst
        (λ b.
          IsOfKind kind
            (if b then fetch_agnostic name kind s else (kind_mismatch programmed kind, s)).0)
        (sym e) (check_kind-IsOfKind kind (next name s.sources).0)
  | inr e ↦
      subst
        (λ b.
          IsOfKind kind
            (if b then fetch_agnostic name kind s else (kind_mismatch programmed kind, s)).0)
        (sym e) tt
]

fetch_from-IsOfKind :
    (name : Text) (kind : QuantityKind) (o : Option (Slots QuantityVariant)) (s : ScriptedSession)
    → IsOfKind kind (fetch_from name kind o s).0
fetch_from-IsOfKind name kind none s =
    fetch_fallback-IsOfKind name kind (first_programmed name s.kind_sources) s
fetch_from-IsOfKind name kind (some slots) s =
    let otherwise = fetch_fallback name kind (first_programmed name s.kind_sources) s in
    let here = fetch_of_kind name kind slots s in
    elim (Bool-cases (has name slots)) [
      | inl e ↦
          subst (λ b. IsOfKind kind (if b then here else otherwise).0) (sym e)
            (check_kind-IsOfKind kind (next name slots).0)
      | inr e ↦
          subst (λ b. IsOfKind kind (if b then here else otherwise).0) (sym e)
            (fetch_fallback-IsOfKind name kind (first_programmed name s.kind_sources) s)
    ]

-- Whatever a scripted session was programmed with, and whichever of its sources answers, a value
-- that `fetch` returns is of the kind that was asked for.
pub fetch-IsOfKind :
    (name : Text) (kind : QuantityKind) (s : ScriptedSession) → IsOfKind kind (fetch name kind s).0
unfolding fetch
fetch-IsOfKind name kind s = fetch_from-IsOfKind name kind (lookup kind s.kind_sources) s
