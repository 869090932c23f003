-- ===== src/Session/Loading/Rows.antt =====
-- What `loadFromFile` leaves in each seam: the values of the kept rows, point by point.
use thorium.Prelude.{
  ◌≡◌, refl, sym, ap, subst, ◌∙◌, ◌⊎◌, inl, inr, Bool, true, false, not, ◌&&◌, ◌||◌, Option, none,
  some, List, [], ◌∷◌, Text, text_eq, eqb, eqb_iff, if◌then◌else◌, arith, Bool-cases,
}
use thorium.Prelude.Dict.{Dict, lookup, insert, lookup-insert}
use thorium.Session.{
  QuantityKind, kind_eq, QuantityVariant, Waveform, Bytes, Slots, ScriptedSession, or_empty,
}
use thorium.Session.Loading.{
  RecordedValue, reading, payload, flag, trace, RecordedSample, Sequences, push_back, Collected,
  sort_in, is_empty, is_scoped, is_selected, collect_row, collect,
}
use thorium.Session.Slots.{IsMap, insert-IsMap, gather, gather_value}

-- What each seam takes of a row.
abbrev pub pick_reading : QuantityKind → RecordedValue → Option QuantityVariant
pick_reading kind (reading value) = if eqb value.kind kind then some value else none
pick_reading kind (payload _) = none
pick_reading kind (flag _) = none
pick_reading kind (trace _) = none

abbrev pub pick_payload : RecordedValue → Option Bytes
pick_payload (payload value) = some value
pick_payload (reading _) = none
pick_payload (flag _) = none
pick_payload (trace _) = none

abbrev pub pick_flag : RecordedValue → Option Bool
pick_flag (flag value) = some value
pick_flag (reading _) = none
pick_flag (payload _) = none
pick_flag (trace _) = none

abbrev pub pick_trace : RecordedValue → Option Waveform
pick_trace (trace value) = some value
pick_trace (reading _) = none
pick_trace (payload _) = none
pick_trace (flag _) = none

-- A row is kept if it is a hook's, if there is no selection, or if its test is selected.
abbrev pub is_kept : List Text → RecordedSample → Bool
is_kept selection r = not (is_scoped r) || is_empty selection || is_selected selection r

abbrev kept_if : Bool → RecordedSample → List RecordedSample → List RecordedSample
kept_if keep r rest = if keep then r ∷ rest else rest

abbrev pub kept : List Text → List RecordedSample → List RecordedSample
kept selection [] = []
kept selection (r ∷ rows) = kept_if (is_kept selection r) r (kept selection rows)

abbrev pub slots_of : QuantityKind → ScriptedSession → Slots QuantityVariant
slots_of kind s = or_empty (lookup kind s.kind_sources)

abbrev pub sequences_of : QuantityKind → Collected → Sequences QuantityVariant
sequences_of kind c = or_empty (lookup kind c.samples)

-- Where the collecting leaves the rows of one seam.
collect_row-cases :
    (selection : List Text) (r : RecordedSample) (c : Collected)
    → ((is_kept selection r ≡ true)
        × ((m : Bool) × (collect_row selection r c
              ≡ sort_in r.point_name r.value (record c { matched_selection = m }))))
      ⊎ ((is_kept selection r ≡ false) × (collect_row selection r c ≡ c))
collect_row-cases selection r c = elim (Bool-cases (is_scoped r && not (is_empty selection))) [
  | inl e ↦ elim (Bool-cases (is_selected selection r)) [
    | inl f ↦ inl (ground arith, (true, ground arith))
    | inr f ↦ inr (ground arith, ground arith)
  ]
  | inr e ↦ inl (ground arith, (c.matched_selection, ground arith))
]

module _ {A : Type 0} (pick : RecordedValue → Option A) (seam : Collected → Sequences A)
    (sorts : (name : Text) (value : RecordedValue) (c : Collected)
      → seam (sort_in name value c) ≡ gather_value pick name value (seam c))
    (marks : (m : Bool) (c : Collected) → seam (record c { matched_selection = m }) ≡ seam c) where
  pub collect-gather :
      (selection : List Text) (rows : List RecordedSample) (c : Collected)
      → seam (collect selection rows c) ≡ gather pick (kept selection rows) (seam c)
  unfolding collect
  collect-gather selection [] c = refl
  collect-gather selection (r ∷ rows) c = elim (collect_row-cases selection r c) [
    | inl (e, (m, f)) ↦
        ap (λ x. seam (collect selection rows x)) f
        ∙ collect-gather selection rows
            (sort_in r.point_name r.value (record c { matched_selection = m }))
        ∙ ap (gather pick (kept selection rows)) (
            sorts r.point_name r.value (record c { matched_selection = m })
            ∙ ap (gather_value pick r.point_name r.value) (marks m c))
        ∙ sym (ap (λ b. gather pick (kept_if b r (kept selection rows)) (seam c)) e)
    | inr (e, f) ↦
        ap (λ x. seam (collect selection rows x)) f
        ∙ collect-gather selection rows c
        ∙ sym (ap (λ b. gather pick (kept_if b r (kept selection rows)) (seam c)) e)
  ]

-- The entry of one kind is changed, and the others stay.
pub lookup-changed :
    {B : Type 0} (k kind : QuantityKind) (change : List B → List B) (d : Dict QuantityKind (List B))
    → or_empty (lookup kind (insert k (change (or_empty (lookup k d))) d))
      ≡ (if eqb k kind then change (or_empty (lookup kind d)) else or_empty (lookup kind d))
lookup-changed k kind change d = elim (Bool-cases (eqb k kind)) [
  | inl e ↦ rw (lookup-insert k kind (change (or_empty (lookup k d))) d, e, (eqb_iff k kind).0 e)
  | inr e ↦ rw (lookup-insert k kind (change (or_empty (lookup k d))) d, e)
]

gathered_if :
    (b : Bool) (name : Text) (value : QuantityVariant) (d : Sequences QuantityVariant)
    → (if b then push_back name value d else d)
      ≡ (elim (if b then some value else none) [ none ↦ d | some v ↦ push_back name v d ])
gathered_if true name value d = refl
gathered_if false name value d = refl

pub sort_in-kind :
    (kind : QuantityKind) (name : Text) (value : RecordedValue) (c : Collected)
    → sequences_of kind (sort_in name value c)
      ≡ gather_value (pick_reading kind) name value (sequences_of kind c)
sort_in-kind kind name (reading value) c =
    lookup-changed value.kind kind (push_back name value) c.samples
    ∙ gathered_if (eqb value.kind kind) name value (sequences_of kind c)
sort_in-kind kind name (payload value) c = refl
sort_in-kind kind name (flag value) c = refl
sort_in-kind kind name (trace value) c = refl

pub sort_in-payloads :
    (name : Text) (value : RecordedValue) (c : Collected)
    → (sort_in name value c).payloads ≡ gather_value pick_payload name value c.payloads
sort_in-payloads name (reading value) c = refl
sort_in-payloads name (payload value) c = refl
sort_in-payloads name (flag value) c = refl
sort_in-payloads name (trace value) c = refl

pub sort_in-flags :
    (name : Text) (value : RecordedValue) (c : Collected)
    → (sort_in name value c).flags ≡ gather_value pick_flag name value c.flags
sort_in-flags name (reading value) c = refl
sort_in-flags name (payload value) c = refl
sort_in-flags name (flag value) c = refl
sort_in-flags name (trace value) c = refl

pub sort_in-traces :
    (name : Text) (value : RecordedValue) (c : Collected)
    → (sort_in name value c).traces ≡ gather_value pick_trace name value c.traces
sort_in-traces name (reading value) c = refl
sort_in-traces name (payload value) c = refl
sort_in-traces name (flag value) c = refl
sort_in-traces name (trace value) c = refl

sort_in-IsMap :
    (name : Text) (value : RecordedValue) (c : Collected)
    → IsMap c.samples
    → IsMap (sort_in name value c).samples
sort_in-IsMap name (reading value) c m =
    insert-IsMap value.kind (push_back name value (sequences_of value.kind c)) c.samples m
sort_in-IsMap name (payload value) c m = m
sort_in-IsMap name (flag value) c m = m
sort_in-IsMap name (trace value) c m = m

-- No kind stands twice in the collected samples.
pub collect-IsMap :
    (selection : List Text) (rows : List RecordedSample) (c : Collected)
    → IsMap c.samples
    → IsMap (collect selection rows c).samples
unfolding collect
collect-IsMap selection [] c m = m
collect-IsMap selection (r ∷ rows) c m = elim (collect_row-cases selection r c) [
  | inl (e, (b, f)) ↦
      subst (λ x. IsMap (collect selection rows x).samples) (sym f)
        (collect-IsMap selection rows
          (sort_in r.point_name r.value (record c { matched_selection = b }))
          (sort_in-IsMap r.point_name r.value (record c { matched_selection = b }) m))
  | inr (e, f) ↦
      subst (λ x. IsMap (collect selection rows x).samples) (sym f)
        (collect-IsMap selection rows c m)
]

-- Without a selection every row is kept.
pub kept-everything : (rows : List RecordedSample) → kept [] rows ≡ rows
kept-everything [] = refl
kept-everything (r ∷ rows) = ground (arith, kept-everything rows)
