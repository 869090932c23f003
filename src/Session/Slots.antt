-- ===== src/Session/Slots.antt =====
-- What the slots of one seam answer, once the sequences of a recording are programmed into them.
pub mod Positions
use thorium.Prelude.{
  true, false, length-append, Bool-cases, has_value, ℕ, ◌+◌, ◌≡◌, refl, sym, ap, subst, ◌∙◌, Option,
  none, some, List, [], ◌∷◌, ◌++◌, Text, text_eq, text_beq_iff, ◌==◌, Keyed, if◌then◌else◌, length,
  get_elem?, get_elem?-length_append, arith, Option-cases, inl, inr,
}
use mathlib.Core.List.{append_assoc, append-nil}
use thorium.Prelude.Dict.{Dict, lookup, insert, lookup-insert}
use thorium.Session.{
  Slot, Slots, range_source, program_slot, next, next_from, fetched, value_or_none_left, has,
  none_left, or_empty,
}
use thorium.Session.Loading.{RecordedValue, RecordedSample, Sequences, push_back}

-- No key stands twice in a map.
abbrev pub IsMap {κ} : {K : Type 0} {V : Type κ} ⦃key : Keyed K⦄ → Dict K V → Type κ
IsMap [] = Unit
IsMap ((k, v) ∷ rest) = (lookup k rest ≡ none) × IsMap rest

pub insert-IsMap :
    {K V : Type 0} ⦃key : Keyed K⦄ (k : K) (value : V) (d : Dict K V)
    → IsMap d
    → IsMap (insert k value d)
unfolding insert lookup
insert-IsMap k value [] m = (refl, tt)
insert-IsMap ⦃key⦄ k value (e ∷ rest) m = ground (
  arith,
  insert-IsMap k value rest,
  lookup-insert k e.0 value rest,
  key.same_iff e.0 k,
  key.same_iff k e.0,
)

module _ {A : Type 0} where
  -- A sequence with further values behind it; without a value no key is made.
  abbrev pub appended : Option (List A) → List A → Option (List A)
  appended o [] = o
  appended o (x ∷ xs) = some (or_empty o ++ x ∷ xs)

  appended-append :
      (o : Option (List A)) (xs ys : List A) → appended o (xs ++ ys) ≡ appended (appended o xs) ys
  appended-append o [] ys = refl
  appended-append o (x ∷ xs) [] = ap (λ zs. some (or_empty o ++ x ∷ zs)) (append-nil xs)
  appended-append o (x ∷ xs) (y ∷ ys) = ap some (sym (append_assoc (or_empty o) (x ∷ xs) (y ∷ ys)))

module _ {A : Type 0} (pick : RecordedValue → Option A) where
  -- The values that rows hold for a seam at a point, in their order.
  abbrev pub values_at : Text → List RecordedSample → List A
  values_at name [] = []
  values_at name (r ∷ rows) =
      let rest = values_at name rows in
      if r.point_name == name
      then (elim (pick r.value) [ none ↦ rest | some v ↦ v ∷ rest ])
      else rest

  abbrev pub gather_value : Text → RecordedValue → Sequences A → Sequences A
  gather_value name value d = elim (pick value) [ none ↦ d | some v ↦ push_back name v d ]

  abbrev gather_row : RecordedSample → Sequences A → Sequences A
  gather_row r d = gather_value r.point_name r.value d

  abbrev pub gather : List RecordedSample → Sequences A → Sequences A
  gather [] d = d
  gather (r ∷ rows) d = gather rows (gather_row r d)

  pub values_at-append :
      (name : Text) (xs ys : List RecordedSample)
      → values_at name (xs ++ ys) ≡ values_at name xs ++ values_at name ys
  values_at-append name [] ys = refl
  values_at-append name (r ∷ xs) ys = ground (arith, values_at-append name xs ys)

  lookup-gather_row :
      (name : Text) (r : RecordedSample) (d : Sequences A)
      → lookup name (gather_row r d) ≡ appended (lookup name d) (values_at name (r ∷ []))
  lookup-gather_row name r d = elim (Option-cases (pick r.value)) [
    | inl e ↦ ground arith
    | inr (v, e) ↦ ground (
      arith,
      lookup-insert r.point_name name (or_empty (lookup r.point_name d) ++ v ∷ []) d,
      text_beq_iff r.point_name name,
    )
  ]

  lookup-gather :
      (name : Text) (rows : List RecordedSample) (d : Sequences A)
      → lookup name (gather rows d) ≡ appended (lookup name d) (values_at name rows)
  lookup-gather name [] d = refl
  lookup-gather name (r ∷ rows) d =
      lookup-gather name rows (gather_row r d)
      ∙ ap (λ o. appended o (values_at name rows)) (lookup-gather_row name r d)
      ∙ sym (appended-append (lookup name d) (values_at name (r ∷ [])) (values_at name rows))
      ∙ ap (appended (lookup name d)) (sym (values_at-append name (r ∷ []) rows))

  gather_row-IsMap : (r : RecordedSample) (d : Sequences A) → IsMap d → IsMap (gather_row r d)
  gather_row-IsMap r d m = elim (Option-cases (pick r.value)) [
    | inl e ↦
        subst (λ o. IsMap (elim o [ none ↦ d | some v ↦ push_back r.point_name v d ])) (sym e) m
    | inr (v, e) ↦
        subst (λ o. IsMap (elim o [ none ↦ d | some w ↦ push_back r.point_name w d ])) (sym e)
          (insert-IsMap r.point_name (or_empty (lookup r.point_name d) ++ v ∷ []) d m)
  ]

  gather-IsMap : (rows : List RecordedSample) (d : Sequences A) → IsMap d → IsMap (gather rows d)
  gather-IsMap [] d m = m
  gather-IsMap (r ∷ rows) d m = gather-IsMap rows (gather_row r d) (gather_row-IsMap r d m)

-- Programming the sequences.
module _ {A : Type 0} where
  abbrev pub program_all : Sequences A → Slots A → Slots A
  program_all [] slots = slots
  program_all ((name, values) ∷ rest) slots =
      program_all rest (program_slot name (range_source values) slots)

  -- A slot at a position of its sequence; there is no slot of an empty sequence.
  abbrev pub standing : List A → ℕ → Option (Slot A)
  standing [] n = none
  standing (x ∷ xs) n = some (record { source = range_source (x ∷ xs); calls = n })

  abbrev programmed : Option (List A) → Option (Slot A) → Option (Slot A)
  programmed none o = o
  programmed (some xs) o = some (record { source = range_source xs; calls = 0 })

  lookup-program_all :
      (name : Text) (d : Sequences A) (slots : Slots A)
      → IsMap d
      → lookup name (program_all d slots) ≡ programmed (lookup name d) (lookup name slots)
  unfolding lookup
  lookup-program_all name [] slots m = refl
  lookup-program_all name ((n, values) ∷ rest) slots (absent, m) = ground (
    arith,
    lookup-program_all name rest (program_slot n (range_source values) slots) m,
    lookup-insert n name (record { source = range_source values; calls = 0 }) slots,
    text_beq_iff n name,
  )

  fresh_slot : (xs : List A) → programmed (appended none xs) none ≡ standing xs 0
  fresh_slot [] = refl
  fresh_slot (x ∷ xs) = refl

  pub lookup-recorded :
      (pick : RecordedValue → Option A) (name : Text) (rows : List RecordedSample)
      → lookup name (program_all (gather pick rows []) []) ≡ standing (values_at pick name rows) 0
  unfolding lookup
  lookup-recorded pick name rows =
      lookup-program_all name (gather pick rows []) [] (gather-IsMap pick rows [] tt)
      ∙ ap (λ o. programmed o none) (lookup-gather pick name rows [])
      ∙ fresh_slot (values_at pick name rows)
