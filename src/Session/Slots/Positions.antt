-- ===== src/Session/Slots/Positions.antt =====
-- How far the slots of one seam stand in the rows of a recording, and what a fetch does to that.
use thorium.Prelude.{
  true, false, length-append, Bool-cases, has_value, ℕ, ◌+◌, ◌≡◌, refl, sym, ap, subst, ◌∙◌, Option,
  none, some, List, [], ◌∷◌, ◌++◌, Text, text_eq, text_beq_iff, ◌==◌, if◌then◌else◌, length,
  get_elem?-length, get_elem?-length_append, arith, inl, inr,
}
use mathlib.Core.List.{append-nil}
use thorium.Prelude.Dict.{lookup, lookup-insert}
use thorium.Session.{
  Slots, range_source, next, next_from, fetched, value_or_none_left, has, none_left,
}
use thorium.Session.Loading.{RecordedValue, RecordedSample}
use thorium.Session.Slots.{values_at, values_at-append, standing}

module _ {A : Type 0} where
  -- The slots of a seam stand behind the rows that are done.
  abbrev pub StandAt :
      (RecordedValue → Option A) → List RecordedSample → List RecordedSample → Slots A → Type 0
  StandAt pick rows done slots =
      (name : Text)
      → lookup name slots ≡ standing (values_at pick name rows) (length (values_at pick name done))

  standing-value :
      (name : Text) (before : List A) (v : A) (rest : List A) (slots : Slots A)
      → (next_from name (standing (before ++ v ∷ rest) (length before)) slots).0 ≡ fetched v
  standing-value name [] v rest slots = refl
  standing-value name (b ∷ bs) v rest slots =
      ap value_or_none_left (get_elem?-length_append (b ∷ bs) v rest)

  pub next-value :
      (name : Text) (before : List A) (v : A) (rest : List A) (slots : Slots A)
      → lookup name slots ≡ standing (before ++ v ∷ rest) (length before)
      → (next name slots).0 ≡ fetched v
  next-value name before v rest slots h =
      subst (λ o. (next_from name o slots).0 ≡ fetched v) (sym h)
        (standing-value name before v rest slots)

  pub next-none_left :
      (name : Text) (x : A) (xs : List A) (slots : Slots A)
      → lookup name slots ≡ standing (x ∷ xs) (length (x ∷ xs))
      → (next name slots).0 ≡ none_left
  next-none_left name x xs slots h =
      subst (λ o. (next_from name o slots).0 ≡ none_left) (sym h)
        (ap value_or_none_left (get_elem?-length (x ∷ xs)))

  pub next-lookup :
      (name other : Text) (x : A) (xs : List A) (n : ℕ) (slots : Slots A)
      → lookup name slots ≡ standing (x ∷ xs) n
      → lookup other (next name slots).1
        ≡ (if name == other then standing (x ∷ xs) (n + 1) else lookup other slots)
  next-lookup name other x xs n slots h =
      subst
        (λ o.
          lookup other (next_from name o slots).1
          ≡ (if name == other then standing (x ∷ xs) (n + 1) else lookup other slots))
        (sym h)
        (lookup-insert name other (record { source = range_source (x ∷ xs); calls = n + 1 }) slots)

  pub next-lookup_behind :
      (name other : Text) (before : List A) (v : A) (rest : List A) (n : ℕ) (slots : Slots A)
      → lookup name slots ≡ standing (before ++ v ∷ rest) n
      → lookup other (next name slots).1
        ≡ (if name == other then standing (before ++ v ∷ rest) (n + 1) else lookup other slots)
  next-lookup_behind name other [] v rest n slots h = next-lookup name other v rest n slots h
  next-lookup_behind name other (b ∷ bs) v rest n slots h =
      next-lookup name other b (bs ++ v ∷ rest) n slots h

  pub has-standing :
      (name : Text) (before : List A) (v : A) (rest : List A) (n : ℕ) (slots : Slots A)
      → lookup name slots ≡ standing (before ++ v ∷ rest) n
      → has name slots ≡ true
  has-standing name [] v rest n slots h = ap has_value h
  has-standing name (b ∷ bs) v rest n slots h = ap has_value h

  pub next-exhausted :
      (name : Text) (before : List A) (v : A) (rest : List A) (slots : Slots A)
      → lookup name slots ≡ standing (before ++ v ∷ rest) (length (before ++ v ∷ rest))
      → (next name slots).0 ≡ none_left
  next-exhausted name [] v rest slots h = next-none_left name v rest slots h
  next-exhausted name (b ∷ bs) v rest slots h = next-none_left name b (bs ++ v ∷ rest) slots h

module _ {A : Type 0} (pick : RecordedValue → Option A) (r : RecordedSample) where
  values_at-none :
      (name : Text) (rows : List RecordedSample)
      → pick r.value ≡ none
      → values_at pick name (r ∷ rows) ≡ values_at pick name rows
  values_at-none name rows e = ground arith

  values_at-elsewhere :
      (name : Text) (rows : List RecordedSample)
      → (r.point_name == name) ≡ false
      → values_at pick name (r ∷ rows) ≡ values_at pick name rows
  values_at-elsewhere name rows e = ground arith

  values_at-here :
      (v : A) (rows : List RecordedSample)
      → pick r.value ≡ some v
      → values_at pick r.point_name (r ∷ rows) ≡ v ∷ values_at pick r.point_name rows
  values_at-here v rows e = ground (arith, text_beq_iff r.point_name r.point_name)

-- One row of a seam is fetched, or a row of another seam.
module _ {A : Type 0} (pick : RecordedValue → Option A) (done : List RecordedSample)
    (r : RecordedSample) (rest : List RecordedSample) (slots : Slots A)
    (stands : StandAt pick (done ++ r ∷ rest) done slots) where
  same_length :
      (name : Text)
      → values_at pick name (r ∷ []) ≡ []
      → length (values_at pick name (done ++ r ∷ [])) ≡ length (values_at pick name done)
  same_length name e =
      ap length (values_at-append pick name done (r ∷ []))
      ∙ ap (λ xs. length (values_at pick name done ++ xs)) e
      ∙ ap length (append-nil _)

  pub StandAt-other : pick r.value ≡ none → StandAt pick (done ++ r ∷ rest) (done ++ r ∷ []) slots
  StandAt-other e name =
      stands name
      ∙ ap (standing (values_at pick name (done ++ r ∷ rest)))
          (sym (same_length name (values_at-none pick r name [] e)))

  module _ (v : A) (e : pick r.value ≡ some v) where
    values_behind :
        values_at pick r.point_name (done ++ r ∷ rest)
        ≡ values_at pick r.point_name done ++ v ∷ values_at pick r.point_name rest
    values_behind =
        values_at-append pick r.point_name done (r ∷ rest)
        ∙ ap (◌++◌ (values_at pick r.point_name done)) (values_at-here pick r v rest e)

    stands_here :
        lookup r.point_name slots
        ≡ standing
            (values_at pick r.point_name done ++ v ∷ values_at pick r.point_name rest)
            (length (values_at pick r.point_name done))
    stands_here =
        stands r.point_name
        ∙ ap (λ xs. standing xs (length (values_at pick r.point_name done))) values_behind

    pub next-fetched : (next r.point_name slots).0 ≡ fetched v
    next-fetched = next-value r.point_name _ v _ slots stands_here

    pub has-here : has r.point_name slots ≡ true
    has-here = has-standing r.point_name _ v _ _ slots stands_here

    one_more :
        length (values_at pick r.point_name (done ++ r ∷ []))
        ≡ length (values_at pick r.point_name done) + 1
    one_more =
        ap length (
          values_at-append pick r.point_name done (r ∷ [])
          ∙ ap (◌++◌ (values_at pick r.point_name done)) (values_at-here pick r v [] e))
        ∙ length-append (values_at pick r.point_name done) (v ∷ [])

    lookup-next :
        (name : Text)
        → lookup name (next r.point_name slots).1 ≡ (
            if r.point_name == name
            then standing
                (values_at pick r.point_name done ++ v ∷ values_at pick r.point_name rest)
                (length (values_at pick r.point_name done) + 1)
            else lookup name slots)
    lookup-next name = next-lookup_behind r.point_name name _ v _ _ slots stands_here

    pub StandAt-next : StandAt pick (done ++ r ∷ rest) (done ++ r ∷ []) (next r.point_name slots).1
    StandAt-next name = elim (Bool-cases (r.point_name == name)) [
      | inl f ↦
          subst
            (λ m.
              lookup m (next r.point_name slots).1
              ≡ standing (values_at pick m (done ++ r ∷ rest))
                  (length (values_at pick m (done ++ r ∷ []))))
            ((text_beq_iff r.point_name name).0 f)
            (rw (
              lookup-next r.point_name,
              (text_beq_iff r.point_name r.point_name).1 refl,
              values_behind,
              one_more,
            ))
      | inr f ↦ rw (
        lookup-next name,
        f,
        stands name,
        same_length name (values_at-elsewhere pick r name [] f),
      )
    ]

-- A row of a seam whose rows are all done.
module _ {A : Type 0} (pick : RecordedValue → Option A) (before : List RecordedSample)
    (r : RecordedSample) (after : List RecordedSample) (slots : Slots A)
    (stands : StandAt pick (before ++ r ∷ after) (before ++ r ∷ after) slots) (v : A)
    (e : pick r.value ≡ some v) where
  stands_behind :
      lookup r.point_name slots
      ≡ standing
          (values_at pick r.point_name before ++ v ∷ values_at pick r.point_name after)
          (length (values_at pick r.point_name before ++ v ∷ values_at pick r.point_name after))
  stands_behind =
      stands r.point_name
      ∙ ap (λ xs. standing xs (length xs))
          (values_at-append pick r.point_name before (r ∷ after)
            ∙ ap (◌++◌ (values_at pick r.point_name before)) (values_at-here pick r v after e))

  pub has-done : has r.point_name slots ≡ true
  has-done = has-standing r.point_name _ v _ _ slots stands_behind

  pub next-done : (next r.point_name slots).0 ≡ none_left
  next-done = next-exhausted r.point_name _ v _ slots stands_behind
