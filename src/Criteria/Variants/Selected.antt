-- ===== src/Criteria/Variants/Selected.antt =====
-- The selection over a run: it always names a table, and a lock fixes it.
use thorium.Prelude.{
  ℕ, suc, ◌+◌, ◌<◌, ◌≡◌, refl, true, false, Option, none, some, List, [], ◌∷◌, Text, text_eq, ◌==◌,
  get_elem?, length, arith, Option-cases, Bool-cases, subst, sym, ap, inl, inr,
}
use thorium.Criteria.Variants.{
  Selection, Answer, answered, logic_error, find_name, or_zero, default_index, initial,
  active_criteria_variant_name, select_criteria_variant, lock_criteria_variant,
}

-- What is found is the name that was looked for.
find_name-get_elem? :
    (base : ℕ) (names : List Text) (name : Text) (i : ℕ)
    → find_name base names name ≡ some i
    → (k : ℕ) × (i ≡ k + base) × (get_elem? names k ≡ some name)
unfolding find_name
find_name-get_elem? base [] name i e = cc
find_name-get_elem? base (n ∷ names) name i e = elim (Bool-cases (n == name)) [
  | inl hit ↦ (0, ground arith, ap some ((text_eq.same_iff n name).0 hit))
  | inr miss ↦
      let (k, at_k, found) = find_name-get_elem? (base + 1) names name i (ground arith) in
      (suc k, omega arith, found)
]

find_name-eq_some :
    (names : List Text) (name : Text) (i : ℕ)
    → find_name 0 names name ≡ some i
    → get_elem? names i ≡ some name
find_name-eq_some names name i e =
    let (k, at_k, found) = find_name-get_elem? 0 names name i e in
    let same : k ≡ i = omega arith in subst (λ j. get_elem? names j ≡ some name) same found

-- What a run does with the selection; the tests' reset is not part of a run.
pub data Call : Type 0 where
  selects : Text → Call
  locks : Call

module _ (names : List Text) where
  pub call : Call → Selection → Selection
  call (selects name) s = (select_criteria_variant names name s).1
  call locks s = lock_criteria_variant s

  pub calls : List Call → Selection → Selection
  calls [] s = s
  calls (c ∷ cs) s = calls cs (call c s)

  -- How a selection ends, and what it has done by then.
  abbrev pub Selects : Text → Selection → Answer × Selection → Type 0
  Selects name s (answered true, t) =
      (active_criteria_variant_name names t ≡ some name) × (t.locked ≡ s.locked)
  Selects name s (answered false, t) = (t ≡ s) × (find_name 0 names name ≡ none)
  Selects name s (logic_error, t) = (t ≡ s) × (s.locked ≡ true)

  -- A selection that answers true has made the named table the active one; one that answers false
  -- found no such name, one that throws found the selection locked, and neither changed anything.
  select-Selects :
      (name : Text) (s : Selection) → Selects name s (select_criteria_variant names name s)
  unfolding select_criteria_variant active_criteria_variant_name
  select-Selects name s = elim (Option-cases (find_name 0 names name)) [
    | inl absent ↦ ground arith
    | inr (i, found) ↦ ground (arith, find_name-eq_some names name i found)
  ]

  -- Once the variant is locked, no later call changes it.
  pub calls-locked : (cs : List Call) (s : Selection) → s.locked ≡ true → calls cs s ≡ s
  unfolding calls call select_criteria_variant lock_criteria_variant
  calls-locked [] s h = refl
  calls-locked (selects name ∷ cs) s h = ground (arith, calls-locked cs s h)
  calls-locked (locks ∷ cs) s h = ground (arith, calls-locked cs (record s { locked = true }) refl)

  -- The index is that of a name.
  Names : Selection → Type 0
  Names s = (name : Text) × (get_elem? names s.index ≡ some name)

  call-Names : (c : Call) (s : Selection) → Names s → Names (call c s)
  unfolding call lock_criteria_variant select_criteria_variant Names
  call-Names (selects name) s v = elim (Option-cases (find_name 0 names name)) [
    | inl absent ↦ (v.0, ground (arith, v.1))
    | inr (i, found) ↦ elim (Bool-cases s.locked) [
      | inl e ↦ (v.0, ground (arith, v.1))
      | inr e ↦ (name, ground (arith, find_name-eq_some names name i found))
    ]
  ]
  call-Names locks s v = v

  calls-Names : (cs : List Call) (s : Selection) → Names s → Names (calls cs s)
  unfolding calls
  calls-Names [] s v = v
  calls-Names (c ∷ cs) s v = calls-Names cs (call c s) (call-Names c s v)

initial-Names :
    (names : List Text) (default_name : Text)
    → 0 < length names
    → Names names (initial names default_name)
unfolding initial default_index Names
initial-Names [] default_name h = absurd (omega arith)
initial-Names (n ∷ names) default_name h =
    let named = λ (o : Option ℕ) (m : Text). get_elem? (n ∷ names) (or_zero o) ≡ some m in
    elim (Option-cases (find_name 0 (n ∷ names) default_name)) [
      | inl absent ↦ (n, subst (λ o. named o n) (sym absent) refl)
      | inr (i, found) ↦ (
        default_name,
        subst (λ o. named o default_name) (sym found)
            (find_name-eq_some (n ∷ names) default_name i found),
      )
    ]

-- Where the build names any table, the active variant is one of them after every sequence of calls.
calls-active :
    (names : List Text) (default_name : Text) (cs : List Call)
    → 0 < length names
    → (name : Text) × (active_criteria_variant_name names
          (calls names cs (initial names default_name))
        ≡ some name)
unfolding active_criteria_variant_name Names
calls-active names default_name cs h =
    calls-Names names cs (initial names default_name) (initial-Names names default_name h)
