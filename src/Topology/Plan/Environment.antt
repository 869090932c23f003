-- ===== src/Topology/Plan/Environment.antt =====
-- What `environmentOverrides` and `parseOverride` accept, and what they refuse.
use thorium.Prelude.{
  ◌≡◌, refl, subst, ◌↔◌, true, Option, none, some, List, [], ◌∷◌, Text, text_eq, arith,
  Option-cases, inl, inr, ◌⊎◌,
}
use thorium.Topology.Address.{Address}
use thorium.Topology.Boxes.{BoxRow}
use thorium.Topology.Tables.{contains, instrument_box_names}
use thorium.Topology.Plan.{
  AddressSyntaxError, names_instrument, Result, ok, err, split_at, parse_address, from_string,
  parse_face_simulation, parse_override, refuse_instruments, read_boxes, environment_overrides,
}

-- The overrides are the variables that are set, box by box in the order of the names, each with the
-- address that its value spells.
pub data Overrides (env : Text → Option Text) : List Text → List (Text × Address) → Type 0 where
  nil : Overrides env [] []
  unset :
      {box : Text} {boxes : List Text} {os : List (Text × Address)}
      → env box ≡ none
      → Overrides env boxes os
      → Overrides env (box ∷ boxes) os
  is_set :
      {box : Text} {boxes : List Text} {os : List (Text × Address)} (value : Text) (a : Address)
      → env box ≡ some value
      → parse_address value ≡ ok a
      → Overrides env boxes os
      → Overrides env (box ∷ boxes) ((box, a) ∷ os)

Result-cases :
    {A : Type 0} (r : Result A) → ((a : A) × (r ≡ ok a)) ⊎ ((e : AddressSyntaxError) × (r ≡ err e))
Result-cases (ok a) = inl (a, refl)
Result-cases (err e) = inr (e, refl)

-- No variable is set that names an instrument whose name is not a box's too.
abbrev pub NoneNamesInstrument : List BoxRow → (Text → Option Text) → List BoxRow → Type 0
NoneNamesInstrument rows env [] = Unit
NoneNamesInstrument rows env (r ∷ rest) =
    ((contains (instrument_box_names rows) r.row ≡ true) ⊎ (env r.row ≡ none))
    × NoneNamesInstrument rows env rest

module _ (rows : List BoxRow) (env : Text → Option Text) where
  read_boxes-Overrides :
      (boxes : List Text) (os : List (Text × Address))
      → read_boxes rows env boxes ≡ ok os
      → Overrides env boxes os
  unfolding read_boxes
  read_boxes-Overrides [] os e = subst (Overrides env []) (ground arith) nil
  read_boxes-Overrides (box ∷ boxes) os e = elim (Option-cases (env box)) [
    | inl absent ↦ unset absent (read_boxes-Overrides boxes os (ground arith))
    | inr (value, found) ↦ elim (Result-cases (parse_address value)) [
      | inr (x, bad) ↦ absurd (ground arith)
      | inl (a, good) ↦ elim (Result-cases (read_boxes rows env boxes)) [
        | inr (x, bad) ↦ absurd (ground arith)
        | inl (more, rest) ↦
            subst (Overrides env (box ∷ boxes)) (ground arith)
              (is_set value a found good (read_boxes-Overrides boxes more rest))
      ]
    ]
  ]

  Overrides-read_boxes :
      {boxes : List Text} {os : List (Text × Address)}
      → Overrides env boxes os
      → read_boxes rows env boxes ≡ ok os
  unfolding read_boxes
  Overrides-read_boxes nil = refl
  Overrides-read_boxes (unset absent rest) = ground (arith, Overrides-read_boxes rest)
  Overrides-read_boxes (is_set value a found good rest) = ground (arith, Overrides-read_boxes rest)

  refuse_instruments-NoneNamesInstrument :
      (rest : List BoxRow)
      → refuse_instruments rows env rest ≡ ok tt
      → NoneNamesInstrument rows env rest
  unfolding refuse_instruments
  refuse_instruments-NoneNamesInstrument [] e = tt
  refuse_instruments-NoneNamesInstrument (r ∷ rest) e =
      ground (arith, refuse_instruments-NoneNamesInstrument rest)

  NoneNamesInstrument-refuse_instruments :
      (rest : List BoxRow)
      → NoneNamesInstrument rows env rest
      → refuse_instruments rows env rest ≡ ok tt
  unfolding refuse_instruments
  NoneNamesInstrument-refuse_instruments [] h = refl
  NoneNamesInstrument-refuse_instruments (r ∷ rest) h =
      ground (arith, NoneNamesInstrument-refuse_instruments rest h.1)

  -- The environment is accepted exactly when no variable is set that names an instrument and no
  -- box, and every variable that names a box spells an address; it then gives exactly those
  -- variables' addresses.
  pub environment_overrides_iff :
      (os : List (Text × Address))
      → (environment_overrides rows env ≡ ok os)
        ↔ (NoneNamesInstrument rows env rows × Overrides env (instrument_box_names rows) os)
  unfolding environment_overrides
  environment_overrides_iff os = (
    λ e. (
      refuse_instruments-NoneNamesInstrument rows (ground arith),
      read_boxes-Overrides (instrument_box_names rows) os (ground arith),
    ),
    λ h. ground (arith, NoneNamesInstrument-refuse_instruments rows h.0, Overrides-read_boxes h.1),
  )

-- An override that is accepted names a box of the rig and carries the address that its value
-- spells.
pub parse_override_accepts :
    (rows : List BoxRow) (t name : Text) (a : Address)
    → parse_override rows t ≡ ok (name, a)
    → (value : Text) × (split_at b'=' t ≡ some (name, value))
      × (contains (instrument_box_names rows) name ≡ true)
      × (parse_address value ≡ ok a)
unfolding parse_override
parse_override_accepts rows t name a e = elim (Option-cases (split_at b'=' t)) [
  | inl absent ↦ absurd (ground arith)
  | inr ((name', value), found) ↦ elim (Result-cases (parse_address value)) [
    | inr (x, bad) ↦ absurd (ground arith)
    | inl (a', good) ↦ (value, ground arith, ground arith, ground arith)
  ]
]

-- What `parseFaceSimulation` takes, `parseOverride` refuses with the box of the instrument.
face_simulation_excludes_override :
    (rows : List BoxRow) (t : Text) (id : BoxRow)
    → parse_face_simulation rows t ≡ some id
    → (name : Text) × (parse_override rows t ≡ err (names_instrument name id.box))
unfolding parse_override parse_face_simulation
face_simulation_excludes_override rows t id e = elim (Option-cases (split_at b'=' t)) [
  | inl absent ↦ absurd (ground arith)
  | inr ((name, value), found) ↦ (
    name,
    elim (Option-cases (from_string rows name)) [
      | inl unknown ↦ ground arith
      | inr (id', known) ↦ ground arith
    ],
  )
]
