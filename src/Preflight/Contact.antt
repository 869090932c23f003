-- ===== src/Preflight/Contact.antt =====
-- framework/hal/src/verbs/preflight.cpp: `claimedByAnother`, `acquireFromPool`, `checkCardsOn` and
-- `contactInstruments`.
use thorium.Prelude.{
  ℕ, suc, Bool, true, false, not, ◌&&◌, ◌||◌, Option, none, some, List, [], ◌∷◌, ◌++◌, Text,
  text_eq, ◌==◌, if◌then◌else◌, length,
}
use thorium.Topology.Address.{Address, is_simulated}
use thorium.Topology.Tables.{PoolEntry, pool_in}
use thorium.Preflight.{
  AddressSource, of_table, of_site, of_pool, of_override, Face, Failure, no_free_instrument,
  two_units, one_unit, wrong_card, driver_threw, Ended, done, threw, ◌>>=◌, serial_of,
  is_empty_text,
}

pub record Claim : Type 0 where
  pub serial : Text
  pub box : Text

pub record Contacted : Type 0 where
  pub box : Text
  pub value : Address
  pub serial : Text
  pub pool_position : Option (ℕ × ℕ)

-- A call of a driver answers, throws a `TransportError`, or throws another exception.
pub data Answer : Type 0 where
  answered unreachable refused : Text → Answer

-- The two vectors of `contactInstruments`, and the world.
pub record Contacts (W : Type 0) : Type 0 where
  pub claimed : List Claim
  pub contacted : List Contacted
  pub world : W

-- A candidate of a pool is acquired, is passed over, or ends the preflight.
pub data Attempt (W : Type 0) : Type 0 where
  taken : Face × Contacts W → Attempt W
  passed : Contacts W → Attempt W
  failed : Failure → Attempt W

-- A row of the card table that has a card: its box, its slot, and what the card reports.
pub record CardRow : Type 0 where
  pub device : Text
  pub box : Text
  pub card : Option ℕ
  pub reports : Text

abbrev pub claim_of_another : List Claim → Text → Text → Option Text
claim_of_another [] serial box = none
claim_of_another (claim ∷ claimed) serial box =
    if claim.serial == serial && not (claim.box == box)
    then some claim.box
    else claim_of_another claimed serial box

unfoldable pub claimed_by_another : List Claim → Text → Text → Option Text
claimed_by_another claimed serial box =
    if is_empty_text serial then none else claim_of_another claimed serial box

-- `std::ranges::find( contacted, binding.Box, &Contacted::Box)`
unfoldable pub earlier_face : List Contacted → Text → Option Contacted
earlier_face [] box = none
earlier_face (c ∷ contacted) box = if c.box == box then some c else earlier_face contacted box

abbrev pub is_pool : AddressSource → Bool
is_pool of_pool = true
is_pool of_table = false
is_pool of_site = false
is_pool of_override = false

-- The two serials are known and differ.
abbrev pub disagree : Text → Text → Bool
disagree serial earlier =
    not (is_empty_text serial) && not (is_empty_text earlier) && not (serial == earlier)

module _ {W : Type 0} (identity : Text → Address → W → Answer × W) (close_session : Text → W → W)
    (card_model : Text → ℕ → W → Answer × W) (pool : List PoolEntry) (cards : List CardRow) where
  abbrev pub asked : Answer × W → Ended (Text × W)
  asked (answered t, w) = done (t, w)
  asked (unreachable t, w) = threw (driver_threw t)
  asked (refused t, w) = threw (driver_threw t)

  abbrev pub claim : Face → Text → Contacts W → Contacts W
  claim face serial s = record s {
    claimed = s.claimed ++ record { serial = serial; box = face.binding.box } ∷ [];
  }

  abbrev pub at_candidate : Address → Face → Face
  at_candidate candidate face = record face { driver_address = candidate }

  abbrev pub acquired : Address → ℕ → ℕ → Text → Face → Face
  acquired candidate position total answer face = record face {
    driver_address = candidate;
    binding = record face.binding {
      value = candidate;
      identity = answer;
      pool_position = some (position, total);
    };
  }

  -- What follows `identity` at a candidate: a claimed unit and a `TransportError` close the session.
  abbrev pub at_unit : Address → ℕ → ℕ → Face → Contacts W → Text → Option Text → Attempt W
  at_unit candidate position total face s t none =
      taken (acquired candidate position total t face, claim face (serial_of t) s)
  at_unit candidate position total face s t (some other) =
      passed (record s { world = close_session face.instrument.id s.world })

  abbrev pub after_identity : Address → ℕ → ℕ → Face → Contacts W → Answer → Attempt W
  after_identity candidate position total face s (answered t) =
      at_unit candidate position total face s t
        (claimed_by_another s.claimed (serial_of t) face.binding.box)
  after_identity candidate position total face s (unreachable t) =
      passed (record s { world = close_session face.instrument.id s.world })
  after_identity candidate position total face s (refused t) = failed (driver_threw t)

  abbrev pub attempt : Address → ℕ → ℕ → Face → Contacts W → Attempt W
  attempt candidate position total face s =
      let (end, w) = identity face.instrument.id candidate s.world in
      after_identity candidate position total face (record s { world = w }) end

  -- The loop of `acquireFromPool`, with how many candidates there are and how many were tried.
  unfoldable pub acquire : List Address → ℕ → ℕ → Face → Contacts W → Ended (Face × Contacts W)
  acquire [] tried total face s = threw (no_free_instrument face.binding.box total)
  acquire (candidate ∷ candidates) tried total face s =
      elim (attempt candidate (suc tried) total face s) [
        | taken r ↦ done r
        | passed s' ↦ acquire candidates (suc tried) total (at_candidate candidate face) s'
        | failed e ↦ threw e
      ]

  unfoldable pub acquire_from_pool : Face → Contacts W → Ended (Face × Contacts W)
  acquire_from_pool face s =
      let candidates = pool_in pool face.binding.box in
      acquire candidates 0 (length candidates) face s

  abbrev pub identified : Text → Face → Face
  identified answer face = record face { binding = record face.binding { identity = answer } }

  -- A fixed row answers for itself.
  abbrev pub claimed_now : Face → Text → Option Text → Contacts W → Ended (Face × Contacts W)
  claimed_now face t (some other) s = threw (one_unit other face.binding.box (serial_of t))
  claimed_now face t none s = done (identified t face, claim face (serial_of t) s)

  unfoldable pub ask_fixed : Face → Contacts W → Ended (Face × Contacts W)
  ask_fixed face s = asked (identity face.instrument.id face.driver_address s.world) >>= λ (t, w).
      claimed_now face t (claimed_by_another s.claimed (serial_of t) face.binding.box)
        (record s { world = w })

  -- `contacted.push_back( …)`
  abbrev pub recorded : Face × Contacts W → Face × Contacts W
  recorded (face, s) = (
    face,
    record s {
      contacted =
          s.contacted
          ++ record {
            box = face.binding.box;
            value = face.binding.value;
            serial = serial_of face.binding.identity;
            pool_position = face.binding.pool_position;
          }
            ∷ [];
    },
  )

  unfoldable pub first_face : Face → Contacts W → Ended (Face × Contacts W)
  first_face face s =
      (if is_pool face.binding.source then acquire_from_pool face s else ask_fixed face s) >>= λ r.
      done (recorded r)

  -- A pooled box's later faces take the candidate that its first face acquired.
  abbrev pub joined : Contacted → Face → Face
  joined c face =
      if is_pool face.binding.source
      then record face {
        driver_address = c.value;
        binding = record face.binding { value = c.value; pool_position = c.pool_position };
      }
      else face

  -- The serial that a later face answers with has to be the box's.
  abbrev pub same_unit : Contacted → Face → Contacts W → Text × W → Ended (Face × Contacts W)
  same_unit c face s (t, w) =
      if disagree (serial_of t) c.serial
      then threw (two_units face.binding.id (serial_of t) c.serial)
      else done (identified t (joined c face), record s { world = w })

  unfoldable pub later_face : Contacted → Face → Contacts W → Ended (Face × Contacts W)
  later_face c face s =
      asked (identity face.instrument.id (joined c face).driver_address s.world)
      >>= same_unit c face s

  unfoldable pub contact_face : Face → Contacts W → Ended (Face × Contacts W)
  contact_face face s =
      if not face.binding.can_contact || is_simulated face.binding.value
      then done (face, s)
      else (elim (earlier_face s.contacted face.binding.box) [
        | some c ↦ later_face c face s
        | none ↦ first_face face s
      ])

  unfoldable pub contact_faces : List Face → Contacts W → Ended (List Face × Contacts W)
  contact_faces [] s = done ([], s)
  contact_faces (face ∷ faces) s = contact_face face s >>= λ (face', s').
      contact_faces faces s' >>= λ (faces', s''). done (face' ∷ faces', s'')

  -- `checkCardsOn`
  abbrev pub check_slot : Face → CardRow → Option ℕ → W → Ended W
  check_slot face row none w = done w
  check_slot face row (some slot) w =
      asked (card_model face.instrument.id slot w) >>= λ (reported, w').
      (if reported == row.reports then done w' else threw (wrong_card row.device slot reported))

  unfoldable pub check_cards_on : List CardRow → Face → W → Ended W
  check_cards_on [] face w = done w
  check_cards_on (row ∷ rows) face w =
      (if row.box == face.binding.box then check_slot face row row.card w else done w) >>= λ w'.
      check_cards_on rows face w'

  unfoldable pub check_all_cards : List Face → W → Ended W
  check_all_cards [] w = done w
  check_all_cards (face ∷ faces) w =
      (if face.instrument.identifies_cards && not (is_simulated face.binding.value)
        then check_cards_on cards face w
        else done w)
      >>= λ w'. check_all_cards faces w'

  abbrev pub no_contacts : W → Contacts W
  no_contacts w = record { claimed = []; contacted = []; world = w }

  -- `contactInstruments`, with whether the bench is attached.
  unfoldable pub contact_instruments : Bool → List Face → W → Ended (List Face × Contacts W)
  contact_instruments false faces w = done (faces, no_contacts w)
  contact_instruments true faces w = contact_faces faces (no_contacts w) >>= λ (faces', s).
      check_all_cards faces' s.world >>= λ w'. done (faces', record s { world = w' })
