-- ===== src/Topology/Boxes.antt =====
-- framework/hal/include/hal/topology/boxes.hpp: the rows of the rig's tables, the boxes that they are
-- faces of, and the check that two rows of one box say one address.
pub mod Conflicts
use thorium.Prelude.{
  ℕ, suc, ◌+◌, Bool, true, false, not, ◌&&◌, ◌||◌, Option, none, some, List, [], ◌∷◌, Text, text_eq,
  ◌==◌, if◌then◌else◌,
}
use thorium.Topology.Address.{Address, is_simulated, address_eq}

pub record BoxRow : Type 0 where
  pub box : Text
  pub row : Text
  pub value : Address
  pub device : Bool

unfoldable pub simulated_face : BoxRow → Bool
simulated_face r = not r.device && is_simulated r.value

-- Which of the two sentences the check prints, with the rows that it names.
pub data Conflict : Type 0 where
  different_addresses same_address : Text → Text → Conflict

unfoldable pub pair_conflict : BoxRow → BoxRow → Option Conflict
pair_conflict a b =
    if a.box == b.box
      && not (a.value == b.value)
      && not (simulated_face a)
      && not (simulated_face b)
    then some (different_addresses a.row b.row)
    else if not (a.box == b.box) && a.value == b.value && not (is_simulated a.value)
    then some (same_address a.row b.row)
    else none

-- The inner loop, over the rows behind `a`.
unfoldable pub conflict_with : BoxRow → List BoxRow → Option Conflict
conflict_with a [] = none
conflict_with a (b ∷ rows) = elim (pair_conflict a b) [
  | some c ↦ some c
  | none ↦ conflict_with a rows
]

unfoldable pub box_conflict : List BoxRow → Option Conflict
box_conflict [] = none
box_conflict (a ∷ rows) = elim (conflict_with a rows) [ some c ↦ some c | none ↦ box_conflict rows ]

-- `hasInstrumentsIn`, over the rows of the instrument table.
pub has_instruments_in : List BoxRow → Text → Bool
has_instruments_in [] box = false
has_instruments_in (r ∷ rows) box = if r.box == box then true else has_instruments_in rows box

-- `instrumentsIn`: an instrument is its row's number.
pub instruments_from : ℕ → List BoxRow → Text → List ℕ
instruments_from id [] box = []
instruments_from id (r ∷ rows) box =
    let faces = instruments_from (id + 1) rows box in if r.box == box then id ∷ faces else faces

pub instruments_in : List BoxRow → Text → List ℕ
instruments_in rows box = instruments_from 0 rows box
