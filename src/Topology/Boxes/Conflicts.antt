-- ===== src/Topology/Boxes/Conflicts.antt =====
-- What a rig that passes the box check is known to have, and what a refused one has.
use thorium.Prelude.{
  ℕ, zero, suc, ◌+◌, ◌<◌, ◌≡◌, ◌≢◌, ◌↔◌, true, false, none, some, List, [], ◌∷◌, Text, text_eq,
  get_elem?, arith,
}
use thorium.Topology.Address.{is_simulated, address_eq}
use thorium.Topology.Boxes.{
  BoxRow, simulated_face, pair_conflict, conflict_with, box_conflict, has_instruments_in,
  instruments_from,
}

-- Two rows agree: faces of one box that are both there say one address, and two boxes never share an
-- address that reaches something.
pub record Agree (a b : BoxRow) : Type 0 where
  pub one_address :
      a.box ≡ b.box → simulated_face a ≡ false → simulated_face b ≡ false → a.value ≡ b.value
  pub one_box : a.value ≡ b.value → is_simulated a.value ≡ false → a.box ≡ b.box

pair_conflict-Agree : (a b : BoxRow) → pair_conflict a b ≡ none → Agree a b
unfolding pair_conflict
pair_conflict-Agree a b e = record {
  one_address =
      λ p q r. ground (arith, text_eq.same_iff a.box b.box, address_eq.same_iff a.value b.value);
  one_box =
      λ p q. ground (arith, text_eq.same_iff a.box b.box, address_eq.same_iff a.value b.value);
}

conflict_with-Agree :
    (a b : BoxRow) (rows : List BoxRow) (j : ℕ)
    → conflict_with a rows ≡ none
    → get_elem? rows j ≡ some b
    → Agree a b
unfolding conflict_with
conflict_with-Agree a b [] j e h = cc
conflict_with-Agree a b (c ∷ rows) zero e h = pair_conflict-Agree a b (ground arith)
conflict_with-Agree a b (c ∷ rows) (suc j) e h = conflict_with-Agree a b rows j (ground arith) h

-- In a rig whose tables pass the check, any two rows agree.
pub box_conflict-Agree :
    (rows : List BoxRow) (i j : ℕ) (a b : BoxRow)
    → box_conflict rows ≡ none
    → i < j
    → get_elem? rows i ≡ some a
    → get_elem? rows j ≡ some b
    → Agree a b
unfolding box_conflict
box_conflict-Agree [] i j a b e lt ha hb = cc
box_conflict-Agree (r ∷ rows) zero zero a b e lt ha hb = absurd (omega arith)
box_conflict-Agree (r ∷ rows) zero (suc j) a b e lt ha hb =
    conflict_with-Agree a b rows j (ground arith) hb
box_conflict-Agree (r ∷ rows) (suc i) zero a b e lt ha hb = absurd (omega arith)
box_conflict-Agree (r ∷ rows) (suc i) (suc j) a b e lt ha hb =
    box_conflict-Agree rows i j a b (ground arith) (omega arith) ha hb

-- `hasInstrumentsIn` says whether `instrumentsIn` finds any.
has_instruments_in_iff :
    (rows : List BoxRow) (box : Text) (id : ℕ)
    → (has_instruments_in rows box ≡ true) ↔ (instruments_from id rows box ≢ [])
unfolding has_instruments_in instruments_from
has_instruments_in_iff [] box id = ground arith
has_instruments_in_iff (r ∷ rows) box id = ground (arith, has_instruments_in_iff rows box (id + 1))
