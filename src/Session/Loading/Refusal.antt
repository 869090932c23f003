-- ===== src/Session/Loading/Refusal.antt =====
-- When `loadFromFile` refuses a recording.
use thorium.Prelude.{
  ◌≡◌, refl, ◌↔◌, Bool, true, false, not, ◌&&◌, ◌||◌, List, [], ◌∷◌, Text, any, arith,
}
use thorium.Session.{ScriptedSession}
use thorium.Session.Loading.{
  RecordedValue, reading, payload, flag, trace, RecordedSample, Collected, nothing_collected,
  sort_in, is_empty, is_scoped, is_selected, collect_row, collect, loaded, no_readings_selected,
  session_of, load,
}

-- A row of a selected test.
abbrev pub is_of_selected_test : List Text → RecordedSample → Bool
is_of_selected_test selection r = is_scoped r && is_selected selection r

sort_in-matched_selection :
    (name : Text) (value : RecordedValue) (c : Collected)
    → (sort_in name value c).matched_selection ≡ c.matched_selection
sort_in-matched_selection name (reading value) c = refl
sort_in-matched_selection name (payload value) c = refl
sort_in-matched_selection name (flag value) c = refl
sort_in-matched_selection name (trace value) c = refl

collect_row-matched_selection :
    (selection : List Text) (r : RecordedSample) (c : Collected)
    → (collect_row selection r c).matched_selection
      ≡ (c.matched_selection || (not (is_empty selection) && is_of_selected_test selection r))
collect_row-matched_selection selection r c = ground (
  arith,
  sort_in-matched_selection r.point_name r.value c,
  sort_in-matched_selection r.point_name r.value (record c { matched_selection = true }),
)

collect-matched_selection :
    (selection : List Text) (rows : List RecordedSample) (c : Collected)
    → (collect selection rows c).matched_selection ≡ (
        c.matched_selection
        || (not (is_empty selection) && any (is_of_selected_test selection) rows))
unfolding collect
collect-matched_selection selection [] c = ground arith
collect-matched_selection selection (r ∷ rows) c = ground (
  arith,
  collect-matched_selection selection rows (collect_row selection r c),
  collect_row-matched_selection selection r c,
)

-- A recording is refused exactly when tests are selected and no row belongs to one of them; a hook's
-- row does not count.
pub load-refuses_iff :
    (selection : List Text) (rows : List RecordedSample)
    → (load selection rows ≡ no_readings_selected)
      ↔ ((is_empty selection ≡ false) × (any (is_of_selected_test selection) rows ≡ false))
unfolding load
load-refuses_iff selection rows =
    ground (arith, collect-matched_selection selection rows nothing_collected)

-- Without a selection every recording loads.
pub load-everything :
    (rows : List RecordedSample) → (s : ScriptedSession) × (load [] rows ≡ loaded s)
unfolding load
load-everything rows = (session_of (collect [] rows nothing_collected), refl)
