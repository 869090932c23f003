-- ===== src/Criteria/Variants.antt =====
-- framework/core/src/criteria/criteria_variants.cpp: which table of tolerances a run uses. `Names` is
-- generated from the build's list, so it is an argument, as the default's name is.
pub mod Selected
use thorium.Prelude.{
  ℕ, zero, suc, ◌+◌, Bool, true, false, Option, none, some, List, [], ◌∷◌, Text, text_eq, ◌==◌,
  if◌then◌else◌, get_elem?,
}

pub record Selection : Type 0 where
  pub index : ℕ
  pub locked : Bool

-- How a call of `selectCriteriaVariant` ends: with its result, or with the `std::logic_error` of a
-- selection after the run began.
pub data Answer : Type 0 where
  answered : Bool → Answer
  logic_error : Answer

-- `std::ranges::find( Names, name)`, as the index that is found.
unfoldable pub find_name : ℕ → List Text → Text → Option ℕ
find_name i [] name = none
find_name i (n ∷ names) name = if n == name then some i else find_name (i + 1) names name

-- `found == end ? 0 : found - begin`
abbrev pub or_zero : Option ℕ → ℕ
or_zero none = 0
or_zero (some i) = i

unfoldable pub default_index : List Text → Text → ℕ
default_index names default_name = or_zero (find_name 0 names default_name)

-- The state that `selection()` begins with.
unfoldable pub initial : List Text → Text → Selection
initial names default_name = record { index = default_index names default_name; locked = false }

-- `Names[ selection().Index]`; out of bounds is none.
unfoldable pub active_criteria_variant_name : List Text → Selection → Option Text
active_criteria_variant_name names s = get_elem? names s.index

unfoldable pub select_criteria_variant : List Text → Text → Selection → Answer × Selection
select_criteria_variant names name s =
    if s.locked then (logic_error, s) else (elim (find_name 0 names name) [
      | none ↦ (answered false, s)
      | some i ↦ (answered true, record s { index = i })
    ])

unfoldable pub lock_criteria_variant : Selection → Selection
lock_criteria_variant s = record s { locked = true }
