-- ===== src/Prelude/Dict.antt =====
-- `std::map` and `std::unordered_map` as association lists: the code reads them by key alone, so
-- the order of the entries is not observable.
use mathlib.Core.Path.{◌≡◌, refl}
use mathlib.Core.List.{List, [], ◌∷◌}
use mathlib.Core.Option.{Option, none, some}
use native.Mathlib.Omega.{arith}
use thorium.Prelude.Tests.{Keyed, ◌==◌, if◌then◌else◌}

abbrev pub Dict {ℓ κ} : Type ℓ → Type κ → Type (ℓ ⊔ κ)
Dict K V = List (K × V)

module _ {ℓ κ} {K : Type ℓ} {V : Type κ} ⦃key : Keyed K⦄ where
  -- `map.find( key)`
  unfoldable pub lookup : K → Dict K V → Option V
  lookup wanted [] = none
  lookup wanted (entry ∷ rest) = if entry.0 == wanted then some entry.1 else lookup wanted rest

  -- `map.insert_or_assign( key, value)`: an entry that is there is assigned where it stands.
  unfoldable pub insert : K → V → Dict K V → Dict K V
  insert wanted value [] = (wanted, value) ∷ []
  insert wanted value (entry ∷ rest) =
      if entry.0 == wanted then (wanted, value) ∷ rest else entry ∷ insert wanted value rest

  -- `map.erase( key)`
  unfoldable pub erase : K → Dict K V → Dict K V
  erase wanted [] = []
  erase wanted (entry ∷ rest) =
      let kept = erase wanted rest in if entry.0 == wanted then kept else entry ∷ kept

  pub lookup-nil : (k : K) → lookup k [] ≡ none
  unfolding lookup
  lookup-nil k = refl

  module _ (k j : K) where
    pub lookup-erase :
        (rest : Dict K V) → lookup j (erase k rest) ≡ (if k == j then none else lookup j rest)
    unfolding lookup erase
    lookup-erase [] = ground arith
    lookup-erase (entry ∷ rest) =
        ground (
          arith,
          lookup-erase rest,
          key.same_iff entry.0 j,
          key.same_iff entry.0 k,
          key.same_iff k j,
        )

    pub lookup-insert :
        (value : V) (rest : Dict K V)
        → lookup j (insert k value rest) ≡ (if k == j then some value else lookup j rest)
    unfolding lookup insert
    lookup-insert value [] = refl
    lookup-insert value (entry ∷ rest) = ground (
      arith,
      lookup-insert value rest,
      key.same_iff entry.0 j,
      key.same_iff entry.0 k,
      key.same_iff k j,
    )
