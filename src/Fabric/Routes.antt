-- ===== src/Fabric/Routes.antt =====
-- `SwitchFabric::connect` and `SwitchFabric::disconnect`: what a route does to the use counts.
use native.Mathlib.Nat.{add-zero, zero-add}
use native.Mathlib.Numerals.{add-one}
use thorium.Prelude.{ℕ, zero, suc, ◌+◌, ◌-◌, ◌≡◌, Option, none, some, [], ◌∷◌, arith, get_elem?}
use thorium.Fabric.Elements.{SwitchElementId, RelayPath}
use thorium.Fabric.{
  Outcome, returned, threw, SwitchFabric, close, open_element, undo, undo_one, connect_from,
  connect, disconnect_from, disconnect, first_failure,
}
use thorium.Fabric.Counts.{occurs, uses, close-Closes, open_element-uses}

abbrev occurs_at : Option SwitchElementId → SwitchElementId → ℕ
occurs_at none j = 0
occurs_at (some id) j = occurs id j

-- How often a path names an element.
unfoldable pub count : SwitchElementId → RelayPath → ℕ
count j [] = 0
count j (id ∷ path) = occurs id j + count j path

-- How often `j` stands among the first `n` elements of the path.
count_first : RelayPath → ℕ → SwitchElementId → ℕ
count_first path zero j = 0
count_first path (suc n) j = count_first path n j + occurs_at (get_elem? path n) j

-- The rest of the path stands behind the elements that are closed.
abbrev StandsAt : RelayPath → ℕ → RelayPath → Type 0
StandsAt path done rest = (i : ℕ) → get_elem? path (i + done) ≡ get_elem? rest i

StandsAt-head :
    (path : RelayPath) (done : ℕ) (id : SwitchElementId) (rest : RelayPath)
    → StandsAt path done (id ∷ rest)
    → get_elem? path done ≡ some id
StandsAt-head path done id rest h = rw zero-add at (h 0)

StandsAt-tail :
    (path : RelayPath) (done : ℕ) (id : SwitchElementId) (rest : RelayPath)
    → StandsAt path done (id ∷ rest)
    → StandsAt path (done + 1) rest
StandsAt-tail path done id rest h i =
    let e : i + (done + 1) ≡ suc i + done = omega arith in rw e (h (suc i))

count_first-next :
    (path : RelayPath) (done : ℕ) (j : SwitchElementId)
    → count_first path (done + 1) j ≡ count_first path done j + occurs_at (get_elem? path done) j
unfolding count_first
count_first-next path done j = rw add-one

module _ {B : Type 0} where
  undo_one-uses :
      (o : Option SwitchElementId) (f : SwitchFabric B) (j : SwitchElementId)
      → uses (undo_one o f) j ≡ uses f j - occurs_at o j
  undo_one-uses none f j = omega arith
  undo_one-uses (some id) f j = open_element-uses id f j

  -- Undoing the first `n` elements releases each of them once.
  undo-uses :
      (path : RelayPath) (n : ℕ) (f : SwitchFabric B) (j : SwitchElementId)
      → uses (undo path n f) j ≡ uses f j - count_first path n j
  unfolding undo count_first
  undo-uses path zero f j = omega arith
  undo-uses path (suc n) f j = omega (
    arith,
    undo-uses path n (undo_one (get_elem? path n) f) j,
    undo_one-uses (get_elem? path n) f j,
  )

  -- All of the path or none of it.
  abbrev pub Connects :
      RelayPath → SwitchFabric B → SwitchElementId → Outcome × SwitchFabric B → Type 0
  Connects path f j (returned, g) = uses g j ≡ uses f j + count j path
  Connects path f j (threw e, g) = uses g j ≡ uses f j

  -- The loop with `done` elements closed, which an exception takes back.
  abbrev LoopConnects :
      RelayPath
      → ℕ
      → RelayPath
      → SwitchFabric B
      → SwitchElementId
      → Outcome × SwitchFabric B
      → Type 0
  LoopConnects path done rest f j (returned, g) = uses g j ≡ uses f j + count j rest
  LoopConnects path done rest f j (threw e, g) = uses g j ≡ uses f j - count_first path done j

  connect_from-LoopConnects :
      (path : RelayPath) (done : ℕ) (rest : RelayPath) (f : SwitchFabric B) (j : SwitchElementId)
      → StandsAt path done rest
      → LoopConnects path done rest f j (connect_from path rest done f)
  unfolding connect_from count
  connect_from-LoopConnects path done [] f j at_done = omega arith
  connect_from-LoopConnects path done (id ∷ rest) f j at_done = ground (
    arith,
    close-Closes id f j,
    undo-uses path done (close id f).1 j,
    StandsAt-head path done id rest at_done,
    count_first-next path done j,
    connect_from-LoopConnects path (done + 1) rest (close id f).1 j
        (StandsAt-tail path done id rest at_done),
  )

  -- A connect that returns has taken one use of each element of its path, and one that throws has
  -- left the use count of every element as it was.
  pub connect-Connects :
      (path : RelayPath) (f : SwitchFabric B) (j : SwitchElementId)
      → Connects path f j (connect path f)
  unfolding connect count_first
  connect-Connects path f j =
      ground (arith, connect_from-LoopConnects path 0 path f j (λ i. rw add-zero))

  disconnect_from-uses :
      (path : RelayPath) (first : Outcome) (f : SwitchFabric B) (j : SwitchElementId)
      → uses (disconnect_from path first f).1 j ≡ uses f j - count j path
  unfolding disconnect_from count
  disconnect_from-uses [] first f j = omega arith
  disconnect_from-uses (id ∷ rest) first f j = omega (
    arith,
    disconnect_from-uses rest (first_failure first (open_element id f).0) (open_element id f).1 j,
    open_element-uses id f j,
  )

  pub disconnect-uses :
      (path : RelayPath) (f : SwitchFabric B) (j : SwitchElementId)
      → uses (disconnect path f).1 j ≡ uses f j - count j path
  unfolding disconnect
  disconnect-uses path f j = disconnect_from-uses path returned f j
