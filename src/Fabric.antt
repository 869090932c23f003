-- ===== src/Fabric.antt =====
-- framework/hal/include/hal/fabric/switch_fabric.hpp: class `SwitchDriver` and class `SwitchFabric`.
-- The bench behind a driver is a value that its two calls change; an exception carries its text.
-- The use count is an `int`: fewer than 2^31 uses of one element are assumed.
pub mod Elements
pub mod Counts
pub mod Routes
pub mod Cards
pub mod History
pub mod Bench
pub mod Rig
mod Examples
use thorium.Prelude.{
  ℕ, zero, suc, ◌+◌, ◌-◌, Bool, Option, none, some, List, [], ◌∷◌, String, ltb, if◌then◌else◌,
  get_elem?, has_value,
}
use thorium.Prelude.Dict.{Dict, lookup, insert, erase}
use Elements.{SwitchElementId, RelayPath, element_eq}

-- How a call ends: it returns, or an exception leaves it.
pub data Outcome : Type 0 where
  returned : Outcome
  threw : String → Outcome

-- `virtual auto close` and `virtual auto open`, over the bench that they act on.
pub record SwitchDriver (B : Type 0) : Type 0 where
  pub close : SwitchElementId → B → Outcome × B
  pub open_relay : SwitchElementId → B → Outcome × B

-- The private state, `mDriver` and `mUseCount`, with the bench that the driver reaches.
pub record SwitchFabric (B : Type 0) : Type 0 where
  pub driver : Option (SwitchDriver B)
  pub use_count : Dict SwitchElementId ℕ
  pub bench : B

-- `if( !first) first = std::current_exception()`
abbrev pub first_failure : Outcome → Outcome → Outcome
first_failure returned r = r
first_failure (threw e) _ = threw e

module _ {B : Type 0} where
  -- `if( mDriver) mDriver->close( id)`
  abbrev pub drive_close : Option (SwitchDriver B) → SwitchElementId → B → Outcome × B
  drive_close none id b = (returned, b)
  drive_close (some d) id b = d.close id b

  -- `if( mDriver) mDriver->open( id)`
  abbrev pub drive_open : Option (SwitchDriver B) → SwitchElementId → B → Outcome × B
  drive_open none id b = (returned, b)
  drive_open (some d) id b = d.open_relay id b

  -- The count is taken only once the driver's close has returned.
  abbrev pub first_use : SwitchElementId → SwitchFabric B → Outcome × B → Outcome × SwitchFabric B
  first_use id f (returned, b) =
      (returned, record f { use_count = insert id 1 f.use_count; bench = b })
  first_use id f (threw e, b) = (threw e, record f { bench = b })

  abbrev pub close_found : SwitchElementId → SwitchFabric B → Option ℕ → Outcome × SwitchFabric B
  close_found id f none = first_use id f (drive_close f.driver id f.bench)
  close_found id f (some n) = (returned, record f { use_count = insert id (n + 1) f.use_count })

  pub close : SwitchElementId → SwitchFabric B → Outcome × SwitchFabric B
  close id f = close_found id f (lookup id f.use_count)

  abbrev pub last_release : SwitchElementId → SwitchFabric B → Outcome × SwitchFabric B
  last_release id f =
      let (r, b) = drive_open f.driver id f.bench in
      (r, record f { use_count = erase id f.use_count; bench = b })

  abbrev pub open_found : SwitchElementId → SwitchFabric B → Option ℕ → Outcome × SwitchFabric B
  open_found id f none = (returned, f)
  open_found id f (some n) =
      if ltb 0 (n - 1)
      then (returned, record f { use_count = insert id (n - 1) f.use_count })
      else last_release id f

  -- `SwitchFabric::open`
  pub open_element : SwitchElementId → SwitchFabric B → Outcome × SwitchFabric B
  open_element id f = open_found id f (lookup id f.use_count)

  pub open_all : SwitchFabric B → SwitchFabric B
  open_all f = record f { use_count = [] }

  -- `mUseCount.count( id) > 0`
  pub is_closed : SwitchElementId → SwitchFabric B → Bool
  is_closed id f = has_value (lookup id f.use_count)

  -- One round of the loop that undoes a refused path; an exception in it is swallowed.
  abbrev pub undo_one : Option SwitchElementId → SwitchFabric B → SwitchFabric B
  undo_one none f = f
  undo_one (some id) f = (open_element id f).1

  -- `for( index = closed; index > 0; --index) open( path[ index - 1])`
  pub undo : RelayPath → ℕ → SwitchFabric B → SwitchFabric B
  undo path zero f = f
  undo path (suc index) f = undo path index (undo_one (get_elem? path index) f)

  -- The `try` loop over what is left of the path, `closed` elements of which are closed.
  pub connect_from : RelayPath → RelayPath → ℕ → SwitchFabric B → Outcome × SwitchFabric B
  connect_from path [] closed f = (returned, f)
  connect_from path (id ∷ rest) closed f =
      let (r, g) = close id f in
      elim r [
        | returned ↦ connect_from path rest (closed + 1) g
        | threw e ↦ (threw e, undo path closed g)
      ]

  pub connect : RelayPath → SwitchFabric B → Outcome × SwitchFabric B
  connect path f = connect_from path path 0 f

  pub disconnect_from : RelayPath → Outcome → SwitchFabric B → Outcome × SwitchFabric B
  disconnect_from [] first f = (first, f)
  disconnect_from (id ∷ rest) first f =
      let (r, g) = open_element id f in disconnect_from rest (first_failure first r) g

  pub disconnect : RelayPath → SwitchFabric B → Outcome × SwitchFabric B
  disconnect path f = disconnect_from path returned f

-- What the verbs ask of the fabric over a run: a route is connected or disconnected.
pub data RouteCall : Type 0 where
  connects disconnects : RelayPath → RouteCall

module _ {B : Type 0} where
  pub call : RouteCall → SwitchFabric B → Outcome × SwitchFabric B
  call (connects path) f = connect path f
  call (disconnects path) f = disconnect path f

  -- The calls in turn, and how each of them ended; a caller's exception ends no later call.
  pub run : List RouteCall → SwitchFabric B → List Outcome × SwitchFabric B
  run [] f = ([], f)
  run (c ∷ cs) f = let (r, g) = call c f in let (rs, h) = run cs g in (r ∷ rs, h)
