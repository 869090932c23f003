-- ===== src/Fabric/History.antt =====
-- The fabric over a whole run of connects and disconnects, against the count that the calls and
-- their outcomes alone determine.
use thorium.Prelude.{
  ℕ, ◌+◌, ◌-◌, ◌<◌, ◌≡◌, refl, ap, ◌∙◌, List, [], ◌∷◌, Option, none, some, arith, ltb, get_elem?,
  Option-cases, inl, inr,
}
use thorium.Prelude.Dict.{lookup, lookup-nil}
use thorium.Fabric.Elements.{SwitchElementId, RelayPath, element_eq}
use thorium.Fabric.{
  Outcome, returned, threw, SwitchFabric, close, open_element, undo, undo_one, connect_from,
  connect, disconnect_from, disconnect, first_failure, is_closed, RouteCall, connects, disconnects,
  call, run,
}
use thorium.Fabric.Counts.{uses, IsCounted, close-IsCounted, open_element-IsCounted}
use thorium.Fabric.Routes.{count, connect-Connects, disconnect-uses}

-- What `close` and `open` keep, every call keeps.
module _ {B : Type 0} (P : SwitchFabric B → Type 0)
    (keep_close : (id : SwitchElementId) (f : SwitchFabric B) → P f → P (close id f).1)
    (keep_open : (id : SwitchElementId) (f : SwitchFabric B) → P f → P (open_element id f).1) where
  undo_one-keeps : (o : Option SwitchElementId) (f : SwitchFabric B) → P f → P (undo_one o f)
  undo_one-keeps none f p = p
  undo_one-keeps (some id) f p = keep_open id f p

  undo-keeps : (path : RelayPath) (n : ℕ) (f : SwitchFabric B) → P f → P (undo path n f)
  unfolding undo
  undo-keeps path ℕ.zero f p = p
  undo-keeps path (ℕ.suc n) f p = undo-keeps path n _ (undo_one-keeps (get_elem? path n) f p)

  connect_from-keeps :
      (path rest : RelayPath) (n : ℕ) (f : SwitchFabric B) → P f → P (connect_from path rest n f).1
  unfolding connect_from
  connect_from-keeps path [] n f p = p
  connect_from-keeps path (id ∷ rest) n f p =
      elim (close id f).0
        as (λ r.
          P
            (elim r as (λ _. Outcome × SwitchFabric B) [
              | returned ↦ connect_from path rest (n + 1) (close id f).1
              | threw e ↦ (threw e, undo path n (close id f).1)
            ]).1) [
              | returned ↦ connect_from-keeps path rest (n + 1) (close id f).1 (keep_close id f p)
              | threw e ↦ undo-keeps path n (close id f).1 (keep_close id f p)
            ]

  disconnect_from-keeps :
      (path : RelayPath) (first : Outcome) (f : SwitchFabric B)
      → P f
      → P (disconnect_from path first f).1
  unfolding disconnect_from
  disconnect_from-keeps [] first f p = p
  disconnect_from-keeps (id ∷ rest) first f p =
      disconnect_from-keeps rest (first_failure first (open_element id f).0) _ (keep_open id f p)

  pub call-keeps : (c : RouteCall) (f : SwitchFabric B) → P f → P (call c f).1
  unfolding call connect disconnect
  call-keeps (connects path) f p = connect_from-keeps path path 0 f p
  call-keeps (disconnects path) f p = disconnect_from-keeps path returned f p

  pub run-keeps : (cs : List RouteCall) (f : SwitchFabric B) → P f → P (run cs f).1
  unfolding run
  run-keeps [] f p = p
  run-keeps (c ∷ cs) f p = run-keeps cs (call c f).1 (call-keeps c f p)

-- What one call makes of the number of routes that hold element `j`: a connect that returned adds
-- the path, one that threw adds nothing, and a disconnect takes the path off however it ended.
unfoldable pub hold : SwitchElementId → ℕ → RouteCall → Outcome → ℕ
hold j n (connects path) returned = n + count j path
hold j n (connects path) (threw e) = n
hold j n (disconnects path) r = n - count j path

unfoldable pub holds : SwitchElementId → ℕ → List RouteCall → List Outcome → ℕ
holds j n (c ∷ cs) (r ∷ rs) = holds j (hold j n c r) cs rs
holds j n _ _ = n

module _ {B : Type 0} where
  call-hold :
      (c : RouteCall) (f : SwitchFabric B) (j : SwitchElementId)
      → uses (call c f).1 j ≡ hold j (uses f j) c (call c f).0
  unfolding call hold
  call-hold (connects path) f j = ground (arith, connect-Connects path f j)
  call-hold (disconnects path) f j = disconnect-uses path f j

  -- The use count of each element is the number that the calls and their outcomes determine.
  pub run-holds :
      (cs : List RouteCall) (f : SwitchFabric B) (j : SwitchElementId)
      → uses (run cs f).1 j ≡ holds j (uses f j) cs (run cs f).0
  unfolding run holds
  run-holds [] f j = refl
  run-holds (c ∷ cs) f j = rw (← call-hold c f j) (run-holds cs (call c f).1 j)

  is_closed-uses :
      (f : SwitchFabric B) (j : SwitchElementId) → IsCounted f → is_closed j f ≡ ltb 0 (uses f j)
  unfolding is_closed uses
  is_closed-uses f j c = elim (Option-cases (lookup j f.use_count)) [
    | inl e ↦ rw e
    | inr (n, e) ↦ let pos : 0 < n = c j n e in ground arith
  ]

  pub IsCounted-nil : (f : SwitchFabric B) → f.use_count ≡ [] → IsCounted f
  IsCounted-nil f empty j n e = cc (lookup-nil {V = ℕ} j)

  pub run-IsCounted :
      (cs : List RouteCall) (f : SwitchFabric B) → IsCounted f → IsCounted (run cs f).1
  run-IsCounted = run-keeps IsCounted close-IsCounted open_element-IsCounted

  -- From a fabric with nothing closed, an element is closed after a run exactly while the number
  -- that the calls and their outcomes determine for it is above zero.
  pub run-is_closed :
      (cs : List RouteCall) (f : SwitchFabric B) (j : SwitchElementId)
      → f.use_count ≡ []
      → is_closed j (run cs f).1 ≡ ltb 0 (holds j 0 cs (run cs f).0)
  unfolding uses
  run-is_closed cs f j empty =
      let none_held : uses f j ≡ 0 = rw (empty, lookup-nil {V = ℕ} j) in
      is_closed-uses (run cs f).1 j (run-IsCounted cs f (IsCounted-nil f empty))
      ∙ ap (ltb 0) (run-holds cs f j ∙ ap (λ n. holds j n cs (run cs f).0) none_held)
