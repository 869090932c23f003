-- ===== src/Fabric/Counts.antt =====
-- The use counts of `SwitchFabric` under `close`, `open`, `connect` and `disconnect`.
use thorium.Prelude.{ℕ, ◌+◌, ◌-◌, ◌<◌, ◌≡◌, refl, Option, none, some, arith, if◌then◌else◌, ◌==◌}
use thorium.Prelude.Dict.{lookup, lookup-insert, lookup-erase}
use thorium.Fabric.Elements.{SwitchElementId, element_eq}
use thorium.Fabric.{
  Outcome, returned, threw, SwitchFabric, close, close_found, open_element, open_found,
}

abbrev pub count_of : Option ℕ → ℕ
count_of none = 0
count_of (some n) = n

-- One occurrence of `j` if it is `id`.
abbrev pub occurs : SwitchElementId → SwitchElementId → ℕ
occurs id j = if id == j then 1 else 0

module _ {B : Type 0} where
  -- How many uses of an element the fabric counts.
  unfoldable pub uses : SwitchFabric B → SwitchElementId → ℕ
  uses f j = count_of (lookup j f.use_count)

  -- No entry of the map stands at zero.
  abbrev pub IsCounted : SwitchFabric B → Type 0
  IsCounted f = (j : SwitchElementId) (n : ℕ) → lookup j f.use_count ≡ some n → 0 < n

  -- A close counts one use more, unless the driver refused it, which leaves every count.
  abbrev pub Closes :
      SwitchElementId → SwitchFabric B → SwitchElementId → Outcome × SwitchFabric B → Type 0
  Closes id f j (returned, g) = uses g j ≡ uses f j + occurs id j
  Closes id f j (threw e, g) = uses g j ≡ uses f j

  close_found-Closes :
      (id : SwitchElementId) (f : SwitchFabric B) (j : SwitchElementId) (o : Option ℕ)
      → lookup id f.use_count ≡ o
      → Closes id f j (close_found id f o)
  unfolding uses
  close_found-Closes id f j none e =
      ground (arith, element_eq.same_iff id j, lookup-insert id j 1 f.use_count)
  close_found-Closes id f j (some n) e =
      ground (arith, element_eq.same_iff id j, lookup-insert id j (n + 1) f.use_count)

  pub close-Closes :
      (id : SwitchElementId) (f : SwitchFabric B) (j : SwitchElementId) → Closes id f j (close id f)
  unfolding close
  close-Closes id f j = close_found-Closes id f j (lookup id f.use_count) refl

  open_found-uses :
      (id : SwitchElementId) (f : SwitchFabric B) (j : SwitchElementId) (o : Option ℕ)
      → lookup id f.use_count ≡ o
      → uses (open_found id f o).1 j ≡ uses f j - occurs id j
  unfolding uses
  open_found-uses id f j none e = ground (arith, element_eq.same_iff id j)
  open_found-uses id f j (some n) e = ground (
    arith,
    element_eq.same_iff id j,
    lookup-insert id j (n - 1) f.use_count,
    lookup-erase id j f.use_count,
  )

  -- An open counts one use fewer of its element, whether or not the driver fails.
  pub open_element-uses :
      (id : SwitchElementId) (f : SwitchFabric B) (j : SwitchElementId)
      → uses (open_element id f).1 j ≡ uses f j - occurs id j
  unfolding open_element
  open_element-uses id f j = open_found-uses id f j (lookup id f.use_count) refl

  -- No entry at zero: `isClosed` and the use count agree.
  pub close-IsCounted :
      (id : SwitchElementId) (f : SwitchFabric B) → IsCounted f → IsCounted (close id f).1
  unfolding close
  close-IsCounted id f c j n e = ground (
    arith,
    c j n,
    lookup-insert id j 1 f.use_count,
    lookup-insert id j (count_of (lookup id f.use_count) + 1) f.use_count,
  )

  pub open_element-IsCounted :
      (id : SwitchElementId) (f : SwitchFabric B) → IsCounted f → IsCounted (open_element id f).1
  unfolding open_element
  open_element-IsCounted id f c j n e = ground (
    arith,
    c j n,
    lookup-insert id j (count_of (lookup id f.use_count) - 1) f.use_count,
    lookup-erase id j f.use_count,
  )
