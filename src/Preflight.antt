-- ===== src/Preflight.antt =====
-- framework/hal/src/verbs/preflight.cpp: the addresses that the instruments of a rig are bound to, and
-- the contact with each before a run. The tables of the rig, what an instrument answers to `identity`
-- and to `cardModel`, and the closing of a session are arguments, on a world of the drivers' own. An
-- instrument stands together with its binding, which `bindingFor` finds by the id that they share.
pub mod Contact
pub mod Bindings
pub mod Fresh
pub mod Reached
pub mod Accepted
pub mod Claims
pub mod Steps
pub mod Units
mod Examples
use thorium.Prelude.{
  ℕ, ◌+◌, Bool, true, false, not, ◌&&◌, ◌||◌, Option, none, some, List, [], ◌∷◌, ◌++◌, Text, text,
  text_eq, ◌==◌, if◌then◌else◌,
}
use thorium.Topology.Address.{Address, simulated}
use thorium.Topology.Tables.{
  PoolEntry, SiteEntry, pool_in, site_address_in, site_names_in, contains,
}
use thorium.Topology.Plan.{split_at}

-- `enum class AddressSource`
pub data AddressSource : Type 0 where
  of_table of_site of_pool of_override : AddressSource

-- What the reflection over an instrument object gives.
pub record Instrument : Type 0 where
  pub id : Text
  pub box : Text
  pub address : Address
  pub allows : Address → Bool
  pub can_contact : Bool
  pub identifies_cards : Bool

pub record Binding : Type 0 where
  pub id : Text
  pub box : Text
  pub value : Address
  pub source : AddressSource
  pub allows : Address → Bool
  pub site : Text
  pub can_contact : Bool
  pub identity : Text
  pub pool_position : Option (ℕ × ℕ)

-- An instrument, its binding, and the address that its driver holds.
pub record Face : Type 0 where
  pub instrument : Instrument
  pub binding : Binding
  pub driver_address : Address

pub record AddressPlan : Type 0 where
  pub overrides : List (Text × Address)
  pub simulated_faces : List Text
  pub site : Text

-- Which exception ends the preflight, with what its text names.
pub data Failure : Type 0 where
  kind_mismatch : Text → Address → Failure
  unknown_site : Text → Failure
  no_free_instrument : Text → ℕ → Failure
  two_units one_unit : Text → Text → Text → Failure
  wrong_card : Text → ℕ → Text → Failure
  driver_threw : Text → Failure

pub data Ended {ℓ} (A : Type ℓ) : Type ℓ where
  done : A → Ended A
  threw : Failure → Ended A

infixl 5 ◌>>=◌
abbrev pub ◌>>=◌ {ℓ κ} : {A : Type ℓ} {B : Type κ} → Ended A → (A → Ended B) → Ended B
done a >>= f = f a
threw e >>= f = threw e

-- `serialOf`: the third of the fields between commas.
unfoldable pub serial_of : Text → Text
serial_of identity = elim (split_at b',' identity) [
  | none ↦ []
  | some (_, behind) ↦ elim (split_at b',' behind) [
    | none ↦ []
    | some (_, last) ↦ elim (split_at b',' last) [ none ↦ last | some (serial, _) ↦ serial ]
  ]
]

abbrev pub require_accepted : Binding → Address → Ended (Unit {0})
require_accepted binding resolved =
    if binding.allows resolved then done tt else threw (kind_mismatch binding.id resolved)

abbrev pub require_all : Binding → List Address → Ended (Unit {0})
require_all binding [] = done tt
require_all binding (candidate ∷ candidates) =
    require_accepted binding candidate >>= λ _. require_all binding candidates

abbrev pub moved : Binding → Address → AddressSource → Ended Binding
moved binding value source =
    require_accepted binding value >>= λ _. done (record binding { value = value; source = source })

unfoldable pub override_for : List (Text × Address) → Text → Option Address
override_for [] box = none
override_for ((name, value) ∷ overrides) box =
    if name == box then some value else override_for overrides box

abbrev pub is_empty_text : Text → Bool
is_empty_text [] = true
is_empty_text (_ ∷ _) = false

module _ (pool : List PoolEntry) (sites : List SiteEntry) (plan : AddressPlan) where
  abbrev pub by_pool : List Address → Binding → Ended Binding
  by_pool [] binding = done binding
  by_pool (candidate ∷ candidates) binding = require_all binding (candidate ∷ candidates) >>= λ _.
      done (record binding { source = of_pool })

  -- `siteAddressFor`, where a site was named.
  abbrev pub site_value : Text → Option Address
  site_value box = if is_empty_text plan.site then none else site_address_in sites plan.site box

  abbrev pub below_override : Option Address → Option Address → Binding → Ended Binding
  below_override (some value) at_site binding = moved binding value of_override
  below_override none (some value) binding = moved binding value of_site
  below_override none none binding = by_pool (pool_in pool binding.box) binding

  unfoldable pub resolve : Binding → Ended Binding
  resolve binding =
      if contains plan.simulated_faces binding.id
      then done (record binding { value = simulated; source = of_override })
      else below_override (override_for plan.overrides binding.box) (site_value binding.box) binding

  abbrev pub table_binding : Instrument → Binding
  table_binding i = record {
    id = i.id;
    box = i.box;
    value = i.address;
    source = of_table;
    allows = i.allows;
    site = [];
    can_contact = i.can_contact;
    identity = [];
    pool_position = none;
  }

  -- A site's binding names it, and a pooled row leaves the driver alone.
  abbrev pub placed : Instrument → Binding → AddressSource → Face
  placed i binding of_site = record {
    instrument = i;
    binding = record binding { site = plan.site };
    driver_address = binding.value;
  }
  placed i binding of_pool = record {
    instrument = i;
    binding = binding;
    driver_address = i.address;
  }
  placed i binding of_table = record {
    instrument = i;
    binding = binding;
    driver_address = binding.value;
  }
  placed i binding of_override = record {
    instrument = i;
    binding = binding;
    driver_address = binding.value;
  }

  unfoldable pub bind_all : List Instrument → Ended (List Face)
  bind_all [] = done []
  bind_all (i ∷ instruments) = resolve (table_binding i) >>= λ binding.
      bind_all instruments >>= λ faces. done (placed i binding binding.source ∷ faces)

  unfoldable pub bind_addresses : List Instrument → Ended (List Face)
  bind_addresses instruments =
      if is_empty_text plan.site || contains (site_names_in sites) plan.site
      then bind_all instruments
      else threw (unknown_site plan.site)
