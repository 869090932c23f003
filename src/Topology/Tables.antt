-- ===== src/Topology/Tables.antt =====
-- framework/hal/src/topology/address_tables.cpp: the pool and the site table, and the names that the
-- tables use. The tables are generated from the rig's files, so they are arguments.
use thorium.Prelude.{
  Bool, true, false, ◌&&◌, Option, none, some, List, [], ◌∷◌, ◌++◌, Text, text_eq, ◌==◌,
  if◌then◌else◌,
}
use thorium.Topology.Address.{Address}
use thorium.Topology.Boxes.{BoxRow}

pub record PoolEntry : Type 0 where
  pub box : Text
  pub value : Address

pub record SiteEntry : Type 0 where
  pub site : Text
  pub box : Text
  pub value : Address

unfoldable pub pool_in : List PoolEntry → Text → List Address
pool_in [] box = []
pool_in (e ∷ entries) box =
    let rest = pool_in entries box in if e.box == box then e.value ∷ rest else rest

unfoldable pub site_address_in : List SiteEntry → Text → Text → Option Address
site_address_in [] site box = none
site_address_in (e ∷ entries) site box =
    if e.site == site && e.box == box then some e.value else site_address_in entries site box

-- `std::ranges::find( names, name) != names.end()`
unfoldable pub contains : List Text → Text → Bool
contains [] name = false
contains (n ∷ names) name = if n == name then true else contains names name

-- The loop of `siteNamesIn` and of `instrumentBoxNames`: each name once, in order of appearance.
unfoldable pub names_from : List Text → List Text → List Text
names_from [] names = names
names_from (x ∷ xs) names = names_from xs (if contains names x then names else names ++ x ∷ [])

abbrev sites : List SiteEntry → List Text
sites [] = []
sites (e ∷ entries) = e.site ∷ sites entries

abbrev boxes : List BoxRow → List Text
boxes [] = []
boxes (r ∷ rows) = r.box ∷ boxes rows

unfoldable pub site_names_in : List SiteEntry → List Text
site_names_in entries = names_from (sites entries) []

unfoldable pub instrument_box_names : List BoxRow → List Text
instrument_box_names rows = names_from (boxes rows) []
