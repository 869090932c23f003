-- ===== src/Preflight/Examples.antt =====
-- The preflight of a rig with a fixed supply and two meters from one pool, the first with two faces.
use thorium.Prelude.{
  ℕ, ◌≡◌, refl, Bool, true, false, List, [], ◌∷◌, ◌++◌, Text, text, text_beq, All,
}
use thorium.Topology.Address.{Address, gpib, lan, serial, usb, simulated}
use thorium.Topology.Tables.{PoolEntry, SiteEntry, contains, pool_in}
use thorium.Topology.Plan.{split_at}
use thorium.Preflight.{
  Instrument, Face, AddressPlan, Ended, done, threw, ◌>>=◌, serial_of, resolve, override_for,
  bind_all, bind_addresses,
}
use thorium.Preflight.Contact.{
  Answer, answered, unreachable, Contacts, CardRow, contact_instruments, contact_faces,
  contact_face, earlier_face, first_face, later_face, acquire_from_pool, acquire, ask_fixed,
  claimed_by_another, check_all_cards,
}
use thorium.Preflight.Bindings.{Ensures, Settled}
use thorium.Preflight.Accepted.{preflight-Settled}

abbrev at_host : Text → Address
at_host host = lan (record { host = host; port = 5025 })

-- A host answers with its name as its serial, and nothing else answers. The world counts the calls.
abbrev identity : Text → Address → ℕ → Answer × ℕ
identity id (lan l) calls = (answered (text "Keysight,X," ++ l.host), calls)
identity id (gpib g) calls = (unreachable id, calls)
identity id (serial port) calls = (unreachable id, calls)
identity id (usb name) calls = (unreachable id, calls)
identity id simulated calls = (unreachable id, calls)

abbrev close_session : Text → ℕ → ℕ
close_session id calls = calls

abbrev card_model : Text → ℕ → ℕ → Answer × ℕ
card_model id slot calls = (answered (text "34934A"), calls)

abbrev lan_only : Address → Bool
lan_only (lan l) = true
lan_only (gpib g) = false
lan_only (serial port) = false
lan_only (usb name) = false
lan_only simulated = false

abbrev instrument : Address → Text → Text → Instrument
instrument row id box = record {
  id = id;
  box = box;
  address = row;
  allows = lan_only;
  can_contact = true;
  identifies_cards = false;
}

-- The address column of the meters' rows is an argument.
abbrev rig : Address → List Instrument
rig row =
    instrument row (text "Psu1") (text "Supply")
    ∷ instrument row (text "Dmm1") (text "MeterA")
    ∷ instrument row (text "Temp1") (text "MeterA")
    ∷ instrument row (text "Dmm2") (text "MeterB")
    ∷ []

abbrev bench : List Instrument
bench = rig (at_host (text "row"))

abbrev pool_row : Text → Text → PoolEntry
pool_row box host = record { box = box; value = at_host host }

-- The supply is never a candidate, and both meters may stand at either host.
abbrev pool : List PoolEntry
pool =
    pool_row (text "MeterA") (text "left")
    ∷ pool_row (text "MeterA") (text "right")
    ∷ pool_row (text "MeterB") (text "left")
    ∷ pool_row (text "MeterB") (text "right")
    ∷ []

abbrev no_cards : List CardRow
no_cards = []

abbrev no_sites : List SiteEntry
no_sites = []

abbrev plan : AddressPlan
plan = record {
  overrides = (text "Supply", at_host (text "psu")) ∷ [];
  simulated_faces = [];
  site = [];
}

abbrev addresses : List Face → List Address
addresses [] = []
addresses (f ∷ fs) = f.driver_address ∷ addresses fs

abbrev ends_as : Ended (List Face × Contacts ℕ) → List Address
ends_as (done (faces, s)) = addresses faces
ends_as (threw e) = []

-- The preflight ends without an exception: the second meter is at the host that the first left.
bound :
    ends_as (
      bind_addresses pool no_sites plan bench >>= λ fs.
      contact_instruments identity close_session card_model pool no_cards true fs 0)
    ≡ at_host (text "psu")
      ∷ at_host (text "left")
      ∷ at_host (text "left")
      ∷ at_host (text "right")
      ∷ []
unfolding bind_addresses bind_all resolve contains override_for text_beq contact_instruments pool_in
    contact_faces contact_face earlier_face first_face later_face acquire_from_pool acquire
    ask_fixed claimed_by_another serial_of split_at check_all_cards
bound = refl

-- Where the rows of the pooled meters say `Simulated`, the pool is not asked.
passed_over :
    ends_as (
      bind_addresses pool no_sites plan (rig simulated) >>= λ fs.
      contact_instruments identity close_session card_model pool no_cards true fs 0)
    ≡ at_host (text "psu") ∷ simulated ∷ simulated ∷ simulated ∷ []
unfolding bind_addresses bind_all resolve contains override_for text_beq contact_instruments pool_in
    contact_faces contact_face earlier_face first_face later_face acquire_from_pool acquire
    ask_fixed claimed_by_another serial_of split_at check_all_cards
passed_over = refl

preflight-Settled_example :
    Ensures
      (λ (fs, s). All Settled fs)
      (bind_addresses pool no_sites plan bench >>= λ fs.
        contact_instruments identity close_session card_model pool no_cards true fs 0)
preflight-Settled_example =
    preflight-Settled identity close_session card_model pool no_cards no_sites plan bench true 0
