-- ===== src/Preflight/Units.antt =====
-- One unit stands under one box: what a whole preflight says of the serials.
use thorium.Prelude.{ℕ, List, Text, text_eq, All}
use thorium.Topology.Address.{Address}
use thorium.Topology.Tables.{PoolEntry}
use thorium.Preflight.{Face}
use thorium.Preflight.Contact.{Answer, Contacts, CardRow}
use thorium.Preflight.Steps.{OfItsBox, Sound, Grown}

module _ {W : Type 0} (identity : Text → Address → W → Answer × W) (close_session : Text → W → W)
    (card_model : Text → ℕ → W → Answer × W) (pool : List PoolEntry) (cards : List CardRow) where
  record Steps (s : Contacts W) (fs : List Face) (t : Contacts W) : Type 0 where
    sound : Sound t
    grown : Grown s t
    of_their_boxes : All (OfItsBox t.contacted) fs
