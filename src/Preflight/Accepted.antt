-- ===== src/Preflight/Accepted.antt =====
-- No instrument ends the preflight at an address that its back panel does not have.
use thorium.Prelude.{
  ℕ, ◌≡◌, refl, sym, ap, subst, ◌∙◌, inl, inr, Bool, true, false, not, ◌||◌, Option, none, some,
  List, [], ◌∷◌, Text, text_eq, if◌then◌else◌, Elem, All, arith,
}
use thorium.Topology.Address.{Address, is_simulated}
use thorium.Topology.Tables.{PoolEntry, SiteEntry, pool_in}
use thorium.Preflight.{
  Instrument, Face, AddressPlan, done, threw, two_units, ◌>>=◌, serial_of, bind_addresses,
}
use thorium.Preflight.Contact.{
  Contacted, Answer, Contacts, CardRow, earlier_face, is_pool, disagree, identified, first_face,
  joined, same_unit, later_face, contact_face, contact_faces, check_all_cards, no_contacts,
  contact_instruments,
}
use thorium.Preflight.Bindings.{
  Ensures, Ensures-bind, Ensures-any, Ensures-if, Settled, source_of, Known, Ready,
  bind_addresses-Ready,
}
use thorium.Preflight.Fresh.{asked-Ensures}
use thorium.Preflight.Reached.{Reached, Kept, is_pool-source, earlier_face-found, first_face-Kept}

module _ {W : Type 0} (identity : Text → Address → W → Answer × W) (close_session : Text → W → W)
    (card_model : Text → ℕ → W → Answer × W) (pool : List PoolEntry) (cards : List CardRow)
    (sites : List SiteEntry) (plan : AddressPlan) where
  joined-Settled :
      (c : Contacted) (f : Face) (s : Contacts W)
      → Settled f
      → Known pool sites plan f.instrument f.binding.box f.binding.source
      → Reached pool sites plan s
      → Elem c s.contacted
      → c.box ≡ f.binding.box
      → Settled (joined identity close_session card_model pool cards c f)
  unfolding Reached
  joined-Settled c f s settled known reached found same = by_source (is_pool f.binding.source) refl
    where
      by_source :
          (pooled : Bool)
          → is_pool f.binding.source ≡ pooled
          → Settled (
              if pooled
              then record f {
                driver_address = c.value;
                binding = record f.binding { value = c.value; pool_position = c.pool_position };
              }
              else f)
      by_source false e = settled
      by_source true e =
          let pooled = is_pool-source f.binding.source e in
          (
            refl,
            inr (
                inr (
                  known.candidates pooled c.value (
                    subst (λ b. Elem c.value (pool_in pool b)) same
                      (reached c found
                        (ap (source_of pool sites plan) same ∙ sym known.same_source ∙ pooled))))),
          )

  later_face-Kept :
      (c : Contacted) (f : Face) (s : Contacts W)
      → Settled (joined identity close_session card_model pool cards c f)
      → Reached pool sites plan s
      → Ensures
          (Kept pool sites plan)
          (later_face identity close_session card_model pool cards c f s)
  unfolding later_face Reached
  later_face-Kept c f s settled reached =
      asked-Ensures identity close_session card_model pool cards (Kept pool sites plan)
        (identity f.instrument.id
          (joined identity close_session card_model pool cards c f).driver_address s.world)
        (same_unit identity close_session card_model pool cards c f s)
        (λ t w.
          Ensures-if (Kept pool sites plan) (disagree (serial_of t) c.serial)
            (threw (two_units f.binding.id (serial_of t) c.serial))
            (done (
              identified identity close_session card_model pool cards t
                  (joined identity close_session card_model pool cards c f),
              record s { world = w },
            ))
            (λ _. tt) (λ _. (settled, reached)))

  contact_face-Kept :
      (f : Face) (s : Contacts W)
      → Ready pool sites plan f
      → Reached pool sites plan s
      → Ensures
          (Kept pool sites plan)
          (contact_face identity close_session card_model pool cards f s)
  unfolding contact_face
  contact_face-Kept f s (settled, known) reached =
      Ensures-if (Kept pool sites plan) (not f.binding.can_contact || is_simulated f.binding.value)
        _ _ (λ _. (settled, reached))
        (λ e. elim known [
          | inl nothing_there ↦
              let wrong : is_simulated f.binding.value ≡ true = ap is_simulated nothing_there in
              absurd (ground arith)
          | inr k ↦ by_earlier k (earlier_face s.contacted f.binding.box) refl
        ])
    where
      by_earlier :
          Known pool sites plan f.instrument f.binding.box f.binding.source
          → (earlier : Option Contacted) → earlier_face s.contacted f.binding.box ≡ earlier
          → Ensures (Kept pool sites plan) (elim earlier [
            | some c ↦ later_face identity close_session card_model pool cards c f s
            | none ↦ first_face identity close_session card_model pool cards f s
          ])
      by_earlier k none e =
          first_face-Kept identity close_session card_model pool cards sites plan f s settled k
            reached
      by_earlier k (some c) e =
          let (found, same) = earlier_face-found s.contacted f.binding.box c e in
          later_face-Kept c f s (joined-Settled c f s settled k reached found same) reached

  AllKept : List Face × Contacts W → Type 0
  AllKept (fs, s) = All Settled fs × Reached pool sites plan s

  contact_faces-Kept :
      (fs : List Face) (s : Contacts W)
      → All (Ready pool sites plan) fs
      → Reached pool sites plan s
      → Ensures AllKept (contact_faces identity close_session card_model pool cards fs s)
  unfolding contact_faces AllKept
  contact_faces-Kept [] s ready reached = (tt, reached)
  contact_faces-Kept (f ∷ fs) s (first, ready) reached =
      Ensures-bind (Kept pool sites plan) AllKept
        (contact_face identity close_session card_model pool cards f s) _
        (contact_face-Kept f s first reached)
        (λ (f', s') (settled, reached').
          Ensures-bind AllKept AllKept
            (contact_faces identity close_session card_model pool cards fs s') _
            (contact_faces-Kept fs s' ready reached')
            (λ (fs', s'') (all_settled, reached''). ((settled, all_settled), reached'')))

  Ready-Settled : (fs : List Face) → All (Ready pool sites plan) fs → All Settled fs
  Ready-Settled [] ready = tt
  Ready-Settled (f ∷ fs) ((settled, _), ready) = (settled, Ready-Settled fs ready)

  contact_instruments-Settled :
      (attached : Bool) (fs : List Face) (w : W)
      → All (Ready pool sites plan) fs
      → Ensures
          (λ (fs', s). All Settled fs')
          (contact_instruments identity close_session card_model pool cards attached fs w)
  unfolding contact_instruments Reached AllKept
  contact_instruments-Settled false fs w ready = Ready-Settled fs ready
  contact_instruments-Settled true fs w ready =
      Ensures-bind AllKept (λ (fs', s). All Settled fs')
        (contact_faces identity close_session card_model pool cards fs
          (no_contacts identity close_session card_model pool cards w))
        _ (contact_faces-Kept fs _ ready (λ c found. absurd found))
        (λ (fs', s) (settled, _).
          Ensures-bind (λ _. Unit) (λ (fs'', s'). All Settled fs'')
            (check_all_cards identity close_session card_model pool cards fs' s.world) _
            (Ensures-any _) (λ w' _. settled))

  -- Whatever the instruments answer, attached or detached: if the binding of the addresses and the
  -- contact end without an exception, every driver holds the address that its binding says, and that
  -- address is the one of the instrument's own row, or no instrument at all, or one that the
  -- instrument's back panel has the connector for.
  pub preflight-Settled :
      (instruments : List Instrument) (attached : Bool) (w : W)
      → Ensures
          (λ (fs, s). All Settled fs)
          (bind_addresses pool sites plan instruments >>= λ fs.
            contact_instruments identity close_session card_model pool cards attached fs w)
  preflight-Settled instruments attached w =
      Ensures-bind (All (Ready pool sites plan)) (λ (fs, s). All Settled fs)
        (bind_addresses pool sites plan instruments) _
        (bind_addresses-Ready pool sites plan instruments)
        (λ fs ready. contact_instruments-Settled attached fs w ready)
