-- ===== src/Preflight/Fresh.antt =====
-- What the contact of a box's first face leaves: `acquireFromPool` and the fixed rows.
use thorium.Prelude.{
  ℕ, suc, ◌≡◌, refl, sym, ap, ◌∙◌, inl, inr, Option, none, some, List, [], ◌∷◌, ◌++◌, Text, Elem,
  length,
}
use thorium.Topology.Address.{Address}
use thorium.Topology.Tables.{PoolEntry, pool_in}
use thorium.Preflight.{Face, Ended, done, threw, ◌>>=◌, serial_of}
use thorium.Preflight.Contact.{
  Answer, answered, unreachable, refused, Contacts, Attempt, taken, passed, failed, CardRow,
  claimed_by_another, asked, at_candidate, at_unit, after_identity, attempt, acquire,
  acquire_from_pool, claimed_now, ask_fixed,
}
use thorium.Preflight.Bindings.{Ensures}

-- A unit that no other box has claimed was reached, and claimed for the box.
pub record Fresh {W : Type 0} (f : Face) (s : Contacts W) (f' : Face) (s' : Contacts W)
    : Type 0 where
  pub driver : f'.driver_address ≡ f'.binding.value
  pub same_instrument : f'.instrument ≡ f.instrument
  pub same_box : f'.binding.box ≡ f.binding.box
  pub same_contacted : s'.contacted ≡ s.contacted
  pub claims :
      s'.claimed
      ≡ s.claimed ++ record { serial = serial_of f'.binding.identity; box = f.binding.box } ∷ []
  pub free : claimed_by_another s.claimed (serial_of f'.binding.identity) f.binding.box ≡ none

-- The same claims and contacts.
abbrev Alike : {W : Type 0} → Contacts W → Contacts W → Type 0
Alike s t = (t.claimed ≡ s.claimed) × (t.contacted ≡ s.contacted)

module _ {W : Type 0} (identity : Text → Address → W → Answer × W) (close_session : Text → W → W)
    (card_model : Text → ℕ → W → Answer × W) (pool : List PoolEntry) (cards : List CardRow) where
  abbrev Goal : List Address → Face → Contacts W → Face × Contacts W → Type 0
  Goal candidates face s (f', s') = Fresh face s f' s' × Elem f'.binding.value candidates

  abbrev AttemptGoal : Address → Face → Contacts W → Attempt W → Type 0
  AttemptGoal candidate face s (taken r) = Goal (candidate ∷ []) face s r
  AttemptGoal candidate face s (passed t) = Alike s t
  AttemptGoal candidate face s (failed e) = Unit

  after_identity-Goal :
      (candidate : Address) (position total : ℕ) (face : Face) (s : Contacts W) (w : W)
      (end : Answer)
      → AttemptGoal candidate face s (
          after_identity identity close_session card_model pool cards candidate position total face
            (record s { world = w })
            end)
  after_identity-Goal candidate position total face s w (answered t) =
      by_claim (claimed_by_another s.claimed (serial_of t) face.binding.box) refl
    where
      by_claim :
          (other : Option Text)
          → claimed_by_another s.claimed (serial_of t) face.binding.box ≡ other
          → AttemptGoal candidate face s (
              at_unit identity close_session card_model pool cards candidate position total face
                (record s { world = w })
                t
                other)
      by_claim (some other) e = (refl, refl)
      by_claim none e = (
        record {
          driver = refl;
          same_instrument = refl;
          same_box = refl;
          same_contacted = refl;
          claims = refl;
          free = e;
        },
        inl refl,
      )
  after_identity-Goal candidate position total face s w (unreachable t) = (refl, refl)
  after_identity-Goal candidate position total face s w (refused t) = tt

  -- A candidate passed over leaves the claims as they were.
  passed_over-Goal :
      (candidate : Address) (candidates : List Address) (face : Face) (s t : Contacts W)
      (end : Ended (Face × Contacts W))
      → Alike s t
      → Ensures
          (Goal candidates
            (at_candidate identity close_session card_model pool cards candidate face)
            t)
          end
      → Ensures (Goal (candidate ∷ candidates) face s) end
  passed_over-Goal candidate candidates face s t (done (f', s')) (e0, e1) (h, found) = (
    record {
      driver = h.driver;
      same_instrument = h.same_instrument;
      same_box = h.same_box;
      same_contacted = h.same_contacted ∙ e1;
      claims =
          h.claims
          ∙ ap
              (λ xs.
                xs
                ++ record { serial = serial_of f'.binding.identity; box = face.binding.box } ∷ [])
              e0;
      free =
          ap (λ xs. claimed_by_another xs (serial_of f'.binding.identity) face.binding.box) (sym e0)
          ∙ h.free;
    },
    inr found,
  )
  passed_over-Goal candidate candidates face s t (threw e) alike h = tt

  acquire-Goal :
      (candidates : List Address) (tried total : ℕ) (face : Face) (s : Contacts W)
      → Ensures
          (Goal candidates face s)
          (acquire identity close_session card_model pool cards candidates tried total face s)
  unfolding acquire
  acquire-Goal [] tried total face s = tt
  acquire-Goal (candidate ∷ candidates) tried total face s =
      by_attempt
        (attempt identity close_session card_model pool cards candidate (suc tried) total face s)
        (after_identity-Goal candidate (suc tried) total face s _ _)
        (λ t.
          acquire-Goal candidates (suc tried) total
            (at_candidate identity close_session card_model pool cards candidate face) t)
    where
      by_attempt :
          (a : Attempt W)
          → AttemptGoal candidate face s a
          → ((t : Contacts W)
              → Ensures
                  (Goal candidates
                    (at_candidate identity close_session card_model pool cards candidate face)
                    t)
                  (acquire identity close_session card_model pool cards candidates
                    (suc tried)
                    total
                    (at_candidate identity close_session card_model pool cards candidate face)
                    t))
          → Ensures (Goal (candidate ∷ candidates) face s) (elim a [
            | taken r ↦ done r
            | passed t ↦
                acquire identity close_session card_model pool cards candidates
                  (suc tried)
                  total
                  (at_candidate identity close_session card_model pool cards candidate face)
                  t
            | failed e ↦ threw e
          ])
      by_attempt (taken (f', s')) (h, inl e) rest = (h, inl e)
      by_attempt (taken (f', s')) (h, inr e) rest = absurd e
      by_attempt (passed t) alike rest =
          passed_over-Goal candidate candidates face s t _ alike (rest t)
      by_attempt (failed e) h rest = tt

  pub acquire_from_pool-Fresh :
      (face : Face) (s : Contacts W)
      → Ensures
          (λ (f', s'). Fresh face s f' s' × Elem f'.binding.value (pool_in pool face.binding.box))
          (acquire_from_pool identity close_session card_model pool cards face s)
  unfolding acquire_from_pool
  acquire_from_pool-Fresh face s =
      acquire-Goal (pool_in pool face.binding.box) 0 (length (pool_in pool face.binding.box)) face s

  pub ask_fixed-Fresh :
      (face : Face) (s : Contacts W)
      → face.driver_address ≡ face.binding.value
      → Ensures
          (λ (f', s'). Fresh face s f' s' × (f'.binding.value ≡ face.binding.value))
          (ask_fixed identity close_session card_model pool cards face s)
  unfolding ask_fixed
  ask_fixed-Fresh face s placed =
      let (end, w) = identity face.instrument.id face.driver_address s.world in by_end end w
    where
      by_claim :
          (t : Text) (w : W) (other : Option Text)
          → claimed_by_another s.claimed (serial_of t) face.binding.box ≡ other
          → Ensures
              (λ (f', s'). Fresh face s f' s' × (f'.binding.value ≡ face.binding.value))
              (claimed_now identity close_session card_model pool cards face t other
                (record s { world = w }))
      by_claim t w (some other) e = tt
      by_claim t w none e = (
        record {
          driver = placed;
          same_instrument = refl;
          same_box = refl;
          same_contacted = refl;
          claims = refl;
          free = e;
        },
        refl,
      )

      by_end :
          (end : Answer) (w : W)
          → Ensures
              (λ (f', s'). Fresh face s f' s' × (f'.binding.value ≡ face.binding.value))
              (asked identity close_session card_model pool cards (end, w) >>= λ (t, w').
                claimed_now identity close_session card_model pool cards face t
                  (claimed_by_another s.claimed (serial_of t) face.binding.box)
                  (record s { world = w' }))
      by_end (answered t) w =
          by_claim t w (claimed_by_another s.claimed (serial_of t) face.binding.box) refl
      by_end (unreachable t) w = tt
      by_end (refused t) w = tt

  pub asked-Ensures :
      {B : Type 0} (Q : B → Type 0) (r : Answer × W) (f : Text × W → Ended B)
      → ((t : Text) (w : W) → Ensures Q (f (t, w)))
      → Ensures Q (asked identity close_session card_model pool cards r >>= f)
  asked-Ensures Q (answered t, w) f h = h t w
  asked-Ensures Q (unreachable t, w) f h = tt
  asked-Ensures Q (refused t, w) f h = tt
