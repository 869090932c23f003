-- ===== src/Preflight/Steps.antt =====
-- What the contact of one instrument keeps of the claims.
use thorium.Prelude.{
  ℕ, ◌≡◌, ◌≢◌, refl, sym, subst, ◌∙◌, inl, inr, Bool, true, false, not, ◌||◌, Option, none, some,
  List, [], ◌∷◌, Text, text_eq, if◌then◌else◌, Elem, Elem-append_one, Elem-old, Elem-new, arith,
}
use thorium.Topology.Address.{Address, is_simulated}
use thorium.Topology.Tables.{PoolEntry}
use thorium.Preflight.{Face, done, threw, two_units, ◌>>=◌, serial_of}
use thorium.Preflight.Contact.{
  Claim, Contacted, Answer, Contacts, CardRow, earlier_face, is_pool, disagree, acquire_from_pool,
  ask_fixed, identified, recorded, first_face, joined, same_unit, later_face, contact_face,
}
use thorium.Preflight.Bindings.{Ensures, Ensures-bind, Ensures-if}
use thorium.Preflight.Fresh.{Fresh, asked-Ensures, acquire_from_pool-Fresh, ask_fixed-Fresh}
use thorium.Preflight.Reached.{earlier_face-found}
use thorium.Preflight.Claims.{OneBox, OneBox-claimed}

disagree-same : (serial : Text) → disagree serial serial ≡ false
disagree-same [] = refl
disagree-same (x ∷ serial) = ground (arith, text_eq.same_iff (x ∷ serial) (x ∷ serial))

abbrev pub claim_of : Contacted → Claim
claim_of c = record { serial = c.serial; box = c.box }

-- Where two boxes were contacted and answered with one serial, they are one box.
abbrev pub OneUnit : List Contacted → Type 0
OneUnit contacted =
    (c d : Contacted)
    → Elem c contacted
    → Elem d contacted
    → c.serial ≡ d.serial
    → c.serial ≢ []
    → c.box ≡ d.box

-- The instrument's box was contacted, and the serials of the two do not differ where both are known.
abbrev pub OfItsBox : List Contacted → Face → Type 0
OfItsBox contacted f =
    f.binding.can_contact ≡ true
    → is_simulated f.binding.value ≡ false
    → (c : Contacted) × Elem c contacted
      × (c.box ≡ f.binding.box)
      × (disagree (serial_of f.binding.identity) c.serial ≡ false)

module _ {W : Type 0} where
  pub record Sound (s : Contacts W) : Type 0 where
    pub one_box : OneBox s.claimed
    pub claimed : (c : Contacted) → Elem c s.contacted → Elem (claim_of c) s.claimed

  abbrev pub Grown : Contacts W → Contacts W → Type 0
  Grown s t = (c : Contacted) → Elem c s.contacted → Elem c t.contacted

  pub record Step (s : Contacts W) (f : Face) (t : Contacts W) : Type 0 where
    pub sound : Sound t
    pub grown : Grown s t
    pub of_its_box : OfItsBox t.contacted f

module _ {W : Type 0} (identity : Text → Address → W → Answer × W) (close_session : Text → W → W)
    (card_model : Text → ℕ → W → Answer × W) (pool : List PoolEntry) (cards : List CardRow) where
  abbrev recorded_here : Face × Contacts W → Face × Contacts W
  recorded_here r = recorded identity close_session card_model pool cards r

  recorded-Step :
      (f f' : Face) (s s' : Contacts W)
      → Sound s
      → Fresh f s f' s'
      → let (g, t) = recorded_here (f', s') in Step s g t
  recorded-Step f f' s s' sound fresh = record {
    sound = record {
      one_box = subst OneBox (sym fresh.claims) (
          OneBox-claimed s.claimed
            (record { serial = serial_of f'.binding.identity; box = f.binding.box }) sound.one_box
            fresh.free);
      claimed = λ c found. elim (Elem-append_one c _ s'.contacted found) [
        | inl old ↦ subst (Elem (claim_of c)) (sym fresh.claims) (
            Elem-old (claim_of c) _ s.claimed
              (sound.claimed c (subst (Elem c) fresh.same_contacted old)))
        | inr e ↦
            subst (λ d. Elem (claim_of d) s'.claimed) (sym e)
              (subst
                (λ b. Elem (record { serial = serial_of f'.binding.identity; box = b }) s'.claimed)
                (sym fresh.same_box)
                (subst
                  (Elem (record { serial = serial_of f'.binding.identity; box = f.binding.box }))
                  (sym fresh.claims) (Elem-new _ s.claimed)))
      ];
    };
    grown = λ c found. Elem-old c _ s'.contacted (subst (Elem c) (sym fresh.same_contacted) found);
    of_its_box =
        λ _ _. (_, Elem-new _ s'.contacted, refl, disagree-same (serial_of f'.binding.identity));
  }

  first_face-Step :
      (f : Face) (s : Contacts W)
      → f.driver_address ≡ f.binding.value
      → Sound s
      → Ensures (λ (g, t). Step s g t) (first_face identity close_session card_model pool cards f s)
  unfolding first_face
  first_face-Step f s placed sound = by_source (is_pool f.binding.source)
    where
      by_source :
          (pooled : Bool)
          → Ensures
              (λ (g, t). Step s g t)
              ((if pooled
                  then acquire_from_pool identity close_session card_model pool cards f s
                  else ask_fixed identity close_session card_model pool cards f s)
                >>= λ r. done (recorded_here r))
      by_source true =
          Ensures-bind (λ (f', s'). Fresh f s f' s' × _) (λ (g, t). Step s g t)
            (acquire_from_pool identity close_session card_model pool cards f s)
            (λ r. done (recorded_here r))
            (acquire_from_pool-Fresh identity close_session card_model pool cards f s)
            (λ (f', s') (fresh, _). recorded-Step f f' s s' sound fresh)
      by_source false =
          Ensures-bind (λ (f', s'). Fresh f s f' s' × _) (λ (g, t). Step s g t)
            (ask_fixed identity close_session card_model pool cards f s)
            (λ r. done (recorded_here r))
            (ask_fixed-Fresh identity close_session card_model pool cards f s placed)
            (λ (f', s') (fresh, _). recorded-Step f f' s s' sound fresh)

  joined_box :
      (c : Contacted) (f : Face)
      → (joined identity close_session card_model pool cards c f).binding.box ≡ f.binding.box
  joined_box c f = by_source (is_pool f.binding.source)
    where
      by_source :
          (pooled : Bool)
          → (if pooled
              then record f {
                driver_address = c.value;
                binding = record f.binding { value = c.value; pool_position = c.pool_position };
              }
              else f).binding.box
            ≡ f.binding.box
      by_source true = refl
      by_source false = refl

  later_face-Step :
      (c : Contacted) (f : Face) (s : Contacts W)
      → Sound s
      → Elem c s.contacted
      → c.box ≡ f.binding.box
      → Ensures
          (λ (g, t). Step s g t)
          (later_face identity close_session card_model pool cards c f s)
  unfolding later_face
  later_face-Step c f s sound found same =
      asked-Ensures identity close_session card_model pool cards (λ (g, t). Step s g t)
        (identity f.instrument.id
          (joined identity close_session card_model pool cards c f).driver_address s.world)
        (same_unit identity close_session card_model pool cards c f s)
        (λ t w.
          Ensures-if (λ (g, u). Step s g u) (disagree (serial_of t) c.serial)
            (threw (two_units f.binding.id (serial_of t) c.serial))
            (done (
              identified identity close_session card_model pool cards t
                  (joined identity close_session card_model pool cards c f),
              record s { world = w },
            ))
            (λ _. tt)
            (λ agree. record {
              sound = record { one_box = sound.one_box; claimed = sound.claimed };
              grown = λ d e. e;
              of_its_box = λ _ _. (c, found, same ∙ sym (joined_box c f), agree);
            }))

  pub contact_face-Step :
      (f : Face) (s : Contacts W)
      → f.driver_address ≡ f.binding.value
      → Sound s
      → Ensures
          (λ (g, t). Step s g t)
          (contact_face identity close_session card_model pool cards f s)
  unfolding contact_face
  contact_face-Step f s placed sound =
      Ensures-if (λ (g, t). Step s g t) (not f.binding.can_contact || is_simulated f.binding.value)
        (done (f, s)) _
        (λ e. record {
          sound = sound;
          grown = λ c found. found;
          of_its_box = λ can real. absurd (ground arith);
        })
        (λ _. by_earlier (earlier_face s.contacted f.binding.box) refl)
    where
      by_earlier :
          (earlier : Option Contacted)
          → earlier_face s.contacted f.binding.box ≡ earlier
          → Ensures
              (λ (g, t). Step s g t)
              (elim earlier [
                | some c ↦ later_face identity close_session card_model pool cards c f s
                | none ↦ first_face identity close_session card_model pool cards f s
              ])
      by_earlier none e = first_face-Step f s placed sound
      by_earlier (some c) e =
          let (found, same) = earlier_face-found s.contacted f.binding.box c e in
          later_face-Step c f s sound found same
