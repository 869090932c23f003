-- ===== src/Preflight/Reached.antt =====
-- The contact of a box's first face keeps the instruments at addresses that they may be at.
use thorium.Prelude.{
  ℕ, ◌≡◌, refl, sym, ap, subst, ◌∙◌, inl, inr, Bool, true, false, some, List, [], ◌∷◌, Text,
  text_eq, ◌==◌, if◌then◌else◌, Elem, Elem-append_one,
}
use thorium.Topology.Address.{Address}
use thorium.Topology.Tables.{PoolEntry, SiteEntry, pool_in}
use thorium.Preflight.{
  AddressSource, of_table, of_site, of_pool, of_override, Face, AddressPlan, done, ◌>>=◌,
}
use thorium.Preflight.Contact.{
  Contacted, Answer, Contacts, CardRow, earlier_face, is_pool, acquire_from_pool, ask_fixed,
  recorded, first_face,
}
use thorium.Preflight.Bindings.{Ensures, Ensures-bind, MayBeAt, Settled, source_of, Known}
use thorium.Preflight.Fresh.{Fresh, acquire_from_pool-Fresh, ask_fixed-Fresh}

pub is_pool-source : (source : AddressSource) → is_pool source ≡ true → source ≡ of_pool
is_pool-source of_pool e = refl
is_pool-source of_table e = absurd cc
is_pool-source of_site e = absurd cc
is_pool-source of_override e = absurd cc

pub earlier_face-found :
    (contacted : List Contacted) (box : Text) (c : Contacted)
    → earlier_face contacted box ≡ some c
    → Elem c contacted × (c.box ≡ box)
unfolding earlier_face
earlier_face-found [] box c e = absurd cc
earlier_face-found (d ∷ contacted) box c e =
    by_test (d.box == box) refl e (λ later. earlier_face-found contacted box c later)
  where
    by_test :
        (here : Bool)
        → (d.box == box) ≡ here
        → (if here then some d else earlier_face contacted box) ≡ some c
        → (earlier_face contacted box ≡ some c → Elem c contacted × (c.box ≡ box))
        → Elem c (d ∷ contacted) × (c.box ≡ box)
    by_test true same e later =
        let it : d ≡ c = cc in
        (inl (sym it), ap (λ x. x.box) (sym it) ∙ (text_eq.same_iff d.box box).0 same)
    by_test false other e later = let (found, same) = later e in (inr found, same)

module _ {W : Type 0} (pool : List PoolEntry) (sites : List SiteEntry) (plan : AddressPlan) where
  -- A box whose address comes from a pool was contacted at a candidate of its pool.
  unfoldable pub Reached : Contacts W → Type 0
  Reached s =
      (c : Contacted)
      → Elem c s.contacted
      → source_of pool sites plan c.box ≡ of_pool
      → Elem c.value (pool_in pool c.box)

  abbrev pub Kept : Face × Contacts W → Type 0
  Kept (f, s) = Settled f × Reached s

module _ {W : Type 0} (identity : Text → Address → W → Answer × W) (close_session : Text → W → W)
    (card_model : Text → ℕ → W → Answer × W) (pool : List PoolEntry) (cards : List CardRow)
    (sites : List SiteEntry) (plan : AddressPlan) where
  abbrev recorded_here : Face × Contacts W → Face × Contacts W
  recorded_here r = recorded identity close_session card_model pool cards r

  recorded-Reached :
      (f : Face) (s t : Contacts W)
      → t.contacted ≡ s.contacted
      → (source_of pool sites plan f.binding.box ≡ of_pool
          → Elem f.binding.value (pool_in pool f.binding.box))
      → Reached pool sites plan s
      → Reached pool sites plan (recorded_here (f, t)).1
  unfolding Reached
  recorded-Reached f s t same new old c found from_pool =
      elim (Elem-append_one c _ t.contacted found) [
        | inl before ↦ old c (subst (Elem c) same before) from_pool
        | inr e ↦
            subst (λ d. Elem d.value (pool_in pool d.box)) (sym e)
              (new (ap (λ d. source_of pool sites plan d.box) (sym e) ∙ from_pool))
      ]

  acquired-Kept :
      (f : Face) (s : Contacts W)
      → f.binding.source ≡ of_pool
      → Known pool sites plan f.instrument f.binding.box f.binding.source
      → Reached pool sites plan s
      → Ensures (Kept pool sites plan) (
          acquire_from_pool identity close_session card_model pool cards f s >>= λ r.
          done (recorded_here r))
  acquired-Kept f s e known reached =
      Ensures-bind
        (λ (f', s'). Fresh f s f' s' × Elem f'.binding.value (pool_in pool f.binding.box))
        (Kept pool sites plan) (acquire_from_pool identity close_session card_model pool cards f s)
        _ (acquire_from_pool-Fresh identity close_session card_model pool cards f s)
        (λ (f', s') (fresh, found). (
          (
            fresh.driver,
            subst (λ i. MayBeAt i f'.binding.value) (sym fresh.same_instrument)
                (inr (inr (known.candidates e f'.binding.value found))),
          ),
          recorded-Reached f' s s' fresh.same_contacted
              (λ _. subst (λ b. Elem f'.binding.value (pool_in pool b)) (sym fresh.same_box) found)
              reached,
        ))

  fixed-Kept :
      (f : Face) (s : Contacts W)
      → (f.binding.source ≡ of_pool → ⊥)
      → Settled f
      → Known pool sites plan f.instrument f.binding.box f.binding.source
      → Reached pool sites plan s
      → Ensures (Kept pool sites plan) (
          ask_fixed identity close_session card_model pool cards f s >>= λ r.
          done (recorded_here r))
  fixed-Kept f s no_pool (placed, allowed) known reached =
      Ensures-bind (λ (f', s'). Fresh f s f' s' × (f'.binding.value ≡ f.binding.value))
        (Kept pool sites plan) (ask_fixed identity close_session card_model pool cards f s) _
        (ask_fixed-Fresh identity close_session card_model pool cards f s placed)
        (λ (f', s') (fresh, same). (
          (
            fresh.driver,
            subst (λ i. MayBeAt i f'.binding.value) (sym fresh.same_instrument)
                (subst (MayBeAt f.instrument) (sym same) allowed),
          ),
          recorded-Reached f' s s' fresh.same_contacted
              (λ e. absurd (
                no_pool
                  (known.same_source ∙ ap (source_of pool sites plan) (sym fresh.same_box) ∙ e)))
              reached,
        ))

  pub first_face-Kept :
      (f : Face) (s : Contacts W)
      → Settled f
      → Known pool sites plan f.instrument f.binding.box f.binding.source
      → Reached pool sites plan s
      → Ensures (Kept pool sites plan) (first_face identity close_session card_model pool cards f s)
  unfolding first_face
  first_face-Kept f s settled known reached = by_source (is_pool f.binding.source) refl
    where
      by_source :
          (pooled : Bool)
          → is_pool f.binding.source ≡ pooled
          → Ensures (Kept pool sites plan) (
              (if pooled
                then acquire_from_pool identity close_session card_model pool cards f s
                else ask_fixed identity close_session card_model pool cards f s)
              >>= λ r. done (recorded_here r))
      by_source true e = acquired-Kept f s (is_pool-source f.binding.source e) known reached
      by_source false e =
          fixed-Kept f s (λ h. let wrong : true ≡ false = sym (ap is_pool h) ∙ e in absurd cc)
            settled known reached
