-- ===== src/Preflight/Bindings.antt =====
-- Where `resolve` and `bindAddresses` leave the instruments.
use thorium.Prelude.{
  ◌≡◌, refl, sym, ap, subst, ◌∙◌, ◌⊎◌, inl, inr, Bool, true, false, ◌||◌, Option, none, some, List,
  [], ◌∷◌, Text, text_eq, if◌then◌else◌, Elem, All,
}
use thorium.Topology.Address.{Address, simulated}
use thorium.Topology.Tables.{PoolEntry, SiteEntry, pool_in, contains, site_names_in}
use thorium.Preflight.{
  AddressSource, of_table, of_site, of_pool, of_override, Instrument, Binding, Face, AddressPlan,
  unknown_site, Ended, done, threw, ◌>>=◌, require_accepted, require_all, moved, override_for,
  by_pool, site_value, below_override, resolve, table_binding, placed, bind_all, bind_addresses,
  is_empty_text,
}

-- What holds if no exception is thrown.
abbrev pub Ensures : {A : Type 0} → (A → Type 0) → Ended A → Type 0
Ensures P (done a) = P a
Ensures P (threw e) = Unit

pub Ensures-bind :
    {A B : Type 0} (P : A → Type 0) (Q : B → Type 0) (m : Ended A) (f : A → Ended B)
    → Ensures P m
    → ((a : A) → P a → Ensures Q (f a))
    → Ensures Q (m >>= f)
Ensures-bind P Q (done a) f p k = k a p
Ensures-bind P Q (threw e) f p k = tt

pub Ensures-any : {A : Type 0} (m : Ended A) → Ensures (λ _. Unit) m
Ensures-any (done a) = tt
Ensures-any (threw e) = tt

-- Both ends of a test, each with what the test says.
pub Ensures-if :
    {A : Type 0} (P : A → Type 0) (test : Bool) (first second : Ended A)
    → (test ≡ true → Ensures P first)
    → (test ≡ false → Ensures P second)
    → Ensures P (if test then first else second)
Ensures-if P true first second h k = h refl
Ensures-if P false first second h k = k refl

-- The instrument may be at the address: its row of the table says so, nothing is there, or its back
-- panel has the connector.
abbrev pub MayBeAt : Instrument → Address → Type 0
MayBeAt i value = (value ≡ i.address) ⊎ ((value ≡ simulated) ⊎ (i.allows value ≡ true))

abbrev pub Settled : Face → Type 0
Settled f = (f.driver_address ≡ f.binding.value) × MayBeAt f.instrument f.binding.value

abbrev pub AllAllowed : (Address → Bool) → List Address → Type 0
AllAllowed allows candidates = (a : Address) → Elem a candidates → allows a ≡ true

require_accepted-Ensures :
    (b : Binding) (value : Address)
    → Ensures (λ _. b.allows value ≡ true) (require_accepted b value)
require_accepted-Ensures b value =
    Ensures-if (λ _. b.allows value ≡ true) (b.allows value) _ _ (λ e. e) (λ e. tt)

require_all-Ensures :
    (b : Binding) (candidates : List Address)
    → Ensures (λ _. AllAllowed b.allows candidates) (require_all b candidates)
require_all-Ensures b [] = λ a e. absurd e
require_all-Ensures b (candidate ∷ candidates) =
    Ensures-bind (λ _. b.allows candidate ≡ true)
      (λ _. AllAllowed b.allows (candidate ∷ candidates)) (require_accepted b candidate)
      (λ _. require_all b candidates) (require_accepted-Ensures b candidate)
      (λ _ first. by_rest first (require_all b candidates) (require_all-Ensures b candidates))
  where
    by_rest :
        b.allows candidate ≡ true
        → (end : Ended (Unit {0})) → Ensures (λ _. AllAllowed b.allows candidates) end
        → Ensures (λ _. AllAllowed b.allows (candidate ∷ candidates)) end
    by_rest first (done u) rest =
        λ a e. elim e [ inl here ↦ ap b.allows here ∙ first | inr later ↦ rest a later ]
    by_rest first (threw e) rest = tt

abbrev pub source_by : Option Address → Option Address → List Address → AddressSource
source_by (some _) at_site candidates = of_override
source_by none (some _) candidates = of_site
source_by none none [] = of_table
source_by none none (_ ∷ _) = of_pool

module _ (pool : List PoolEntry) (sites : List SiteEntry) (plan : AddressPlan) where
  -- Where the address of a box comes from.
  abbrev pub source_of : Text → AddressSource
  source_of box =
      source_by (override_for plan.overrides box) (site_value pool sites plan box)
        (pool_in pool box)

  source_of-by :
      (box : Text) (typed at_site : Option Address) (candidates : List Address)
      → override_for plan.overrides box ≡ typed
      → site_value pool sites plan box ≡ at_site
      → pool_in pool box ≡ candidates
      → source_by typed at_site candidates ≡ source_of box
  source_of-by box typed at_site candidates e f g = sym (
      ap (λ o. source_by o (site_value pool sites plan box) (pool_in pool box)) e
      ∙ ap (λ o. source_by typed o (pool_in pool box)) f
      ∙ ap (source_by typed at_site) g)

  -- What the binding of an instrument's box knows, unless nothing is at the address.
  pub record Known (i : Instrument) (box : Text) (source : AddressSource) : Type 0 where
    pub same_source : source ≡ source_of box
    pub candidates : source ≡ of_pool → AllAllowed i.allows (pool_in pool box)

  pub record Bound (i : Instrument) (b : Binding) : Type 0 where
    pub allowed : MayBeAt i b.value
    pub known : (b.value ≡ simulated) ⊎ Known i b.box b.source
    pub unmoved : b.source ≡ of_pool → b.value ≡ i.address

  moved-Bound :
      (i : Instrument) (value : Address) (source : AddressSource)
      → source ≡ source_of i.box
      → (source ≡ of_pool → ⊥)
      → Ensures (Bound i) (moved (table_binding pool sites plan i) value source)
  moved-Bound i value source same no_pool =
      Ensures-bind (λ _. i.allows value ≡ true) (Bound i)
        (require_accepted (table_binding pool sites plan i) value) _
        (require_accepted-Ensures (table_binding pool sites plan i) value)
        (λ _ ok. record {
          allowed = inr (inr ok);
          known = inr (record { same_source = same; candidates = λ e. absurd (no_pool e) });
          unmoved = λ e. absurd (no_pool e);
        })

  by_pool-Bound :
      (i : Instrument) (candidates : List Address)
      → pool_in pool i.box ≡ candidates
      → override_for plan.overrides i.box ≡ none
      → site_value pool sites plan i.box ≡ none
      → Ensures (Bound i) (by_pool pool sites plan candidates (table_binding pool sites plan i))
  by_pool-Bound i [] e f g = record {
    allowed = inl refl;
    known = inr (record {
      same_source = source_of-by i.box none none [] f g e;
      candidates = λ h. absurd cc;
    });
    unmoved = λ h. absurd cc;
  }
  by_pool-Bound i (candidate ∷ candidates) e f g =
      Ensures-bind (λ _. AllAllowed i.allows (candidate ∷ candidates)) (Bound i)
        (require_all (table_binding pool sites plan i) (candidate ∷ candidates)) _
        (require_all-Ensures (table_binding pool sites plan i) (candidate ∷ candidates))
        (λ _ ok. record {
          allowed = inl refl;
          known = inr (record {
            same_source = source_of-by i.box none none (candidate ∷ candidates) f g e;
            candidates = λ h. subst (AllAllowed i.allows) (sym e) ok;
          });
          unmoved = λ h. refl;
        })

  below_override-Bound :
      (i : Instrument) (typed at_site : Option Address)
      → override_for plan.overrides i.box ≡ typed
      → site_value pool sites plan i.box ≡ at_site
      → Ensures
          (Bound i)
          (below_override pool sites plan typed at_site (table_binding pool sites plan i))
  below_override-Bound i (some value) at_site e f =
      moved-Bound i value of_override (source_of-by i.box (some value) at_site _ e f refl)
        (λ h. absurd cc)
  below_override-Bound i none (some value) e f =
      moved-Bound i value of_site (source_of-by i.box none (some value) _ e f refl) (λ h. absurd cc)
  below_override-Bound i none none e f = by_pool-Bound i (pool_in pool i.box) refl e f

  resolve-Bound :
      (i : Instrument)
      → Ensures (Bound i) (resolve pool sites plan (table_binding pool sites plan i))
  unfolding resolve
  resolve-Bound i =
      Ensures-if (Bound i) (contains plan.simulated_faces i.id) _ _
        (λ _. record { allowed = inr (inl refl); known = inl refl; unmoved = λ h. absurd cc })
        (λ _.
          below_override-Bound i (override_for plan.overrides i.box)
            (site_value pool sites plan i.box) refl refl)

  -- A bound instrument, before the contact and after it.
  abbrev pub Ready : Face → Type 0
  Ready f =
      Settled f
      × ((f.binding.value ≡ simulated) ⊎ Known f.instrument f.binding.box f.binding.source)

  placed-Ready :
      (i : Instrument) (b : Binding) (source : AddressSource)
      → b.source ≡ source
      → Bound i b
      → Ready (placed pool sites plan i b source)
  placed-Ready i b of_site e h = ((refl, h.allowed), h.known)
  placed-Ready i b of_table e h = ((refl, h.allowed), h.known)
  placed-Ready i b of_override e h = ((refl, h.allowed), h.known)
  placed-Ready i b of_pool e h = ((sym (h.unmoved e), h.allowed), h.known)

  bind_all-Ready :
      (instruments : List Instrument) → Ensures (All Ready) (bind_all pool sites plan instruments)
  unfolding bind_all
  bind_all-Ready [] = tt
  bind_all-Ready (i ∷ instruments) =
      Ensures-bind (Bound i) (All Ready) (resolve pool sites plan (table_binding pool sites plan i))
        _ (resolve-Bound i)
        (λ b bound.
          Ensures-bind (All Ready) (All Ready) (bind_all pool sites plan instruments) _
            (bind_all-Ready instruments)
            (λ faces ready. (placed-Ready i b b.source refl bound, ready)))

  pub bind_addresses-Ready :
      (instruments : List Instrument)
      → Ensures (All Ready) (bind_addresses pool sites plan instruments)
  unfolding bind_addresses
  bind_addresses-Ready instruments =
      Ensures-if (All Ready) (is_empty_text plan.site || contains (site_names_in sites) plan.site)
        (bind_all pool sites plan instruments) (threw (unknown_site plan.site))
        (λ _. bind_all-Ready instruments) (λ _. tt)
