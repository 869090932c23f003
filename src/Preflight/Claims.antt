-- ===== src/Preflight/Claims.antt =====
-- framework/hal/src/verbs/preflight.cpp: a serial is claimed for one box, which `claimedByAnother` keeps.
use thorium.Prelude.{
  ◌≡◌, ◌≢◌, refl, sym, ap, ◌∙◌, inl, inr, Bool, true, false, not, ◌&&◌, none, some, List, [], ◌∷◌,
  ◌++◌, Text, text_eq, ◌==◌, if◌then◌else◌, Elem, Elem-append_one, Bool-cases, arith,
}
use thorium.Preflight.Contact.{Claim, claim_of_another, claimed_by_another}

claim_of_another-none :
    (claimed : List Claim) (serial box : Text) (c : Claim)
    → claim_of_another claimed serial box ≡ none
    → Elem c claimed
    → c.serial ≡ serial
    → c.box ≡ box
claim_of_another-none [] serial box c e found same = absurd found
claim_of_another-none (d ∷ claimed) serial box c e found same =
    by_test (d.serial == serial && not (d.box == box)) refl e found
      (claim_of_another-none claimed serial box c)
  where
    by_test :
        (taken : Bool)
        → (d.serial == serial && not (d.box == box)) ≡ taken
        → (if taken then some d.box else claim_of_another claimed serial box) ≡ none
        → Elem c (d ∷ claimed)
        → (claim_of_another claimed serial box ≡ none
            → Elem c claimed
            → c.serial ≡ serial
            → c.box ≡ box)
        → c.box ≡ box
    by_test true t e found later = absurd cc
    by_test false t e (inr found) later = later e found same
    by_test false t e (inl it) later =
        let serials : d.serial ≡ serial = ap (λ x. x.serial) (sym it) ∙ same in
        let here : (d.serial == serial) ≡ true = (text_eq.same_iff d.serial serial).1 serials in
        let boxes : d.box ≡ box = elim (Bool-cases (d.box == box)) [
          | inl b ↦ (text_eq.same_iff d.box box).0 b
          | inr b ↦ absurd (ground arith)
        ] in
        ap (λ x. x.box) it ∙ boxes

pub claimed_by_another-none :
    (claimed : List Claim) (serial box : Text) (c : Claim)
    → claimed_by_another claimed serial box ≡ none
    → serial ≢ []
    → Elem c claimed
    → c.serial ≡ serial
    → c.box ≡ box
unfolding claimed_by_another
claimed_by_another-none claimed [] box c e some_serial = absurd (some_serial refl)
claimed_by_another-none claimed (x ∷ serial) box c e some_serial =
    claim_of_another-none claimed (x ∷ serial) box c e

-- A serial is claimed for one box.
unfoldable pub OneBox : List Claim → Type 0
OneBox claimed =
    (c d : Claim)
    → Elem c claimed
    → Elem d claimed
    → c.serial ≡ d.serial
    → c.serial ≢ []
    → c.box ≡ d.box

pub OneBox-claimed :
    (claimed : List Claim) (new : Claim)
    → OneBox claimed
    → claimed_by_another claimed new.serial new.box ≡ none
    → OneBox (claimed ++ new ∷ [])
unfolding OneBox
OneBox-claimed claimed new one free c d c_in d_in same some_serial =
    elim (Elem-append_one c new claimed c_in) [
      | inl c_old ↦ elim (Elem-append_one d new claimed d_in) [
        | inl d_old ↦ one c d c_old d_old same some_serial
        | inr d_new ↦
            let new_serial : c.serial ≡ new.serial = same ∙ ap (λ x. x.serial) d_new in
            claimed_by_another-none claimed new.serial new.box c free
              (λ e. some_serial (new_serial ∙ e)) c_old new_serial
            ∙ ap (λ x. x.box) (sym d_new)
      ]
      | inr c_new ↦ elim (Elem-append_one d new claimed d_in) [
        | inl d_old ↦
            let new_serial : d.serial ≡ new.serial = sym same ∙ ap (λ x. x.serial) c_new in
            ap (λ x. x.box) c_new
            ∙ sym (
                claimed_by_another-none claimed new.serial new.box d free
                  (λ e. some_serial (same ∙ new_serial ∙ e)) d_old new_serial)
        | inr d_new ↦ ap (λ x. x.box) (c_new ∙ sym d_new)
      ]
    ]
