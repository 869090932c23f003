-- ===== src/Fabric/Bench.antt =====
-- The relays on the bench against the fabric's counts, for a driver that does what it reports.
use thorium.Prelude.{
  ℕ, ◌+◌, ◌-◌, ◌≡◌, refl, sym, subst, Bool, true, false, List, Option, none, some, String, arith,
  if◌then◌else◌, ◌==◌, ltb,
}
use thorium.Prelude.Dict.{lookup, insert, erase, lookup-insert, lookup-erase}
use thorium.Fabric.Elements.{SwitchElementId, element_eq}
use thorium.Fabric.{
  Outcome, returned, threw, SwitchDriver, SwitchFabric, close, close_found, first_use, drive_close,
  drive_open, last_release, open_element, open_found, is_closed, RouteCall, run,
}
use thorium.Fabric.History.{run-keeps}

abbrev pub has_thrown : Outcome → Bool
has_thrown returned = false
has_thrown (threw e) = true

module _ {B : Type 0} where
  -- A close that returns leaves its relay closed, and an open that returns leaves it open; one that
  -- throws leaves it either way. No other relay moves. `failed` tells whether the last call for a
  -- relay threw.
  pub record Obeys (d : SwitchDriver B) (relay failed : B → SwitchElementId → Bool) : Type 0 where
    pub close_sets :
        (id : SwitchElementId) (b : B) (j : SwitchElementId)
        → (d.close id b).0 ≡ returned
        → relay (d.close id b).1 j ≡ (if id == j then true else relay b j)
    pub close_others :
        (id : SwitchElementId) (b : B) (e : String) (j : SwitchElementId)
        → (d.close id b).0 ≡ threw e
        → (id == j) ≡ false
        → relay (d.close id b).1 j ≡ relay b j
    pub close_logs :
        (id : SwitchElementId) (b : B) (j : SwitchElementId)
        → failed (d.close id b).1 j ≡ (if id == j then has_thrown (d.close id b).0 else failed b j)
    pub open_clears :
        (id : SwitchElementId) (b : B) (j : SwitchElementId)
        → (d.open_relay id b).0 ≡ returned
        → relay (d.open_relay id b).1 j ≡ (if id == j then false else relay b j)
    pub open_others :
        (id : SwitchElementId) (b : B) (e : String) (j : SwitchElementId)
        → (d.open_relay id b).0 ≡ threw e
        → (id == j) ≡ false
        → relay (d.open_relay id b).1 j ≡ relay b j
    pub open_logs :
        (id : SwitchElementId) (b : B) (j : SwitchElementId)
        → failed (d.open_relay id b).1 j
          ≡ (if id == j then has_thrown (d.open_relay id b).0 else failed b j)

  -- The fabric has this driver; a relay whose last call threw is not on the books; and each other
  -- relay is closed on the bench exactly when it is on the books.
  pub record InStep (d : SwitchDriver B) (relay failed : B → SwitchElementId → Bool)
      (f : SwitchFabric B) : Type 0 where
    pub driven : f.driver ≡ some d
    pub off_books : (j : SwitchElementId) → failed f.bench j ≡ true → is_closed j f ≡ false
    pub agrees : (j : SwitchElementId) → failed f.bench j ≡ false → relay f.bench j ≡ is_closed j f

module _ {B : Type 0} (d : SwitchDriver B) (relay failed : B → SwitchElementId → Bool)
    (obeys : Obeys d relay failed) where
  first_use-InStep :
      (id : SwitchElementId) (f : SwitchFabric B) (p : Outcome × B)
      → d.close id f.bench ≡ p
      → lookup id f.use_count ≡ none
      → InStep d relay failed f
      → InStep d relay failed (first_use id f p).1
  unfolding is_closed
  first_use-InStep id f (returned, b) done e s = record {
    driven = s.driven;
    off_books = λ j h. ground (
      arith,
      s.off_books j,
      element_eq.same_iff id j,
      lookup-insert id j 1 f.use_count,
      obeys.close_logs id f.bench j,
    );
    agrees = λ j h. ground (
      arith,
      s.agrees j,
      element_eq.same_iff id j,
      lookup-insert id j 1 f.use_count,
      obeys.close_sets id f.bench j,
      obeys.close_logs id f.bench j,
    );
  }
  first_use-InStep id f (threw x, b) done e s = record {
    driven = s.driven;
    off_books = λ j h.
        ground (arith, s.off_books j, element_eq.same_iff id j, obeys.close_logs id f.bench j);
    agrees = λ j h.
        ground
          (arith, s.agrees j, obeys.close_others id f.bench x j, obeys.close_logs id f.bench j);
  }

  last_release-InStep :
      (id : SwitchElementId) (f : SwitchFabric B) (p : Outcome × B)
      → d.open_relay id f.bench ≡ p
      → InStep d relay failed f
      → InStep d relay failed (record f { use_count = erase id f.use_count; bench = p.1 })
  unfolding is_closed
  last_release-InStep id f (returned, b) done s = record {
    driven = s.driven;
    off_books = λ j h. ground (
      arith,
      s.off_books j,
      element_eq.same_iff id j,
      lookup-erase id j f.use_count,
      obeys.open_logs id f.bench j,
    );
    agrees = λ j h. ground (
      arith,
      s.agrees j,
      element_eq.same_iff id j,
      lookup-erase id j f.use_count,
      obeys.open_clears id f.bench j,
      obeys.open_logs id f.bench j,
    );
  }
  last_release-InStep id f (threw x, b) done s = record {
    driven = s.driven;
    off_books = λ j h. ground (
      arith,
      s.off_books j,
      element_eq.same_iff id j,
      lookup-erase id j f.use_count,
      obeys.open_logs id f.bench j,
    );
    agrees = λ j h. ground (
      arith,
      s.agrees j,
      element_eq.same_iff id j,
      lookup-erase id j f.use_count,
      obeys.open_others id f.bench x j,
      obeys.open_logs id f.bench j,
    );
  }

  counted-InStep :
      (id : SwitchElementId) (f : SwitchFabric B) (n m : ℕ)
      → lookup id f.use_count ≡ some n
      → InStep d relay failed f
      → InStep d relay failed (record f { use_count = insert id m f.use_count })
  unfolding is_closed
  counted-InStep id f n m e s = record {
    driven = s.driven;
    off_books = λ j h.
        ground (arith, s.off_books j, element_eq.same_iff id j, lookup-insert id j m f.use_count);
    agrees = λ j h.
        ground (arith, s.agrees j, element_eq.same_iff id j, lookup-insert id j m f.use_count);
  }

  close_found-InStep :
      (id : SwitchElementId) (f : SwitchFabric B) (o : Option ℕ)
      → lookup id f.use_count ≡ o
      → InStep d relay failed f
      → InStep d relay failed (close_found id f o).1
  close_found-InStep id f none e s =
      subst (λ o. InStep d relay failed (first_use id f (drive_close o id f.bench)).1)
        (sym s.driven) (first_use-InStep id f (d.close id f.bench) refl e s)
  close_found-InStep id f (some n) e s = counted-InStep id f n (n + 1) e s

  open_found-InStep :
      (id : SwitchElementId) (f : SwitchFabric B) (o : Option ℕ)
      → lookup id f.use_count ≡ o
      → InStep d relay failed f
      → InStep d relay failed (open_found id f o).1
  open_found-InStep id f none e s = s
  open_found-InStep id f (some n) e s = by_test (ltb 0 (n - 1))
    where
      by_test :
          (shared : Bool)
          → InStep d relay failed
              (if shared
                then (returned, record f { use_count = insert id (n - 1) f.use_count })
                else last_release id f).1
      by_test true = counted-InStep id f n (n - 1) e s
      by_test false =
          subst
            (λ o.
              InStep d relay failed (record f {
                use_count = erase id f.use_count;
                bench = (drive_open o id f.bench).1;
              }))
            (sym s.driven) (last_release-InStep id f (d.open_relay id f.bench) refl s)

  -- Under a driver whose closes and opens do what they report, and leave the relay of one that throws
  -- either way, these hold after any run of connects and disconnects, refused and failed ones
  -- included, if they held before it: a relay whose last close or open threw is not closed for the
  -- fabric, and each other relay is closed on the bench exactly if it is for the fabric.
  pub run-InStep :
      (cs : List RouteCall) (f : SwitchFabric B)
      → InStep d relay failed f
      → InStep d relay failed (run cs f).1
  unfolding close open_element
  run-InStep =
      run-keeps (InStep d relay failed)
        (λ id f. close_found-InStep id f (lookup id f.use_count) refl)
        (λ id f. open_found-InStep id f (lookup id f.use_count) refl)
