-- ===== src/Tests/Rings.antt =====
-- The store on RAM as a circular buffer.
use zephyr_goodies.Base.{ℕ, ◌≡◌, refl, true, List, [], ◌∷◌, Memory, arith}
use zephyr_goodies.Area.{fovrwrite, has_property}
use zephyr_goodies.Ram.Medium.{region}
use zephyr_goodies.Store.{World, store_valid}
use zephyr_goodies.Circular.Produce.{IsOpen}
use zephyr_goodies.Tests.Setup.{
  demo_lib, demo_lib-IsPlatform, demo_medium, demo_geometry, demo_store, demo_store-IsLaidOut,
  demo_handle,
}
use zephyr_goodies.Tests.Stores.{one_record, one-IsLog}

pub over : fovrwrite demo_geometry ≡ true
unfolding fovrwrite has_property
over = refl

pub valid : store_valid demo_handle ≡ true
unfolding store_valid
valid = refl

abbrev pub Open : World Memory → List (List ℕ) → Type 0
Open =
    IsOpen demo_lib demo_store (region 16) (λ _. Unit {0}) demo_lib-IsPlatform demo_medium
      demo_store-IsLaidOut (omega arith) over demo_handle valid

pub one-IsOpen : Open one_record ((7 ∷ 8 ∷ 9 ∷ []) ∷ [])
one-IsOpen = record { is_log = one-IsLog; mounted = refl; writable = refl }
