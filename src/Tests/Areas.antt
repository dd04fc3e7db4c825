-- ===== src/Tests/Areas.antt =====
-- The theorems of the areas, at a RAM area of two blocks and a store that is placed on it.
use zephyr_goodies.Base.{
  ℕ, ◌+◌, ◌%◌, ◌≡◌, refl, some, List, [], ◌∷◌, ◌==◌, leb, if◌then◌else◌, ◌&&◌, flatten, length,
  Memory, splice, arith,
}
use zephyr_goodies.Errno.{Rc, ok, einval}
use zephyr_goodies.Size.{align_up}
use zephyr_goodies.Size.Align.{IsAlignUp, align_up-IsAlignUp}
use zephyr_goodies.Area.{readv, writev, erase}
use zephyr_goodies.Area.Checks.{readv_checked, writev_checked, erase_checked}
use zephyr_goodies.Medium.{total, area_size, IsMedium}
use zephyr_goodies.Writer.{put_buffers}
use zephyr_goodies.Writer.Runs.{Emits, put_buffers_whole}
use zephyr_goodies.Ram.{rw_api, sa_readv, sa_writev, sa_erase}
use zephyr_goodies.Ram.Medium.{region, Ram-IsMedium}
use zephyr_goodies.Tests.Setup.{demo_geometry, demo_area, demo_pow, demo_geometry-IsSound, erased}

abbrev units : List (List ℕ)
units = (1 ∷ 2 ∷ 3 ∷ []) ∷ (4 ∷ 5 ∷ 6 ∷ 7 ∷ 8 ∷ []) ∷ []

abbrev store_run : ℕ → List ℕ → Memory → Rc × Memory
store_run pos run s = (ok, splice s pos run)

store_run-Emits : Emits store_run ◌+◌ 4 (λ s. s) (λ _. Unit {0}) (λ p. p) 128
store_run-Emits = record {
  emitted = λ pos run s i whole fits. (refl, refl, tt);
  stepped = λ pos n whole fits. refl;
}

readv_checked_example : readv (some demo_area) 8 (4 ∷ 2 ∷ []) erased ≡ (
    if leb (8 + total (4 ∷ 2 ∷ [])) (area_size demo_geometry)
    then sa_readv 16 demo_geometry 8 (4 ∷ 2 ∷ []) erased
    else (einval, []))
unfolding rw_api
readv_checked_example =
    readv_checked demo_area (rw_api 16) refl (sa_readv 16) 8 (4 ∷ 2 ∷ []) erased refl (omega arith)
      (omega arith)

writev_checked_example : writev (some demo_area) 8 units erased ≡ (
    if leb (8 + length (flatten units)) (area_size demo_geometry) && length (flatten units) % 4 == 0
    then sa_writev 16 demo_geometry 8 units erased
    else (einval, erased))
unfolding rw_api flatten
writev_checked_example =
    writev_checked demo_area (rw_api 16) refl (sa_writev 16) 8 units erased refl demo_pow
      (omega arith) (omega arith)

erase_checked_example :
    erase (some demo_area) 1 1 erased
    ≡ (if leb (1 + 1) 2 then sa_erase 16 demo_geometry 1 1 erased else (einval, erased))
unfolding rw_api
erase_checked_example =
    erase_checked demo_area (rw_api 16) refl (sa_erase 16) 1 1 erased refl (omega arith)

Ram-IsMedium_example : IsMedium demo_area (region 16) (λ _. Unit {0})
Ram-IsMedium_example = Ram-IsMedium 16 demo_area refl demo_geometry-IsSound (omega arith)

put_buffers_whole_example :
    let r = put_buffers store_run ◌+◌ 4 (record { pos = 4; pending = []; dev = erased }) units in
    (r.0 ≡ ok) × (r.1.dev ≡ splice erased 4 (flatten units)) × Unit {0}
unfolding flatten
put_buffers_whole_example =
    put_buffers_whole store_run ◌+◌ 4 (λ s. s) (λ _. Unit {0}) (λ p. p) 128 demo_pow store_run-Emits
      units 4 erased tt (omega arith) refl (omega arith)

align_up-IsAlignUp_example : IsAlignUp 13 4 (align_up 13 4)
align_up-IsAlignUp_example = align_up-IsAlignUp 13 4 demo_pow (omega arith)
