-- ===== src/Tests/Compaction.antt =====
-- The theorem of a whole compaction, at a store of four sectors on RAM.
use zephyr_goodies.Base.{
  ◌≡◌, refl, true, none, some, Bool, [], ◌∷◌, ◌==◌, length, inr, Memory, slice, splice, arith,
}
use zephyr_goodies.Errno.{ok}
use zephyr_goodies.Size.{align_up}
use zephyr_goodies.Area.{Geometry, StorageArea, fovrwrite, has_property}
use zephyr_goodies.Medium.{IsSound, IsMedium}
use zephyr_goodies.Ram.{rw_api}
use zephyr_goodies.Ram.Medium.{region, Ram-IsMedium}
use zephyr_goodies.Store.{Store, World, Record, full, store_ready, store_valid}
use zephyr_goodies.Store.Sectors.{sector_advance}
use zephyr_goodies.Store.Walk.{expected_wrapcnt}
use zephyr_goodies.Store.Layout.{IsLaidOut}
use zephyr_goodies.Store.Log.{IsLog, IsStored, IsChain}
use zephyr_goodies.Store.Calls.{storage_area_store_compact}
use zephyr_goodies.Store.Compact.Whole.{compact-IsLog}
use zephyr_goodies.Tests.Setup.{demo_lib, demo_lib-IsPlatform, demo_pow, demo_handle, erased, crc}

abbrev ring_geometry : Geometry
ring_geometry = record { write_size = 4; erase_size = 32; erase_blocks = 4; props = 5 }

abbrev ring_area : StorageArea Memory
ring_area = record { api = some (rw_api 16); geometry = ring_geometry }

ring_geometry-IsSound : IsSound ring_geometry
ring_geometry-IsSound = record {
  unit = demo_pow;
  erasable = omega arith;
  blocks = refl;
  small = omega arith;
}

ring_medium : IsMedium ring_area (region 16) (λ _. Unit {0})
ring_medium = Ram-IsMedium 16 ring_area refl ring_geometry-IsSound (omega arith)

ring_over : fovrwrite ring_geometry ≡ true
unfolding fovrwrite has_property
ring_over = refl

abbrev ring : Store Memory
ring = record {
  area = ring_area;
  sector_cookie = none;
  sector_size = 32;
  sector_cnt = 4;
  spare_sectors = 1;
  crc_skip = 1;
}

ring-IsLaidOut : IsLaidOut ring
ring-IsLaidOut = record {
  unit = demo_pow;
  aligned = refl;
  fits = omega arith;
  small = omega arith;
  headroom = omega arith;
  skip_small = omega arith;
  cookie_fits = λ c e. cc;
}

-- A record in sector 2, of the round before, while sector 0 is written.
abbrev last_round : World Memory
last_round = record {
  dev = splice erased 80 (0xf0 ∷ 2 ∷ 4 ∷ 0 ∷ 1 ∷ 65 ∷ 1 ∷ 2 ∷ 0x22 ∷ 0xf4 ∷ 0 ∷ 0 ∷ []);
  sd = record { advance = full; ready = true; sector = 0; loc = 0; wrapcnt = 3 };
}

last-IsStored :
    IsStored demo_lib ring demo_lib-IsPlatform 2 2
      (region 16 last_round.dev)
      0
      (1 ∷ 65 ∷ 1 ∷ 2 ∷ [])
unfolding slice splice crc
last-IsStored = record {
  some_data = omega arith;
  short = omega arith;
  skip = omega arith;
  fits = omega arith;
  holds = record { header = refl; payload = refl; crc = refl };
}

last-IsChain :
    IsChain demo_lib ring demo_lib-IsPlatform 2 2
      (region 16 last_round.dev)
      0
      ((1 ∷ 65 ∷ 1 ∷ 2 ∷ []) ∷ [])
      12
unfolding align_up
last-IsChain = (last-IsStored, refl)

filled_behind : region 16 last_round.dev 76 ≡ 255
unfolding splice
filled_behind = refl

ready : store_ready demo_handle last_round.sd ≡ true
unfolding store_ready store_valid
ready = refl

-- A callback that keeps records of four bytes.
abbrev keep_four : World Memory → Record → Bool
keep_four w r = r.size == 4

compact-IsLog_example :
    (w' : World Memory) × (storage_area_store_compact demo_lib ring demo_handle
        (some keep_four)
        last_round
      ≡ (ok, w'))
    × (w'.sd.sector ≡ 1)
    × IsLog demo_lib ring demo_lib-IsPlatform
        (region 16)
        (λ _. Unit {0})
        w'
        ((1 ∷ 65 ∷ 1 ∷ 2 ∷ []) ∷ [])
unfolding expected_wrapcnt align_up sector_advance
compact-IsLog_example =
    compact-IsLog demo_lib ring (region 16) (λ _. Unit {0}) demo_lib-IsPlatform ring_medium
      ring-IsLaidOut (omega arith) ring_over (omega arith) refl demo_handle last_round keep_four
      (λ b. length b == 4) ((1 ∷ 65 ∷ 1 ∷ 2 ∷ []) ∷ []) 2 12 ready refl tt
      (record { exists = omega arith; on_unit = refl; in_bounds = omega arith }) (omega arith)
      (λ e. omega (arith, e)) (λ e. omega (arith, e)) refl last-IsChain
      (inr (omega arith, filled_behind)) (λ v loc b i. refl) (omega arith)
