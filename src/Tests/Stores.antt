-- ===== src/Tests/Stores.antt =====
-- The theorems of the store, at a store on RAM that three records are written to.
use zephyr_goodies.Base.{
  ℕ, List, replicate, ◌%◌, none, false, if◌then◌else◌, ◌+◌, ◌-◌, ◌*◌, ◌^◌, ◌≤◌, ◌<◌, ◌≡◌, refl, ◌⊎◌,
  inr, true, some, [], ◌∷◌, ◌++◌, ◌==◌, flatten, length, Memory, slice, splice, arith,
}
use zephyr_goodies.Errno.{enotsup, ok, enoent}
use zephyr_goodies.Size.{align_rest, align_up}
use zephyr_goodies.Ram.{rw_api, sa_readv, read_buffers}
use zephyr_goodies.Ram.Medium.{region}
use zephyr_goodies.Store.{store_valid, Record, World}
use zephyr_goodies.Store.Layout.{IsPosition}
use zephyr_goodies.Area.{
  readv, call_readv, range_valid, iovec_size, iovec_size_from, fovrwrite, has_property,
}
use zephyr_goodies.Store.Advance.{advance_simple}
use zephyr_goodies.Store.Advance.Fresh.{advance_simple-IsLog}
use zephyr_goodies.Store.Mount.{
  config_valid, storage_area_store_mount_ro, store_init, init_position, init_start, scan_sectors,
  last_end,
}
use zephyr_goodies.Store.Calls.{
  storage_area_store_writev, storage_area_store_advance, storage_area_store_compact,
}
use zephyr_goodies.Store.Calls.ReadOnly.{mount_ro-refuses}
use zephyr_goodies.Store.Sectors.{sector_advance}
use zephyr_goodies.Store.Sectors.Round.{sector_advance-eq-mod}
use zephyr_goodies.Store.Check.{record_valid}
use zephyr_goodies.Store.Check.Crc.{record_valid_lem}
use zephyr_goodies.Store.Walk.{next_loop, round, next_pos, skip_cookie, record_next_in_sector}
use zephyr_goodies.Store.Walk.Ends.{IsRoomy, IsFound, record_next_in_sector_ends}
use zephyr_goodies.Store.Read.{storage_area_record_readv}
use zephyr_goodies.Store.Write.{store_writev}
use zephyr_goodies.Store.Write.Image.{image, room}
use zephyr_goodies.Store.Write.Stored.{after, store_writev_appends}
use zephyr_goodies.Store.Write.Full.{exact_fill-lost}
use zephyr_goodies.Store.Write.RoundTrip.{writev-then-read}
use zephyr_goodies.Store.Log.{IsLog, IsChain, IsStored, read_log, sector_start}
use zephyr_goodies.Store.Log.Walk.{read_log-IsLog}
use zephyr_goodies.Store.Log.Append.{store_writev-IsLog}
use zephyr_goodies.Tests.Setup.{
  demo_lib, demo_lib-IsPlatform, demo_medium, demo_pow, demo_store, demo_store-IsLaidOut,
  demo_world, demo_handle, demo_iovec, erased, crc,
}

-- The image of the record 7, 8, 9 with a checksum over 8, 9 in sector 1, in the round 3.
abbrev pub first : Memory
first = splice erased 80 (0xf0 ∷ 3 ∷ 3 ∷ 0 ∷ 7 ∷ 8 ∷ 9 ∷ 1 ∷ 1 ∷ 0 ∷ 0 ∷ 0xff ∷ [])

abbrev pub one_record : World Memory
one_record = record { dev = first; sd = record demo_world.sd { loc = 12 } }

pub one_position : IsPosition demo_store one_record.sd
one_position = record { exists = omega arith; on_unit = refl; in_bounds = omega arith }

pub seven-IsStored :
    IsStored demo_lib demo_store demo_lib-IsPlatform 3 1 (region 16 first) 0 (7 ∷ 8 ∷ 9 ∷ [])
unfolding slice splice crc
seven-IsStored = record {
  some_data = omega arith;
  short = omega arith;
  skip = omega arith;
  fits = omega arith;
  holds = record { header = refl; payload = refl; crc = refl };
}

one-IsChain :
    IsChain demo_lib demo_store demo_lib-IsPlatform 3 1
      (region 16 first)
      0
      ((7 ∷ 8 ∷ 9 ∷ []) ∷ [])
      12
unfolding align_up
one-IsChain = (seven-IsStored, refl)

pub one-IsLog :
    IsLog demo_lib demo_store demo_lib-IsPlatform
      (region 16)
      (λ _. Unit {0})
      one_record
      ((7 ∷ 8 ∷ 9 ∷ []) ∷ [])
one-IsLog = record { works = tt; position = one_position; chain = one-IsChain }

record_valid_lem_example :
    record_valid demo_lib demo_store (record { bound = true; sector = 1; loc = 0; size = 3 }) first
    ≡ (demo_lib.crc32_ieee_update 0 (slice (region 16 first) (68 + 1) (3 - 1))
        == demo_lib.get_le32 (slice (region 16 first) (68 + 3) 4))
record_valid_lem_example =
    record_valid_lem demo_lib demo_store (region 16) (λ _. Unit {0}) demo_lib-IsPlatform demo_medium
      (record { bound = true; sector = 1; loc = 0; size = 3 }) first 68 tt (omega arith) refl
      (omega arith)

pub demo-IsRoomy : IsRoomy demo_lib demo_store
demo-IsRoomy = record {
  unit = demo_pow;
  bits16 = λ l. demo_lib-IsPlatform.get_le16_bound l;
  room = omega arith;
}

record_next_in_sector_ends_example :
    let r : Record = record { bound = true; sector = 1; loc = 0; size = 0 } in
    let out = record_next_in_sector demo_lib demo_store one_record.sd true r first in
    IsFound demo_store 1 r out ⊎ (out.0 ≡ enoent)
record_next_in_sector_ends_example =
    record_next_in_sector_ends demo_lib demo_store one_record.sd true first 1 demo-IsRoomy
      (λ c e. cc) (omega arith) (record { bound = true; sector = 1; loc = 0; size = 0 })
      (record { here = refl; near = omega arith; short = omega arith })

read_log-IsLog_example :
    read_log demo_lib demo_store 7 demo_handle
      (sector_start demo_lib demo_store one_record)
      one_record
    ≡ (7 ∷ 8 ∷ 9 ∷ []) ∷ []
unfolding store_valid
read_log-IsLog_example =
    read_log-IsLog demo_lib demo_store (region 16) (λ _. Unit {0}) demo_lib-IsPlatform demo_medium
      demo_store-IsLaidOut demo_handle refl one_record tt one_position ((7 ∷ 8 ∷ 9 ∷ []) ∷ []) 7
      one-IsChain (omega arith)

store_writev-IsLog_example :
    let (rc, w') = store_writev demo_lib demo_store demo_iovec one_record in
    (rc ≡ ok)
    × IsLog demo_lib demo_store demo_lib-IsPlatform
        (region 16)
        (λ _. Unit {0})
        w'
        (((7 ∷ 8 ∷ 9 ∷ []) ∷ []) ++ flatten demo_iovec ∷ [])
    × (read_log demo_lib demo_store 7 demo_handle (sector_start demo_lib demo_store w') w'
        ≡ ((7 ∷ 8 ∷ 9 ∷ []) ∷ []) ++ flatten demo_iovec ∷ [])
unfolding flatten store_valid
store_writev-IsLog_example =
    store_writev-IsLog demo_lib demo_store (region 16) (λ _. Unit {0}) demo_lib-IsPlatform
      demo_medium demo_store-IsLaidOut demo_handle demo_iovec one_record ((7 ∷ 8 ∷ 9 ∷ []) ∷ []) 7
      refl refl one-IsLog (omega arith) (omega arith) (omega arith) (omega arith) (omega arith)

writev-then-read_example :
    let r : Record = record {
      bound = true;
      sector = 1;
      loc = 12;
      size = length (flatten demo_iovec);
    } in
    let (rc, w') = store_writev demo_lib demo_store demo_iovec one_record in
    (rc ≡ ok)
    × (record_next_in_sector demo_lib demo_store w'.sd true (record r { size = 0 }) w'.dev
        ≡ (ok, r))
    × (record_valid demo_lib demo_store r w'.dev ≡ true)
    × (storage_area_record_readv demo_lib demo_store demo_handle
          (some r)
          0
          (length (flatten demo_iovec) ∷ [])
          w'
        ≡ (ok, flatten demo_iovec))
unfolding flatten store_valid
writev-then-read_example =
    writev-then-read demo_lib demo_store (region 16) (λ _. Unit {0}) demo_lib-IsPlatform demo_medium
      demo_store-IsLaidOut demo_handle demo_iovec one_record tt one_position refl refl (omega arith)
      (omega arith) (omega arith) (omega arith) (inr refl)

five_short : length (flatten demo_iovec) < 2 ^ 16
unfolding flatten
five_short = omega arith

five_fits : 12 + (length (flatten demo_iovec) + 8) ≤ 64
unfolding flatten
five_fits = omega arith

store_writev_appends_example :
    let target = 1 * 64 + 12 in
    let done =
      after demo_lib demo_store
        (region 16)
        (λ _. Unit {0})
        demo_lib-IsPlatform
        demo_medium
        demo_store-IsLaidOut
        demo_iovec
        one_record
        tt
        one_position
        five_short
        five_fits in
    (store_writev demo_lib demo_store demo_iovec one_record ≡ (ok, done))
    × (region 16 done.dev
        ≡ splice (region 16 first) target (image demo_lib demo_store 3 (flatten demo_iovec)))
    × (done.sd
        ≡ record one_record.sd { loc = 12 + room demo_lib demo_store 3 (flatten demo_iovec) })
    × Unit {0}
unfolding flatten
store_writev_appends_example =
    store_writev_appends demo_lib demo_store (region 16) (λ _. Unit {0}) demo_lib-IsPlatform
      demo_medium demo_store-IsLaidOut demo_iovec one_record tt one_position five_short five_fits
      refl

advance_simple-IsLog_example :
    let (rc, w') = advance_simple demo_store one_record in
    (rc ≡ ok)
    × IsLog demo_lib demo_store demo_lib-IsPlatform (region 16) (λ _. Unit {0}) w' []
    × (w'.sd.sector ≡ (1 + 1) % 2)
    × (w'.sd.wrapcnt ≡ (if (1 + 1) % 2 == 0 then (3 + 1) % 256 else 3))
unfolding fovrwrite has_property
advance_simple-IsLog_example =
    advance_simple-IsLog demo_lib demo_store (region 16) (λ _. Unit {0}) demo_lib-IsPlatform
      demo_medium demo_store-IsLaidOut (omega arith) one_record refl tt one_position

abbrev unmounted : World Memory
unmounted = record demo_world { sd = record demo_world.sd { ready = false } }

mounts : (storage_area_store_mount_ro demo_lib demo_store demo_handle unmounted).0 ≡ ok
unfolding storage_area_store_mount_ro store_valid config_valid align_rest store_init init_position
    init_start scan_sectors last_end record_next_in_sector next_loop round next_pos skip_cookie
    readv call_readv range_valid iovec_size iovec_size_from rw_api sa_readv read_buffers slice
    align_up
mounts = refl

mount_ro-refuses_example :
    let w' = (storage_area_store_mount_ro demo_lib demo_store demo_handle unmounted).1 in
    (w'.dev ≡ unmounted.dev)
    × (storage_area_store_writev demo_lib demo_store demo_handle demo_iovec w' ≡ (enotsup, w'))
    × (storage_area_store_advance demo_lib demo_store demo_handle w' ≡ (enotsup, w'))
    × (storage_area_store_compact demo_lib demo_store demo_handle none w' ≡ (enotsup, w'))
mount_ro-refuses_example =
    mount_ro-refuses demo_lib demo_store demo_handle unmounted none demo_iovec mounts

sector_advance-eq-mod_example : sector_advance 5 3 9 ≡ (3 + 9) % 5
sector_advance-eq-mod_example = sector_advance-eq-mod 5 (omega arith) 3 9 (omega arith)

-- 44 bytes fill the sector behind the first record.
abbrev filling : List (List ℕ)
filling = replicate 44 7 ∷ []

exact_fill-lost_example :
    let (rc, w') = store_writev demo_lib demo_store filling one_record in
    let from : Record = record { bound = true; sector = 1; loc = 12; size = 0 } in
    let out = record_next_in_sector demo_lib demo_store w'.sd true from w'.dev in
    (rc ≡ ok) × ((out.0 ≡ enoent) ⊎ (12 < out.1.loc))
unfolding flatten
exact_fill-lost_example =
    exact_fill-lost demo_lib demo_store (region 16) (λ _. Unit {0}) demo_lib-IsPlatform demo_medium
      demo_store-IsLaidOut demo_handle filling one_record tt one_position demo-IsRoomy refl
      (omega arith) refl (inr refl)
