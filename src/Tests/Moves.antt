-- ===== src/Tests/Moves.antt =====
-- The theorems of moved records, of a restart and of writes under any driver, at the store on RAM.
use zephyr_goodies.Base.{
  ◌+◌, ◌*◌, ◌≡◌, ◌≢◌, refl, true, false, not, ◌&&◌, inr, some, Bool, [], ◌∷◌, ◌++◌, Memory, slice,
  splice, arith,
}
use zephyr_goodies.Errno.{ok, einval}
use zephyr_goodies.Size.{align_up, align_down}
use zephyr_goodies.Area.{fovrwrite, lovrwrite, has_property, iovec_size, iovec_size_from}
use zephyr_goodies.Ram.Medium.{region}
use zephyr_goodies.Store.{World, Record, store_ready, store_valid}
use zephyr_goodies.Store.Log.{IsLog, IsStored}
use zephyr_goodies.Store.Write.{store_writev}
use zephyr_goodies.Store.Write.Ends.{IsEnd, store_writev_ends}
use zephyr_goodies.Store.Update.{storage_area_record_update}
use zephyr_goodies.Store.Update.InUnit.{storage_area_record_update-IsStored}
use zephyr_goodies.Store.Read.{storage_area_record_valid}
use zephyr_goodies.Store.Calls.{
  storage_area_store_writev, storage_area_store_write, storage_area_store_advance,
  storage_area_store_compact,
}
use zephyr_goodies.Store.Calls.Unmounted.{unmount-refuses}
use zephyr_goodies.Store.Mount.{init_position, storage_area_store_unmount}
use zephyr_goodies.Store.Mount.Position.{init_position-IsLog}
use zephyr_goodies.Store.Compact.{move_record}
use zephyr_goodies.Store.Walk.{expected_wrapcnt}
use zephyr_goodies.Store.Compact.{move_sector}
use zephyr_goodies.Store.Compact.Sector.{move_sector-IsLog}
use zephyr_goodies.Store.Log.{IsChain}
use zephyr_goodies.Base.{◌==◌, inr, length}
use zephyr_goodies.Store.Compact.Moved.{move_record-IsLog}
use zephyr_goodies.Tests.Setup.{
  crc, demo_lib, demo_lib-IsPlatform, demo_medium, demo_store, demo_store-IsLaidOut, demo_iovec,
  demo_handle,
}
use zephyr_goodies.Tests.Stores.{first, one_record, one_position, one-IsLog, seven-IsStored}

-- A record in sector 0, beside the record in the write sector.
abbrev two_records : World Memory
two_records = record {
  dev = splice first 16 (0xf0 ∷ 2 ∷ 4 ∷ 0 ∷ 1 ∷ 65 ∷ 1 ∷ 2 ∷ 0x22 ∷ 0xf4 ∷ 0 ∷ 0 ∷ []);
  sd = one_record.sd;
}

old-IsStored :
    IsStored demo_lib demo_store demo_lib-IsPlatform 2 0
      (region 16 two_records.dev)
      0
      (1 ∷ 65 ∷ 1 ∷ 2 ∷ [])
unfolding slice splice crc
old-IsStored = record {
  some_data = omega arith;
  short = omega arith;
  skip = omega arith;
  fits = omega arith;
  holds = record { header = refl; payload = refl; crc = refl };
}

new-IsStored :
    IsStored demo_lib demo_store demo_lib-IsPlatform 3 1
      (region 16 two_records.dev)
      0
      (7 ∷ 8 ∷ 9 ∷ [])
unfolding slice splice crc
new-IsStored = record {
  some_data = omega arith;
  short = omega arith;
  skip = omega arith;
  fits = omega arith;
  holds = record { header = refl; payload = refl; crc = refl };
}

two-IsLog :
    IsLog demo_lib demo_store demo_lib-IsPlatform
      (region 16)
      (λ _. Unit {0})
      two_records
      ((7 ∷ 8 ∷ 9 ∷ []) ∷ [])
unfolding align_up
two-IsLog = record { works = tt; position = one_position; chain = (new-IsStored, refl) }

-- A callback that keeps every record.
abbrev keep_all : World Memory → Record → Bool
keep_all w r = true

apart : 0 ≢ one_record.sd.sector
apart e = omega (arith, e)

move_record-IsLog_example :
    let (rc, w') =
      move_record demo_lib demo_store
        (some keep_all)
        (record { bound = true; sector = 0; loc = 0; size = 4 })
        two_records in
    (rc ≡ ok)
    × IsLog demo_lib demo_store demo_lib-IsPlatform
        (region 16)
        (λ _. Unit {0})
        w'
        (((7 ∷ 8 ∷ 9 ∷ []) ∷ []) ++ (1 ∷ 65 ∷ 1 ∷ 2 ∷ []) ∷ [])
    × IsStored demo_lib demo_store demo_lib-IsPlatform 2 0
        (region 16 w'.dev)
        0
        (1 ∷ 65 ∷ 1 ∷ 2 ∷ [])
move_record-IsLog_example =
    move_record-IsLog demo_lib demo_store (region 16) (λ _. Unit {0}) demo_lib-IsPlatform
      demo_medium demo_store-IsLaidOut two_records ((7 ∷ 8 ∷ 9 ∷ []) ∷ []) two-IsLog 0 0 2
      (1 ∷ 65 ∷ 1 ∷ 2 ∷ []) (omega arith) apart refl old-IsStored (omega arith) keep_all refl

-- A record of the same round in sector 0, and a callback that keeps records of four bytes.
abbrev same_round : World Memory
same_round = record {
  dev = splice first 16 (0xf0 ∷ 3 ∷ 4 ∷ 0 ∷ 1 ∷ 65 ∷ 1 ∷ 2 ∷ 0x22 ∷ 0xf4 ∷ 0 ∷ 0 ∷ []);
  sd = one_record.sd;
}

abbrev keep_four : World Memory → Record → Bool
keep_four w r = r.size == 4

same-IsStored :
    IsStored demo_lib demo_store demo_lib-IsPlatform 3 0
      (region 16 same_round.dev)
      0
      (1 ∷ 65 ∷ 1 ∷ 2 ∷ [])
unfolding slice splice crc
same-IsStored = record {
  some_data = omega arith;
  short = omega arith;
  skip = omega arith;
  fits = omega arith;
  holds = record { header = refl; payload = refl; crc = refl };
}

still-IsStored :
    IsStored demo_lib demo_store demo_lib-IsPlatform 3 1
      (region 16 same_round.dev)
      0
      (7 ∷ 8 ∷ 9 ∷ [])
unfolding slice splice crc
still-IsStored = record {
  some_data = omega arith;
  short = omega arith;
  skip = omega arith;
  fits = omega arith;
  holds = record { header = refl; payload = refl; crc = refl };
}

same-IsLog :
    IsLog demo_lib demo_store demo_lib-IsPlatform
      (region 16)
      (λ _. Unit {0})
      same_round
      ((7 ∷ 8 ∷ 9 ∷ []) ∷ [])
unfolding align_up
same-IsLog = record { works = tt; position = one_position; chain = (still-IsStored, refl) }

same-IsChain :
    IsChain demo_lib demo_store demo_lib-IsPlatform 3 0
      (region 16 same_round.dev)
      0
      ((1 ∷ 65 ∷ 1 ∷ 2 ∷ []) ∷ [])
      12
unfolding align_up
same-IsChain = (same-IsStored, refl)

filled_behind : region 16 same_round.dev 12 ≡ 255
unfolding splice
filled_behind = refl

move_sector-IsLog_example :
    (w' : World Memory) × (move_sector demo_lib demo_store 2 ok
        (some keep_four)
        (record { bound = true; sector = 0; loc = 0; size = 0 })
        same_round
      ≡ (ok, w'))
    × IsLog demo_lib demo_store demo_lib-IsPlatform
        (region 16)
        (λ _. Unit {0})
        w'
        (((7 ∷ 8 ∷ 9 ∷ []) ∷ []) ++ (1 ∷ 65 ∷ 1 ∷ 2 ∷ []) ∷ [])
    × (w'.sd ≡ record same_round.sd { loc = 24 })
unfolding expected_wrapcnt align_up
move_sector-IsLog_example =
    move_sector-IsLog demo_lib demo_store (region 16) (λ _. Unit {0}) demo_lib-IsPlatform
      demo_medium demo_store-IsLaidOut 3 0 12 (omega arith) (λ b. length b == 4) keep_four
      (λ w loc b i. refl) ((1 ∷ 65 ∷ 1 ∷ 2 ∷ []) ∷ []) ((7 ∷ 8 ∷ 9 ∷ []) ∷ []) 2 same_round
      (omega arith) same-IsLog apart refl same-IsChain (inr (omega arith, filled_behind))
      (omega arith)

store_writev_ends_example :
    IsEnd demo_lib demo_store demo_store-IsLaidOut one_record
      (store_writev demo_lib demo_store demo_iovec one_record)
unfolding iovec_size iovec_size_from
store_writev_ends_example =
    store_writev_ends demo_lib demo_store demo_store-IsLaidOut demo_iovec one_record one_position
      (omega arith)

nothing_behind : region 16 first 76 ≡ 0xff
unfolding splice
nothing_behind = refl

init_position-IsLog_example :
    let w0 : World Memory = record one_record {
      sd = record one_record.sd { loc = 64; ready = false };
    } in
    init_position demo_lib demo_store w0 ≡ (ok, one_record)
init_position-IsLog_example =
    init_position-IsLog demo_lib demo_store (region 16) (λ _. Unit {0}) demo_lib-IsPlatform
      demo_medium demo_store-IsLaidOut one_record ((7 ∷ 8 ∷ 9 ∷ []) ∷ []) one-IsLog (omega arith)
      (inr (omega arith, nothing_behind))

unit_4 : align_down (0 + 4) 4 ≡ 4
unfolding align_down
unit_4 = refl

demo_over :
    (not (fovrwrite demo_store.area.geometry) && not (lovrwrite demo_store.area.geometry)) ≡ false
unfolding fovrwrite lovrwrite has_property
demo_over = refl

storage_area_record_update-IsStored_example :
    let r : Record = record { bound = true; sector = 1; loc = 0; size = 3 } in
    let (rc, w') =
      storage_area_record_update demo_lib demo_store demo_handle r (0 ∷ []) one_record in
    (rc ≡ ok)
    × (w'.sd ≡ one_record.sd)
    × (region 16 w'.dev ≡ splice (region 16 first) (1 * 64 + 0 + 4) (0 ∷ []))
    × IsStored demo_lib demo_store demo_lib-IsPlatform 3 1 (region 16 w'.dev) 0 (0 ∷ 8 ∷ 9 ∷ [])
unfolding store_ready store_valid
storage_area_record_update-IsStored_example =
    storage_area_record_update-IsStored demo_lib demo_store (region 16) (λ _. Unit {0})
      demo_lib-IsPlatform demo_medium demo_store-IsLaidOut one_record tt 3 1 0 (7 ∷ 8 ∷ 9 ∷ [])
      (0 ∷ []) (omega arith) seven-IsStored (omega arith) (omega arith) (omega (arith, unit_4))
      demo_handle refl demo_over

unmount-refuses_example :
    let w' = (storage_area_store_unmount demo_store demo_handle one_record).1 in
    let r : Record = record { bound = true; sector = 1; loc = 0; size = 3 } in
    (w'.dev ≡ one_record.dev)
    × (storage_area_store_writev demo_lib demo_store demo_handle demo_iovec w' ≡ (einval, w'))
    × (storage_area_store_write demo_lib demo_store demo_handle (1 ∷ []) w' ≡ (einval, w'))
    × (storage_area_store_advance demo_lib demo_store demo_handle w' ≡ (einval, w'))
    × (storage_area_store_compact demo_lib demo_store demo_handle (some keep_all) w' ≡ (einval, w'))
    × (storage_area_store_unmount demo_store demo_handle w' ≡ (ok, w'))
    × (storage_area_record_valid demo_lib demo_store demo_handle r w' ≡ true)
unfolding storage_area_store_unmount store_valid
unmount-refuses_example =
    unmount-refuses demo_lib demo_store demo_handle one_record demo_iovec (1 ∷ []) (some keep_all)
      (record { bound = true; sector = 1; loc = 0; size = 3 }) refl
