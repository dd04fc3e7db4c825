-- ===== src/Tests/Backend.antt =====
-- The theorems of the settings backend and of the walk over all sectors, at the store on RAM.
use zephyr_goodies.Base.{
  Memory, ◌*◌, ℕ, ◌+◌, ◌<◌, ◌≡◌, refl, inr, true, false, List, [], ◌∷◌, ◌++◌, none, some, slice,
  splice, arith,
}
use zephyr_goodies.Errno.{ok}
use zephyr_goodies.Ram.Medium.{region}
use zephyr_goodies.Size.{size_mod, align_up}
use zephyr_goodies.Area.{readv, call_readv, range_valid, iovec_size, iovec_size_from}
use zephyr_goodies.Ram.{rw_api, sa_readv, read_buffers}
use zephyr_goodies.Store.{World, Record, store_valid, store_ready}
use zephyr_goodies.Store.Check.{record_valid, crc_loop, crc_matches}
use zephyr_goodies.Store.Sectors.{sector_advance}
use zephyr_goodies.Store.Read.{
  storage_area_record_valid, storage_area_record_next, next_sectors, first_record,
  storage_area_record_read, storage_area_record_readv,
}
use zephyr_goodies.Store.Log.{IsLog}
use zephyr_goodies.Store.Walk.{
  record_next_in_sector, next_loop, round, next_pos, header_ok, expected_wrapcnt, skip_cookie,
}
use zephyr_goodies.Settings.{
  Handler, all_records, unbound, same_bytes, newer, settings_sas_skip, first_kept, load_loop,
  settings_sas_duplicate, settings_sas_save, sas_get_name_size, sas_get_name, settings_sas_read_fn,
}
use zephyr_goodies.Settings.Duplicate.{settings_sas_duplicate-eq-same_bytes}
use zephyr_goodies.Store.Write.Readback.{HoldsRecord}
use zephyr_goodies.Settings.Search.{
  IsPass, some_holds, shown, head_or, hand_over, settings_sas_loops_end,
}
use zephyr_goodies.Settings.Save.{setting, settings_sas_save-then-read}
use zephyr_goodies.Tests.Setup.{
  crc, demo_lib, demo_lib-IsPlatform, demo_medium, demo_store, demo_store-IsLaidOut, demo_handle,
  erased, demo_world,
}
use zephyr_goodies.Tests.Stores.{demo-IsRoomy, one_record, one-IsLog}

-- An application that keeps the last name and value.
abbrev keep_last : Handler (List ℕ × List ℕ)
keep_last name size read app = let (rc, value) = read size in (rc, (name, value))

abbrev demo_counted : demo_store.sector_cnt < size_mod
demo_counted = omega arith

abbrev demo_exists : one_record.sd.sector < demo_store.sector_cnt
demo_exists = omega arith

settings_sas_loops_end_example :
    let rounds = all_records demo_lib demo_store demo_handle in
    (xs : List Record) × (last : Record) × IsPass demo_lib demo_store demo-IsRoomy
      demo_store-IsLaidOut demo_counted one_record demo_exists demo_handle unbound xs last
    × (newer demo_lib demo_store demo_handle rounds one_record (8 ∷ []) unbound
        ≡ some_holds demo_lib demo_store demo-IsRoomy demo_store-IsLaidOut demo_counted one_record
            demo_exists demo_handle
            (8 ∷ [])
            xs)
    × (first_kept demo_lib demo_store demo_handle rounds one_record (8 ∷ []) unbound
        ≡ head_or demo_lib demo_store demo-IsRoomy demo_store-IsLaidOut demo_counted one_record
            demo_exists demo_handle last
            (shown demo_lib demo_store demo-IsRoomy demo_store-IsLaidOut demo_counted one_record
              demo_exists demo_handle
              (some (8 ∷ []))
              xs))
    × (load_loop demo_lib demo_store demo_handle keep_last rounds one_record none unbound ok
          ([], [])
        ≡ hand_over demo_lib demo_store demo-IsRoomy demo_store-IsLaidOut demo_counted one_record
            demo_exists demo_handle keep_last
            (shown demo_lib demo_store demo-IsRoomy demo_store-IsLaidOut demo_counted one_record
              demo_exists demo_handle none xs)
            ok
            ([], []))
settings_sas_loops_end_example =
    settings_sas_loops_end demo_lib demo_store demo-IsRoomy demo_store-IsLaidOut demo_counted
      one_record demo_exists demo_handle keep_last (8 ∷ []) none unbound ([], []) (λ e. cc)

new_setting :
    settings_sas_duplicate demo_lib demo_store demo_handle one_record (65 ∷ []) (1 ∷ 2 ∷ []) ≡ false
unfolding settings_sas_duplicate first_kept storage_area_record_next next_sectors first_record
    store_valid store_ready record_next_in_sector next_loop round next_pos header_ok
    expected_wrapcnt skip_cookie sector_advance settings_sas_skip sas_get_name_size sas_get_name
    storage_area_record_read storage_area_record_readv record_valid newer readv call_readv
    range_valid iovec_size iovec_size_from rw_api sa_readv read_buffers slice splice crc align_up
new_setting = refl

settings_sas_save-then-read_example :
    let (rc, w') =
      settings_sas_save demo_lib demo_store demo_handle
        (some (65 ∷ []))
        (some (1 ∷ 2 ∷ []))
        one_record in
    let r : Record = record { bound = true; sector = 1; loc = 12; size = 4 } in
    (rc ≡ ok)
    × IsLog demo_lib demo_store demo_lib-IsPlatform
        (region 16)
        (λ _. Unit {0})
        w'
        (((7 ∷ 8 ∷ 9 ∷ []) ∷ []) ++ setting (65 ∷ []) (1 ∷ 2 ∷ []) ∷ [])
    × (record_next_in_sector demo_lib demo_store w'.sd true (record r { size = 0 }) w'.dev
        ≡ (ok, r))
    × (sas_get_name_size demo_lib demo_store demo_handle w' r ≡ 1)
    × (sas_get_name demo_lib demo_store demo_handle w' r 1 ≡ (ok, 65 ∷ []))
    × (settings_sas_read_fn demo_lib demo_store demo_handle w' r (1 + 1) 2 ≡ (ok, 1 ∷ 2 ∷ []))
unfolding store_valid
settings_sas_save-then-read_example =
    settings_sas_save-then-read demo_lib demo_store (region 16) (λ _. Unit {0}) demo_lib-IsPlatform
      demo_medium demo_store-IsLaidOut demo_handle refl one_record ((7 ∷ 8 ∷ 9 ∷ []) ∷ []) (65 ∷ [])
      (some (1 ∷ 2 ∷ [])) one-IsLog refl refl new_setting (omega arith) (omega arith) (omega arith)
      (omega arith) (inr refl)

-- The image of the setting A with the value 1, 2 in sector 1, in the round 3.
abbrev saved_bytes : List ℕ
saved_bytes = 1 ∷ 65 ∷ 1 ∷ 2 ∷ []

abbrev saved_world : World Memory
saved_world = record {
  dev = splice erased 80 (0xf0 ∷ 3 ∷ 4 ∷ 0 ∷ 1 ∷ 65 ∷ 1 ∷ 2 ∷ 0x22 ∷ 0xf4 ∷ 0 ∷ 0 ∷ []);
  sd = record demo_world.sd { loc = 12 };
}

saved-HoldsRecord :
    HoldsRecord demo_lib demo_store demo_lib-IsPlatform 3 saved_bytes
      (region 16 saved_world.dev)
      (1 * 64 + 0)
unfolding slice splice crc
saved-HoldsRecord = record { header = refl; payload = refl; crc = refl }

found_setting :
    first_kept demo_lib demo_store demo_handle
      (all_records demo_lib demo_store demo_handle)
      saved_world
      (65 ∷ [])
      unbound
    ≡ record { bound = true; sector = 1; loc = 0; size = 4 }
unfolding first_kept storage_area_record_next next_sectors first_record store_valid store_ready
    record_next_in_sector next_loop round next_pos header_ok expected_wrapcnt skip_cookie
    sector_advance settings_sas_skip sas_get_name_size sas_get_name storage_area_record_read
    storage_area_record_readv storage_area_record_valid record_valid crc_loop crc_matches newer
    readv call_readv range_valid iovec_size iovec_size_from rw_api sa_readv read_buffers slice
    splice crc align_up
found_setting = refl

settings_sas_duplicate-eq-same_bytes_example :
    settings_sas_duplicate demo_lib demo_store demo_handle saved_world (65 ∷ []) (1 ∷ 3 ∷ [])
    ≡ same_bytes (1 ∷ 3 ∷ []) (1 ∷ 2 ∷ [])
unfolding store_valid
settings_sas_duplicate-eq-same_bytes_example =
    settings_sas_duplicate-eq-same_bytes demo_lib demo_store (region 16) (λ _. Unit {0})
      demo_lib-IsPlatform demo_medium demo_store-IsLaidOut demo_handle refl saved_world 3 1 0
      saved_bytes tt (omega arith) (omega arith) (omega arith) saved-HoldsRecord (65 ∷ [])
      (1 ∷ 3 ∷ []) found_setting (omega arith)
