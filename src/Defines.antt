-- ===== src/Defines.antt =====
-- The macros of include/zephyr/storage/storage_area that define areas and stores. `none` is a build
-- that fails.
use zephyr_goodies.Base.{
  ℕ, ◌%◌, ◌≡◌, Bool, false, ◌&&◌, not, Option, none, some, List, ◌==◌, if◌then◌else◌, Memory, arith,
}
use zephyr_goodies.Size.{align_rest}
use zephyr_goodies.Area.{Api, StorageArea}
use zephyr_goodies.Eeprom.{EepromDevice}
use zephyr_goodies.Flash.{FlashDevice}
use zephyr_goodies.Disk.{DiskDevice}
use zephyr_goodies.Ram as Ram
use zephyr_goodies.Eeprom as Eeprom
use zephyr_goodies.Flash as Flash
use zephyr_goodies.Disk as Disk
use zephyr_goodies.Store.{Store, World, null}

-- The BUILD_ASSERTs that the macros of all drivers have. An erase size of 0 passes them, and fails at
-- the division in `STORAGE_AREA_RAM` and its kin.
unfoldable pub sizes_build : ℕ → ℕ → ℕ → Bool
sizes_build ws es size =
    not (ws == 0)
    && (align_rest ws ws == 0)
    && ((es % ws) == 0)
    && ((size % ws) == 0)
    && not (es == 0)

-- `STORAGE_AREA_RAM_RW_DEFINE` and its kin
unfoldable pub ram_rw_define : ℕ → ℕ → ℕ → ℕ → ℕ → Option (StorageArea Memory)
ram_rw_define start ws es size props =
    if sizes_build ws es size then some (Ram.ram_area ws es size props (Ram.rw_api start)) else none

unfoldable pub ram_ro_define : ℕ → ℕ → ℕ → ℕ → ℕ → Option (StorageArea Memory)
ram_ro_define start ws es size props =
    if sizes_build ws es size then some (Ram.ram_area ws es size props (Ram.ro_api start)) else none

module _ {S : Type 0} (verify : Bool) where
  unfoldable pub eeprom_rw_define : EepromDevice S → ℕ → ℕ → ℕ → ℕ → ℕ → Option (StorageArea S)
  eeprom_rw_define device doffset ws es size props =
      if sizes_build ws es size
      then some (Eeprom.eeprom_area ws es size props (Eeprom.rw_api verify device doffset))
      else none

  unfoldable pub eeprom_ro_define : EepromDevice S → ℕ → ℕ → ℕ → ℕ → ℕ → Option (StorageArea S)
  eeprom_ro_define device doffset ws es size props =
      if sizes_build ws es size
      then some (Eeprom.eeprom_area ws es size props (Eeprom.ro_api verify device doffset))
      else none

  unfoldable pub flash_rw_define :
      FlashDevice S → ℕ → Option ℕ → ℕ → ℕ → ℕ → ℕ → Option (StorageArea S)
  flash_rw_define device doffset xip ws es size props =
      if sizes_build ws es size
      then some (Flash.flash_area ws es size props (Flash.rw_api verify device doffset xip))
      else none

  unfoldable pub flash_ro_define :
      FlashDevice S → ℕ → Option ℕ → ℕ → ℕ → ℕ → ℕ → Option (StorageArea S)
  flash_ro_define device doffset xip ws es size props =
      if sizes_build ws es size
      then some (Flash.flash_area ws es size props (Flash.ro_api verify device doffset xip))
      else none

  unfoldable pub disk_rw_define : DiskDevice S → ℕ → ℕ → ℕ → ℕ → ℕ → ℕ → Option (StorageArea S)
  disk_rw_define device start ssize ws es size props =
      if sizes_build ws es size && ((ssize % ws) == 0)
      then some (Disk.disk_area ws es size props (Disk.rw_api verify device start ssize))
      else none

  unfoldable pub disk_ro_define : DiskDevice S → ℕ → ℕ → ℕ → ℕ → ℕ → ℕ → Option (StorageArea S)
  disk_ro_define device start ssize ws es size props =
      if sizes_build ws es size && ((ssize % ws) == 0)
      then some (Disk.disk_area ws es size props (Disk.ro_api verify device start ssize))
      else none

-- `STORAGE_AREA_STORE`.
unfoldable pub storage_area_store :
    {S : Type 0} → StorageArea S → Option (List ℕ) → ℕ → ℕ → ℕ → ℕ → Store S
storage_area_store area cookie sector_size sector_cnt spare_sectors crc_skip = record {
  area = area;
  sector_cookie = cookie;
  sector_size = sector_size;
  sector_cnt = sector_cnt;
  spare_sectors = spare_sectors;
  crc_skip = crc_skip;
}

-- The data that `STORAGE_AREA_STORE_DEFINE` puts beside the store, 0 before a mount, and the device.
unfoldable pub storage_area_store_define : {S : Type 0} → S → World S
storage_area_store_define dev = record {
  dev = dev;
  sd = record { advance = null; ready = false; sector = 0; loc = 0; wrapcnt = 0 };
}

-- The driver of an area that was built, by its size.
abbrev driver_of : {S : Type 0} → Api S → ℕ → ℕ → Option (Api S)
driver_of api es size = if (size % es) == 0 then some api else none

-- A flash area that the read-write macro builds has the read-write driver if its size is a whole
-- number of erase blocks, and else has none: the build asks for whole write units only.
pub defined-driver_of :
    {S : Type 0} (verify : Bool) (flash : FlashDevice S) (doffset : ℕ) (xip : Option ℕ)
    (ws es size props : ℕ) (a : StorageArea S)
    → flash_rw_define verify flash doffset xip ws es size props ≡ some a
    → a.api ≡ driver_of (Flash.rw_api verify flash doffset xip) es size
unfolding flash_rw_define sizes_build Flash.flash_area
defined-driver_of verify flash doffset xip ws es size props a h = ground arith
