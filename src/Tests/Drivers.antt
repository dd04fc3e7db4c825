-- ===== src/Tests/Drivers.antt =====
-- The theorems of the EEPROM, the disk, the EEPROM disk and the shared info drivers, at devices
-- that stand on a memory.
use zephyr_goodies.Base.{
  ℕ, ◌*◌, ◌%◌, ap, sym, subst, ◌/◌, none, not, ◌||◌, replicate, true, false, slice, ◌≡◌, refl, some,
  [], ◌∷◌, Memory, splice, arith,
}
use zephyr_goodies.Errno.{ok, einval}
use zephyr_goodies.Size.{IsPow2}
use zephyr_goodies.Area.{erasevalue, autoerase, fovrwrite, has_property, Geometry, StorageArea}
use zephyr_goodies.Flash
use zephyr_goodies.Flash.{FlashDevice, PagesInfo}
use zephyr_goodies.Flash.Medium.{IsFlash, Flash-IsMedium}
use zephyr_goodies.Medium.{IsSound, IsMedium}
use zephyr_goodies.Eeprom
use zephyr_goodies.Eeprom.{EepromDevice}
use zephyr_goodies.Eeprom.Medium.{IsEeprom, Eeprom-IsMedium}
use zephyr_goodies.Ram.Medium.{region}
use zephyr_goodies.Disk
use zephyr_goodies.Disk.{DiskDevice, IsDisk}
use zephyr_goodies.Disk.Medium.{Disk-IsMedium}
use zephyr_goodies.EepromDisk.{Config, eeprom_disk}
use zephyr_goodies.EepromDisk.Sectors.{EepromDisk-IsDisk}
use zephyr_goodies.SharedInfo.{shared_info_device, shared_info_read, shared_info_prog}
use zephyr_goodies.SharedInfo.Region.{prog-then-read, outside_refused}
use zephyr_goodies.Tests.Setup.{demo_geometry, demo_geometry-IsSound, erased}

-- An EEPROM of 256 bytes.
abbrev demo_eeprom : EepromDevice Memory
demo_eeprom = record {
  device_is_ready = λ s. true;
  eeprom_get_size = λ s. 256;
  eeprom_read = λ off n s. (ok, slice s off n);
  eeprom_write = λ off bytes s. (ok, splice s off bytes);
}

demo_eeprom-IsEeprom : IsEeprom demo_eeprom (λ s. s) (λ _. Unit {0}) 256
demo_eeprom-IsEeprom = record {
  ready = λ s i. refl;
  sized = λ s i. refl;
  small = omega arith;
  reads = λ off n s i h. refl;
  writes = λ off bytes s i h. (refl, refl, tt);
}

abbrev eeprom_demo_area : StorageArea Memory
eeprom_demo_area = record {
  api = some (Eeprom.rw_api true demo_eeprom 16);
  geometry = demo_geometry;
}

Eeprom-IsMedium_example : IsMedium eeprom_demo_area (region 16) (λ _. Unit {0})
Eeprom-IsMedium_example =
    Eeprom-IsMedium true demo_eeprom 16 (λ s. s) (λ _. Unit {0}) 256 demo_eeprom-IsEeprom
      eeprom_demo_area refl demo_geometry-IsSound (omega arith)

-- A disk of 10 sectors of 16 bytes on it.
abbrev demo_config : Config
demo_config = record { sector_size = 16; sector_count = 10; eeprom_off = 32; eeprom_ro = false }

sixteen-IsPow2 : IsPow2 16
sixteen-IsPow2 = (4, omega arith, refl)

EepromDisk-IsDisk_example :
    IsDisk (eeprom_disk demo_eeprom demo_config) (region 32) (λ _. Unit {0}) 10 16
EepromDisk-IsDisk_example =
    EepromDisk-IsDisk demo_eeprom demo_config (λ s. s) (λ _. Unit {0}) 256 demo_eeprom-IsEeprom
      sixteen-IsPow2 refl (omega arith)

demo_drive-IsDisk : IsDisk (eeprom_disk demo_eeprom demo_config) (region 32) (λ _. Unit {0}) 10 16
demo_drive-IsDisk =
    EepromDisk-IsDisk demo_eeprom demo_config (λ s. s) (λ _. Unit {0}) 256 demo_eeprom-IsEeprom
      sixteen-IsPow2 refl (omega arith)

-- An area of two erase blocks from its second sector on.
abbrev disk_geometry : Geometry
disk_geometry = record { write_size = 16; erase_size = 64; erase_blocks = 2; props = 1 }

disk_geometry-IsSound : IsSound disk_geometry
disk_geometry-IsSound = record {
  unit = sixteen-IsPow2;
  erasable = omega arith;
  blocks = refl;
  small = omega arith;
}

abbrev disk_demo_area : StorageArea Memory
disk_demo_area = record {
  api = some (Disk.rw_api true (eeprom_disk demo_eeprom demo_config) 1 16);
  geometry = disk_geometry;
}

Disk-IsMedium_example : IsMedium disk_demo_area (λ s. region 16 (region 32 s)) (λ _. Unit {0})
Disk-IsMedium_example =
    Disk-IsMedium true (eeprom_disk demo_eeprom demo_config) 1 16 (region 32) (λ _. Unit {0}) 10
      demo_drive-IsDisk disk_demo_area refl disk_geometry-IsSound refl refl (omega arith)

prog-then-read_example :
    let device = shared_info_device 100 16 in
    let (rc, s') = shared_info_prog device 4 (7 ∷ 8 ∷ 9 ∷ []) erased in
    (rc ≡ ok)
    × (shared_info_read device 4 3 s' ≡ (ok, 7 ∷ 8 ∷ 9 ∷ []))
    × (shared_info_read device 10 2 s' ≡ shared_info_read device 10 2 erased)
    × (s' 99 ≡ erased 99)
prog-then-read_example =
    prog-then-read 100 16 (omega arith) 4 10 2 99 (7 ∷ 8 ∷ 9 ∷ []) erased (omega arith)
      (omega arith) (omega arith) (omega arith)

outside_refused_example :
    let device = shared_info_device 100 16 in
    (shared_info_read device 14 3 erased ≡ (einval, []))
    × (shared_info_prog device 14 (7 ∷ 8 ∷ 9 ∷ []) erased ≡ (einval, erased))
outside_refused_example =
    outside_refused 100 16 (omega arith) 14 3 (7 ∷ 8 ∷ 9 ∷ []) erased (omega arith) (omega arith)
      refl

-- A flash of 256 bytes in pages of 32, which takes single bytes.
abbrev demo_flash : FlashDevice Memory
demo_flash = record {
  device_is_ready = λ s. true;
  has_parameters = λ s. true;
  flash_get_write_block_size = λ s. 1;
  flash_get_page_info_by_offs = λ off s. (ok, record { start_offset = off / 32 * 32; size = 32 });
  flash_read = λ off n s. (ok, slice s off n);
  flash_write = λ off bytes s. (ok, splice s off bytes);
  flash_erase = λ off n s. (ok, splice s off (replicate n 0));
}

page_start : (off : ℕ) → off % 32 ≡ 0 → off / 32 * 32 ≡ off
page_start off h = omega arith

demo_flash-IsFlash : IsFlash demo_flash (λ s. s) (λ _. Unit {0}) 256 32 0
demo_flash-IsFlash = record {
  ready = λ s i. refl;
  known = λ s i. refl;
  by_bytes = λ s i. refl;
  page_unit = (5, omega arith, refl);
  small = omega arith;
  pages = λ off s i h unit.
      ap (λ k. (ok, record { start_offset = k; size = 32 })) (page_start off unit);
  reads = λ off n s i h. refl;
  writes = λ off bytes s i h. (refl, refl, tt);
  erases = λ off n s i u v h. (refl, refl, tt);
}

abbrev flash_demo_area : StorageArea Memory
flash_demo_area = record {
  api = some (Flash.rw_api true demo_flash 32 none);
  geometry = demo_geometry;
}

demo_fill : erasevalue demo_geometry ≡ 0
unfolding erasevalue has_property
demo_fill = refl

demo_direct : (not (autoerase demo_geometry) || fovrwrite demo_geometry) ≡ true
unfolding autoerase fovrwrite has_property
demo_direct = refl

Flash-IsMedium_example : IsMedium flash_demo_area (region 32) (λ _. Unit {0})
Flash-IsMedium_example =
    Flash-IsMedium true demo_flash 32 none (λ s. s) (λ _. Unit {0}) 256 32 flash_demo_area
      (subst (IsFlash demo_flash (λ s. s) (λ _. Unit {0}) 256 32) (sym demo_fill)
        demo_flash-IsFlash)
      refl demo_geometry-IsSound demo_direct (omega arith) refl refl
