-- ===== src/EepromDisk.antt =====
-- drivers/disk/eepromdisk.c: a disk on an EEPROM.
pub mod Sectors
use zephyr_goodies.Base.{ℕ, Bool, ◌||◌, Option, none, some, List, [], ltb, if◌then◌else◌}
use zephyr_goodies.Errno.{Rc, ok, eio, einval, enotsup}
use zephyr_goodies.Size.{size_add, size_sub, size_mul}
use zephyr_goodies.Eeprom.{EepromDevice}
use zephyr_goodies.Disk.{DiskDevice}

-- `struct eeprom_disk_config`, but for the device.
pub record Config : Type 0 where
  pub sector_size : ℕ
  pub sector_count : ℕ
  pub eeprom_off : ℕ
  pub eeprom_ro : Bool

-- `DISK_IOCTL_...`; `other` is any command that is not listed.
pub data DiskCmd : Type 0 where
  ctrl_sync get_sector_count get_sector_size get_erase_block_sz other : DiskCmd

unfoldable pub lba_to_address : Config → ℕ → ℕ
lba_to_address config lba = size_mul lba config.sector_size

unfoldable pub outside_disk : Config → ℕ → ℕ → Bool
outside_disk config sector count =
    ltb config.sector_count count || ltb (size_sub config.sector_count count) sector

module _ {S : Type 0} (device : EepromDevice S) (config : Config) where
  -- `disk_eeprom_access_init`
  unfoldable pub access_init : S → Rc
  access_init s = ok

  -- `disk_eeprom_access_read`
  unfoldable pub access_read : ℕ → ℕ → S → Rc × List ℕ
  access_read sector count s =
      if outside_disk config sector count
      then (eio, [])
      else device.eeprom_read (size_add config.eeprom_off (lba_to_address config sector))
          (size_mul count config.sector_size) s

  -- `disk_eeprom_access_write`; the bytes are the `count * sector_size` bytes at `buff`.
  unfoldable pub access_write : List ℕ → ℕ → ℕ → S → Rc × S
  access_write bytes sector count s =
      if config.eeprom_ro
      then (enotsup, s)
      else if outside_disk config sector count
      then (eio, s)
      else device.eeprom_write (size_add config.eeprom_off (lba_to_address config sector)) bytes s

  -- `disk_eeprom_access_ioctl`, with what it stores at `buff`
  unfoldable pub access_ioctl : DiskCmd → Rc × Option ℕ
  access_ioctl ctrl_sync = (ok, none)
  access_ioctl get_sector_count = (ok, some config.sector_count)
  access_ioctl get_sector_size = (ok, some config.sector_size)
  access_ioctl get_erase_block_sz = (ok, some 1)
  access_ioctl other = (einval, none)

  unfoldable pub stored : Rc × Option ℕ → Rc × ℕ
  stored (rc, none) = (rc, 0)
  stored (rc, some n) = (rc, n)

  -- `eeprom_disk_ops` behind Zephyr's disk access, which hands each call to the operations of the
  -- disk of that name.
  unfoldable pub eeprom_disk : DiskDevice S
  eeprom_disk = record {
    disk_access_init = access_init;
    get_sector_count = λ s. stored (access_ioctl get_sector_count);
    get_sector_size = λ s. stored (access_ioctl get_sector_size);
    disk_access_read = access_read;
    disk_access_write = access_write;
  }
