-- ===== src/Eeprom.antt =====
-- storage_area_eeprom.c: a storage area on an EEPROM device.
pub mod Medium
use Prim.Native.Nat.{bit_or}
use zephyr_goodies.Base.{
  ℕ, ◌/◌, ◌%◌, Bool, true, false, ◌&&◌, ◌||◌, not, Option, none, some, List, [], ◌∷◌, ltb, ◌==◌,
  if◌then◌else◌, replicate,
}
use zephyr_goodies.Errno.{Rc, ok, enodev, einval, enotsup, is_ok}
use zephyr_goodies.Size.{size_add, size_mul, align_rest}
use zephyr_goodies.Area.{Geometry, Api, StorageArea, IoctlCmd, erasevalue, prop_fovrwrite}
use zephyr_goodies.Writer.{Gather, put_buffers}
use zephyr_goodies.Reader.{read_each, fill_blocks}

-- The calls of Zephyr's EEPROM driver, over the states of the device.
pub record EepromDevice (S : Type 0) : Type 0 where
  pub device_is_ready : S → Bool
  pub eeprom_get_size : S → ℕ
  pub eeprom_read : ℕ → ℕ → S → Rc × List ℕ
  pub eeprom_write : ℕ → List ℕ → S → Rc × S

-- `verify` is CONFIG_STORAGE_AREA_VERIFY; `doffset` is the field of `struct storage_area_eeprom`.
module _ {S : Type 0} (verify : Bool) (device : EepromDevice S) (doffset : ℕ) where
  -- `sa_eeprom_valid`
  pub sa_valid : Geometry → S → Rc
  sa_valid g s =
      let asz = size_mul g.erase_blocks g.erase_size in
      if not (device.device_is_ready s)
      then enodev
      else if verify && ltb (device.eeprom_get_size s) (size_add doffset asz)
      then einval
      else ok

  -- `sa_eeprom_readv`
  pub sa_readv : Geometry → ℕ → List ℕ → S → Rc × List ℕ
  sa_readv g offset iovec s =
      if is_ok (sa_valid g s)
      then read_each device.eeprom_read (size_add doffset offset) iovec s
      else (sa_valid g s, [])

  -- `sa_eeprom_writev`
  pub sa_writev : Geometry → ℕ → List (List ℕ) → S → Rc × S
  sa_writev g offset iovec s =
      let (rc, end) =
        put_buffers device.eeprom_write size_add g.write_size
          (record { pos = size_add doffset offset; pending = []; dev = s }) iovec in
      if is_ok (sa_valid g s) then (rc, end.dev) else (sa_valid g s, s)

  -- `sa_eeprom_erase`
  pub sa_erase : Geometry → ℕ → ℕ → S → Rc × S
  sa_erase g sblk bcnt s =
      let eoff = size_add doffset (size_mul sblk g.erase_size) in
      if is_ok (sa_valid g s)
      then fill_blocks device.eeprom_write g.erase_size (replicate g.erase_size (erasevalue g)) bcnt
          eoff s
      else (sa_valid g s, s)

  -- `sa_eeprom_ioctl`
  unfoldable pub sa_ioctl : Geometry → IoctlCmd → Bool → S → Rc × Option ℕ
  sa_ioctl g cmd has_data s = if is_ok (sa_valid g s) then (enotsup, none) else (sa_valid g s, none)

  -- `storage_area_eeprom_rw_api`
  unfoldable pub rw_api : Api S
  rw_api = record {
    readv = some sa_readv;
    writev = some sa_writev;
    erase = some sa_erase;
    ioctl = some sa_ioctl;
  }

  -- `storage_area_eeprom_ro_api`
  unfoldable pub ro_api : Api S
  ro_api = record { readv = some sa_readv; writev = none; erase = none; ioctl = some sa_ioctl }

-- `STORAGE_AREA_EEPROM`
unfoldable pub eeprom_area : {S : Type 0} → ℕ → ℕ → ℕ → ℕ → Api S → StorageArea S
eeprom_area ws es size props api = record {
  api =
      if ws == 0 || not (align_rest ws ws == 0) || not (es % ws == 0) || not (size % es == 0)
      then none
      else some api;
  geometry = record {
    write_size = ws;
    erase_size = es;
    erase_blocks = size / es;
    props = bit_or props prop_fovrwrite;
  };
}
