-- ===== src/Flash.antt =====
-- storage_area_flash.c: a storage area on a flash device.
pub mod Medium
use zephyr_goodies.Base.{
  ℕ, zero, suc, ◌+◌, ◌/◌, ◌%◌, min, Bool, ◌||◌, not, Option, none, some, List, [], ◌==◌,
  if◌then◌else◌, length, take, drop,
}
use zephyr_goodies.Errno.{Rc, ok, enodev, einval, enotsup, out_of_fuel, is_ok}
use zephyr_goodies.Size.{size_add, size_sub, size_mul, align_rest}
use zephyr_goodies.Area.{
  Geometry, Api, StorageArea, IoctlCmd, ioctl_none, xipaddress, fovrwrite, autoerase,
}
use zephyr_goodies.Writer.{put_buffers}
use zephyr_goodies.Reader.{read_each}

-- `struct flash_pages_info`, as far as it is looked at.
pub record PagesInfo : Type 0 where
  pub start_offset : ℕ
  pub size : ℕ

-- The calls of Zephyr's flash driver, over the states of the device; `has_parameters` is that
-- `flash_get_parameters` does not return NULL.
pub record FlashDevice (S : Type 0) : Type 0 where
  pub device_is_ready : S → Bool
  pub has_parameters : S → Bool
  pub flash_get_write_block_size : S → ℕ
  pub flash_get_page_info_by_offs : ℕ → S → Rc × PagesInfo
  pub flash_read : ℕ → ℕ → S → Rc × List ℕ
  pub flash_write : ℕ → List ℕ → S → Rc × S
  pub flash_erase : ℕ → ℕ → S → Rc × S

-- `verify` is CONFIG_STORAGE_AREA_VERIFY; `doffset` and `xip_address` are the fields of `struct
-- storage_area_flash`, `none` for STORAGE_AREA_FLASH_NO_XIP.
module _ {S : Type 0} (verify : Bool) (device : FlashDevice S) (doffset : ℕ)
    (xip_address : Option ℕ) where
  -- The loop over the erase blocks of `sa_flash_valid`, from block `i` on.
  unfoldable pub check_pages : ℕ → ℕ → Geometry → S → Rc
  check_pages zero i g s = ok
  check_pages (suc left) i g s =
      let off = size_add doffset (size_mul i g.erase_size) in
      let (rc, info) = device.flash_get_page_info_by_offs off s in
      let rest = check_pages left (i + 1) g s in
      if not (is_ok rc)
      then einval
      else if not (info.start_offset == off) || not (align_rest g.erase_size info.size == 0)
      then einval
      else rest

  -- `sa_flash_valid`
  unfoldable pub sa_valid : Geometry → S → Rc
  sa_valid g s =
      if not (device.device_is_ready s)
      then enodev
      else if not verify
      then ok
      else if not (device.has_parameters s)
      then einval
      else if not (align_rest g.write_size (device.flash_get_write_block_size s) == 0)
      then einval
      else check_pages g.erase_blocks 0 g s

  -- `sa_flash_readv`
  unfoldable pub sa_readv : Geometry → ℕ → List ℕ → S → Rc × List ℕ
  sa_readv g offset iovec s =
      if is_ok (sa_valid g s)
      then read_each device.flash_read (size_add doffset offset) iovec s
      else (sa_valid g s, [])

  -- The loop of `sa_flash_write`: a block is erased when the write comes to its start. A round takes
  -- at least one byte.
  unfoldable pub erase_and_write : ℕ → Geometry → ℕ → List ℕ → S → Rc × S
  erase_and_write zero g wroff bytes s = (out_of_fuel, s)
  erase_and_write (suc fuel) g wroff bytes s =
      let esz = g.erase_size in
      let within = align_rest wroff esz in
      let wrlen = min (size_sub esz within) (length bytes) in
      let (rc, erased) = if within == 0 then device.flash_erase wroff esz s else (ok, s) in
      let (rc', written) = device.flash_write wroff (take wrlen bytes) erased in
      let rest = erase_and_write fuel g (size_add wroff wrlen) (drop wrlen bytes) written in
      if length bytes == 0
      then (ok, s)
      else if not (is_ok rc)
      then (rc, erased)
      else if is_ok rc'
      then rest
      else (rc', written)

  -- `sa_flash_write`
  unfoldable pub sa_write : Geometry → ℕ → List ℕ → S → Rc × S
  sa_write g offset bytes s =
      let wroff = size_add doffset offset in
      if not (autoerase g) || fovrwrite g
      then device.flash_write wroff bytes s
      else erase_and_write (suc (length bytes)) g wroff bytes s

  -- `sa_flash_writev`
  unfoldable pub sa_writev : Geometry → ℕ → List (List ℕ) → S → Rc × S
  sa_writev g offset iovec s =
      let (rc, end) =
        put_buffers (sa_write g) size_add g.write_size
          (record { pos = offset; pending = []; dev = s }) iovec in
      if is_ok (sa_valid g s) then (rc, end.dev) else (sa_valid g s, s)

  -- `sa_flash_erase`
  unfoldable pub sa_erase : Geometry → ℕ → ℕ → S → Rc × S
  sa_erase g sblk bcnt s =
      let eoff = size_add doffset (size_mul sblk g.erase_size) in
      let esize = size_mul bcnt g.erase_size in
      if is_ok (sa_valid g s) then device.flash_erase eoff esize s else (sa_valid g s, s)

  unfoldable pub answer : IoctlCmd → Bool → Option ℕ → Rc × Option ℕ
  answer xipaddress has_data none = if not has_data then (einval, none) else (enotsup, none)
  answer xipaddress has_data (some x) = if not has_data then (einval, none) else (ok, some x)
  answer ioctl_none has_data xip = (enotsup, none)

  -- `sa_flash_ioctl`
  unfoldable pub sa_ioctl : Geometry → IoctlCmd → Bool → S → Rc × Option ℕ
  sa_ioctl g cmd has_data s =
      if is_ok (sa_valid g s) then answer cmd has_data xip_address else (sa_valid g s, none)

  -- `storage_area_flash_rw_api`
  unfoldable pub rw_api : Api S
  rw_api = record {
    readv = some sa_readv;
    writev = some sa_writev;
    erase = some sa_erase;
    ioctl = some sa_ioctl;
  }

  -- `storage_area_flash_ro_api`
  unfoldable pub ro_api : Api S
  ro_api = record { readv = some sa_readv; writev = none; erase = none; ioctl = some sa_ioctl }

-- `STORAGE_AREA_FLASH`
unfoldable pub flash_area : {S : Type 0} → ℕ → ℕ → ℕ → ℕ → Api S → StorageArea S
flash_area ws es size props api = record {
  api =
      if ws == 0 || not (align_rest ws ws == 0) || not (es % ws == 0) || not (size % es == 0)
      then none
      else some api;
  geometry = record { write_size = ws; erase_size = es; erase_blocks = size / es; props = props };
}
