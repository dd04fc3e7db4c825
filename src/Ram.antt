-- ===== src/Ram.antt =====
-- storage_area_ram.c: a storage area on a memory region. The state of the device is the memory of
-- the machine, with 32-bit addresses; `start` is the field of `struct storage_area_ram` that
-- CONTAINER_OF gives the driver.
pub mod Medium
pub mod Returns
use Prim.Native.Nat.{bit_or}
use zephyr_goodies.Base.{
  ℕ, ◌*◌, ◌%◌, Bool, true, false, ◌||◌, not, Option, none, some, List, [], ◌∷◌, ◌++◌, ◌==◌,
  if◌then◌else◌, Memory, slice, splice, replicate, ◌/◌,
}
use zephyr_goodies.Errno.{Rc, ok, einval, enotsup}
use zephyr_goodies.Size.{size_add, size_mul, align_rest}
use zephyr_goodies.Area.{
  Geometry, Api, StorageArea, IoctlCmd, ioctl_none, xipaddress, erasevalue, prop_fovrwrite,
  prop_zeroerase,
}
use zephyr_goodies.Writer.{Gather, put_buffers}

-- The loop of `sa_ram_readv`.
unfoldable pub read_buffers : ℕ → List ℕ → Memory → List ℕ
read_buffers rd [] s = []
read_buffers rd (n ∷ ns) s = slice s rd n ++ read_buffers (size_add rd n) ns s

-- `memcpy(wr, ...)`
copy_run : ℕ → List ℕ → Memory → Rc × Memory
copy_run wr run s = (ok, splice s wr run)

module _ (start : ℕ) where
  -- `sa_ram_readv`
  unfoldable pub sa_readv : Geometry → ℕ → List ℕ → Memory → Rc × List ℕ
  sa_readv g offset iovec s = (ok, read_buffers (size_add start offset) iovec s)

  -- `sa_ram_writev`
  pub sa_writev : Geometry → ℕ → List (List ℕ) → Memory → Rc × Memory
  sa_writev g offset iovec s =
      let (rc, end) =
        put_buffers copy_run size_add g.write_size
          (record { pos = size_add start offset; pending = []; dev = s }) iovec in
      (rc, end.dev)

  -- `sa_ram_erase`
  pub sa_erase : Geometry → ℕ → ℕ → Memory → Rc × Memory
  sa_erase g sblk bcnt s =
      let wr = size_add start (size_mul sblk g.erase_size) in
      (ok, splice s wr (replicate (size_mul bcnt g.erase_size) (erasevalue g)))

  -- `sa_ram_ioctl`
  unfoldable pub sa_ioctl : Geometry → IoctlCmd → Bool → Memory → Rc × Option ℕ
  sa_ioctl g xipaddress has_data s = if not has_data then (einval, none) else (ok, some start)
  sa_ioctl g ioctl_none has_data s = (enotsup, none)

  -- `storage_area_ram_rw_api`
  unfoldable pub rw_api : Api Memory
  rw_api = record {
    readv = some sa_readv;
    writev = some sa_writev;
    erase = some sa_erase;
    ioctl = some sa_ioctl;
  }

  -- `storage_area_ram_ro_api`
  unfoldable pub ro_api : Api Memory
  ro_api = record { readv = some sa_readv; writev = none; erase = none; ioctl = some sa_ioctl }

-- `STORAGE_AREA_RAM`: no driver stands behind an area whose sizes do not fit together.
unfoldable pub ram_area : ℕ → ℕ → ℕ → ℕ → Api Memory → StorageArea Memory
ram_area ws es size props api = record {
  api =
      if ws == 0 || not (align_rest ws ws == 0) || not (es % ws == 0) || not (size % es == 0)
      then none
      else some api;
  geometry = record {
    write_size = ws;
    erase_size = es;
    erase_blocks = size / es;
    props = bit_or (bit_or props prop_fovrwrite) prop_zeroerase;
  };
}
