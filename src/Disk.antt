-- ===== src/Disk.antt =====
-- storage_area_disk.c: a storage area on a disk.

pub mod Reads
pub mod Medium
use Prim.Native.Nat.{bit_or}
use zephyr_goodies.Base.{
  ◌+◌, Memory, slice, splice, ◌*◌, ◌≤◌, ◌<◌, ◌≡◌, ℕ, zero, suc, ◌/◌, ◌%◌, min, Bool, ◌&&◌, ◌||◌,
  not, Option, none, some, List, [], ◌∷◌, ◌++◌, ltb, ◌==◌, if◌then◌else◌, length, take, drop,
  replicate,
}
use zephyr_goodies.Errno.{Rc, ok, einval, enotsup, out_of_fuel, is_ok}
use zephyr_goodies.Size.{size_mod, IsPow2, size_add, size_sub, size_mul, align_rest}
use zephyr_goodies.Area.{Geometry, Api, StorageArea, IoctlCmd, erasevalue, prop_fovrwrite}
use zephyr_goodies.Writer.{put_buffers}
use zephyr_goodies.Reader.{fill_blocks}

-- The calls of Zephyr's disk access, over the states of the disk. What `disk_access_init` changes
-- is not kept.
pub record DiskDevice (S : Type 0) : Type 0 where
  pub disk_access_init : S → Rc
  pub get_sector_count : S → Rc × ℕ
  pub get_sector_size : S → Rc × ℕ
  pub disk_access_read : ℕ → ℕ → S → Rc × List ℕ
  pub disk_access_write : List ℕ → ℕ → ℕ → S → Rc × S

-- What disk access documents of a disk of `scount` sectors of `ssize` bytes: inside the disk it is a
-- byte memory that is read and written by sectors.
pub record IsDisk {S : Type 0} (device : DiskDevice S) (view : S → Memory) (Inv : S → Type 0)
    (scount ssize : ℕ) : Type 0 where
  pub ready : (s : S) → Inv s → device.disk_access_init s ≡ ok
  pub counts : (s : S) → Inv s → device.get_sector_count s ≡ (ok, scount)
  pub sizes : (s : S) → Inv s → device.get_sector_size s ≡ (ok, ssize)
  pub small : scount * ssize < size_mod
  pub unit : IsPow2 ssize
  pub reads :
      (sector count : ℕ) (s : S)
      → Inv s
      → sector + count ≤ scount
      → device.disk_access_read sector count s
        ≡ (ok, slice (view s) (sector * ssize) (count * ssize))
  pub writes :
      (bytes : List ℕ) (sector count : ℕ) (s : S)
      → Inv s
      → length bytes ≡ count * ssize
      → sector + count ≤ scount
      → let r = device.disk_access_write bytes sector count s in
        (r.0 ≡ ok) × (view r.1 ≡ splice (view s) (sector * ssize) bytes) × Inv r.1

-- The variables of `sa_disk_readv`.
pub record Cursor : Type 0 where
  pub rc : Rc
  pub buf : List ℕ
  pub bpos : ℕ
  pub starts : ℕ

-- `verify` is CONFIG_STORAGE_AREA_VERIFY; `start` and `ssize` are the fields of `struct
-- storage_area_disk`.
module _ {S : Type 0} (verify : Bool) (device : DiskDevice S) (start ssize : ℕ) where
  -- The checks of `sa_disk_valid` of the sizes that the disk reports.
  unfoldable pub check_sizes : Geometry → ℕ → ℕ → Rc
  check_sizes g scount size =
      let asz = size_mul g.erase_blocks g.erase_size in
      let esz = size_mul scount size in
      if not (ssize == size)
      then einval
      else if ltb esz (size_add (size_mul start size) asz)
      then einval
      else if not (align_rest g.write_size size == 0)
      then einval
      else if not (align_rest g.erase_size size == 0)
      then einval
      else ok

  -- `sa_disk_valid`
  unfoldable pub sa_valid : Geometry → S → Rc
  sa_valid g s =
      let (rc, scount) = device.get_sector_count s in
      let (rc', size) = device.get_sector_size s in
      if not (is_ok (device.disk_access_init s))
      then device.disk_access_init s
      else if not verify
      then ok
      else if not (is_ok rc)
      then einval
      else if not (is_ok rc')
      then einval
      else check_sizes g scount size

  -- The `while` of `sa_disk_readv`. An error leaves it, and not the loop around it. A round takes a
  -- byte, or reads again behind an error.
  unfoldable pub read_buffer : ℕ → ℕ → Cursor → S → Cursor × List ℕ
  read_buffer zero blen c s = (record c { rc = out_of_fuel }, [])
  read_buffer (suc fuel) blen c s =
      let cplen = min blen (size_sub ssize c.bpos) in
      let bytes = take cplen (drop c.bpos c.buf) in
      let bpos = size_add c.bpos cplen in
      let starts = size_add c.starts 1 in
      let (rc, buf) = device.disk_access_read starts 1 s in
      let (next, more) =
        read_buffer fuel (size_sub blen cplen)
          (if bpos == ssize
            then record { rc = rc; buf = buf; bpos = 0; starts = starts }
            else record c { bpos = bpos })
          s in
      if blen == 0
      then (c, [])
      else if bpos == ssize && not (is_ok rc)
      then (record { rc = rc; buf = buf; bpos = bpos; starts = starts }, bytes)
      else (next, bytes ++ more)

  unfoldable pub read_buffers : List ℕ → Cursor → S → Cursor × List ℕ
  read_buffers [] c s = (c, [])
  read_buffers (n ∷ ns) c s =
      let (c, bytes) = read_buffer (suc (suc n)) n c s in
      let (c, more) = read_buffers ns c s in (c, bytes ++ more)

  -- `sa_disk_readv`
  unfoldable pub sa_readv : Geometry → ℕ → List ℕ → S → Rc × List ℕ
  sa_readv g offset iovec s =
      let starts = size_add (offset / ssize) start in
      let (rc, buf) = device.disk_access_read starts 1 s in
      let (c, bytes) =
        read_buffers iovec (record { rc = rc; buf = buf; bpos = offset % ssize; starts = starts })
          s in
      if not (is_ok (sa_valid g s))
      then (sa_valid g s, [])
      else if not (is_ok rc)
      then (rc, [])
      else (c.rc, bytes)

  -- A run of whole write units, in sectors.
  unfoldable pub put_sectors : ℕ → List ℕ → S → Rc × S
  put_sectors starts run s = device.disk_access_write run starts (length run / ssize) s

  unfoldable pub step_sectors : ℕ → ℕ → ℕ
  step_sectors starts n = size_add starts (n / ssize)

  -- `sa_disk_writev`
  unfoldable pub sa_writev : Geometry → ℕ → List (List ℕ) → S → Rc × S
  sa_writev g offset iovec s =
      let (rc, end) =
        put_buffers put_sectors step_sectors g.write_size
          (record { pos = size_add (offset / ssize) start; pending = []; dev = s }) iovec in
      if is_ok (sa_valid g s) then (rc, end.dev) else (sa_valid g s, s)

  -- `sa_disk_erase`
  unfoldable pub sa_erase : Geometry → ℕ → ℕ → S → Rc × S
  sa_erase g sblk bcnt s =
      let spws = g.erase_size / ssize in
      let starts = size_add start (size_mul sblk spws) in
      let buf = replicate g.erase_size (erasevalue g) in
      if is_ok (sa_valid g s)
      then fill_blocks (λ pos bytes s. device.disk_access_write bytes pos spws s) spws buf bcnt
          starts s
      else (sa_valid g s, s)

  -- `sa_disk_ioctl`
  unfoldable pub sa_ioctl : Geometry → IoctlCmd → Bool → S → Rc × Option ℕ
  sa_ioctl g cmd has_data s = if is_ok (sa_valid g s) then (enotsup, none) else (sa_valid g s, none)

  -- `storage_area_disk_rw_api`
  unfoldable pub rw_api : Api S
  rw_api = record {
    readv = some sa_readv;
    writev = some sa_writev;
    erase = some sa_erase;
    ioctl = some sa_ioctl;
  }

  -- `storage_area_disk_ro_api`
  unfoldable pub ro_api : Api S
  ro_api = record { readv = some sa_readv; writev = none; erase = none; ioctl = some sa_ioctl }

-- `STORAGE_AREA_DISK`
unfoldable pub disk_area : {S : Type 0} → ℕ → ℕ → ℕ → ℕ → Api S → StorageArea S
disk_area ws es size props api = record {
  api =
      if ws == 0 || not (align_rest ws ws == 0) || not (es % ws == 0) || not (size % es == 0)
      then none
      else some api;
  geometry = record {
    write_size = ws;
    erase_size = es;
    erase_blocks = size / es;
    props = bit_or props prop_fovrwrite;
  };
}
