-- ===== src/Area.antt =====
-- storage_area.c: the calls of a storage area, which check their arguments and go on to the
-- driver behind `area->api`.
pub mod Checks
pub mod Returns
use zephyr_goodies.Base.{
  ℕ, Bool, true, false, ◌||◌, not, Option, none, some, List, [], ◌∷◌, ltb, ◌==◌, if◌then◌else◌,
  length,
}
use Prim.Native.Nat.{bit_and}
use zephyr_goodies.Errno.{Rc, einval, enotsup}
use zephyr_goodies.Size.{size_add, size_sub, size_mul, align_rest}

-- The constants of `struct storage_area`.
pub record Geometry : Type 0 where
  pub write_size : ℕ
  pub erase_size : ℕ
  pub erase_blocks : ℕ
  pub props : ℕ

-- `STORAGE_AREA_PROP_...`
abbrev pub prop_fovrwrite : ℕ
prop_fovrwrite = 1

abbrev pub prop_lovrwrite : ℕ
prop_lovrwrite = 2

abbrev pub prop_zeroerase : ℕ
prop_zeroerase = 4

abbrev pub prop_autoerase : ℕ
prop_autoerase = 8

unfoldable pub has_property : Geometry → ℕ → Bool
has_property g prop = bit_and g.props prop == prop

unfoldable pub fovrwrite : Geometry → Bool
fovrwrite g = has_property g prop_fovrwrite

unfoldable pub lovrwrite : Geometry → Bool
lovrwrite g = has_property g prop_lovrwrite

unfoldable pub autoerase : Geometry → Bool
autoerase g = has_property g prop_autoerase

unfoldable pub erasevalue : Geometry → ℕ
erasevalue g = if has_property g prop_zeroerase then 0x00 else 0xff

pub data IoctlCmd : Type 0 where
  ioctl_none xipaddress : IoctlCmd

-- `struct storage_area_api` over the states `S` of a device. A read takes the lengths of the
-- buffers and returns what they hold afterwards, one after the other; a write takes the
-- contents of the buffers; an ioctl takes whether `data` is there and returns what it stores.
pub record Api (S : Type 0) : Type 0 where
  pub readv : Option (Geometry → ℕ → List ℕ → S → Rc × List ℕ)
  pub writev : Option (Geometry → ℕ → List (List ℕ) → S → Rc × S)
  pub erase : Option (Geometry → ℕ → ℕ → S → Rc × S)
  pub ioctl : Option (Geometry → IoctlCmd → Bool → S → Rc × Option ℕ)

pub record StorageArea (S : Type 0) : Type 0 where
  pub api : Option (Api S)
  pub geometry : Geometry

-- The lengths of the buffers of an iovec.
abbrev pub lengths : List (List ℕ) → List ℕ
lengths [] = []
lengths (b ∷ bs) = length b ∷ lengths bs

-- `sa_iovec_size`
unfoldable pub iovec_size_from : ℕ → List ℕ → ℕ
iovec_size_from rv [] = rv
iovec_size_from rv (n ∷ ns) = iovec_size_from (size_add rv n) ns

unfoldable pub iovec_size : List ℕ → ℕ
iovec_size iovec = iovec_size_from 0 iovec

unfoldable pub range_valid : Geometry → ℕ → ℕ → Bool
range_valid g offset len =
    let asize = size_mul g.erase_size g.erase_blocks in
    if ltb offset 0 || ltb asize len || ltb (size_sub asize len) offset then false else true

module _ {S : Type 0} where
  abbrev api_of : Option (StorageArea S) → Option (Api S)
  api_of none = none
  api_of (some a) = a.api

  unfoldable pub call_readv :
      Option (Geometry → ℕ → List ℕ → S → Rc × List ℕ) → Geometry → ℕ → List ℕ → S → Rc × List ℕ
  call_readv none g offset iovec s = (enotsup, [])
  call_readv (some f) g offset iovec s =
      let len = iovec_size iovec in
      if not (range_valid g offset len) then (einval, []) else f g offset iovec s

  -- `storage_area_readv`; the pointers are checked first
  unfoldable pub readv : Option (StorageArea S) → ℕ → List ℕ → S → Rc × List ℕ
  readv none offset iovec s = (enotsup, [])
  readv (some a) offset iovec s = elim a.api [
    | none ↦ (enotsup, [])
    | some api ↦ call_readv api.readv a.geometry offset iovec s
  ]

  -- `storage_area_read`
  unfoldable read : Option (StorageArea S) → ℕ → ℕ → S → Rc × List ℕ
  read area offset len s = readv area offset (len ∷ []) s

  call_writev :
      Option (Geometry → ℕ → List (List ℕ) → S → Rc × S) → Geometry → ℕ → List (List ℕ) → S → Rc × S
  call_writev none g offset iovec s = (enotsup, s)
  call_writev (some f) g offset iovec s =
      let len = iovec_size (lengths iovec) in
      if not (range_valid g offset len) || not (align_rest len g.write_size == 0)
      then (einval, s)
      else f g offset iovec s

  -- `storage_area_writev`
  pub writev : Option (StorageArea S) → ℕ → List (List ℕ) → S → Rc × S
  writev none offset iovec s = (enotsup, s)
  writev (some a) offset iovec s = elim a.api [
    | none ↦ (enotsup, s)
    | some api ↦ call_writev api.writev a.geometry offset iovec s
  ]

  -- `storage_area_write`
  unfoldable write : Option (StorageArea S) → ℕ → List ℕ → S → Rc × S
  write area offset bytes s = writev area offset (bytes ∷ []) s

  call_erase : Option (Geometry → ℕ → ℕ → S → Rc × S) → Geometry → ℕ → ℕ → S → Rc × S
  call_erase none g sblk bcnt s = (enotsup, s)
  call_erase (some f) g sblk bcnt s =
      let ablocks = g.erase_blocks in
      if ltb ablocks bcnt || ltb (size_sub ablocks bcnt) sblk then (einval, s) else f g sblk bcnt s

  -- `storage_area_erase`
  pub erase : Option (StorageArea S) → ℕ → ℕ → S → Rc × S
  erase none sblk bcnt s = (enotsup, s)
  erase (some a) sblk bcnt s = elim a.api [
    | none ↦ (enotsup, s)
    | some api ↦ call_erase api.erase a.geometry sblk bcnt s
  ]

  unfoldable call_ioctl :
      Option (Geometry → IoctlCmd → Bool → S → Rc × Option ℕ)
      → Geometry
      → IoctlCmd
      → Bool
      → S
      → Rc × Option ℕ
  call_ioctl none g cmd has_data s = (enotsup, none)
  call_ioctl (some f) g cmd has_data s = f g cmd has_data s

  -- `storage_area_ioctl`
  unfoldable ioctl : Option (StorageArea S) → IoctlCmd → Bool → S → Rc × Option ℕ
  ioctl none cmd has_data s = (enotsup, none)
  ioctl (some a) cmd has_data s = elim a.api [
    | none ↦ (enotsup, none)
    | some api ↦ call_ioctl api.ioctl a.geometry cmd has_data s
  ]
