-- ===== src/Eeprom/Medium.antt =====
-- An area on an EEPROM that keeps what its driver documents is a byte memory.
use native.Mathlib.Nat.{mod-eq_of_lt}
use zephyr_goodies.Base.{
  ℕ, ◌+◌, ◌*◌, ◌%◌, ◌≤◌, ◌<◌, ◌≡◌, refl, ap, ◌∙◌, Bool, true, false, some, List, flatten, length,
  replicate, ltb, le→leb, le→ltb_false, eq→==, Memory, slice, splice, arith,
}
use zephyr_goodies.Errno.{ok}
use zephyr_goodies.Size.{size_mod, size_add, size_mul}
use zephyr_goodies.Area.{Api, StorageArea, erasevalue}
use zephyr_goodies.Area.Checks.{readv_checked, writev_checked, erase_checked}
use zephyr_goodies.Medium.{total, area_size, blocks_small, blocks_inside, IsSound, IsMedium}
use zephyr_goodies.Writer.Runs.{Emits, put_buffers_whole}
use zephyr_goodies.Reader.Runs.{Reads, Writes, read_each-slice, fill_blocks-splice}
use zephyr_goodies.Ram.Medium.{region, slice-region, splice-region}
use zephyr_goodies.Eeprom.{EepromDevice, sa_valid, sa_readv, sa_writev, sa_erase, rw_api}

-- What the driver documents of a device of `size` bytes: once ready it stays ready and keeps its
-- size, and inside the size it is a byte memory.
pub record IsEeprom {S : Type 0} (device : EepromDevice S) (view : S → Memory) (Inv : S → Type 0)
    (size : ℕ) : Type 0 where
  pub ready : (s : S) → Inv s → device.device_is_ready s ≡ true
  pub sized : (s : S) → Inv s → device.eeprom_get_size s ≡ size
  pub small : size < size_mod
  pub reads : Reads view Inv size small device.eeprom_read
  pub writes : Writes view Inv size small device.eeprom_write

module _ {S : Type 0} (verify : Bool) (device : EepromDevice S) (doffset : ℕ) (view : S → Memory)
    (Inv : S → Type 0) (size : ℕ) (laws : IsEeprom device view Inv size) (a : StorageArea S)
    (driver : a.api ≡ some (rw_api verify device doffset)) (sound : IsSound a.geometry)
    (placed : doffset + area_size a.geometry ≤ size) where
  valid_lem : (s : S) → Inv s → sa_valid verify device doffset a.geometry s ≡ ok
  unfolding sa_valid
  valid_lem s i =
      let asz : size_mul a.geometry.erase_blocks a.geometry.erase_size ≡ area_size a.geometry =
        mod-eq_of_lt (omega (arith, sound.small)) ∙ omega arith in
      let big : ltb (device.eeprom_get_size s) (size_add doffset (area_size a.geometry)) ≡ false =
        le→ltb_false _ _ (omega (arith, laws.sized s i, laws.small)) in
      rw (laws.ready s i, asz, big) (ground arith)

  emits : Emits device.eeprom_write size_add a.geometry.write_size view Inv (λ p. p) size
  emits = record {
    emitted = λ pos run s i whole fits. laws.writes pos run s i fits;
    stepped = λ pos n whole fits. mod-eq_of_lt (omega (arith, laws.small));
  }

  -- Reads inside the area.
  sa_readv_lem :
      (offset : ℕ) (iovec : List ℕ) (s : S)
      → Inv s
      → offset + total iovec ≤ area_size a.geometry
      → sa_readv verify device doffset a.geometry offset iovec s
        ≡ (ok, slice (region doffset (view s)) offset (total iovec))
  unfolding sa_readv
  sa_readv_lem offset iovec s i fits =
      let e : size_add doffset offset ≡ doffset + offset = omega (arith, laws.small) in
      rw
        (
          valid_lem s i,
          e,
          read_each-slice view Inv size laws.small device.eeprom_read iovec (doffset + offset) s
              laws.reads i (omega arith),
        )
        (ap (λ l. (ok, l)) (slice-region doffset (view s) offset (total iovec)))

  -- Writes of whole units inside the area.
  sa_writev_lem :
      (offset : ℕ) (iovec : List (List ℕ)) (s : S)
      → Inv s
      → length (flatten iovec) % a.geometry.write_size ≡ 0
      → offset + length (flatten iovec) ≤ area_size a.geometry
      → let r = sa_writev verify device doffset a.geometry offset iovec s in
        (r.0 ≡ ok)
        × (region doffset (view r.1) ≡ splice (region doffset (view s)) offset (flatten iovec))
        × Inv r.1
  unfolding sa_writev
  sa_writev_lem offset iovec s i whole fits =
      let e : size_add doffset offset ≡ doffset + offset = omega (arith, laws.small) in
      let w =
        put_buffers_whole device.eeprom_write size_add a.geometry.write_size view Inv (λ p. p) size
          sound.unit emits iovec (doffset + offset) s i (omega (arith, laws.small)) whole
          (omega arith) in
      rw (valid_lem s i, e)
        (
          w.0,
          ap (region doffset) (w.1) ∙ splice-region doffset (view s) offset (flatten iovec),
          w.2,
        )

  -- Erases of blocks of the area.
  sa_erase_lem :
      (sblk bcnt : ℕ) (s : S)
      → Inv s
      → sblk + bcnt ≤ a.geometry.erase_blocks
      → let r = sa_erase verify device doffset a.geometry sblk bcnt s in
        (r.0 ≡ ok)
        × (region doffset (view r.1)
            ≡ splice
                (region doffset (view s))
                (sblk * a.geometry.erase_size)
                (replicate (bcnt * a.geometry.erase_size) (erasevalue a.geometry)))
        × Inv r.1
  unfolding sa_erase
  sa_erase_lem sblk bcnt s i fits =
      let es = a.geometry.erase_size in
      let inside = blocks_inside a.geometry sound sblk bcnt fits in
      let at : size_add doffset (size_mul sblk es) ≡ doffset + sblk * es =
        omega (arith, laws.small) in
      let w =
        fill_blocks-splice view Inv size laws.small device.eeprom_write es (erasevalue a.geometry)
          bcnt (doffset + sblk * es) s laws.writes i (omega arith) in
      rw (valid_lem s i, at)
        (
          w.0,
          ap (region doffset) (w.1)
              ∙ splice-region doffset (view s) (sblk * es)
                  (replicate (bcnt * es) (erasevalue a.geometry)),
          w.2,
        )

  -- An area that lies inside the device, on an EEPROM that keeps what its driver documents, is a
  -- byte memory, with and without CONFIG_STORAGE_AREA_VERIFY: reads return the bytes at their
  -- offset, however they are cut into buffers; a write of whole units at a write unit puts the
  -- bytes of all its buffers at its offset and changes no other byte; an erase fills its blocks with the erase
  -- value.
  pub Eeprom-IsMedium : IsMedium a (λ s. region doffset (view s)) Inv
  unfolding rw_api
  Eeprom-IsMedium = record {
    sound = sound;
    reads = λ offset iovec s i fits.
        readv_checked a api driver (sa_readv verify device doffset) offset iovec s refl small
          (omega arith)
        ∙ rw (le→leb _ _ fits) (sa_readv_lem offset iovec s i fits);
    writes = λ offset iovec s i aligned whole fits.
        rw
          (
            writev_checked a api driver (sa_writev verify device doffset) offset iovec s refl
                sound.unit small (omega arith),
            le→leb _ _ fits,
            eq→== _ _ whole,
          )
          (sa_writev_lem offset iovec s i whole fits);
    erases = λ sblk bcnt s i fits.
        rw
          (
            erase_checked a api driver (sa_erase verify device doffset) sblk bcnt s refl
                (blocks_small a.geometry sound),
            le→leb _ _ fits,
          )
          (sa_erase_lem sblk bcnt s i fits);
  }
    where
      small : area_size a.geometry < size_mod
      small = sound.small

      api : Api S
      api = rw_api verify device doffset
