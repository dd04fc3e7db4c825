-- ===== src/Flash/Medium.antt =====
-- An area on a flash device that takes bytes with no erase before is a byte memory.
use zephyr_goodies.Base.{
  Option, ◌==◌, ◌||◌, not, zero, suc, ℕ, ◌+◌, ◌*◌, ◌%◌, ◌≤◌, ◌<◌, ◌≡◌, refl, ap, ◌∙◌, Bool, true,
  some, List, flatten, length, replicate, le→leb, eq→==, Memory, slice, splice, arith,
}
use zephyr_goodies.Errno.{ok}
use zephyr_goodies.Size.{size_mod, size_add, size_mul, align_rest, IsPow2}
use zephyr_goodies.Size.Align.{align_rest-eq-mod, multiple_add, multiple_mul}
use zephyr_goodies.Area.{Api, StorageArea, erasevalue, autoerase, fovrwrite}
use zephyr_goodies.Area.Checks.{readv_checked, writev_checked, erase_checked}
use zephyr_goodies.Medium.{total, area_size, blocks_small, blocks_inside, IsSound, IsMedium}
use zephyr_goodies.Writer.Runs.{Emits, put_buffers_whole}
use zephyr_goodies.Reader.Runs.{Reads, Writes, read_each-slice}
use zephyr_goodies.Ram.Medium.{region, slice-region, splice-region}
use zephyr_goodies.Flash.{
  FlashDevice, check_pages, sa_valid, sa_write, sa_readv, sa_writev, sa_erase, rw_api,
}

-- What the driver documents of a device of `size` bytes in pages of one size, which takes any bytes
-- at any offset with no erase before: it stays ready, tells its pages, inside the size it is a byte
-- memory, and an erase of whole pages fills them with the erase value.
pub record IsFlash {S : Type 0} (device : FlashDevice S) (view : S → Memory) (Inv : S → Type 0)
    (size page fill : ℕ) : Type 0 where
  pub ready : (s : S) → Inv s → device.device_is_ready s ≡ true
  pub known : (s : S) → Inv s → device.has_parameters s ≡ true
  pub by_bytes : (s : S) → Inv s → device.flash_get_write_block_size s ≡ 1
  pub page_unit : IsPow2 page
  pub small : size < size_mod
  pub pages :
      (off : ℕ) (s : S)
      → Inv s
      → off < size
      → off % page ≡ 0
      → device.flash_get_page_info_by_offs off s ≡ (ok, record { start_offset = off; size = page })
  pub reads : Reads view Inv size small device.flash_read
  pub writes : Writes view Inv size small device.flash_write
  pub erases :
      (off len : ℕ) (s : S)
      → Inv s
      → off % page ≡ 0
      → len % page ≡ 0
      → off + len ≤ size
      → ((device.flash_erase off len s).0 ≡ ok)
        × (view (device.flash_erase off len s).1 ≡ splice (view s) off (replicate len fill))
        × Inv (device.flash_erase off len s).1

module _ {S : Type 0} (verify : Bool) (device : FlashDevice S) (doffset : ℕ) (xip : Option ℕ)
    (view : S → Memory) (Inv : S → Type 0) (size page : ℕ) (a : StorageArea S)
    (laws : IsFlash device view Inv size page (erasevalue a.geometry))
    (driver : a.api ≡ some (rw_api verify device doffset xip)) (sound : IsSound a.geometry)
    (direct : (not (autoerase a.geometry) || fovrwrite a.geometry) ≡ true)
    (placed : doffset + area_size a.geometry ≤ size) (at_page : doffset % page ≡ 0)
    (whole_pages : a.geometry.erase_size % page ≡ 0) where
  check_pages_lem :
      (left i : ℕ) (s : S)
      → Inv s
      → i + left ≤ a.geometry.erase_blocks
      → check_pages verify device doffset xip left i a.geometry s ≡ ok
  unfolding check_pages
  check_pages_lem zero i s inv fits = refl
  check_pages_lem (suc left) i s inv fits =
      let es = a.geometry.erase_size in
      let rest = check_pages_lem left (i + 1) s inv (omega arith) in
      let inside = blocks_inside a.geometry sound i 1 (omega arith) in
      let some_es = sound.erasable in
      let at : size_add doffset (size_mul i es) ≡ doffset + i * es =
        omega (arith, laws.small, inside, placed) in
      let unit = multiple_add page doffset (i * es) at_page (multiple_mul page es i whole_pages) in
      let info =
        laws.pages (doffset + i * es) s inv (omega (arith, inside, placed, some_es)) unit in
      let start : (doffset + i * es == doffset + i * es) ≡ true = eq→== _ _ refl in
      let units : align_rest es page ≡ 0 = align_rest-eq-mod es page laws.page_unit ∙ whole_pages in
      rw (at, info, start, units, rest) refl

  valid_lem : (s : S) → Inv s → sa_valid verify device doffset xip a.geometry s ≡ ok
  unfolding sa_valid
  valid_lem s i =
      let pages = check_pages_lem a.geometry.erase_blocks 0 s i (omega arith) in
      let bytes : align_rest a.geometry.write_size 1 ≡ 0 =
        align_rest-eq-mod a.geometry.write_size 1 (0, omega arith, refl) ∙ omega arith in
      rw (laws.ready s i, laws.known s i, laws.by_bytes s i, bytes, pages) (ground arith)

  emits :
      Emits
        (sa_write verify device doffset xip a.geometry)
        size_add
        a.geometry.write_size
        view
        Inv
        (λ p. doffset + p)
        size
  unfolding sa_write
  emits = record {
    emitted = λ pos run s i whole fits.
        let at : size_add doffset pos ≡ doffset + pos = omega (arith, laws.small) in
        rw (direct, at) (laws.writes (doffset + pos) run s i fits);
    stepped = λ pos n whole fits.
        let on : size_add pos n ≡ pos + n = omega (arith, laws.small) in omega (arith, on);
  }

  -- Reads inside the area.
  sa_readv_lem :
      (offset : ℕ) (iovec : List ℕ) (s : S)
      → Inv s
      → offset + total iovec ≤ area_size a.geometry
      → sa_readv verify device doffset xip a.geometry offset iovec s
        ≡ (ok, slice (region doffset (view s)) offset (total iovec))
  unfolding sa_readv
  sa_readv_lem offset iovec s i fits =
      let e : size_add doffset offset ≡ doffset + offset = omega (arith, laws.small) in
      rw
        (
          valid_lem s i,
          e,
          read_each-slice view Inv size laws.small device.flash_read iovec (doffset + offset) s
              laws.reads i (omega arith),
        )
        (ap (λ l. (ok, l)) (slice-region doffset (view s) offset (total iovec)))

  -- Writes of whole units inside the area.
  sa_writev_lem :
      (offset : ℕ) (iovec : List (List ℕ)) (s : S)
      → Inv s
      → length (flatten iovec) % a.geometry.write_size ≡ 0
      → offset + length (flatten iovec) ≤ area_size a.geometry
      → let r = sa_writev verify device doffset xip a.geometry offset iovec s in
        (r.0 ≡ ok)
        × (region doffset (view r.1) ≡ splice (region doffset (view s)) offset (flatten iovec))
        × Inv r.1
  unfolding sa_writev
  sa_writev_lem offset iovec s i whole fits =
      let w =
        put_buffers_whole (sa_write verify device doffset xip a.geometry) size_add
          a.geometry.write_size view Inv (λ p. doffset + p) size sound.unit emits iovec offset s i
          (omega (arith, laws.small)) whole (omega arith) in
      rw (valid_lem s i) (
        w.0,
        ap (region doffset) (w.1) ∙ splice-region doffset (view s) offset (flatten iovec),
        w.2,
      )

  -- Erases of blocks of the area.
  sa_erase_lem :
      (sblk bcnt : ℕ) (s : S)
      → Inv s
      → sblk + bcnt ≤ a.geometry.erase_blocks
      → let r = sa_erase verify device doffset xip a.geometry sblk bcnt s in
        (r.0 ≡ ok)
        × (region doffset (view r.1)
            ≡ splice
                (region doffset (view s))
                (sblk * a.geometry.erase_size)
                (replicate (bcnt * a.geometry.erase_size) (erasevalue a.geometry)))
        × Inv r.1
  unfolding sa_erase
  sa_erase_lem sblk bcnt s i fits =
      let es = a.geometry.erase_size in
      let inside = blocks_inside a.geometry sound sblk bcnt fits in
      let at : size_add doffset (size_mul sblk es) ≡ doffset + sblk * es =
        omega (arith, laws.small) in
      let len : size_mul bcnt es ≡ bcnt * es = omega (arith, laws.small) in
      let w =
        laws.erases (doffset + sblk * es) (bcnt * es) s i
          (multiple_add page doffset (sblk * es) at_page (multiple_mul page es sblk whole_pages))
          (multiple_mul page es bcnt whole_pages) (omega arith) in
      rw (valid_lem s i, at, len)
        (
          w.0,
          ap (region doffset) (w.1)
              ∙ splice-region doffset (view s) (sblk * es)
                  (replicate (bcnt * es) (erasevalue a.geometry)),
          w.2,
        )

  -- An area that lies inside the device on whole pages, on a flash that keeps what its driver
  -- documents and takes bytes at any offset with no erase before, and that writes with no erase of its own,
  -- is a byte memory, with and without CONFIG_STORAGE_AREA_VERIFY: reads return the bytes at
  -- their offset, however they are cut into buffers; a write of whole units at a write unit puts the bytes of
  -- all its buffers at its offset and changes no other byte; an erase fills its blocks with the
  -- erase value.
  pub Flash-IsMedium : IsMedium a (λ s. region doffset (view s)) Inv
  unfolding rw_api
  Flash-IsMedium = record {
    sound = sound;
    reads = λ offset iovec s i fits.
        readv_checked a api driver (sa_readv verify device doffset xip) offset iovec s refl small
          (omega arith)
        ∙ rw (le→leb _ _ fits) (sa_readv_lem offset iovec s i fits);
    writes = λ offset iovec s i aligned whole fits.
        rw
          (
            writev_checked a api driver (sa_writev verify device doffset xip) offset iovec s refl
                sound.unit small (omega arith),
            le→leb _ _ fits,
            eq→== _ _ whole,
          )
          (sa_writev_lem offset iovec s i whole fits);
    erases = λ sblk bcnt s i fits.
        rw
          (
            erase_checked a api driver (sa_erase verify device doffset xip) sblk bcnt s refl
                (blocks_small a.geometry sound),
            le→leb _ _ fits,
          )
          (sa_erase_lem sblk bcnt s i fits);
  }
    where
      small : area_size a.geometry < size_mod
      small = sound.small

      api : Api S
      api = rw_api verify device doffset xip
