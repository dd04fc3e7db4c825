-- ===== src/Disk/Medium.antt =====
-- An area on a disk that goes on behind the area is a byte memory.
use native.Mathlib.Nat.{mul_assoc, mod-eq_of_lt, div-add-mod', mod-lt}
use zephyr_goodies.Base.{
  ℕ, zero, suc, ◌+◌, ◌*◌, ◌/◌, ◌%◌, ◌≤◌, ◌<◌, ◌≡◌, refl, sym, ap, ap₂, ◌∙◌, Bool, false, some, List,
  flatten, length, length-replicate, replicate, leb, ltb, leb→le, leb_false→lt, inl, inr,
  Bool-cases, le→leb, le→ltb_false, eq→==, Memory, slice, splice, splice-nil, splice-append, arith,
}
use zephyr_goodies.Errno.{ok}
use zephyr_goodies.Size.{size_mod, size_add, size_mul, align_rest}
use zephyr_goodies.Size.Align.{pow2_bounds, align_rest-eq-mod, multiple_mul}
use zephyr_goodies.Area.{Api, StorageArea, erasevalue}
use zephyr_goodies.Area.Checks.{readv_checked, writev_checked, erase_checked}
use zephyr_goodies.Medium.{
  total, area_size, mul_mono, blocks_small, blocks_inside, IsSound, IsMedium,
}
use zephyr_goodies.Writer.Runs.{Emits, put_buffers_whole}
use zephyr_goodies.Reader.{fill_blocks}
use zephyr_goodies.Reader.Runs.{replicate_add}
use zephyr_goodies.Ram.Medium.{region, slice-region, splice-region}
use zephyr_goodies.Disk.{
  DiskDevice, IsDisk, Cursor, check_sizes, sa_valid, sa_readv, put_sectors, step_sectors, sa_writev,
  sa_erase, rw_api,
}
use zephyr_goodies.Disk.Reads.{below, read_buffers_lem}

module _ {S : Type 0} (verify : Bool) (device : DiskDevice S) (start ssize : ℕ) (view : S → Memory)
    (Inv : S → Type 0) (scount : ℕ) (laws : IsDisk device view Inv scount ssize) (a : StorageArea S)
    (driver : a.api ≡ some (rw_api verify device start ssize)) (sound : IsSound a.geometry)
    (write_units : a.geometry.write_size % ssize ≡ 0)
    (erase_units : a.geometry.erase_size % ssize ≡ 0)
    (placed : start * ssize + area_size a.geometry < scount * ssize) where
  abbrev ws : ℕ
  ws = a.geometry.write_size

  abbrev es : ℕ
  es = a.geometry.erase_size

  valid_lem : (s : S) → Inv s → sa_valid verify device start ssize a.geometry s ≡ ok
  unfolding sa_valid check_sizes
  valid_lem s i =
      let asz : size_mul a.geometry.erase_blocks es ≡ area_size a.geometry =
        mod-eq_of_lt (omega (arith, sound.small)) ∙ omega arith in
      let esz : size_mul scount ssize ≡ scount * ssize = mod-eq_of_lt laws.small in
      let st : size_mul start ssize ≡ start * ssize = mod-eq_of_lt (omega (arith, laws.small)) in
      let big : ltb (scount * ssize) (size_add (start * ssize) (area_size a.geometry)) ≡ false =
        le→ltb_false _ _ (omega (arith, laws.small)) in
      let w : align_rest ws ssize ≡ 0 = align_rest-eq-mod ws ssize laws.unit ∙ write_units in
      let e : align_rest es ssize ≡ 0 = align_rest-eq-mod es ssize laws.unit ∙ erase_units in
      rw
        (
          laws.ready s i,
          laws.counts s i,
          laws.sizes s i,
          eq→== ssize ssize refl,
          asz,
          esz,
          st,
          big,
          w,
          e,
        )
        (ground arith)

  -- A whole number of sectors.
  sectors_lem : (n : ℕ) → n % ssize ≡ 0 → n / ssize * ssize ≡ n
  sectors_lem n h = omega (arith, div-add-mod' n ssize)

  units_lem : (n : ℕ) → n % ws ≡ 0 → n % ssize ≡ 0
  units_lem n h =
      ap (λ k. k % ssize) (sym (omega (arith, div-add-mod' n ws)))
      ∙ multiple_mul ssize ws (n / ws) write_units

  -- A range of sectors whose bytes lie on the disk.
  on_disk :
      (sector count : ℕ) → sector * ssize + count * ssize ≤ scount * ssize → sector + count ≤ scount
  on_disk sector count h = elim (Bool-cases (leb (sector + count) scount)) [
    | inl le ↦ leb→le (sector + count) scount le
    | inr gt ↦
        let more =
          mul_mono (scount + 1) (sector + count) ssize
            (omega (arith, leb_false→lt (sector + count) scount gt)) in
        absurd (omega (arith, more, pow2_bounds ssize laws.unit))
  ]

  many : scount < size_mod
  many = grind (arith, laws.small, pow2_bounds ssize laws.unit)

  emits :
      Emits
        (put_sectors verify device start ssize)
        (step_sectors verify device start ssize)
        ws
        view
        Inv
        (λ p. p * ssize)
        (scount * ssize)
  unfolding put_sectors step_sectors
  emits = record {
    emitted = λ pos run s i whole fits.
        let n = sectors_lem (length run) (units_lem (length run) whole) in
        laws.writes run pos (length run / ssize) s i (sym n)
          (on_disk pos (length run / ssize) (omega (arith, n)));
    stepped = λ pos n whole fits.
        let e = sectors_lem n (units_lem n whole) in
        let k = on_disk pos (n / ssize) (omega (arith, e)) in
        let up : size_add pos (n / ssize) ≡ pos + n / ssize = omega (arith, many) in
        ap (λ t. t * ssize) up ∙ omega (arith, e);
  }

  -- Where the area starts on the disk, in sectors and in bytes.
  start_lem :
      (offset : ℕ)
      → offset ≤ area_size a.geometry
      → size_add (offset / ssize) start ≡ offset / ssize + start
  start_lem offset h =
      let k = div-add-mod' offset ssize in
      let b = on_disk start (offset / ssize) (omega (arith, k)) in omega (arith, many, b)

  -- Reads inside the area.
  sa_readv_lem :
      (offset : ℕ) (iovec : List ℕ) (s : S)
      → Inv s
      → offset + total iovec ≤ area_size a.geometry
      → sa_readv verify device start ssize a.geometry offset iovec s
        ≡ (ok, slice (region (start * ssize) (view s)) offset (total iovec))
  unfolding sa_readv
  sa_readv_lem offset iovec s i fits =
      let k = div-add-mod' offset ssize in
      let starts = offset / ssize + start in
      let unit = pow2_bounds ssize laws.unit in
      let exists : starts < scount =
        below verify device start ssize view Inv scount laws s i starts (start * ssize + offset)
          (omega (arith, k)) (omega arith) in
      let single : 1 * ssize ≡ ssize = omega arith in
      let get : device.disk_access_read starts 1 s ≡ (ok, slice (view s) (starts * ssize) ssize) =
        laws.reads starts 1 s i (omega (arith, exists))
        ∙ ap (λ n. (ok, slice (view s) (starts * ssize) n)) single in
      let c : Cursor = record {
        rc = ok;
        buf = slice (view s) (starts * ssize) ssize;
        bpos = offset % ssize;
        starts = starts;
      } in
      let r =
        read_buffers_lem verify device start ssize view Inv scount laws s i iovec c
          (record { fine = refl; held = refl; inside = mod-lt offset (unit.0); exists = exists })
          (omega (arith, k)) in
      rw (start_lem offset (omega arith), get, valid_lem s i)
        (ap₂ (λ x y. (x, y)) r.at.fine
          (r.bytes
            ∙ ap (λ p. slice (view s) p (total iovec)) (omega (arith, k))
            ∙ slice-region (start * ssize) (view s) offset (total iovec)))

  -- Writes of whole units at a write unit of the area.
  sa_writev_lem :
      (offset : ℕ) (iovec : List (List ℕ)) (s : S)
      → Inv s
      → offset % ws ≡ 0
      → length (flatten iovec) % ws ≡ 0
      → offset + length (flatten iovec) ≤ area_size a.geometry
      → let r = sa_writev verify device start ssize a.geometry offset iovec s in
        (r.0 ≡ ok)
        × (region (start * ssize) (view r.1)
            ≡ splice (region (start * ssize) (view s)) offset (flatten iovec))
        × Inv r.1
  unfolding sa_writev
  sa_writev_lem offset iovec s i aligned whole fits =
      let at : (offset / ssize + start) * ssize ≡ start * ssize + offset =
        omega (arith, sectors_lem offset (units_lem offset aligned)) in
      let w =
        put_buffers_whole (put_sectors verify device start ssize)
          (step_sectors verify device start ssize) ws view Inv (λ p. p * ssize) (scount * ssize)
          sound.unit emits iovec (offset / ssize + start) s i (omega (arith, laws.small)) whole
          (omega (arith, at)) in
      rw (start_lem offset (omega arith), valid_lem s i)
        (
          w.0,
          ap (region (start * ssize)) (w.1 ∙ ap (λ p. splice (view s) p (flatten iovec)) at)
              ∙ splice-region (start * ssize) (view s) offset (flatten iovec),
          w.2,
        )

  -- The erase loop.
  fill_sectors :
      (bcnt pos : ℕ) (s : S)
      → Inv s
      → pos * ssize + bcnt * es ≤ scount * ssize
      → let buf = replicate es (erasevalue a.geometry) in
        let r =
          fill_blocks
            (λ pos bytes s. device.disk_access_write bytes pos (es / ssize) s)
            (es / ssize)
            buf
            bcnt
            pos
            s in
        (r.0 ≡ ok)
        × (view r.1 ≡ splice (view s) (pos * ssize) (replicate (bcnt * es) (erasevalue a.geometry)))
        × Inv r.1
  unfolding fill_blocks
  fill_sectors zero pos s i h =
      let z : 0 * es ≡ 0 = omega arith in
      (
        refl,
        sym (
            ap (λ k. splice (view s) (pos * ssize) (replicate k (erasevalue a.geometry))) z
            ∙ splice-nil (view s) (pos * ssize)),
        i,
      )
  fill_sectors (suc bcnt) pos s i h =
      let v = erasevalue a.geometry in
      let spws = es / ssize in
      let e = sectors_lem es erase_units in
      let n = length-replicate es v in
      let more : suc bcnt * es ≡ es + bcnt * es = omega arith in
      let one =
        laws.writes (replicate es v) pos spws s i (n ∙ sym e)
          (on_disk pos spws (omega (arith, more, e))) in
      let up : size_add pos spws ≡ pos + spws =
        omega (arith, many, on_disk pos spws (omega (arith, more, e))) in
      let at : (pos + spws) * ssize ≡ pos * ssize + es = omega (arith, e) in
      let rest =
        fill_sectors bcnt (pos + spws) (device.disk_access_write (replicate es v) pos spws s).1
          (one.2) (omega (arith, at, more)) in
      rw (one.0, up, more)
        (
          rest.0,
          rest.1
              ∙ ap (λ m. splice m ((pos + spws) * ssize) (replicate (bcnt * es) v)) (one.1)
              ∙ ap
                  (λ k.
                    splice (splice (view s) (pos * ssize) (replicate es v)) k
                      (replicate (bcnt * es) v))
                  (at ∙ ap (λ k. pos * ssize + k) (sym n))
              ∙ sym
                  (splice-append (view s) (pos * ssize) (replicate es v) (replicate (bcnt * es) v))
              ∙ ap (splice (view s) (pos * ssize)) (sym (replicate_add es (bcnt * es) v)),
          rest.2,
        )

  -- Erases of blocks of the area.
  sa_erase_lem :
      (sblk bcnt : ℕ) (s : S)
      → Inv s
      → sblk + bcnt ≤ a.geometry.erase_blocks
      → let r = sa_erase verify device start ssize a.geometry sblk bcnt s in
        (r.0 ≡ ok)
        × (region (start * ssize) (view r.1)
            ≡ splice
                (region (start * ssize) (view s))
                (sblk * es)
                (replicate (bcnt * es) (erasevalue a.geometry)))
        × Inv r.1
  unfolding sa_erase
  sa_erase_lem sblk bcnt s i fits =
      let inside = blocks_inside a.geometry sound sblk bcnt fits in
      let e = sectors_lem es erase_units in
      let at : (start + sblk * (es / ssize)) * ssize ≡ start * ssize + sblk * es =
        omega (arith, mul_assoc sblk (es / ssize) ssize ∙ ap (λ (t : ℕ). sblk * t) e) in
      let starts : size_add start (size_mul sblk (es / ssize)) ≡ start + sblk * (es / ssize) =
        omega (arith, many, on_disk (start + sblk * (es / ssize)) 0 (omega (arith, at))) in
      let w = fill_sectors bcnt (start + sblk * (es / ssize)) s i (omega (arith, at)) in
      rw (valid_lem s i, starts)
        (
          w.0,
          ap (region (start * ssize)) (
                w.1
                ∙ ap (λ p. splice (view s) p (replicate (bcnt * es) (erasevalue a.geometry))) at)
              ∙ splice-region (start * ssize) (view s) (sblk * es)
                  (replicate (bcnt * es) (erasevalue a.geometry)),
          w.2,
        )

  -- An area on a disk that goes on for at least one sector behind the area, with sizes that are
  -- whole sectors, whose disk access keeps what it documents, is a byte memory, with and without
  -- CONFIG_STORAGE_AREA_VERIFY: reads return the bytes at their offset, however they are cut into
  -- buffers; a write of whole units at a write unit puts the bytes of all its buffers at its offset
  -- and changes no other byte; an erase fills its blocks with the erase value.
  pub Disk-IsMedium : IsMedium a (λ s. region (start * ssize) (view s)) Inv
  unfolding rw_api
  Disk-IsMedium = record {
    sound = sound;
    reads = λ offset iovec s i fits.
        readv_checked a api driver (sa_readv verify device start ssize) offset iovec s refl
          sound.small (omega (arith, small))
        ∙ rw (le→leb _ _ fits) (sa_readv_lem offset iovec s i fits);
    writes = λ offset iovec s i aligned whole fits.
        rw
          (
            writev_checked a api driver (sa_writev verify device start ssize) offset iovec s refl
                sound.unit sound.small (omega (arith, small)),
            le→leb _ _ fits,
            eq→== _ _ whole,
          )
          (sa_writev_lem offset iovec s i aligned whole fits);
    erases = λ sblk bcnt s i fits.
        rw
          (
            erase_checked a api driver (sa_erase verify device start ssize) sblk bcnt s refl
                (blocks_small a.geometry sound),
            le→leb _ _ fits,
          )
          (sa_erase_lem sblk bcnt s i fits);
  }
    where
      small : area_size a.geometry < size_mod
      small = sound.small

      api : Api S
      api = rw_api verify device start ssize
