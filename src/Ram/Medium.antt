-- ===== src/Ram/Medium.antt =====
-- A RAM area inside the 32-bit address space is a byte memory.
use native.Mathlib.Nat.{mod-eq_of_lt}
use zephyr_goodies.Base.{
  ℕ, zero, suc, ◌+◌, ◌*◌, ◌%◌, ◌≤◌, ◌<◌, ◌≡◌, refl, sym, ap, ◌∙◌, fun_ext, some, List, [], ◌∷◌,
  ◌++◌, flatten, length, replicate, le→leb, eq→==, Memory, slice, splice, poke, arith, slice-append,
}
use zephyr_goodies.Errno.{ok}
use zephyr_goodies.Size.{size_mod, size_add, size_mul}
use zephyr_goodies.Area.{StorageArea, erasevalue, writev, erase}
use zephyr_goodies.Area.Checks.{readv_checked, writev_checked, erase_checked}
use zephyr_goodies.Medium.{total, area_size, blocks_small, blocks_inside, IsSound, IsMedium}
use zephyr_goodies.Writer.Runs.{Emits, put_buffers_whole}
use zephyr_goodies.Ram.{read_buffers, copy_run, sa_readv, sa_writev, sa_erase, rw_api}

-- The bytes of the region.
abbrev pub region : ℕ → Memory → Memory
region start s a = s (start + a)

pub slice-region :
    (start : ℕ) (s : Memory) (a n : ℕ) → slice s (start + a) n ≡ slice (region start s) a n
unfolding slice
slice-region start s a zero = refl
slice-region start s a (suc n) =
    let e : suc (start + a) ≡ start + suc a = omega arith in
    ap (λ r. s (start + a) ∷ r) (ap (λ k. slice s k n) e ∙ slice-region start s (suc a) n)

poke-region :
    (start : ℕ) (s : Memory) (a v : ℕ)
    → region start (poke s (start + a) v) ≡ poke (region start s) a v
poke-region start s a v = fun_ext λ b. ground arith

pub splice-region :
    (start : ℕ) (s : Memory) (a : ℕ) (d : List ℕ)
    → region start (splice s (start + a) d) ≡ splice (region start s) a d
unfolding splice
splice-region start s a [] = refl
splice-region start s a (x ∷ d) =
    let e : suc (start + a) ≡ start + suc a = omega arith in
    ap (λ k. region start (splice (poke s (start + a) x) k d)) e
    ∙ splice-region start (poke s (start + a) x) (suc a) d
    ∙ ap (λ m. splice m (suc a) d) (poke-region start s a x)

-- The read loop fills the buffers from one run of bytes.
read_buffers-slice :
    (ns : List ℕ) (rd : ℕ) (s : Memory)
    → rd + total ns < size_mod
    → read_buffers rd ns s ≡ slice s rd (total ns)
unfolding read_buffers slice
read_buffers-slice [] rd s h = refl
read_buffers-slice (n ∷ ns) rd s h =
    let e : size_add rd n ≡ rd + n = omega arith in
    ap (λ r. slice s rd n ++ r)
      (ap (λ k. read_buffers k ns s) e ∙ read_buffers-slice ns (rd + n) s (omega arith))
    ∙ sym (slice-append s rd n (total ns))

copy_run-Emits :
    (align limit : ℕ)
    → limit < size_mod
    → Emits copy_run size_add align (λ s. s) (λ _. Unit {0}) (λ p. p) limit
unfolding copy_run
copy_run-Emits align limit h = record {
  emitted = λ pos run s i whole fits. (refl, refl, tt);
  stepped = λ pos n whole fits. mod-eq_of_lt (omega arith);
}

module _ (start : ℕ) (a : StorageArea Memory) (driver : a.api ≡ some (rw_api start))
    (sound : IsSound a.geometry) (placed : start + area_size a.geometry < size_mod) where
  -- A write of whole units puts the bytes of all buffers at the offset, and nothing else.
  sa_writev_lem :
      (offset : ℕ) (iovec : List (List ℕ)) (s : Memory)
      → length (flatten iovec) % a.geometry.write_size ≡ 0
      → offset + length (flatten iovec) ≤ area_size a.geometry
      → sa_writev start a.geometry offset iovec s ≡ (ok, splice s (start + offset) (flatten iovec))
  unfolding sa_writev
  sa_writev_lem offset iovec s whole fits =
      let e : size_add start offset ≡ start + offset = omega arith in
      let w =
        put_buffers_whole copy_run size_add a.geometry.write_size (λ s. s) (λ _. Unit {0}) (λ p. p)
          (start + area_size a.geometry) sound.unit
          (copy_run-Emits a.geometry.write_size (start + area_size a.geometry) placed) iovec
          (start + offset) s tt (omega arith) whole (omega arith) in
      rw e (λ i. (w.0 i, w.1 i))

  -- A RAM area inside the address space is a byte memory: reads return the bytes at their offset,
  -- however they are cut into buffers; a write of whole units at a write unit puts the bytes of all its
  -- buffers at its offset and changes no other byte; an erase fills its blocks with the erase value.
  pub Ram-IsMedium : IsMedium a (region start) (λ _. Unit {0})
  unfolding sa_readv sa_erase rw_api
  Ram-IsMedium = record {
    sound = sound;
    reads = λ offset iovec s i fits.
        let e : size_add start offset ≡ start + offset = omega arith in
        readv_checked a (rw_api start) driver (sa_readv start) offset iovec s refl small
          (omega arith)
        ∙ rw (le→leb _ _ fits) (
            ap (λ l. (ok, l))
              (rw e (
                read_buffers-slice iovec (start + offset) s (omega arith)
                ∙ slice-region start s offset (total iovec))));
    writes = λ offset iovec s i aligned whole fits.
        let e : writev (some a) offset iovec s ≡ (ok, splice s (start + offset) (flatten iovec)) =
          writev_checked a (rw_api start) driver (sa_writev start) offset iovec s refl sound.unit
            small (omega arith)
          ∙ rw (le→leb _ _ fits, eq→== _ _ whole) (sa_writev_lem offset iovec s whole fits) in
        (
          ap (λ p. p.0) e,
          ap (λ p. region start p.1) e ∙ splice-region start s offset (flatten iovec),
          tt,
        );
    erases = λ sblk bcnt s i fits.
        let es = a.geometry.erase_size in
        let inside : sblk * es + bcnt * es ≤ area_size a.geometry =
          blocks_inside a.geometry sound sblk bcnt fits in
        let at : size_add start (size_mul sblk es) ≡ start + sblk * es = omega arith in
        let len : size_mul bcnt es ≡ bcnt * es = omega arith in
        let fill : List ℕ = replicate (bcnt * es) (erasevalue a.geometry) in
        let e : erase (some a) sblk bcnt s ≡ (ok, splice s (start + sblk * es) fill) =
          erase_checked a (rw_api start) driver (sa_erase start) sblk bcnt s refl
            (blocks_small a.geometry sound)
          ∙ rw (le→leb _ _ fits, at, len) refl in
        (
          ap (λ p. p.0) e,
          ap (λ p. region start p.1) e ∙ splice-region start s (sblk * es) fill,
          tt,
        );
  }
    where
      small : area_size a.geometry < size_mod
      small = sound.small
