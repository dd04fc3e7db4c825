-- ===== src/Area/Checks.antt =====
-- The argument checks of storage_area.c: a call goes on to the driver exactly when it stays inside
-- the area, and a write only in whole write units.
use zephyr_goodies.Base.{
  ℕ, ◌+◌, ◌%◌, ◌<◌, ◌≡◌, refl, ap, ◌∙◌, false, ◌&&◌, leb, lt→leb_false, ◌==◌, if◌then◌else◌, Option,
  some, List, [], ◌∷◌, flatten, length, length-append, arith, none,
}
use native.Mathlib.Nat.{mod-eq_of_lt}
use zephyr_goodies.Errno.{Rc, einval, enotsup, is_ok}
use zephyr_goodies.Size.{size_mod, size_add, size_mul, IsPow2}
use zephyr_goodies.Size.Align.{align_rest-eq-mod}
use zephyr_goodies.Area.{
  Geometry, Api, StorageArea, iovec_size, iovec_size_from, range_valid, lengths, readv, writev,
  erase, call_readv, call_writev, call_erase,
}
use zephyr_goodies.Medium.{total, area_size}

iovec_size_from-eq-add :
    (rv : ℕ) (ns : List ℕ) → rv + total ns < size_mod → iovec_size_from rv ns ≡ rv + total ns
unfolding iovec_size_from
iovec_size_from-eq-add rv [] h = omega arith
iovec_size_from-eq-add rv (n ∷ ns) h =
    let e : size_add rv n ≡ rv + n = omega arith in
    ap (λ k. iovec_size_from k ns) e
    ∙ iovec_size_from-eq-add (rv + n) ns (omega arith)
    ∙ omega arith

-- The length of an iovec is the sum of its lengths, where that sum does not wrap.
pub iovec_size-eq-total : (ns : List ℕ) → total ns < size_mod → iovec_size ns ≡ total ns
unfolding iovec_size iovec_size_from
iovec_size-eq-total ns h = iovec_size_from-eq-add 0 ns (omega arith) ∙ omega arith

pub total-lengths : (bs : List (List ℕ)) → total (lengths bs) ≡ length (flatten bs)
unfolding flatten
total-lengths [] = refl
total-lengths (b ∷ bs) = omega (arith, total-lengths bs, length-append b (flatten bs))

-- The range check, with no wrap.
pub range_valid-eq-leb :
    (g : Geometry) (offset len : ℕ)
    → area_size g < size_mod
    → len < size_mod
    → range_valid g offset len ≡ leb (offset + len) (area_size g)
unfolding range_valid
range_valid-eq-leb g offset len small fits =
    let e : size_mul g.erase_size g.erase_blocks ≡ area_size g = mod-eq_of_lt small in
    rw e (ground arith)

module _ {S : Type 0} (a : StorageArea S) (api : Api S) (there : a.api ≡ some api) where
  -- On an area with a driver that reads, `storage_area_readv` hands a read to the driver when it
  -- stays inside the area, and refuses any other with -EINVAL, where 32 bits hold the size of the
  -- area and the sum of the lengths of the buffers.
  pub readv_checked :
      (f : Geometry → ℕ → List ℕ → S → Rc × List ℕ) (offset : ℕ) (iovec : List ℕ) (s : S)
      → api.readv ≡ some f
      → area_size a.geometry < size_mod
      → total iovec < size_mod
      → readv (some a) offset iovec s ≡ (
          if leb (offset + total iovec) (area_size a.geometry)
          then f a.geometry offset iovec s
          else (einval, []))
  unfolding readv call_readv
  readv_checked f offset iovec s has small len =
      rw
        (
          there,
          has,
          iovec_size-eq-total iovec len,
          range_valid-eq-leb a.geometry offset (total iovec) small len,
        )
        (ground arith)

  -- On an area with a driver that writes and with a write size that is a power of two,
  -- `storage_area_writev` hands a write to the driver when it stays inside the area and is a whole
  -- number of write units, and refuses any other with -EINVAL, the device left as it is, where 32
  -- bits hold the size of the area and the sum of the lengths of the buffers.
  pub writev_checked :
      (f : Geometry → ℕ → List (List ℕ) → S → Rc × S) (offset : ℕ) (iovec : List (List ℕ)) (s : S)
      → api.writev ≡ some f
      → IsPow2 a.geometry.write_size
      → area_size a.geometry < size_mod
      → length (flatten iovec) < size_mod
      → writev (some a) offset iovec s ≡ (
          if leb (offset + length (flatten iovec)) (area_size a.geometry)
            && length (flatten iovec) % a.geometry.write_size == 0
          then f a.geometry offset iovec s
          else (einval, s))
  unfolding writev call_writev
  writev_checked f offset iovec s has pow small len =
      rw
        (
          there,
          has,
          e,
          range_valid-eq-leb g offset n small len,
          align_rest-eq-mod n g.write_size pow,
        )
        (ground arith)
    where
      g : Geometry
      g = a.geometry

      n : ℕ
      n = length (flatten iovec)

      t : total (lengths iovec) ≡ n
      t = total-lengths iovec

      e : iovec_size (lengths iovec) ≡ n
      e = iovec_size-eq-total (lengths iovec) (omega (arith, t)) ∙ t

  -- On an area with a driver that erases, `storage_area_erase` hands an erase to the driver when its
  -- blocks are blocks of the area, and refuses any other with -EINVAL, the device left as it is,
  -- where 32 bits hold the number of blocks.
  pub erase_checked :
      (f : Geometry → ℕ → ℕ → S → Rc × S) (sblk bcnt : ℕ) (s : S)
      → api.erase ≡ some f
      → a.geometry.erase_blocks < size_mod
      → erase (some a) sblk bcnt s ≡ (
          if leb (sblk + bcnt) a.geometry.erase_blocks
          then f a.geometry sblk bcnt s
          else (einval, s))
  unfolding erase call_erase
  erase_checked f sblk bcnt s has small = rw (there, has) (ground arith)

-- With a driver that has no write and no erase, both calls return -ENOTSUP, the device left as it
-- is.
pub read_only_refuses :
    {S : Type 0} (a : StorageArea S) (api : Api S) (offset : ℕ) (iovec : List (List ℕ)) (n : ℕ)
    (s : S)
    → a.api ≡ some api
    → api.writev ≡ none
    → api.erase ≡ none
    → (writev (some a) offset iovec s ≡ (enotsup, s)) × (erase (some a) offset n s ≡ (enotsup, s))
unfolding writev erase call_writev call_erase
read_only_refuses a api offset iovec n s e w r = (rw (e, w), rw (e, r))

call_readv_outside :
    {S : Type 0} (f : Option (Geometry → ℕ → List ℕ → S → Rc × List ℕ)) (g : Geometry) (offset : ℕ)
    (iovec : List ℕ) (s : S)
    → area_size g < size_mod
    → total iovec < size_mod
    → area_size g < offset + total iovec
    → is_ok (call_readv f g offset iovec s).0 ≡ false
unfolding call_readv
call_readv_outside none g offset iovec s small len h = refl
call_readv_outside (some f) g offset iovec s small len h = rw (
  iovec_size-eq-total iovec len,
  range_valid-eq-leb g offset (total iovec) small len,
  lt→leb_false _ _ h,
)

-- A read that leaves the area fails, whatever the driver, where 32 bits hold the size of the area
-- and the sum of the lengths of the buffers.
pub readv_outside :
    {S : Type 0} (a : StorageArea S) (offset : ℕ) (iovec : List ℕ) (s : S)
    → area_size a.geometry < size_mod
    → total iovec < size_mod
    → area_size a.geometry < offset + total iovec
    → is_ok (readv (some a) offset iovec s).0 ≡ false
unfolding readv
readv_outside {S} a offset iovec s small len h = go a.api refl
  where
    go : (o : Option (Api S)) → a.api ≡ o → is_ok (readv (some a) offset iovec s).0 ≡ false
    go none e = rw e
    go (some api) e = rw e (call_readv_outside api.readv a.geometry offset iovec s small len h)
