-- ===== src/Circular/Produce.antt =====
-- Single writes and advances of a store that is used as a circular buffer, on a device that can be
-- overwritten.
use zephyr_goodies.Base.{
  ℕ, ◌+◌, ◌%◌, ◌^◌, ◌≤◌, ◌<◌, ◌≡◌, ◌≢◌, refl, ap, ◌∙◌, subst, inl, inr, true, false, not, ◌||◌,
  none, if◌then◌else◌, List, [], ◌∷◌, ◌++◌, append-nil, flatten, length, ltb, ltb→lt, ltb_false→le,
  ◌-◌, Bool-cases, Memory, arith,
}
use zephyr_goodies.Errno.{Rc, ok, einval, enospc}
use zephyr_goodies.Size.{size_mod, size_sub}
use zephyr_goodies.Size.Align.{multiple_sub}
use zephyr_goodies.Area.Checks.{iovec_size-eq-total}
use zephyr_goodies.Area.{fovrwrite, iovec_size}
use zephyr_goodies.Medium.{IsMedium}
use zephyr_goodies.Store.{
  Platform, IsPlatform, Store, World, Handle, simple, is_null, store_valid, store_ready, record_len,
}
use zephyr_goodies.Store.Layout.{IsLaidOut, IsPosition, sector_inside}
use zephyr_goodies.Store.Log.{IsLog, log_start}
use zephyr_goodies.Store.Log.Append.{IsAppended, appended}
use zephyr_goodies.Store.Write.{store_writev, write_record}
use zephyr_goodies.Store.Advance.{advance_simple}
use zephyr_goodies.Store.Advance.Fresh.{advance_simple_lem}
use zephyr_goodies.Store.Calls.{
  storage_area_store_write, storage_area_store_writev, storage_area_store_advance, call_advance,
}

module _ {S : Type 0} (lib : Platform) (st : Store S) (view : S → Memory) (Inv : S → Type 0)
    (laws : IsPlatform lib) (medium : IsMedium st.area view Inv) (laid : IsLaidOut st)
    (counted : st.sector_cnt < size_mod) (over : fovrwrite st.area.geometry ≡ true) (h : Handle)
    (valid : store_valid h ≡ true) where
  abbrev ws : ℕ
  ws = st.area.geometry.write_size

  -- Data of which a record fits a fresh sector, and never fills one to its last byte.
  pub record IsMessage (bytes : List ℕ) : Type 0 where
    pub some_data : 0 < length bytes
    pub short : length bytes < 2 ^ 16
    pub skip : st.crc_skip ≤ length bytes
    pub fits : log_start st.sector_cookie ws + (length bytes + 8) < st.sector_size
    pub padded : (length bytes + 8) % ws ≢ 0

  -- A mounted store that advances the simple way, with a log in its write sector.
  pub record IsOpen (w : World S) (log : List (List ℕ)) : Type 0 where
    pub is_log : IsLog lib st laws view Inv w log
    pub mounted : w.sd.ready ≡ true
    pub writable : w.sd.advance ≡ simple

  fits_strictly :
      (bytes : List ℕ) (w : World S)
      → IsMessage bytes
      → IsPosition st w.sd
      → w.sd.loc + (length bytes + 8) ≤ st.sector_size
      → w.sd.loc + (length bytes + 8) < st.sector_size
  fits_strictly bytes w m p le =
      elim (Bool-cases (ltb (w.sd.loc + (length bytes + 8)) st.sector_size)) [
        | inl lt ↦ ltb→lt _ _ lt
        | inr ge ↦
            let ge' = ltb_false→le (w.sd.loc + (length bytes + 8)) st.sector_size ge in
            let e : length bytes + 8 ≡ st.sector_size - w.sd.loc = omega arith in
            absurd (
              m.padded (
                ap (λ k. k % ws) e
                ∙ multiple_sub ws w.sd.loc st.sector_size p.in_bounds p.on_unit laid.aligned))
      ]

  calls :
      (bytes : List ℕ) (w : World S) (out : Rc × World S)
      → w.sd.ready ≡ true
      → store_writev lib st (bytes ∷ []) w ≡ out
      → storage_area_store_write lib st h bytes w ≡ out
  unfolding storage_area_store_write storage_area_store_writev store_ready
  calls bytes w out mounted e = rw (valid, e, mounted) refl

  -- A write that fits.
  pub writes :
      (bytes : List ℕ) (w : World S) (log : List (List ℕ))
      → IsMessage bytes
      → IsOpen w log
      → w.sd.loc + (length bytes + 8) ≤ st.sector_size
      → (w' : World S) × (storage_area_store_write lib st h bytes w ≡ (ok, w'))
        × IsOpen w' (log ++ bytes ∷ [])
  writes bytes w log m o le =
      let p = o.is_log.position in
      let lt = fits_strictly bytes w m p le in
      let e : flatten (bytes ∷ []) ≡ bytes = unfold flatten in append-nil bytes in
      let n : length (flatten (bytes ∷ [])) ≡ length bytes = ap length e in
      let (w', a) : (w' : World S) × IsAppended lib st view Inv laws medium laid w log (bytes ∷ [])
            bytes w' =
        subst
          (λ b.
            (w' : World S) × IsAppended lib st view Inv laws medium laid w log (bytes ∷ []) b w')
          e
          (appended lib st view Inv laws medium laid h w log (bytes ∷ []) o.is_log
            (ap is_null o.writable) (omega (arith, n, m.some_data)) (omega (arith, n, m.short))
            (omega (arith, n, m.skip)) (omega (arith, n))) in
      (
        w',
        calls bytes w (ok, w') o.mounted a.returned,
        record {
          is_log = a.longer;
          mounted = a.ready ∙ o.mounted;
          writable = a.advance ∙ o.writable;
        },
      )

  no_room :
      (bytes : List ℕ) (w : World S)
      → IsMessage bytes
      → IsPosition st w.sd
      → is_null w.sd.advance ≡ false
      → st.sector_size < w.sd.loc + (length bytes + 8)
      → store_writev lib st (bytes ∷ []) w ≡ (enospc, w)
  unfolding store_writev write_record
  no_room bytes w m p writable full =
      let short = m.short in
      let fits = m.fits in
      let size : iovec_size (length bytes ∷ []) ≡ length bytes =
        iovec_size-eq-total (length bytes ∷ []) (omega arith) ∙ omega arith in
      let guard : ltb (size_sub st.sector_size (record_len (length bytes))) w.sd.loc ≡ true =
        ground (arith, laid.small, sector_inside st laid w.sd.sector p.exists) in
      rw (writable, size, guard) refl

  -- A write that does not fit changes nothing.
  pub refuses :
      (bytes : List ℕ) (w : World S) (log : List (List ℕ))
      → IsMessage bytes
      → IsOpen w log
      → st.sector_size < w.sd.loc + (length bytes + 8)
      → storage_area_store_write lib st h bytes w ≡ (enospc, w)
  refuses bytes w log m o full =
      calls bytes w (enospc, w) o.mounted
        (no_room bytes w m o.is_log.position (ap is_null o.writable) full)

  advance_calls :
      (w : World S)
      → w.sd.ready ≡ true
      → w.sd.advance ≡ simple
      → storage_area_store_advance lib st h w ≡ advance_simple st w
  unfolding storage_area_store_advance store_ready call_advance
  advance_calls w mounted writable =
      let called : storage_area_store_advance lib st h w ≡ call_advance lib st w.sd.advance none w =
        ap
          (λ b.
            if not (if not (store_valid h) || not b then false else true)
            then (einval, w)
            else call_advance lib st w.sd.advance none w)
          mounted
        ∙ rw valid refl in
      called ∙ ap (λ a. call_advance lib st a none w) writable

  pub advances :
      (w : World S) (log : List (List ℕ))
      → IsOpen w log
      → (w' : World S) × (storage_area_store_advance lib st h w ≡ (ok, w'))
        × IsOpen w' []
        × (w'.sd.loc ≡ log_start st.sector_cookie ws)
  advances w log o =
      let a =
        advance_simple_lem lib st view Inv laws medium laid counted w over o.is_log.works
          o.is_log.position in
      let w' = (advance_simple st w).1 in
      (
        w',
        advance_calls w o.mounted o.writable ∙ ap (λ rc. (rc, w')) (a.0),
        record { is_log = a.1; mounted = a.4 ∙ o.mounted; writable = a.5 ∙ o.writable },
        a.6,
      )
