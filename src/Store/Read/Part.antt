-- ===== src/Store/Read/Part.antt =====
-- A read of a part of a record that stands on the area returns this part of its data.
use zephyr_goodies.Base.{
  ℕ, ◌+◌, ◌*◌, ◌^◌, ◌≤◌, ◌<◌, ◌≡◌, sym, ap, ◌∙◌, true, false, some, List, [], ◌∷◌, drop, take, ltb,
  length, Memory, slice, take-drop-slice, le→ltb_false, arith,
}
use zephyr_goodies.Errno.{ok}
use zephyr_goodies.Size.{size_add}
use zephyr_goodies.Area.{iovec_size}
use zephyr_goodies.Area.Checks.{iovec_size-eq-total}
use zephyr_goodies.Medium.{IsMedium}
use zephyr_goodies.Store.{
  Platform, IsPlatform, Store, World, sas_hdrsize, sector_pos, Handle, store_valid,
}
use zephyr_goodies.Store.Layout.{IsLaidOut, sector_inside, sector_pos-eq-mul}
use zephyr_goodies.Store.Check.Crc.{read_inside}
use zephyr_goodies.Store.Read.{storage_area_record_readv, storage_area_record_read}
use zephyr_goodies.Store.Write.Readback.{HoldsRecord}

module _ {S : Type 0} (lib : Platform) (st : Store S) (view : S → Memory) (Inv : S → Type 0)
    (laws : IsPlatform lib) (medium : IsMedium st.area view Inv) (laid : IsLaidOut st) (h : Handle)
    (w : World S) (wrapcnt sector loc : ℕ) (bytes : List ℕ) (ready : Inv w.dev)
    (exists : sector < st.sector_cnt) (short : length bytes < 2 ^ 16)
    (fits : loc + (length bytes + 8) ≤ st.sector_size) (valid : store_valid h ≡ true)
    (holds : HoldsRecord lib st laws wrapcnt bytes
      (view w.dev)
      (sector * st.sector_size + loc)) where
  -- On a device that works, a read of `len` bytes from `start` of a record of a valid store, where
  -- the record ends not before them and lies in its sector, succeeds and returns these bytes.
  pub storage_area_record_read_part :
      (start len : ℕ)
      → start + len ≤ length bytes
      → storage_area_record_read lib st h
          (some (record { bound = true; sector = sector; loc = loc; size = length bytes }))
          start
          len
          w
        ≡ (ok, take len (drop start bytes))
  unfolding storage_area_record_read storage_area_record_readv
  storage_area_record_read_part start len inside_record =
      let inside = sector_inside st laid sector exists in
      let size : iovec_size (len ∷ []) ≡ len =
        iovec_size-eq-total (len ∷ []) (omega arith) ∙ omega arith in
      let pos : size_add (size_add (size_add (sector_pos st sector) loc) start) sas_hdrsize
          ≡ sector * st.sector_size + loc + 4 + start =
        ap (λ k. size_add (size_add (size_add k loc) start) sas_hdrsize)
          (sector_pos-eq-mul st laid sector exists)
        ∙ omega (arith, laid.small) in
      let a : ltb st.sector_size loc ≡ false = le→ltb_false _ _ (omega arith) in
      let b : ltb st.sector_size (length bytes) ≡ false = le→ltb_false _ _ (omega arith) in
      let c : ltb (length bytes) (size_add start len) ≡ false = le→ltb_false _ _ (omega arith) in
      let payload = holds.payload in
      let part : slice (view w.dev) (sector * st.sector_size + loc + 4 + start) len
          ≡ take len (drop start bytes) =
        sym (
          take-drop-slice (view w.dev) (sector * st.sector_size + loc + 4) start len (length bytes)
            inside_record)
        ∙ ap (λ l. take len (drop start l)) payload in
      rw (valid, size, a, b, c, pos)
        (read_inside lib st view Inv laws medium (sector * st.sector_size + loc + 4 + start) len
            w.dev ready (omega arith)
          ∙ ap (λ l. (ok, l)) part)
