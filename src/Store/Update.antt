-- ===== src/Store/Update.antt =====
-- `storage_area_record_update` of storage_area_store.c.
pub mod Changed
pub mod InUnit
use zephyr_goodies.Base.{
  ℕ, zero, suc, ◌+◌, ◌&&◌, ◌||◌, not, some, List, [], ◌∷◌, ◌++◌, ltb, ◌==◌, if◌then◌else◌, length,
  take, drop,
}
use zephyr_goodies.Errno.{Rc, ok, einval, enotsup, out_of_fuel, is_ok}
use zephyr_goodies.Size.{size_add, size_sub, align_down}
use zephyr_goodies.Area.{fovrwrite, lovrwrite, readv, writev}
use zephyr_goodies.Store.{Platform, Store, World, Record, sas_min, sas_hdrsize, sector_pos, Handle}
use zephyr_goodies.Store.Read.{storage_area_record_valid}

-- `memcpy(buf + at, bytes, length bytes)`
unfoldable pub overlay : List ℕ → ℕ → List ℕ → List ℕ
overlay buf at bytes = take at buf ++ (bytes ++ drop (at + length bytes) buf)

module _ {S : Type 0} (st : Store S) where
  -- The loop: each round reads a write unit, changes it and writes it back. `bytes` is `data8`,
  -- which the loop leaves as it is.
  unfoldable pub update_loop : ℕ → List ℕ → ℕ → ℕ → ℕ → ℕ → S → Rc × S
  update_loop zero bytes secpos len rpos apos dev = (out_of_fuel, dev)
  update_loop (suc fuel) bytes secpos len rpos apos dev =
      let align = st.area.geometry.write_size in
      let modlen = sas_min len (size_sub align (size_sub rpos apos)) in
      let (rc, buf) = readv (some st.area) (size_add secpos apos) (align ∷ []) dev in
      let (rc', dev') =
        writev (some st.area) (size_add secpos apos)
          (overlay buf (size_sub rpos apos) (take modlen bytes) ∷ []) dev in
      let rest =
        update_loop fuel bytes secpos (size_sub len modlen) (size_add rpos modlen)
          (size_add apos align) dev' in
      if len == 0
      then (ok, dev)
      else if not (is_ok rc)
      then (rc, dev)
      else if is_ok rc'
      then rest
      else (rc', dev')

module _ {S : Type 0} (lib : Platform) (st : Store S) where
  -- `storage_area_record_update`, with `data` of `len` bytes. A round changes at least one byte.
  unfoldable pub storage_area_record_update : Handle → Record → List ℕ → World S → Rc × World S
  storage_area_record_update h r bytes w =
      let g = st.area.geometry in
      let rpos = size_add r.loc sas_hdrsize in
      let (rc, dev) =
        update_loop st (suc (length bytes)) bytes (sector_pos st r.sector) (length bytes) rpos
          (align_down rpos g.write_size) w.dev in
      if not (fovrwrite g) && not (lovrwrite g)
      then (enotsup, w)
      else if not (storage_area_record_valid lib st h r w) || ltb st.crc_skip (length bytes)
      then (einval, w)
      else (rc, record w { dev = dev })
