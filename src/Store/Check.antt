-- ===== src/Store/Check.antt =====
-- `store_record_valid` of storage_area_store.c.
pub mod Crc
use zephyr_goodies.Base.{
  ℕ, zero, suc, ◌-◌, Bool, true, false, some, List, [], ◌∷◌, ◌==◌, if◌then◌else◌,
}
use zephyr_goodies.Errno.{Rc, ok, out_of_fuel, is_ok}
use zephyr_goodies.Size.{size_add, size_sub}
use zephyr_goodies.Area.{readv}
use zephyr_goodies.Store.{
  Platform, Store, Record, sas_hdrsize, sas_crcsize, sas_crcinit, sas_min, sector_pos, buffer_size,
}

module _ {S : Type 0} (lib : Platform) (st : Store S) where
  -- The loop over the data of a record. It returns the checksum, and where it stopped.
  unfoldable pub crc_loop : ℕ → ℕ → ℕ → ℕ → S → Rc × ℕ × ℕ
  crc_loop zero crc rdlen rdoff dev = (out_of_fuel, crc, rdoff)
  crc_loop (suc fuel) crc rdlen rdoff dev =
      let len = sas_min (buffer_size st) rdlen in
      let (rc, buf) = readv (some st.area) rdoff (len ∷ []) dev in
      let rest =
        crc_loop fuel (lib.crc32_ieee_update crc buf) (size_sub rdlen len) (size_add rdoff len)
          dev in
      if rdlen == 0 then (ok, crc, rdoff) else if is_ok rc then rest else (rc, crc, rdoff)

  -- The comparison with the checksum behind the data.
  unfoldable pub crc_matches : Rc × ℕ × ℕ → S → Bool
  crc_matches (rc, crc, rdoff) dev =
      let (rc', buf) = readv (some st.area) rdoff (sas_crcsize ∷ []) dev in
      if is_ok rc then (if is_ok rc' then crc == lib.get_le32 buf else false) else false

  -- A round takes at least one byte, so `rdlen + 1` rounds are enough.
  unfoldable pub record_valid : Record → S → Bool
  record_valid r dev =
      let recpos =
        size_add (size_add (size_add (sector_pos st r.sector) r.loc) sas_hdrsize) st.crc_skip in
      let rdlen = size_sub r.size st.crc_skip in
      crc_matches (crc_loop (suc rdlen) sas_crcinit rdlen recpos dev) dev
