-- ===== src/Store/Write.antt =====
-- `store_writev` of storage_area_store.c: a record is put together and written at the write
-- position, and one write unit further on as long as the write fails.
pub mod Image
pub mod Stored
pub mod Readback
pub mod RoundTrip
pub mod Full
pub mod Ends
use zephyr_goodies.Base.{
  ℕ, zero, suc, ◌+◌, ◌-◌, ◌%◌, ◌^◌, List, [], ◌∷◌, ◌++◌, ltb, leb, if◌then◌else◌, length, drop,
  some, replicate,
}
use zephyr_goodies.Errno.{Rc, ok, enospc, enotsup, out_of_fuel, is_ok}
use zephyr_goodies.Size.{size_mod, size_add, size_sub, align_up}
use zephyr_goodies.Area.{erasevalue, iovec_size, lengths, writev}
use zephyr_goodies.Store.{
  Platform, Store, StoreData, World, is_null, sas_magic, sas_crcinit, sas_crcsize, sector_pos,
  record_len,
}

module _ (lib : Platform) where
  -- The checksum over the buffers, without their first `skip` bytes.
  unfoldable pub crc_buffers : ℕ → ℕ → List (List ℕ) → ℕ
  crc_buffers crc skip [] = crc
  crc_buffers crc skip (b ∷ bs) =
      if leb (length b) skip
      then crc_buffers crc (size_sub skip (length b)) bs
      else crc_buffers (lib.crc32_ieee_update crc (drop skip b)) 0 bs

module _ {S : Type 0} (lib : Platform) (st : Store S) where
  -- The array `wr`: the header, the buffers of the caller, and `cbuf`.
  unfoldable pub record_buffers : ℕ → List (List ℕ) → List (List ℕ)
  record_buffers wrapcnt iovec =
      let size = iovec_size (lengths iovec) in
      let len = record_len size in
      let header = sas_magic ∷ wrapcnt ∷ lib.put_le16 (size % 2 ^ 16) in
      let crc = crc_buffers lib sas_crcinit st.crc_skip iovec in
      let padding = size_sub (align_up len st.area.geometry.write_size) len in
      let cbuf = lib.put_le32 crc ++ replicate padding (erasevalue st.area.geometry) in
      header ∷ (iovec ++ cbuf ∷ [])

  -- The loop around the write.
  unfoldable pub write_loop : ℕ → ℕ → List (List ℕ) → World S → Rc × World S
  write_loop zero len wr w = (out_of_fuel, w)
  write_loop (suc fuel) len wr w =
      let wroff = size_add (sector_pos st w.sd.sector) w.sd.loc in
      let (rc, dev) = writev (some st.area) wroff wr w.dev in
      let written = size_add w.sd.loc (align_up len st.area.geometry.write_size) in
      let further = size_add w.sd.loc st.area.geometry.write_size in
      let moved : World S = record { dev = dev; sd = record w.sd { loc = further } } in
      let again = write_loop fuel len wr moved in
      if is_ok rc
      then (ok, record { dev = dev; sd = record w.sd { loc = written } })
      else if ltb (size_sub st.sector_size len) further
      then (enospc, moved)
      else again

  -- The exit of the loop looks at the position only, which each failed round moves on: with a record
  -- that is not longer than a sector it stays inside the sector, and after 2^32 rounds it has come
  -- to each place that it comes to at all.
  unfoldable pub write_record : List (List ℕ) → World S → Rc × World S
  write_record iovec w =
      let len = record_len (iovec_size (lengths iovec)) in
      if ltb (size_sub st.sector_size len) w.sd.loc
      then (enospc, w)
      else write_loop (suc size_mod) len (record_buffers w.sd.wrapcnt iovec) w

  unfoldable pub store_writev : List (List ℕ) → World S → Rc × World S
  store_writev iovec w = if is_null w.sd.advance then (enotsup, w) else write_record iovec w
