-- ===== src/Store/Walk.antt =====
-- `store_record_next_in_sector` of storage_area_store.c.
pub mod Ends
use zephyr_goodies.Base.{
  ℕ, zero, suc, ◌+◌, ◌*◌, ◌%◌, Bool, true, false, ◌&&◌, ◌||◌, not, Option, none, some, List, [],
  ◌∷◌, ltb, leb, ◌==◌, if◌then◌else◌, length, get_or, drop,
}
use zephyr_goodies.Errno.{Rc, ok, enoent, out_of_fuel, is_ok}
use zephyr_goodies.Size.{size_add, size_sub, align_up}
use zephyr_goodies.Area.{readv}
use zephyr_goodies.Medium.{area_size}
use zephyr_goodies.Store.{
  Platform, Store, StoreData, Record, sas_magic, sas_fillval, sas_hdrsize, sas_crcsize, sector_pos,
  record_len, geometry_of,
}
use zephyr_goodies.Store.Check.{record_valid}

-- `header[1]` as it is compared: wrapped sectors behind the write sector are one round older, and
-- without a wrap check every count passes.
unfoldable pub expected_wrapcnt : StoreData → ℕ → Bool → ℕ → ℕ
expected_wrapcnt sd sector wrapcheck stored =
    let seen = if ltb sd.sector sector then (stored + 1) % 256 else stored in
    if not wrapcheck then sd.wrapcnt else seen

-- At the start of a sector its cookie is skipped.
unfoldable pub skip_cookie : Option (List ℕ) → ℕ → Record → Record
skip_cookie none align r = r
skip_cookie (some cookie) align r =
    if r.loc == 0 && not (length cookie == 0)
    then record r { loc = align_up (length cookie) align }
    else r

-- How a round of the loop ends: the code and the record that it returns, or `continue`.
pub data Round : Type 0 where
  leave : Rc → Record → Round
  again : Round

module _ {S : Type 0} (lib : Platform) (st : Store S) where
  -- Where the next header is looked for.
  unfoldable pub next_pos : Record → ℕ
  next_pos r =
      if not (r.size == 0)
      then align_up (size_add r.loc (record_len r.size)) st.area.geometry.write_size
      else r.loc

  -- What a header tells: whether a record of an accepted size starts there.
  unfoldable pub header_ok : StoreData → Record → Bool → ℕ → List ℕ → Bool
  header_ok sd r wrapcheck rdpos header =
      let rsize = lib.get_le16 (drop 2 header) in
      let avail = size_sub (size_sub (size_sub st.sector_size rdpos) sas_crcsize) sas_hdrsize in
      let size_ok = ltb 0 rsize && ltb rsize avail in
      get_or header 0 0 == sas_magic
      && expected_wrapcnt sd r.sector wrapcheck (get_or header 1 0) == sd.wrapcnt
      && size_ok

  -- One round of the loop, up to the `continue`.
  unfoldable pub round : StoreData → Bool → Bool → Record → S → Round
  round sd wrapcheck check_crc r dev =
      let rdpos = next_pos r in
      let stopped = record r { loc = rdpos; size = 0 } in
      let (rc, header) =
        readv (some st.area) (size_add (sector_pos st r.sector) rdpos) (sas_hdrsize ∷ []) dev in
      let found = record r { loc = rdpos; size = lib.get_le16 (drop 2 header) } in
      if sd.sector == r.sector && leb sd.loc rdpos || rdpos == st.sector_size
      then leave enoent stopped
      else if not (is_ok rc)
      then leave enoent r
      else if get_or header 0 0 == sas_fillval
      then leave enoent stopped
      else if header_ok sd r wrapcheck rdpos header
          && (not check_crc || record_valid lib st found dev)
      then leave ok found
      else again

  -- Behind a round that finds nothing, records are accepted only with a checksum that matches.
  unfoldable pub next_loop : ℕ → StoreData → Bool → Bool → Record → S → Rc × Record
  next_loop zero sd wrapcheck check_crc r dev = (out_of_fuel, r)
  next_loop (suc fuel) sd wrapcheck check_crc r dev = elim (round sd wrapcheck check_crc r dev) [
    | leave rc r' ↦ (rc, r')
    | again ↦
        next_loop fuel sd wrapcheck true
          (record r { loc = size_add r.loc st.area.geometry.write_size; size = 0 }) dev
  ]

  -- Every round but the last reads inside the area, and the next one stands further on.
  unfoldable pub record_next_in_sector : StoreData → Bool → Record → S → Rc × Record
  record_next_in_sector sd wrapcheck r dev =
      next_loop (suc (suc (area_size st.area.geometry))) sd wrapcheck false
        (skip_cookie st.sector_cookie st.area.geometry.write_size r) dev
