-- ===== src/Store/Recover.antt =====
-- `store_reverse` and `store_recover` of storage_area_store.c, and `storage_area_store_mount`.
use zephyr_goodies.Base.{
  ℕ, zero, suc, ◌+◌, ◌/◌, ◌%◌, Bool, true, false, ◌&&◌, ◌||◌, not, none, some, ltb, leb, ◌==◌,
  if◌then◌else◌,
}
use zephyr_goodies.Errno.{Rc, ok, einval, ealready, is_ok, ◌>>=◌}
use zephyr_goodies.Size.{size_sub, size_mul}
use zephyr_goodies.Medium.{area_size}
use zephyr_goodies.Store.{
  Platform, Store, StoreData, World, Record, full, sector_pos, Handle, store_valid,
}
use zephyr_goodies.Store.Sectors.{sector_advance, sector_reverse}
use zephyr_goodies.Store.Check.{record_valid}
use zephyr_goodies.Store.Walk.{record_next_in_sector}
use zephyr_goodies.Store.Advance.{advance_simple}
use zephyr_goodies.Store.Compact.{Move, advance_full}
use zephyr_goodies.Store.Mount.{config_valid, store_init}

module _ {S : Type 0} (st : Store S) where
  -- `store_reverse`
  unfoldable pub store_reverse : StoreData → StoreData
  store_reverse sd =
      let sector = sector_reverse st.sector_cnt sd.sector 1 in
      record sd {
        sector = sector;
        loc = st.sector_size;
        wrapcnt =
            if sector == size_sub st.sector_cnt 1 then (sd.wrapcnt + 255) % 256 else sd.wrapcnt;
      }

  -- Whether a sector does not start an erase block.
  unfoldable pub inside_block : ℕ → Bool
  inside_block sector = not (sector_pos st sector % st.area.geometry.erase_size == 0)

  -- Back to the start of an erase block, with the number of steps; sector 0 starts one.
  unfoldable pub rewind : ℕ → StoreData → ℕ → StoreData × ℕ
  rewind zero sd rscnt = (sd, rscnt)
  rewind (suc fuel) sd rscnt =
      let rest = rewind fuel (store_reverse sd) (rscnt + 1) in
      if inside_block sd.sector then rest else (sd, rscnt)

  unfoldable pub rewind_block : StoreData → StoreData × ℕ
  rewind_block sd =
      let (sd, rscnt) = rewind (suc st.sector_cnt) sd 0 in (store_reverse sd, rscnt + 1)

  unfoldable pub block_start : ℕ → ℕ → ℕ
  block_start zero sector = sector
  block_start (suc fuel) sector =
      let rest = block_start fuel (sector_reverse st.sector_cnt sector 1) in
      if inside_block sector then rest else sector

module _ {S : Type 0} (lib : Platform) (st : Store S) where
  -- The records of a sector that pass a test, behind `r`.
  unfoldable pub count_sector : ℕ → (Record → Bool) → Record → World S → ℕ → ℕ
  count_sector zero test r w n = n
  count_sector (suc fuel) test r w n =
      let (rc, found) = record_next_in_sector lib st w.sd true r w.dev in
      let rest = count_sector fuel test found w (if test found then n + 1 else n) in
      if is_ok rc then rest else n

  unfoldable pub count_sectors : ℕ → (Record → Bool) → ℕ → World S → ℕ → ℕ
  count_sectors zero test sector w n = n
  count_sectors (suc cnt) test sector w n =
      let from : Record = record { bound = true; sector = sector; loc = 0; size = 0 } in
      count_sectors cnt test (sector_advance st.sector_cnt sector 1) w
        (count_sector (suc (suc (area_size st.area.geometry))) test from w n)

  -- The first round of the loop of `store_recover`: whether all that should have been moved was.
  unfoldable pub moved_all : (World S → Record → Bool) → World S → Bool
  moved_all move w =
      let (back, rscnt) = rewind_block st w.sd in
      let behind : World S = record w { sd = back } in
      let first = sector_advance st.sector_cnt back.sector (st.spare_sectors + 1) in
      let mrcnt =
        count_sectors (st.area.geometry.erase_size / st.sector_size)
          (λ r. move behind r && record_valid lib st r w.dev) first behind 0 in
      let vrcnt =
        count_sectors rscnt (λ r. record_valid lib st r w.dev)
          (block_start st (suc st.sector_cnt) w.sd.sector) w 0 in
      if mrcnt == 0 then true else leb mrcnt vrcnt

  -- `store_recover`: where data was not moved, the move is started again.
  unfoldable pub store_recover : Move S → World S → Rc × World S
  store_recover none w = (ok, w)
  store_recover (some move) w =
      let again = advance_full lib st (some move) (record w { sd = (rewind_block st w.sd).0 }) in
      if moved_all move w then (ok, w) else again

  abbrev lacks_spare : Move S → Bool
  lacks_spare none = false
  lacks_spare (some move) =
      ltb (size_mul st.spare_sectors st.sector_size) st.area.geometry.erase_size

  -- `storage_area_store_mount`
  unfoldable pub storage_area_store_mount : Handle → Move S → World S → Rc × World S
  storage_area_store_mount h cb w =
      let mounted = do
        w ← store_init lib st w
        w ← if not w.sd.ready then advance_simple st w else store_recover cb w
        (ok, record w { sd = record w.sd { advance = full; ready = true } })
      in if not (store_valid h) || not (config_valid st)
        then (einval, w)
        else if lacks_spare cb
        then (einval, w)
        else if w.sd.ready
        then (ealready, w)
        else mounted
