-- ===== src/Store/Mount.antt =====
-- Mounting, unmounting and wiping: the functions of storage_area_store.c that change `ready` and
-- `advance`.
pub mod Position
use zephyr_goodies.Base.{
  ℕ, zero, suc, ◌+◌, Bool, true, false, ◌&&◌, ◌||◌, not, some, List, [], ◌∷◌, ltb, ◌==◌,
  if◌then◌else◌, length, get_or,
}
use zephyr_goodies.Errno.{Rc, ok, einval, ealready, out_of_fuel, is_ok, ◌>>=◌}
use zephyr_goodies.Size.{size_add, size_sub, size_mul, align_up, align_rest}
use zephyr_goodies.Area.{readv, writev, erase}
use zephyr_goodies.Medium.{area_size}
use zephyr_goodies.Store.{
  Platform, Store, World, Record, null, simple, record_len, sector_pos, Handle, store_valid,
}
use zephyr_goodies.Store.Walk.{record_next_in_sector}
use zephyr_goodies.Store.Advance.{advance_simple}

module _ {S : Type 0} (st : Store S) where
  -- `store_config_valid`
  unfoldable pub config_valid : Bool
  config_valid =
      let g = st.area.geometry in
      let sa_size = size_mul g.erase_size g.erase_blocks in
      let st_size = size_mul st.sector_size st.sector_cnt in
      if not (align_rest st.sector_size g.write_size == 0)
      then false
      else if not (align_rest g.erase_size st.sector_size == 0)
          && not (align_rest st.sector_size g.erase_size == 0)
      then false
      else if ltb sa_size st_size
      then false
      else true

  -- `storage_area_store_unmount`
  unfoldable pub storage_area_store_unmount : Handle → World S → Rc × World S
  storage_area_store_unmount h w =
      if not (store_valid h)
      then (einval, w)
      else if w.sd.ready
      then (ok, record w { sd = record w.sd { advance = null; ready = false } })
      else (ok, w)

  -- The loop of `storage_area_store_wipe`. The contents of `wbuf` are not initialised: `wbuf` is
  -- what the stack happens to hold, `write_size` bytes.
  unfoldable pub wipe_loop : ℕ → List ℕ → ℕ → World S → Rc × World S
  wipe_loop zero wbuf wroff w = (out_of_fuel, w)
  wipe_loop (suc fuel) wbuf wroff w =
      let g = st.area.geometry in
      let (rc, dev) = writev (some st.area) wroff (wbuf ∷ []) w.dev in
      let rest = wipe_loop fuel wbuf (size_add wroff (length wbuf)) (record w { dev = dev }) in
      if ltb wroff (size_mul g.erase_size g.erase_blocks)
      then (if is_ok rc then rest else (rc, record w { dev = dev }))
      else (ok, w)

  -- `storage_area_store_wipe`
  unfoldable pub storage_area_store_wipe : Handle → List ℕ → World S → Rc × World S
  storage_area_store_wipe h wbuf w =
      let (rc, dev) = erase (some st.area) 0 st.area.geometry.erase_blocks w.dev in
      let rest = wipe_loop (suc (area_size st.area.geometry)) wbuf 0 (record w { dev = dev }) in
      if not (store_valid h)
      then (einval, w)
      else if w.sd.ready
      then (einval, w)
      else if is_ok rc
      then rest
      else (rc, record w { dev = dev })

module _ {S : Type 0} (lib : Platform) (st : Store S) where
  -- The loop over the sectors of `store_init`, from sector `i` on with `left` sectors to go. The
  -- record keeps its size from one sector to the next.
  unfoldable pub scan_sectors : ℕ → ℕ → Record → World S → World S
  scan_sectors zero i r w = w
  scan_sectors (suc left) i r w =
      let (rc, found) =
        record_next_in_sector lib st w.sd false (record r { sector = i; loc = 0 }) w.dev in
      let (rc', byte) =
        readv (some st.area) (size_add (size_add (sector_pos st i) found.loc) 1) (1 ∷ []) w.dev in
      let rd_wrapcnt = get_or byte 0 0 in
      let wrapcnt = if ltb i w.sd.sector then rd_wrapcnt else w.sd.wrapcnt in
      let counted : World S = record w { sd = record w.sd { wrapcnt = wrapcnt } } in
      let skip = scan_sectors left (i + 1) found w in
      let next =
        scan_sectors left (i + 1) found
          (record w { sd = record w.sd { wrapcnt = wrapcnt; sector = i } }) in
      if not (is_ok rc)
      then skip
      else if not (is_ok rc')
      then skip
      else if rd_wrapcnt == wrapcnt
      then next
      else counted

  -- The loop of `store_init` to the end of the last record of the write sector.
  unfoldable pub last_end : ℕ → ℕ → Record → World S → Rc × ℕ
  last_end zero loc r w = (out_of_fuel, loc)
  last_end (suc fuel) loc r w =
      let (rc, found) = record_next_in_sector lib st w.sd true r w.dev in
      let end = size_add found.loc (align_up (record_len found.size) st.area.geometry.write_size) in
      let rest = last_end fuel end found w in if is_ok rc then rest else (ok, loc)

  unfoldable pub init_start : World S → World S
  init_start w = record w { sd = record w.sd { sector = st.sector_cnt; loc = st.sector_size } }

  unfoldable pub init_position : World S → Rc × World S
  init_position w =
      let from : Record = record { bound = true; sector = w.sd.sector; loc = 0; size = 0 } in
      let (rc, loc) = last_end (suc (suc (area_size st.area.geometry))) 0 from w in
      if w.sd.sector == st.sector_cnt
      then (ok, record w { sd = record w.sd { sector = size_sub w.sd.sector 1 } })
      else (rc, record w { sd = record w.sd { loc = loc; ready = true } })

  -- `store_init`
  unfoldable pub store_init : World S → Rc × World S
  store_init w = init_position (
      scan_sectors st.sector_cnt 0 (record { bound = true; sector = 0; loc = 0; size = 0 })
        (init_start w))

  -- `storage_area_store_mount_ro`
  unfoldable pub storage_area_store_mount_ro : Handle → World S → Rc × World S
  storage_area_store_mount_ro h w =
      let mounted = do
        w ← store_init w
        (ok, record w { sd = record w.sd { advance = null; ready = true } })
      in if not (store_valid h) || not (config_valid st)
        then (einval, w)
        else if w.sd.ready
        then (ealready, w)
        else mounted

  -- `storage_area_store_mount_cb`
  unfoldable pub storage_area_store_mount_cb : Handle → World S → Rc × World S
  storage_area_store_mount_cb h w =
      let mounted = do
        w ← store_init w
        w ← if not w.sd.ready then advance_simple st w else (ok, w)
        (ok, record w { sd = record w.sd { advance = simple; ready = true } })
      in if not (store_valid h) || not (config_valid st)
        then (einval, w)
        else if w.sd.ready
        then (ealready, w)
        else mounted
