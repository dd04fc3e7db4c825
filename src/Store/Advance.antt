-- ===== src/Store/Advance.antt =====
-- `store_advance_simple` of storage_area_store.c, and what it is made of.
pub mod Fresh
pub mod Ends
use zephyr_goodies.Base.{
  ℕ, zero, suc, ◌+◌, ◌/◌, ◌%◌, ◌&&◌, ◌||◌, not, Option, none, some, List, [], ◌∷◌, ltb, ◌==◌,
  if◌then◌else◌, length, replicate,
}
use zephyr_goodies.Errno.{Rc, ok, out_of_fuel, is_ok, ◌>>=◌}
use zephyr_goodies.Size.{size_add, size_sub, align_up}
use zephyr_goodies.Area.{fovrwrite, autoerase, writev, erase}
use zephyr_goodies.Store.{
  Store, StoreData, World, sas_fillval, sas_min, sas_max, sector_pos, buffer_size,
}
use zephyr_goodies.Store.Sectors.{sector_advance}

module _ {S : Type 0} (st : Store S) where
  -- The write of a cookie that is there, filled up to whole write units.
  unfoldable pub write_cookie : List ℕ → World S → Rc × World S
  write_cookie cookie w =
      let cksize = length cookie in
      let align = st.area.geometry.write_size in
      let flen = size_sub (align_up cksize align) cksize in
      let (rc, dev) =
        writev (some st.area) (sector_pos st w.sd.sector) (cookie ∷ replicate flen sas_fillval ∷ [])
          w.dev in
      if is_ok rc
      then (ok, record { dev = dev; sd = record w.sd { loc = size_add cksize flen } })
      else (rc, record w { dev = dev })

  -- `store_add_cookie`
  unfoldable pub add_cookie : Option (List ℕ) → World S → Rc × World S
  add_cookie none w = (ok, w)
  add_cookie (some cookie) w =
      if not (w.sd.loc == 0) || length cookie == 0 then (ok, w) else write_cookie cookie w

  -- The loop of `store_fill_sector`.
  unfoldable pub fill_loop : ℕ → World S → Rc × World S
  fill_loop zero w = (out_of_fuel, w)
  fill_loop (suc fuel) w =
      let len = sas_min (buffer_size st) (size_sub st.sector_size w.sd.loc) in
      let wroff = size_add (sector_pos st w.sd.sector) w.sd.loc in
      let (rc, dev) = writev (some st.area) wroff (replicate len sas_fillval ∷ []) w.dev in
      let filled : World S = record {
        dev = dev;
        sd = record w.sd { loc = size_add w.sd.loc len };
      } in
      let rest = fill_loop fuel filled in
      if ltb w.sd.loc st.sector_size
      then (if is_ok rc then rest else (rc, record w { dev = dev }))
      else (ok, w)

  -- A round fills at least one byte.
  unfoldable pub fill_sector : World S → Rc × World S
  fill_sector w = fill_loop (suc st.sector_size) w

  -- `store_erase_block`
  unfoldable pub erase_block : World S → Rc × World S
  erase_block w =
      let erase_size = st.area.geometry.erase_size in
      let pos = sector_pos st w.sd.sector in
      let (rc, dev) =
        erase (some st.area) (pos / erase_size) (sas_max 1 (st.sector_size / erase_size)) w.dev in
      if not (pos % erase_size == 0) then (ok, w) else (rc, record w { dev = dev })

  -- The step to the next sector, which counts a round when it comes to the first one.
  unfoldable pub next_sector : StoreData → StoreData
  next_sector sd =
      let sector = sector_advance st.sector_cnt sd.sector 1 in
      record sd {
        sector = sector;
        loc = 0;
        wrapcnt = if sector == 0 then (sd.wrapcnt + 1) % 256 else sd.wrapcnt;
      }

  -- `store_advance_simple`
  unfoldable pub advance_simple : World S → Rc × World S
  advance_simple w = do
    w ← if fovrwrite st.area.geometry then fill_sector w else (ok, w)
    w ← (ok, record w { sd = next_sector w.sd })
    w ←
        if not (fovrwrite st.area.geometry) && not (autoerase st.area.geometry)
        then erase_block w
        else (ok, w)
    add_cookie st.sector_cookie w
