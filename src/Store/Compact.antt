-- ===== src/Store/Compact.antt =====
-- Moving records: `store_move_record`, `store_advance`, `store_reverse` and `store_recover` of
-- storage_area_store.c.
pub mod Copy
pub mod Run
pub mod Moved
pub mod Sector
pub mod Whole
use zephyr_goodies.Base.{
  ℕ, zero, suc, ◌/◌, ◌%◌, Bool, true, not, Option, none, some, List, [], ◌∷◌, ◌++◌, ltb, ◌==◌,
  if◌then◌else◌, take, drop,
}
use zephyr_goodies.Errno.{Rc, ok, enospc, out_of_fuel, is_ok, is_enospc, ◌>>=◌}
use zephyr_goodies.Size.{size_add, size_sub, align_up}
use zephyr_goodies.Area.{readv, writev}
use zephyr_goodies.Medium.{area_size}
use zephyr_goodies.Store.{
  Platform, Store, World, Record, sas_min, sas_max, record_len, sector_pos, buffer_size,
}
use zephyr_goodies.Store.Sectors.{sector_advance}
use zephyr_goodies.Store.Check.{record_valid}
use zephyr_goodies.Store.Walk.{record_next_in_sector}
use zephyr_goodies.Store.Advance.{advance_simple}

-- `struct storage_area_store_compact_cb`: `move` is asked of a record in the world it stands in,
-- and `none` is NULL, for the struct or for the pointer in it. `move_cb` changes nothing of the
-- store, and its calls are not kept.
abbrev pub Move : Type 0 → Type 0
Move S = Option (World S → Record → Bool)

module _ {S : Type 0} (lib : Platform) (st : Store S) where
  -- `if (start == 0U) { buf[1] = data->wrapcnt; }`
  unfoldable pub stamp : ℕ → ℕ → List ℕ → List ℕ
  stamp start wrapcnt buf = if start == 0 then take 1 buf ++ wrapcnt ∷ drop 2 buf else buf

  -- The copy loop of `store_move_record`.
  unfoldable pub copy_loop : ℕ → ℕ → ℕ → ℕ → ℕ → World S → Rc × World S
  copy_loop zero start alsize rdpos wrpos w = (out_of_fuel, w)
  copy_loop (suc fuel) start alsize rdpos wrpos w =
      let len = sas_min (buffer_size st) (size_sub alsize start) in
      let (rc, buf) = readv (some st.area) (size_add rdpos start) (len ∷ []) w.dev in
      let (rc', dev) =
        writev (some st.area) (size_add wrpos start) (stamp start w.sd.wrapcnt buf ∷ []) w.dev in
      let copied : World S = record {
        dev = dev;
        sd = record w.sd { loc = size_add w.sd.loc len };
      } in
      let rest = copy_loop fuel (size_add start len) alsize rdpos wrpos copied in
      if not (ltb start alsize)
      then (ok, w)
      else if not (is_ok rc)
      then (rc, w)
      else if is_ok rc'
      then rest
      else (rc', record w { dev = dev })

  unfoldable pub copy_record : Record → World S → Rc × World S
  copy_record r w =
      let rdpos = size_add (sector_pos st r.sector) r.loc in
      let wrpos = size_add (sector_pos st w.sd.sector) w.sd.loc in
      let alsize = align_up (record_len r.size) st.area.geometry.write_size in
      if ltb (size_sub st.sector_size alsize) w.sd.loc
      then (enospc, w)
      else copy_loop (suc alsize) 0 alsize rdpos wrpos w

  -- `store_move_record`
  unfoldable pub move_record : Move S → Record → World S → Rc × World S
  move_record none r w = (ok, w)
  move_record (some move) r w =
      if not (move w r)
      then (ok, w)
      else if not (record_valid lib st r w.dev)
      then (ok, w)
      else copy_record r w

  -- The retry in `store_advance`: a full sector is left for the next one. The `while (true)` has no
  -- bound of its own; a record that none of the sectors takes is tried in them again and again.
  -- Here it is out of fuel once each sector was tried and the first one again.
  unfoldable pub move_retry : ℕ → Move S → Record → World S → Rc × World S
  move_retry zero cb r w = (out_of_fuel, w)
  move_retry (suc fuel) cb r w =
      let (rc, w') = move_record cb r w in
      let retry = advance_simple st w' >>= λ w. move_retry fuel cb r w in
      if is_enospc rc then retry else (rc, w')

  -- The records of one sector, from `r` on, with the code that the loop came with: a sector with no
  -- record leaves it as it is.
  unfoldable pub move_sector : ℕ → Rc → Move S → Record → World S → Rc × World S
  move_sector zero rc cb r w = (out_of_fuel, w)
  move_sector (suc fuel) rc cb r w =
      let (rc', found) = record_next_in_sector lib st w.sd true r w.dev in
      let rest =
        move_retry (suc st.sector_cnt) cb found w >>= λ w. move_sector fuel ok cb found w in
      if is_ok rc' then rest else (rc, w)

  -- The loop over the sectors of an erase block. An error ends a sector, not the loop.
  unfoldable pub move_sectors : ℕ → Rc → Move S → ℕ → World S → Rc × World S
  move_sectors zero rc cb sector w = (rc, w)
  move_sectors (suc scnt) rc cb sector w =
      let from : Record = record { bound = true; sector = sector; loc = 0; size = 0 } in
      let (rc', w') = move_sector (suc (suc (area_size st.area.geometry))) rc cb from w in
      move_sectors scnt rc' cb (sector_advance st.sector_cnt sector 1) w'

  -- `store_advance`
  unfoldable pub advance_full : Move S → World S → Rc × World S
  advance_full none w = advance_simple st w
  advance_full (some move) w = do
    w ← advance_simple st w
    let erase_size = st.area.geometry.erase_size
    let first = sector_advance st.sector_cnt w.sd.sector st.spare_sectors
    if not (sector_pos st w.sd.sector % erase_size == 0)
        then (ok, w)
        else move_sectors (sas_max 1 (erase_size / st.sector_size)) ok (some move) first w
