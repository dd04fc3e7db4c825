-- ===== src/Store/Threads/Mode.antt =====
-- No call of storage_area_store.c that changes a mounted store unmounts it, or changes how it is
-- advanced.
use zephyr_goodies.Base.{
  ℕ, zero, suc, ◌≡◌, refl, ◌∙◌, Bool, true, false, Option, none, some, List, if◌then◌else◌, arith,
  not, ◌&&◌,
}
use zephyr_goodies.Errno.{Rc, ok, is_ok, is_enospc, ◌>>=◌}
use zephyr_goodies.Store.{Platform, Store, World, Record, Advancer, null, simple, full, Handle}
use zephyr_goodies.Store.Advance.{
  write_cookie, add_cookie, fill_loop, fill_sector, erase_block, next_sector, advance_simple,
}
use zephyr_goodies.Store.Write.{write_loop, write_record, store_writev}
use zephyr_goodies.Store.Compact.{
  Move, copy_loop, copy_record, move_record, move_retry, move_sector, move_sectors, advance_full,
}
use zephyr_goodies.Area.{fovrwrite, autoerase}
use zephyr_goodies.Medium.{area_size}
use zephyr_goodies.Store.Sectors.{sector_advance}
use zephyr_goodies.Store.Walk.{record_next_in_sector}
use zephyr_goodies.Store.Calls.{call_advance}
use zephyr_goodies.Store.Threads.{Call, writing, advancing, compacting, inside}

-- A result leaves the store mounted as it was.
pub record SameMode {S : Type 0} (a : World S) (m : Rc × World S) : Type 0 where
  pub ready : m.1.sd.ready ≡ a.sd.ready
  pub advance : m.1.sd.advance ≡ a.sd.advance

module _ {S : Type 0} where
  -- A result with the state of another, or one that mounts in the same way.
  alike :
      (a : World S) (m : Rc × World S)
      → m.1.sd.ready ≡ a.sd.ready
      → m.1.sd.advance ≡ a.sd.advance
      → SameMode a m
  alike a m r d = record { ready = r; advance = d }

  same : (a : World S) (rc : Rc) → SameMode a (rc, a)
  same a rc = record { ready = refl; advance = refl }

  SameMode-trans : (a : World S) (m n : Rc × World S) → SameMode a m → SameMode m.1 n → SameMode a n
  SameMode-trans a m n h k = record { ready = k.ready ∙ h.ready; advance = k.advance ∙ h.advance }

  -- One call after another.
  proceed-SameMode :
      (a : World S) (m : Rc × World S) (k : World S → Rc × World S)
      → SameMode a m
      → ((w : World S) → SameMode w (k w))
      → SameMode a (m >>= k)
  proceed-SameMode a (ok, w) k h g = SameMode-trans a (ok, w) (k w) h (g w)
  proceed-SameMode a (_, w) k h g = record { ready = h.ready; advance = h.advance }

  -- Whichever branch is taken.
  if-SameMode :
      (a : World S) (b : Bool) (x y : Rc × World S)
      → SameMode a x
      → SameMode a y
      → SameMode a (if b then x else y)
  if-SameMode a true x y h k = h
  if-SameMode a false x y h k = k

module _ {S : Type 0} (lib : Platform) (st : Store S) where
  write_loop-SameMode :
      (fuel len : ℕ) (wr : List (List ℕ)) (w : World S)
      → SameMode w (write_loop lib st fuel len wr w)
  unfolding write_loop
  write_loop-SameMode zero len wr w = same w _
  write_loop-SameMode (suc fuel) len wr w = grind (arith, write_loop-SameMode fuel len wr)

  store_writev-SameMode :
      (iovec : List (List ℕ)) (w : World S) → SameMode w (store_writev lib st iovec w)
  unfolding store_writev write_record
  store_writev-SameMode iovec w = grind (arith, write_loop-SameMode)

  fill_loop-SameMode : (fuel : ℕ) (w : World S) → SameMode w (fill_loop st fuel w)
  unfolding fill_loop
  fill_loop-SameMode zero w = same w _
  fill_loop-SameMode (suc fuel) w = grind (arith, fill_loop-SameMode fuel)

  add_cookie-SameMode :
      (cookie : Option (List ℕ)) (w : World S) → SameMode w (add_cookie st cookie w)
  unfolding add_cookie write_cookie
  add_cookie-SameMode none w = same w _
  add_cookie-SameMode (some cookie) w = ground arith

  erase_block-SameMode : (w : World S) → SameMode w (erase_block st w)
  unfolding erase_block
  erase_block-SameMode w = ground arith

  next_sector-SameMode : (w : World S) → SameMode w (ok, record w { sd = next_sector st w.sd })
  unfolding next_sector
  next_sector-SameMode w = alike w _ refl refl

  advance_simple-SameMode : (w : World S) → SameMode w (advance_simple st w)
  unfolding advance_simple fill_sector
  advance_simple-SameMode w =
      proceed-SameMode w (if fovrwrite st.area.geometry then fill_sector st w else (ok, w)) _
        (grind (arith, fill_loop-SameMode))
        (λ w.
          proceed-SameMode w (ok, record w { sd = next_sector st w.sd }) _ (next_sector-SameMode w)
            (λ w.
              proceed-SameMode w
                (if not (fovrwrite st.area.geometry) && not (autoerase st.area.geometry)
                  then erase_block st w
                  else (ok, w))
                _ (grind (arith, erase_block-SameMode))
                (λ w. add_cookie-SameMode st.sector_cookie w)))

  copy_loop-SameMode :
      (fuel start alsize rdpos wrpos : ℕ) (w : World S)
      → SameMode w (copy_loop lib st fuel start alsize rdpos wrpos w)
  unfolding copy_loop
  copy_loop-SameMode zero start alsize rdpos wrpos w = same w _
  copy_loop-SameMode (suc fuel) start alsize rdpos wrpos w = grind (arith, copy_loop-SameMode fuel)

  move_record-SameMode :
      (cb : Move S) (r : Record) (w : World S) → SameMode w (move_record lib st cb r w)
  unfolding move_record copy_record
  move_record-SameMode none r w = same w _
  move_record-SameMode (some move) r w = grind (arith, copy_loop-SameMode)

  move_retry-SameMode :
      (fuel : ℕ) (cb : Move S) (r : Record) (w : World S)
      → SameMode w (move_retry lib st fuel cb r w)
  unfolding move_retry
  move_retry-SameMode zero cb r w = same w _
  move_retry-SameMode (suc fuel) cb r w =
      let first = move_record-SameMode cb r w in
      let w' : World S = (move_record lib st cb r w).1 in
      if-SameMode w (is_enospc (move_record lib st cb r w).0)
        (advance_simple st w' >>= λ w. move_retry lib st fuel cb r w) (move_record lib st cb r w)
        (SameMode-trans w (move_record lib st cb r w) _ first (
          proceed-SameMode w' (advance_simple st w') (λ w. move_retry lib st fuel cb r w)
            (advance_simple-SameMode w') (λ w. move_retry-SameMode fuel cb r w)))
        first

  move_sector-SameMode :
      (fuel : ℕ) (rc : Rc) (cb : Move S) (r : Record) (w : World S)
      → SameMode w (move_sector lib st fuel rc cb r w)
  unfolding move_sector
  move_sector-SameMode zero rc cb r w = same w _
  move_sector-SameMode (suc fuel) rc cb r w =
      let (rc', found) = record_next_in_sector lib st w.sd true r w.dev in
      if-SameMode w (is_ok rc')
        (move_retry lib st (suc st.sector_cnt) cb found w >>= λ w.
          move_sector lib st fuel ok cb found w)
        (rc, w)
        (proceed-SameMode w (move_retry lib st (suc st.sector_cnt) cb found w)
          (λ w. move_sector lib st fuel ok cb found w)
          (move_retry-SameMode (suc st.sector_cnt) cb found w)
          (λ w. move_sector-SameMode fuel ok cb found w))
        (same w rc)

  move_sectors-SameMode :
      (scnt : ℕ) (rc : Rc) (cb : Move S) (sector : ℕ) (w : World S)
      → SameMode w (move_sectors lib st scnt rc cb sector w)
  unfolding move_sectors
  move_sectors-SameMode zero rc cb sector w = same w _
  move_sectors-SameMode (suc scnt) rc cb sector w =
      let from : Record = record { bound = true; sector = sector; loc = 0; size = 0 } in
      let fuel = suc (suc (area_size st.area.geometry)) in
      let m = move_sector lib st fuel rc cb from w in
      SameMode-trans w m _ (move_sector-SameMode fuel rc cb from w)
        (move_sectors-SameMode scnt m.0 cb (sector_advance st.sector_cnt sector 1) m.1)

  advance_full-SameMode : (cb : Move S) (w : World S) → SameMode w (advance_full lib st cb w)
  unfolding advance_full
  advance_full-SameMode none w = advance_simple-SameMode w
  advance_full-SameMode (some move) w =
      proceed-SameMode w (advance_simple st w) _ (advance_simple-SameMode w)
        (λ w. grind (arith, move_sectors-SameMode))

  call_advance-SameMode :
      (by : Advancer) (cb : Move S) (w : World S) → SameMode w (call_advance lib st by cb w)
  unfolding call_advance
  call_advance-SameMode null cb w = same w _
  call_advance-SameMode simple cb w = advance_simple-SameMode w
  call_advance-SameMode full cb w = advance_full-SameMode cb w

  pub inside-SameMode : (h : Handle) (c : Call S) (w : World S) → SameMode w (inside lib st h c w)
  unfolding inside
  inside-SameMode h (writing iovec) w = store_writev-SameMode iovec w
  inside-SameMode h advancing w = call_advance-SameMode w.sd.advance none w
  inside-SameMode h (compacting cb) w = call_advance-SameMode w.sd.advance cb w
