-- ===== src/Store/Advance/Ends.antt =====
-- `store_advance_simple` ends, whatever the bytes on the device are and whatever its driver does.
use native.Mathlib.Nat.{mod-lt, zero-mod}
use zephyr_goodies.Base.{
  ℕ, zero, suc, ◌+◌, ◌-◌, ◌/◌, ◌%◌, ◌||◌, ◌<◌, ◌≡◌, ◌≢◌, refl, ap, ◌∙◌, inl, inr, not, Option, none,
  some, List, [], ◌∷◌, length, replicate, ltb, ◌==◌, if◌then◌else◌, Bool, true, false, Bool-cases,
  ltb→lt, arith,
}
use zephyr_goodies.Errno.{Rc, ok, out_of_fuel, is_ok, ◌>>=◌}
use zephyr_goodies.Size.{size_mod, size_add, size_sub, align_up}
use zephyr_goodies.Size.Align.{align_up-IsAlignUp, multiple_add, multiple_sub}
use zephyr_goodies.Area.{writev, erase, fovrwrite}
use zephyr_goodies.Store.{Store, World, sas_fillval, sas_min, sas_max, buffer_size, sector_pos}
use zephyr_goodies.Store.Sectors.Round.{sector_advance-eq-mod}
use zephyr_goodies.Store.Layout.{IsLaidOut, IsPosition, sector_inside}
use zephyr_goodies.Store.Advance.{
  write_cookie, add_cookie, fill_loop, fill_sector, erase_block, next_sector, advance_simple,
}
use zephyr_goodies.Store.Advance.Fresh.{chunk_lem}

-- The driver of the area returns from its calls.
pub record IsReturning {S : Type 0} (st : Store S) : Type 0 where
  pub writes :
      (offset : ℕ) (iovec : List (List ℕ)) (dev : S)
      → (writev (some st.area) offset iovec dev).0 ≢ out_of_fuel
  pub erases : (sblk bcnt : ℕ) (dev : S) → (erase (some st.area) sblk bcnt dev).0 ≢ out_of_fuel

module _ {S : Type 0} (st : Store S) (laid : IsLaidOut st) (drives : IsReturning st) where
  abbrev ws : ℕ
  ws = st.area.geometry.write_size

  -- A call that ended, with a write position in the store.
  abbrev pub HasEnded : Rc × World S → Type 0
  HasEnded m = (m.0 ≢ out_of_fuel) × IsPosition st m.1.sd

  proceed-HasEnded :
      (m : Rc × World S) (k : World S → Rc × World S)
      → HasEnded m
      → ((w : World S) → IsPosition st w.sd → HasEnded (k w))
      → HasEnded (m >>= k)
  proceed-HasEnded (ok, w) k e f = f w e.1
  proceed-HasEnded (_, w) k e f = (e.0, e.1)

  done-HasEnded : (w : World S) → IsPosition st w.sd → HasEnded (ok, w)
  done-HasEnded w p = (λ e. cc, p)

  fill_loop_ends :
      (fuel : ℕ) (w : World S)
      → IsPosition st w.sd
      → st.sector_size < fuel + w.sd.loc
      → HasEnded (fill_loop st fuel w)
  unfolding fill_loop
  fill_loop_ends zero w p h = absurd (omega (arith, p.in_bounds))
  fill_loop_ends (suc fuel) w p h = elim (Bool-cases (ltb w.sd.loc st.sector_size)) [
    | inr full ↦ rw full (done-HasEnded w p)
    | inl more ↦
        let lt = ltb→lt w.sd.loc st.sector_size more in
        let inside = sector_inside st laid w.sd.sector p.exists in
        let room : size_sub st.sector_size w.sd.loc ≡ st.sector_size - w.sd.loc =
          omega (arith, laid.small) in
        let n = sas_min (buffer_size st) (st.sector_size - w.sd.loc) in
        let c =
          chunk_lem st laid (st.sector_size - w.sd.loc)
            (multiple_sub ws w.sd.loc st.sector_size p.in_bounds p.on_unit laid.aligned)
            (omega arith) in
        let on : size_add w.sd.loc n ≡ w.sd.loc + n = omega (arith, laid.small, c) in
        let wroff = size_add (sector_pos st w.sd.sector) w.sd.loc in
        let out = writev (some st.area) wroff (replicate n sas_fillval ∷ []) w.dev in
        let moved : World S = record { dev = out.1; sd = record w.sd { loc = w.sd.loc + n } } in
        let rest =
          fill_loop_ends fuel moved
            (record {
              exists = p.exists;
              on_unit = multiple_add ws w.sd.loc n p.on_unit (c.0);
              in_bounds = omega (arith, c);
            })
            (omega (arith, c)) in
        rw (more, room)
          (elim (Bool-cases (is_ok out.0)) [
            | inl good ↦ rw (good, on) rest
            | inr bad ↦ rw bad (drives.writes wroff (replicate n sas_fillval ∷ []) w.dev, p)
          ])
  ]

  write_cookie_ends :
      (c : List ℕ) (w : World S)
      → st.sector_cookie ≡ some c
      → IsPosition st w.sd
      → HasEnded (write_cookie st c w)
  unfolding write_cookie
  write_cookie_ends c w e p =
      let fits = laid.cookie_fits c e in
      let inside = sector_inside st laid w.sd.sector p.exists in
      let up = align_up-IsAlignUp (length c) ws laid.unit (omega (arith, laid.small)) in
      let flen = size_sub (align_up (length c) ws) (length c) in
      let end : size_add (length c) flen ≡ align_up (length c) ws =
        omega (arith, up.above, up.close, laid.small) in
      let iovec = c ∷ replicate flen sas_fillval ∷ [] in
      let out = writev (some st.area) (sector_pos st w.sd.sector) iovec w.dev in
      elim (Bool-cases (is_ok out.0)) [
        | inr bad ↦ rw bad (drives.writes (sector_pos st w.sd.sector) iovec w.dev, p)
        | inl good ↦ rw good (
          λ k. cc,
          record {
            exists = p.exists;
            on_unit = ap (λ k. k % ws) end ∙ up.multiple;
            in_bounds = omega (arith, end, up.close);
          },
        )
      ]

  add_cookie_ends :
      (o : Option (List ℕ)) (w : World S)
      → st.sector_cookie ≡ o
      → IsPosition st w.sd
      → HasEnded (add_cookie st o w)
  unfolding add_cookie
  add_cookie_ends none w e p = done-HasEnded w p
  add_cookie_ends (some c) w e p = elim (Bool-cases (not (w.sd.loc == 0) || length c == 0)) [
    | inl nothing ↦ rw nothing (done-HasEnded w p)
    | inr some_bytes ↦ rw some_bytes (write_cookie_ends c w e p)
  ]

  erase_block_ends : (w : World S) → IsPosition st w.sd → HasEnded (erase_block st w)
  unfolding erase_block
  erase_block_ends w p =
      let es = st.area.geometry.erase_size in
      let pos = sector_pos st w.sd.sector in
      elim (Bool-cases (not (pos % es == 0))) [
        | inl inner ↦ rw inner (done-HasEnded w p)
        | inr first ↦ rw first (drives.erases (pos / es) (sas_max 1 (st.sector_size / es)) w.dev, p)
      ]

  if-HasEnded :
      (b : Bool) (w : World S) (k : World S → Rc × World S)
      → IsPosition st w.sd
      → ((v : World S) → IsPosition st v.sd → HasEnded (k v))
      → HasEnded (if b then k w else (ok, w))
  if-HasEnded true w k p f = f w p
  if-HasEnded false w k p f = done-HasEnded w p

  -- In a store that lies in its area, whose sectors 32 bits count, on a device whose driver returns
  -- from its calls, with whatever code, and from a write position in its sector:
  -- `store_advance_simple` runs out of no rounds, and leaves a write position in its sector.
  pub advance_simple_ends :
      (w : World S) → st.sector_cnt < size_mod → IsPosition st w.sd → HasEnded (advance_simple st w)
  unfolding advance_simple fill_sector next_sector
  advance_simple_ends w counted p =
      proceed-HasEnded _ _
        (if-HasEnded (fovrwrite st.area.geometry) w (fill_loop st (suc st.sector_size)) p
          (λ v q. fill_loop_ends (suc st.sector_size) v q (omega arith)))
        (λ v q.
          proceed-HasEnded _ _ (if-HasEnded _ _ (erase_block st) (stepped v q) erase_block_ends)
            (λ u r. add_cookie_ends st.sector_cookie u refl r))
    where
      stepped : (v : World S) → IsPosition st v.sd → IsPosition st (next_sector st v.sd)
      stepped v q = record {
        exists =
            rw (sector_advance-eq-mod st.sector_cnt counted v.sd.sector 1 q.exists)
              (mod-lt (v.sd.sector + 1) (omega (arith, q.exists)));
        on_unit = zero-mod ws;
        in_bounds = omega arith;
      }
