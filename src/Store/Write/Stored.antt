-- ===== src/Store/Write/Stored.antt =====
-- On a device that works, `store_writev` puts the image of a record at the write position.
use native.Mathlib.Nat.{mod-eq_of_lt}
use zephyr_goodies.Base.{
  ℕ, suc, ◌+◌, ◌-◌, ◌*◌, ◌%◌, ◌≤◌, ◌<◌, ◌≡◌, refl, ap, ◌∙◌, false, some, List, flatten, ltb, length,
  Memory, splice, arith, ◌^◌,
}
use zephyr_goodies.Errno.{ok}
use zephyr_goodies.Size.{size_mod, size_add, size_sub, align_up}
use zephyr_goodies.Size.Align.{align_least, multiple_sub, multiple_add}
use zephyr_goodies.Area.{writev, iovec_size, lengths}
use zephyr_goodies.Area.Checks.{iovec_size-eq-total, total-lengths}
use zephyr_goodies.Medium.{IsMedium}
use zephyr_goodies.Store.{Platform, IsPlatform, Store, World, is_null, sector_pos, record_len}
use zephyr_goodies.Store.Layout.{
  in_sector-unit, IsLaidOut, IsPosition, sector_inside, sector_pos-eq-mul,
}
use zephyr_goodies.Store.Write.{record_buffers, write_loop, write_record, store_writev}
use zephyr_goodies.Store.Write.Image.{image, room, room_lem, length-image, flatten-record_buffers}

module _ {S : Type 0} (lib : Platform) (st : Store S) (view : S → Memory) (Inv : S → Type 0)
    (laws : IsPlatform lib) (medium : IsMedium st.area view Inv) (laid : IsLaidOut st)
    (iovec : List (List ℕ)) (w : World S) (ready : Inv w.dev) (position : IsPosition st w.sd)
    (short : length (flatten iovec) < 2 ^ 16)
    (fits : w.sd.loc + (length (flatten iovec) + 8) ≤ st.sector_size) where
  abbrev bytes : List ℕ
  bytes = flatten iovec

  abbrev taken : ℕ
  taken = room lib st w.sd.wrapcnt bytes

  -- The record with its padding stays in the sector.
  pub room_fits : w.sd.loc + taken ≤ st.sector_size
  room_fits =
      let ws = st.area.geometry.write_size in
      let least =
        align_least (length bytes + 8) ws taken (st.sector_size - w.sd.loc)
          (room_lem lib st w.sd.wrapcnt bytes laws laid.unit short) (omega arith)
          (multiple_sub ws w.sd.loc st.sector_size position.in_bounds position.on_unit
            laid.aligned) in
      omega arith

  -- The position that the record is written at.
  abbrev pub target : ℕ
  target = w.sd.sector * st.sector_size + w.sd.loc

  wr : List (List ℕ)
  wr = record_buffers lib st w.sd.wrapcnt iovec

  write_lem :
      ((writev (some st.area) target wr w.dev).0 ≡ ok)
      × (view (writev (some st.area) target wr w.dev).1
          ≡ splice (view w.dev) target (image lib st w.sd.wrapcnt bytes))
      × Inv (writev (some st.area) target wr w.dev).1
  unfolding wr
  write_lem =
      let e : flatten wr ≡ image lib st w.sd.wrapcnt bytes =
        flatten-record_buffers lib st w.sd.wrapcnt bytes laws laid.unit short iovec laid.skip_small
          refl in
      let n : length (flatten wr) ≡ taken =
        ap length e ∙ length-image lib st w.sd.wrapcnt bytes laws laid.unit short in
      let r =
        medium.writes target wr w.dev ready
          (in_sector-unit st laid w.sd.sector position.exists w.sd.loc position.on_unit)
          (ap (λ k. k % st.area.geometry.write_size) n
            ∙ (room_lem lib st w.sd.wrapcnt bytes laws laid.unit short).multiple)
          (omega (arith, n, room_fits, sector_inside st laid w.sd.sector position.exists)) in
      (r.0, r.1 ∙ ap (λ z. splice (view w.dev) target z) e, r.2)

  -- The world behind the write.
  pub after : World S
  after = record {
    dev = (writev (some st.area) target wr w.dev).1;
    sd = record w.sd { loc = w.sd.loc + taken };
  }

  first_round :
      (fuel len : ℕ)
      → size_add w.sd.loc (align_up len st.area.geometry.write_size) ≡ w.sd.loc + taken
      → write_loop lib st (suc fuel) len wr w ≡ (ok, after)
  unfolding write_loop wr after
  first_round fuel len new =
      let inside = sector_inside st laid w.sd.sector position.exists in
      let small = laid.small in
      let pos : size_add (sector_pos st w.sd.sector) w.sd.loc ≡ target =
        ap (λ k. size_add k w.sd.loc) (sector_pos-eq-mul st laid w.sd.sector position.exists)
        ∙ mod-eq_of_lt (omega (arith, room_fits)) in
      rw (pos, write_lem.0, new) refl

  write_record_lem : write_record lib st iovec w ≡ (ok, after)
  unfolding write_record wr
  write_record_lem =
      let total : iovec_size (lengths iovec) ≡ length bytes =
        iovec_size-eq-total (lengths iovec) (omega (arith, total-lengths iovec))
        ∙ total-lengths iovec in
      let len : record_len (length bytes) ≡ length bytes + 8 = omega arith in
      let inside = sector_inside st laid w.sd.sector position.exists in
      let small = laid.small in
      let guard : ltb (size_sub st.sector_size (length bytes + 8)) w.sd.loc ≡ false =
        ground arith in
      let new : size_add w.sd.loc taken ≡ w.sd.loc + taken =
        mod-eq_of_lt (omega (arith, room_fits)) in
      rw (total, len, guard) (first_round size_mod (length bytes + 8) new)

  -- On a device that works, at a write position with room for the record in its sector, a store
  -- that can be written appends the record: the call succeeds, the image of the record stands at
  -- the write position, no other byte has changed, and the position has moved behind the image.
  pub store_writev_appends :
      is_null w.sd.advance ≡ false
      → (store_writev lib st iovec w ≡ (ok, after))
        × (view after.dev ≡ splice (view w.dev) target (image lib st w.sd.wrapcnt bytes))
        × (after.sd ≡ record w.sd { loc = w.sd.loc + taken })
        × Inv after.dev
  unfolding store_writev after
  store_writev_appends writable = (rw writable write_record_lem, write_lem.1, refl, write_lem.2)

  -- The write position stays a write position.
  pub after-IsPosition : IsPosition st (record w.sd { loc = w.sd.loc + taken })
  after-IsPosition = record {
    exists = position.exists;
    on_unit =
        multiple_add st.area.geometry.write_size w.sd.loc taken position.on_unit
          (room_lem lib st w.sd.wrapcnt bytes laws laid.unit short).multiple;
    in_bounds = room_fits;
  }
