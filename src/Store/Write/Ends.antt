-- ===== src/Store/Write/Ends.antt =====
-- `store_writev` ends, whatever its driver does, with a write position in the sector.
use native.Mathlib.Nat.{mod_self}
use zephyr_goodies.Base.{
  ℕ, zero, suc, ◌+◌, ◌-◌, ◌%◌, ◌≤◌, ◌<◌, ◌≡◌, refl, ap, ◌∙◌, ◌⊎◌, inl, inr, some, List, ltb,
  ltb_false→le, Bool-cases, arith,
}
use zephyr_goodies.Errno.{Rc, ok, enospc, enotsup, is_ok}
use zephyr_goodies.Size.{size_mod, size_add, size_sub, align_up}
use zephyr_goodies.Size.Align.{
  IsAlignUp, align_up-IsAlignUp, align_least, multiple_add, multiple_sub, pow2_bounds,
}
use zephyr_goodies.Area.{iovec_size, lengths, writev}
use zephyr_goodies.Store.{Platform, Store, World, is_null, sector_pos, record_len}
use zephyr_goodies.Store.Layout.{IsLaidOut, IsPosition, sector_inside}
use zephyr_goodies.Store.Write.{record_buffers, write_loop, write_record, store_writev}

module _ {S : Type 0} (lib : Platform) (st : Store S) (laid : IsLaidOut st) where
  abbrev ws : ℕ
  ws = st.area.geometry.write_size

  -- How a write ends: with a code of its own, in the same sector, not before where it began.
  pub record IsEnd (w : World S) (out : Rc × World S) : Type 0 where
    pub code : (out.0 ≡ ok) ⊎ ((out.0 ≡ enospc) ⊎ (out.0 ≡ enotsup))
    pub position : IsPosition st out.1.sd
    pub here : out.1.sd.sector ≡ w.sd.sector
    pub count : out.1.sd.wrapcnt ≡ w.sd.wrapcnt
    pub onward : w.sd.loc ≤ out.1.sd.loc

  -- A step of the position by whole units that stays in the sector.
  pub moved-IsPosition :
      (w : World S) (n : ℕ)
      → IsPosition st w.sd
      → n % ws ≡ 0
      → w.sd.loc + n ≤ st.sector_size
      → (size_add w.sd.loc n ≡ w.sd.loc + n)
        × IsPosition st (record w.sd { loc = size_add w.sd.loc n })
  moved-IsPosition w n p unit le =
      let e : size_add w.sd.loc n ≡ w.sd.loc + n =
        omega (arith, laid.small, sector_inside st laid w.sd.sector p.exists) in
      (
        e,
        record {
          exists = p.exists;
          on_unit = ap (λ k. k % ws) e ∙ multiple_add ws w.sd.loc n p.on_unit unit;
          in_bounds = omega (arith, e);
        },
      )

  module _ (len : ℕ) (wr : List (List ℕ)) (some_len : 0 < len) where
    -- The record with its padding, and one write unit, stay in the sector.
    room_for :
        (w : World S)
        → IsPosition st w.sd
        → w.sd.loc + len ≤ st.sector_size
        → (align_up len ws % ws ≡ 0)
          × (w.sd.loc + align_up len ws ≤ st.sector_size)
          × (w.sd.loc + ws ≤ st.sector_size)
    room_for w p le =
        let inside = sector_inside st laid w.sd.sector p.exists in
        let up = align_up-IsAlignUp len ws laid.unit (omega (arith, laid.headroom)) in
        let rest = multiple_sub ws w.sd.loc st.sector_size p.in_bounds p.on_unit laid.aligned in
        let pos = (pow2_bounds ws laid.unit).0 in
        let unit : IsAlignUp 1 ws ws = record {
          above = omega (arith, pos);
          close = omega arith;
          multiple = mod_self ws;
        } in
        (
          up.multiple,
          omega (
            arith,
            p.in_bounds,
            align_least len ws (align_up len ws) (st.sector_size - w.sd.loc) up (omega arith) rest,
          ),
          omega (
            arith,
            p.in_bounds,
            align_least 1 ws ws (st.sector_size - w.sd.loc) unit (omega arith) rest,
          ),
        )

    write_loop_lem :
        (fuel : ℕ) (w : World S)
        → IsPosition st w.sd
        → w.sd.loc + len ≤ st.sector_size
        → st.sector_size < fuel + w.sd.loc
        → IsEnd w (write_loop lib st fuel len wr w)
    unfolding write_loop
    write_loop_lem zero w p le h = absurd (omega (arith, p.in_bounds))
    write_loop_lem (suc fuel) w p le h =
        let wroff = size_add (sector_pos st w.sd.sector) w.sd.loc in
        let (rc, dev) = writev (some st.area) wroff wr w.dev in
        let room = room_for w p le in
        let inside = sector_inside st laid w.sd.sector p.exists in
        let whole = moved-IsPosition w (align_up len ws) p (room.0) (room.1) in
        let unit = moved-IsPosition w ws p (mod_self ws) (room.2) in
        let pos = (pow2_bounds ws laid.unit).0 in
        let further : World S = record {
          dev = dev;
          sd = record w.sd { loc = size_add w.sd.loc ws };
        } in
        let left : size_sub st.sector_size len ≡ st.sector_size - len = omega (arith, laid.small) in
        elim (Bool-cases (is_ok rc)) [
          | inl good ↦ rw good (record {
            code = inl refl;
            position = whole.1;
            here = refl;
            count = refl;
            onward = omega (arith, whole.0);
          })
          | inr bad ↦ elim (Bool-cases (ltb (size_sub st.sector_size len) (size_add w.sd.loc ws))) [
            | inl last ↦
                rw (bad, last)
                  (record {
                    code = inr (inl refl);
                    position = unit.1;
                    here = refl;
                    count = refl;
                    onward = omega (arith, unit.0);
                  })
            | inr more ↦
                let fits = ltb_false→le _ _ more in
                let rest =
                  write_loop_lem fuel further (unit.1) (omega (arith, fits, left, unit.0))
                    (omega (arith, unit.0, pos)) in
                rw (bad, more)
                  (record {
                    code = rest.code;
                    position = rest.position;
                    here = rest.here;
                    count = rest.count;
                    onward = omega (arith, rest.onward, unit.0);
                  })
          ]
        ]

  unmoved :
      (w : World S) (rc : Rc)
      → (rc ≡ ok) ⊎ ((rc ≡ enospc) ⊎ (rc ≡ enotsup))
      → IsPosition st w.sd
      → IsEnd w (rc, w)
  unmoved w rc code p = record {
    code = code;
    position = p;
    here = refl;
    count = refl;
    onward = omega arith;
  }

  -- In a store that lies in its area, whatever the driver does, with a write position in its sector
  -- and a record that is not longer than a sector: `store_writev` returns 0, -ENOSPC or -ENOTSUP,
  -- so that its loop ended, and the write position then stands on a write unit of the same sector,
  -- in the same round, not before where it stood.
  pub store_writev_ends :
      (iovec : List (List ℕ)) (w : World S)
      → IsPosition st w.sd
      → iovec_size (lengths iovec) + 8 ≤ st.sector_size
      → IsEnd w (store_writev lib st iovec w)
  unfolding store_writev write_record
  store_writev_ends iovec w p short =
      let inside = sector_inside st laid w.sd.sector p.exists in
      let size = iovec_size (lengths iovec) in
      let len : record_len size ≡ size + 8 = omega (arith, laid.small) in
      let left : size_sub st.sector_size (record_len size) ≡ st.sector_size - (size + 8) =
        omega (arith, len, laid.small) in
      elim (Bool-cases (is_null w.sd.advance)) [
        | inl read_only ↦ rw read_only (unmoved w enotsup (inr (inr refl)) p)
        | inr writable ↦
            elim (Bool-cases (ltb (size_sub st.sector_size (record_len size)) w.sd.loc)) [
              | inl full ↦ rw (writable, full) (unmoved w enospc (inr (inl refl)) p)
              | inr room ↦
                  rw (writable, room)
                    (write_loop_lem (record_len size) (record_buffers lib st w.sd.wrapcnt iovec)
                      (omega (arith, len)) (suc size_mod) w p
                      (omega (arith, ltb_false→le _ _ room, left, len)) (omega (arith, laid.small)))
            ]
      ]
