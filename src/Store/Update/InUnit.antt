-- ===== src/Store/Update/InUnit.antt =====
-- An update that stays in one write unit changes the first bytes of a record, which stays valid.
use native.Mathlib.Nat.{mod_self}
use zephyr_goodies.Base.{
  ℕ, zero, suc, ◌+◌, ◌-◌, ◌*◌, ◌%◌, ◌≤◌, ◌<◌, ◌≡◌, refl, sym, subst, ap, ◌==◌, ◌∙◌, true, false,
  ◌&&◌, not, some, List, [], ◌∷◌, ◌++◌, append-nil, flatten, ltb, ne→==_false, le→ltb_false, length,
  length-append, length-drop, length-take, length-slice, take, drop, take_all, Memory, slice,
  splice, arith,
}
use zephyr_goodies.Errno.{ok}
use zephyr_goodies.Size.{size_add, size_sub, align_down}
use zephyr_goodies.Size.Align.{IsAlignUp, align_least, align_down_bounds, multiple_sub, pow2_bounds}
use zephyr_goodies.Area.{fovrwrite, lovrwrite, writev}
use zephyr_goodies.Medium.{IsMedium, area_size}
use zephyr_goodies.Store.{
  Platform, IsPlatform, Store, World, Record, Handle, sas_min, sas_hdrsize, store_ready, sector_pos,
}
use zephyr_goodies.Store.Layout.{IsLaidOut, sector_inside, sector_pos-eq-mul, in_sector-unit}
use zephyr_goodies.Store.Check.Crc.{read_inside}
use zephyr_goodies.Store.Read.{storage_area_record_valid}
use zephyr_goodies.Store.Write.Readback.{valid_lem}
use zephyr_goodies.Store.Log.{IsStored}
use zephyr_goodies.Store.Update.{overlay, update_loop, storage_area_record_update}
use zephyr_goodies.Store.Update.Changed.{splice-overlay, length-changed, changed-HoldsRecord}

module _ {S : Type 0} (lib : Platform) (st : Store S) (view : S → Memory) (Inv : S → Type 0)
    (laws : IsPlatform lib) (medium : IsMedium st.area view Inv) (laid : IsLaidOut st) (w : World S)
    (works : Inv w.dev) (wrapcnt sector loc : ℕ) (old bytes : List ℕ)
    (exists : sector < st.sector_cnt)
    (stored : IsStored lib st laws wrapcnt sector (view w.dev) loc old)
    (some_data : 0 < length bytes) (skip : length bytes ≤ st.crc_skip)
    (in_unit : loc + 4 + length bytes
      ≤ align_down (loc + 4) st.area.geometry.write_size + st.area.geometry.write_size) where
  abbrev ws : ℕ
  ws = st.area.geometry.write_size

  abbrev apos : ℕ
  apos = align_down (loc + 4) ws

  abbrev unit_at : ℕ
  unit_at = sector * st.sector_size + apos

  abbrev target : ℕ
  target = sector * st.sector_size + loc

  inside : sector * st.sector_size + st.sector_size ≤ area_size st.area.geometry
  inside = sector_inside st laid sector exists

  short : length bytes ≤ length old
  short = omega (arith, skip, stored.skip)

  below : (apos ≤ loc + 4) × (loc + 4 < apos + ws) × (apos % ws ≡ 0)
  below = align_down_bounds (loc + 4) ws laid.unit (omega (arith, inside, laid.small, stored.fits))

  -- The unit lies in the sector.
  unit_fits : apos + ws ≤ st.sector_size
  unit_fits =
      let pos = (pow2_bounds ws laid.unit).0 in
      let fits = stored.fits in
      let one : IsAlignUp 1 ws ws = record {
        above = omega (arith, pos);
        close = omega arith;
        multiple = mod_self ws;
      } in
      omega (
        arith,
        below,
        fits,
        align_least 1 ws ws (st.sector_size - apos) one (omega (arith, below, fits)) (
            multiple_sub ws apos st.sector_size (omega (arith, below, fits)) (below.2)
              laid.aligned),
      )

  abbrev patch : List ℕ
  patch = overlay (slice (view w.dev) unit_at ws) (loc + 4 - apos) bytes

  length-patch : length patch ≡ ws
  unfolding overlay
  length-patch = omega (
    arith,
    below,
    in_unit,
    length-append (take (loc + 4 - apos) (slice (view w.dev) unit_at ws))
        (bytes ++ drop (loc + 4 - apos + length bytes) (slice (view w.dev) unit_at ws)),
    length-append bytes (drop (loc + 4 - apos + length bytes) (slice (view w.dev) unit_at ws)),
    length-take (loc + 4 - apos) (slice (view w.dev) unit_at ws),
    length-drop (loc + 4 - apos + length bytes) (slice (view w.dev) unit_at ws),
    length-slice (view w.dev) unit_at ws,
  )

  abbrev patched : S
  patched = (writev (some st.area) unit_at (patch ∷ []) w.dev).1

  writes :
      ((writev (some st.area) unit_at (patch ∷ []) w.dev).0 ≡ ok)
      × (view patched ≡ splice (view w.dev) (target + 4) bytes)
      × Inv patched
  writes =
      let f : flatten (patch ∷ []) ≡ patch = unfold flatten in append-nil patch in
      let n : length (flatten (patch ∷ [])) ≡ ws = ap length f ∙ length-patch in
      let out =
        medium.writes unit_at (patch ∷ []) w.dev works
          (in_sector-unit st laid sector exists apos (below.2)) (ap (λ k. k % ws) n ∙ mod_self ws)
          (omega (arith, n, inside, unit_fits)) in
      (
        out.0,
        out.1
            ∙ ap (splice (view w.dev) unit_at) f
            ∙ splice-overlay (view w.dev) unit_at ws (loc + 4 - apos) bytes
                (omega (arith, below, in_unit))
            ∙ ap (λ k. splice (view w.dev) k bytes) (omega (arith, below)),
        out.2,
      )

  -- One round of the loop makes the change, the next one ends it.
  loop_lem :
      (fuel : ℕ)
      → update_loop st
          (suc (suc fuel))
          bytes
          (sector_pos st sector)
          (length bytes)
          (loc + 4)
          apos
          w.dev
        ≡ (ok, patched)
  unfolding update_loop
  loop_lem fuel =
      let some_len : (length bytes == 0) ≡ false = ne→==_false _ _ (omega arith) in
      let off : size_sub (loc + 4) apos ≡ loc + 4 - apos =
        omega (arith, below, inside, laid.small, stored.fits) in
      let room : size_sub ws (loc + 4 - apos) ≡ ws - (loc + 4 - apos) =
        omega (arith, below, laid.small, inside, unit_fits) in
      let all : sas_min (length bytes) (ws - (loc + 4 - apos)) ≡ length bytes =
        ground (arith, in_unit, below) in
      let pos : size_add (sector_pos st sector) apos ≡ unit_at =
        ap (λ k. size_add k apos) (sector_pos-eq-mul st laid sector exists)
        ∙ omega (arith, laid.small, inside, unit_fits, below, some_ws) in
      let left : size_sub (length bytes) (length bytes) ≡ 0 = omega (arith, stored.short, short) in
      let reads =
        read_inside lib st view Inv laws medium unit_at ws w.dev works
          (omega (arith, inside, unit_fits)) in
      rw
        (
          some_len,
          off,
          room,
          all,
          pos,
          reads,
          take_all (length bytes) bytes (omega arith),
          writes.0,
          left,
        )
        refl
    where
      some_ws : 0 < ws
      some_ws = (pow2_bounds ws laid.unit).0

  done :
      (h : Handle)
      → store_ready h w.sd ≡ true
      → (not (fovrwrite st.area.geometry) && not (lovrwrite st.area.geometry)) ≡ false
      → storage_area_record_update lib st h
          (record { bound = true; sector = sector; loc = loc; size = length old })
          bytes
          w
        ≡ (ok, record w { dev = patched })
  unfolding storage_area_record_update storage_area_record_valid
  done h mounted over =
      let valid =
        valid_lem lib st view Inv laws medium laid w.dev works wrapcnt sector loc old exists
          stored.short stored.fits stored.holds true stored.skip in
      let skipped : ltb st.crc_skip (length bytes) ≡ false = le→ltb_false _ _ skip in
      let pos : size_add loc sas_hdrsize ≡ loc + 4 =
        omega (arith, inside, laid.small, stored.fits) in
      rw (over, mounted, valid, skipped, pos, go (length bytes) refl some_data) refl
    where
      go :
          (n : ℕ)
          → length bytes ≡ n
          → 0 < n
          → update_loop st
              (suc (length bytes))
              bytes
              (sector_pos st sector)
              (length bytes)
              (loc + 4)
              apos
              w.dev
            ≡ (ok, patched)
      go zero e h = elim h [ ]
      go (suc n) e h =
          ap
            (λ k.
              update_loop st (suc k) bytes (sector_pos st sector) (length bytes) (loc + 4) apos
                w.dev)
            e
          ∙ loop_lem n

  kept :
      IsStored lib st laws wrapcnt sector
        (splice (view w.dev) (target + 4) bytes)
        loc
        (bytes ++ drop (length bytes) old)
  kept =
      let n =
        length-changed lib st laws wrapcnt old bytes (view w.dev) target stored.holds short skip in
      record {
        some_data = omega (arith, n, stored.some_data);
        short = omega (arith, n, stored.short);
        skip = omega (arith, n, stored.skip);
        fits = omega (arith, n, stored.fits);
        holds =
            changed-HoldsRecord lib st laws wrapcnt old bytes (view w.dev) target stored.holds short
              skip;
      }

  -- On a device that works, which can be overwritten or partly overwritten, in a mounted store: an
  -- update of a record that the walk accepts, that is not empty, not longer than `crc_skip`, and
  -- does not go on behind the write unit in which the data of the record begin, succeeds: it
  -- changes the bytes of the area where the record's data begin, and no other, leaves the write
  -- position, and the walk then accepts the record with the changed data.
  pub storage_area_record_update-IsStored :
      (h : Handle)
      → store_ready h w.sd ≡ true
      → (not (fovrwrite st.area.geometry) && not (lovrwrite st.area.geometry)) ≡ false
      → let r : Record = record { bound = true; sector = sector; loc = loc; size = length old } in
        let (rc, w') = storage_area_record_update lib st h r bytes w in
        (rc ≡ ok)
        × (w'.sd ≡ w.sd)
        × (view w'.dev ≡ splice (view w.dev) (sector * st.sector_size + loc + 4) bytes)
        × IsStored lib st laws wrapcnt sector (view w'.dev) loc (bytes ++ drop (length bytes) old)
  storage_area_record_update-IsStored h mounted over = rw (done h mounted over) (
    refl,
    refl,
    writes.1,
    subst (λ m. IsStored lib st laws wrapcnt sector m loc (bytes ++ drop (length bytes) old))
        (sym (writes.1)) kept,
  )
