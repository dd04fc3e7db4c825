-- ===== src/Store/Write/Full.antt =====
-- A record that fills its sector to the last byte.
use native.Mathlib.Nat.{mod-eq_of_lt}
use zephyr_goodies.Base.{
  ℕ, suc, ◌+◌, ◌*◌, ◌^◌, ◌<◌, ◌≡◌, ◌≢◌, refl, sym, ap, ◌∙◌, ◌⊎◌, inl, inr, true, false, ◌&&◌, ◌||◌,
  some, none, List, [], ◌∷◌, append-nil, flatten, length, ltb, leb, ◌==◌, Memory, arith,
}
use zephyr_goodies.Errno.{ok, enoent}
use zephyr_goodies.Size.{size_add, size_sub}
use zephyr_goodies.Size.Align.{pow2_bounds}
use zephyr_goodies.Area.{readv}
use zephyr_goodies.Medium.{area_size, IsMedium}
use zephyr_goodies.Store.{
  Platform, IsPlatform, Store, StoreData, World, Record, Handle, is_null, sas_magic, sas_hdrsize,
  sas_crcsize, sector_pos,
}
use zephyr_goodies.Store.Layout.{IsLaidOut, IsPosition, sector_inside, sector_pos-eq-mul}
use zephyr_goodies.Store.Check.Crc.{read_inside}
use zephyr_goodies.Store.Walk.{
  again, round, next_pos, header_ok, next_loop, skip_cookie, record_next_in_sector,
}
use zephyr_goodies.Store.Walk.Ends.{IsRoomy, next_loop_lem}
use zephyr_goodies.Store.Write.{store_writev}
use zephyr_goodies.Store.Write.Image.{room_lem}
use zephyr_goodies.Store.Write.Readback.{HoldsRecord, image-HoldsRecord}
use zephyr_goodies.Store.Write.RoundTrip.{appends, no_cookie_here}

module _ {S : Type 0} (lib : Platform) (st : Store S) (view : S → Memory) (Inv : S → Type 0)
    (laws : IsPlatform lib) (medium : IsMedium st.area view Inv) (laid : IsLaidOut st) where
  module _ (dev : S) (sd : StoreData) (wrapcnt sector loc : ℕ) (bytes : List ℕ) (ready : Inv dev)
      (exists : sector < st.sector_cnt) (before : loc < sd.loc) (short : length bytes < 2 ^ 16)
      (full : loc + (length bytes + 8) ≡ st.sector_size)
      (holds : HoldsRecord lib st laws wrapcnt bytes
        (view dev)
        (sector * st.sector_size + loc)) where
    abbrev from : Record
    from = record { bound = true; sector = sector; loc = loc; size = 0 }

    refused :
        header_ok lib st sd from true loc (sas_magic ∷ wrapcnt ∷ lib.put_le16 (length bytes))
        ≡ false
    unfolding header_ok
    refused = rw (size_lem, sized) (ground arith)
      where
        size_lem : lib.get_le16 (lib.put_le16 (length bytes)) ≡ length bytes
        size_lem =
            ap lib.get_le16 (sym (append-nil (lib.put_le16 (length bytes))))
            ∙ laws.get-put_le16 (length bytes) [] short

        sized :
            (ltb 0 (length bytes)
              && ltb
                  (length bytes)
                  (size_sub (size_sub (size_sub st.sector_size loc) sas_crcsize) sas_hdrsize))
            ≡ false
        sized = ground (arith, laid.small, sector_inside st laid sector exists)

    round_again : round lib st sd true false from dev ≡ again
    unfolding round next_pos
    round_again = rw (header_lem, stop, refused) refl
      where
        start_lem : size_add (sector_pos st sector) loc ≡ sector * st.sector_size + loc
        start_lem =
            ap (λ k. size_add k loc) (sector_pos-eq-mul st laid sector exists)
            ∙ mod-eq_of_lt (omega (arith, sector_inside st laid sector exists, laid.small))

        header_lem :
            readv (some st.area) (size_add (sector_pos st sector) loc) (sas_hdrsize ∷ []) dev
            ≡ (ok, sas_magic ∷ wrapcnt ∷ lib.put_le16 (length bytes))
        header_lem =
            ap (λ k. readv (some st.area) k (sas_hdrsize ∷ []) dev) start_lem
            ∙ read_inside lib st view Inv laws medium (sector * st.sector_size + loc) 4 dev ready
                (omega (arith, sector_inside st laid sector exists))
            ∙ ap (λ l. (ok, l)) holds.header

        stop : (sd.sector == sector && leb sd.loc loc || loc == st.sector_size) ≡ false
        stop = ground arith

    first_round :
        (fuel : ℕ)
        → next_loop lib st (suc fuel) sd true false from dev
          ≡ next_loop lib st fuel sd true true
              (record {
                bound = true;
                sector = sector;
                loc = size_add loc st.area.geometry.write_size;
                size = 0;
              })
              dev
    unfolding next_loop
    first_round fuel = rw (next_loop, round_again) refl

    lost :
        IsRoomy lib st
        → skip_cookie st.sector_cookie st.area.geometry.write_size from ≡ from
        → let out = record_next_in_sector lib st sd true from dev in
          (out.0 ≡ enoent) ⊎ (loc < out.1.loc)
    unfolding record_next_in_sector
    lost roomy past =
        let ws = st.area.geometry.write_size in
        let inside = sector_inside st laid sector exists in
        let on : size_add loc ws ≡ loc + ws = omega (arith, roomy.room) in
        let pos = pow2_bounds ws roomy.unit in
        rw (past, first_round (suc (area_size st.area.geometry)))
          (elim (next_loop_lem lib st sd true dev sector roomy (suc (area_size st.area.geometry))
            true (record { bound = true; sector = sector; loc = size_add loc ws; size = 0 })
            (omega arith) (omega arith)
            (record { here = refl; near = omega arith; short = omega arith })) [
              | inl f ↦ inr (omega (arith, f.further, on, pos))
              | inr f ↦ inl f
            ])

  -- On a device that works, in an area far enough below 4 GiB, a write of data that fills the write
  -- sector to the last byte, that the size field holds, at a position where the walk does not skip
  -- a cookie, succeeds; but the walk from the position does not find the record: it ends, or it
  -- finds a record that starts further on.
  pub exact_fill-lost :
      (h : Handle) (iovec : List (List ℕ)) (w : World S) (ready : Inv w.dev)
      (position : IsPosition st w.sd)
      → IsRoomy lib st
      → is_null w.sd.advance ≡ false
      → length (flatten iovec) < 2 ^ 16
      → w.sd.loc + (length (flatten iovec) + 8) ≡ st.sector_size
      → (w.sd.loc ≢ 0) ⊎ (st.sector_cookie ≡ none)
      → let (rc, w') = store_writev lib st iovec w in
        let from : Record = record {
          bound = true;
          sector = w.sd.sector;
          loc = w.sd.loc;
          size = 0;
        } in
        let out = record_next_in_sector lib st w'.sd true from w'.dev in
        (rc ≡ ok) × ((out.0 ≡ enoent) ⊎ (w.sd.loc < out.1.loc))
  exact_fill-lost h iovec w ready position roomy writable short full cookie =
      let (w', a) =
        appends lib st view Inv laws medium laid h iovec w ready position short (omega arith)
          writable in
      let further : w.sd.loc < w'.sd.loc = omega (
        arith,
        ap (λ (d : StoreData). d.loc) a.moved,
        room_lem lib st w.sd.wrapcnt (flatten iovec) laws laid.unit short,
      ) in
      rw (a.returned) (
        refl,
        lost w'.dev w'.sd w.sd.wrapcnt w.sd.sector w.sd.loc (flatten iovec) a.kept position.exists
            further short full
            (image-HoldsRecord lib st laws w.sd.wrapcnt (flatten iovec) (view w'.dev) _ (view w.dev)
              a.memory)
            roomy
            (no_cookie_here lib st view Inv laws medium laid st.sector_cookie
              st.area.geometry.write_size _ cookie),
      )
