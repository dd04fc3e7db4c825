-- ===== src/Store/Write/RoundTrip.antt =====
-- A record that `store_writev` wrote comes back: the walk finds it, its checksum is right, and a
-- read of it returns the data. Records that stood on the area before still stand there.
use zephyr_goodies.Base.{
  ℕ, ◌+◌, ◌*◌, ◌^◌, ◌≤◌, ◌<◌, ◌≡◌, ◌≢◌, refl, ap, ◌∙◌, ◌⊎◌, inl, inr, true, false, some, Option,
  none, List, [], ◌∷◌, flatten, take_all, length, Memory, splice, ne→==_false, arith,
}
use zephyr_goodies.Errno.{ok}
use zephyr_goodies.Medium.{IsMedium}
use zephyr_goodies.Store.{
  Platform, IsPlatform, Store, StoreData, World, Record, is_null, Handle, store_valid,
}
use zephyr_goodies.Store.Layout.{IsLaidOut, IsPosition}
use zephyr_goodies.Store.Check.{record_valid}
use zephyr_goodies.Store.Read.{storage_area_record_readv, storage_area_record_read}
use zephyr_goodies.Store.Read.Part.{storage_area_record_read_part}
use zephyr_goodies.Store.Walk.{next_pos, expected_wrapcnt, skip_cookie, record_next_in_sector}
use zephyr_goodies.Store.Write.{store_writev}
use zephyr_goodies.Store.Write.Image.{image, room, room_lem}
use zephyr_goodies.Store.Write.Stored.{after, store_writev_appends}
use zephyr_goodies.Store.Write.Readback.{HoldsRecord, image-HoldsRecord, finds, valid_lem}

module _ {S : Type 0} (lib : Platform) (st : Store S) (view : S → Memory) (Inv : S → Type 0)
    (laws : IsPlatform lib) (medium : IsMedium st.area view Inv) (laid : IsLaidOut st) where
  -- Reading all the data of a record that stands on the area.
  pub record_readv_lem :
      (h : Handle) (w : World S) (wrapcnt sector loc : ℕ) (bytes : List ℕ)
      → Inv w.dev
      → sector < st.sector_cnt
      → length bytes < 2 ^ 16
      → loc + (length bytes + 8) ≤ st.sector_size
      → store_valid h ≡ true
      → HoldsRecord lib st laws wrapcnt bytes (view w.dev) (sector * st.sector_size + loc)
      → storage_area_record_readv lib st h
          (some (record { bound = true; sector = sector; loc = loc; size = length bytes }))
          0
          (length bytes ∷ [])
          w
        ≡ (ok, bytes)
  unfolding storage_area_record_read
  record_readv_lem h w wrapcnt sector loc bytes ready exists short fits valid holds =
      storage_area_record_read_part lib st view Inv laws medium laid h w wrapcnt sector loc bytes
        ready exists short fits valid holds 0 (length bytes) (omega arith)
      ∙ ap (λ l. (ok, l)) (take_all (length bytes) bytes (omega arith))

  pub no_cookie_here :
      (o : Option (List ℕ)) (align : ℕ) (r : Record)
      → (r.loc ≢ 0) ⊎ (o ≡ none)
      → skip_cookie o align r ≡ r
  unfolding skip_cookie
  no_cookie_here none align r h = refl
  no_cookie_here (some c) align r (inl h) = rw (ne→==_false _ _ h)
  no_cookie_here (some c) align r (inr h) = cc

  pub own_count :
      (sd : StoreData) (sector wrapcnt : ℕ)
      → sd.sector ≡ sector
      → sd.wrapcnt ≡ wrapcnt
      → expected_wrapcnt sd sector true wrapcnt ≡ sd.wrapcnt
  unfolding expected_wrapcnt
  own_count sd sector wrapcnt e f = ground arith

  -- A record of the write sector that stands before the write position comes back.
  pub comes_back :
      (h : Handle) (w : World S) (wrapcnt sector loc : ℕ) (bytes : List ℕ)
      → Inv w.dev
      → w.sd.sector ≡ sector
      → w.sd.wrapcnt ≡ wrapcnt
      → loc < w.sd.loc
      → sector < st.sector_cnt
      → store_valid h ≡ true
      → 0 < length bytes
      → length bytes < 2 ^ 16
      → st.crc_skip ≤ length bytes
      → loc + (length bytes + 8) < st.sector_size
      → (loc ≢ 0) ⊎ (st.sector_cookie ≡ none)
      → HoldsRecord lib st laws wrapcnt bytes (view w.dev) (sector * st.sector_size + loc)
      → let r : Record = record { bound = true; sector = sector; loc = loc; size = length bytes } in
        (record_next_in_sector lib st w.sd true (record r { size = 0 }) w.dev ≡ (ok, r))
        × (record_valid lib st r w.dev ≡ true)
        × (storage_area_record_readv lib st h (some r) 0 (length bytes ∷ []) w ≡ (ok, bytes))
  comes_back h w wrapcnt sector loc bytes ready here count before exists valid some_data short skip
        fits cookie holds =
      (
        finds lib st view Inv laws medium laid w.dev ready wrapcnt sector loc bytes exists short
            fits holds w.sd true true loc 0 some_data (unfold next_pos in refl) (inr before)
            (own_count w.sd sector wrapcnt here count) _
            (no_cookie_here st.sector_cookie st.area.geometry.write_size _ cookie),
        valid_lem lib st view Inv laws medium laid w.dev ready wrapcnt sector loc bytes exists short
            fits holds true skip,
        record_readv_lem h w wrapcnt sector loc bytes ready exists short (omega arith) valid holds,
      )

  module _ (h : Handle) (iovec : List (List ℕ)) (w : World S) (ready : Inv w.dev)
      (position : IsPosition st w.sd) where
    abbrev written : Record
    written = record {
      bound = true;
      sector = w.sd.sector;
      loc = w.sd.loc;
      size = length (flatten iovec);
    }

    -- What the write of a record leaves behind.
    pub record Appends (w' : World S) : Type 0 where
      pub returned : store_writev lib st iovec w ≡ (ok, w')
      pub memory :
          view w'.dev
          ≡ splice
              (view w.dev)
              (w.sd.sector * st.sector_size + w.sd.loc)
              (image lib st w.sd.wrapcnt (flatten iovec))
      pub moved : w'.sd ≡ record w.sd { loc = w.sd.loc + room lib st w.sd.wrapcnt (flatten iovec) }
      pub kept : Inv w'.dev

    pub appends :
        length (flatten iovec) < 2 ^ 16
        → w.sd.loc + (length (flatten iovec) + 8) ≤ st.sector_size
        → is_null w.sd.advance ≡ false
        → (w' : World S) × Appends w'
    appends short fits writable =
        let a =
          store_writev_appends lib st view Inv laws medium laid iovec w ready position short fits
            writable in
        (
          after lib st view Inv laws medium laid iovec w ready position short fits,
          record { returned = a.0; memory = a.1; moved = a.2; kept = a.3 },
        )

    -- A record that is written to a mounted store on a device that works, with data that leaves at
    -- least one byte of the sector free behind its checksum, that is not empty, not longer than the
    -- size field holds and not shorter than `crc_skip`, at a position where the walk does not skip
    -- a cookie: the call succeeds, the walk from the position finds exactly this record, its
    -- checksum is right, and a read of it returns the data.
    pub writev-then-read :
        store_valid h ≡ true
        → is_null w.sd.advance ≡ false
        → 0 < length (flatten iovec)
        → length (flatten iovec) < 2 ^ 16
        → st.crc_skip ≤ length (flatten iovec)
        → w.sd.loc + (length (flatten iovec) + 8) < st.sector_size
        → (w.sd.loc ≢ 0) ⊎ (st.sector_cookie ≡ none)
        → let (rc, w') = store_writev lib st iovec w in
          (rc ≡ ok)
          × (record_next_in_sector lib st w'.sd true (record written { size = 0 }) w'.dev
              ≡ (ok, written))
          × (record_valid lib st written w'.dev ≡ true)
          × (storage_area_record_readv lib st h (some written) 0 (length (flatten iovec) ∷ []) w'
              ≡ (ok, flatten iovec))
    writev-then-read valid writable some_data short skip fits cookie =
        let (w', a) = appends short (omega arith) writable in
        let further : w.sd.loc < w'.sd.loc = omega (
          arith,
          ap (λ (d : StoreData). d.loc) a.moved,
          room_lem lib st w.sd.wrapcnt (flatten iovec) laws laid.unit short,
        ) in
        let back =
          comes_back h w' w.sd.wrapcnt w.sd.sector w.sd.loc (flatten iovec) a.kept
            (ap (λ (d : StoreData). d.sector) a.moved) (ap (λ (d : StoreData). d.wrapcnt) a.moved)
            further position.exists valid some_data short skip fits cookie
            (image-HoldsRecord lib st laws w.sd.wrapcnt (flatten iovec) (view w'.dev) _ (view w.dev)
              a.memory) in
        rw (a.returned) (refl, back.0, back.1, back.2)
