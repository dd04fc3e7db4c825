-- ===== src/Store/Log/Append.antt =====
-- Writing to a store appends to the log of its write sector.
use zephyr_goodies.Base.{
  ℕ, suc, ◌+◌, ◌*◌, ◌^◌, ◌≤◌, ◌<◌, ◌≡◌, refl, sym, ap, inl, true, false, List, [], ◌∷◌, ◌++◌,
  flatten, length, Memory, splice, subst, arith,
}
use zephyr_goodies.Errno.{ok}
use zephyr_goodies.Medium.{IsMedium}
use zephyr_goodies.Store.{
  Platform, IsPlatform, Store, StoreData, World, Handle, store_valid, is_null,
}
use zephyr_goodies.Store.Layout.{IsLaidOut, IsPosition}
use zephyr_goodies.Store.Write.{store_writev}
use zephyr_goodies.Store.Write.Image.{image, room, room_lem}
use zephyr_goodies.Store.Write.Stored.{after-IsPosition}
use zephyr_goodies.Store.Write.Readback.{HoldsRecord, HoldsRecord-splice, image-HoldsRecord}
use zephyr_goodies.Store.Write.RoundTrip.{Appends, appends}
use zephyr_goodies.Store.Log.{log_start, read_log, sector_start, IsStored, IsChain, IsLog}
use zephyr_goodies.Store.Log.Walk.{read_log-IsLog}

module _ {S : Type 0} (lib : Platform) (st : Store S) (view : S → Memory) (Inv : S → Type 0)
    (laws : IsPlatform lib) (medium : IsMedium st.area view Inv) (laid : IsLaidOut st) where
  abbrev pub Chain : ℕ → ℕ → Memory → ℕ → List (List ℕ) → ℕ → Type 0
  Chain = IsChain lib st laws

  Chain-le :
      (wrapcnt sector : ℕ) (m : Memory) (log : List (List ℕ)) (loc end : ℕ)
      → Chain wrapcnt sector m loc log end
      → loc ≤ end
  Chain-le wrapcnt sector m [] loc end c = omega (arith, ap (λ (k : ℕ). k) c)
  Chain-le wrapcnt sector m (x ∷ log) loc end c =
      omega (arith, Chain-le wrapcnt sector m log (loc + room lib st wrapcnt x) end (c.1))

  -- A write behind a chain leaves it.
  pub Chain-splice :
      (wrapcnt sector : ℕ) (m : Memory) (d : List ℕ) (log : List (List ℕ)) (loc end : ℕ)
      → Chain wrapcnt sector m loc log end
      → Chain wrapcnt sector (splice m (sector * st.sector_size + end) d) loc log end
  Chain-splice wrapcnt sector m d [] loc end c = c
  Chain-splice wrapcnt sector m d (x ∷ log) loc end c =
      let up = room_lem lib st wrapcnt x laws laid.unit (c.0).short in
      let le = Chain-le wrapcnt sector m log (loc + room lib st wrapcnt x) end (c.1) in
      (
        record {
          some_data = (c.0).some_data;
          short = (c.0).short;
          skip = (c.0).skip;
          fits = (c.0).fits;
          holds =
              HoldsRecord-splice lib st laws wrapcnt x m (sector * st.sector_size + loc)
                (sector * st.sector_size + end) d (c.0).holds (inl (omega (arith, up.above, le)));
        },
        Chain-splice wrapcnt sector m d log (loc + room lib st wrapcnt x) end (c.1),
      )

  -- A chain grows at its end.
  pub Chain-snoc :
      (wrapcnt sector : ℕ) (m : Memory) (d : List ℕ) (log : List (List ℕ)) (loc end : ℕ)
      → Chain wrapcnt sector m loc log end
      → IsStored lib st laws wrapcnt sector m end d
      → Chain wrapcnt sector m loc (log ++ d ∷ []) (end + room lib st wrapcnt d)
  Chain-snoc wrapcnt sector m d [] loc end c stored = (
    subst (λ k. IsStored lib st laws wrapcnt sector m k d) (sym c) stored,
    ap (λ k. k + room lib st wrapcnt d) c,
  )
  Chain-snoc wrapcnt sector m d (x ∷ log) loc end c stored =
      (c.0, Chain-snoc wrapcnt sector m d log (loc + room lib st wrapcnt x) end (c.1) stored)

  module _ (h : Handle) (iovec : List (List ℕ)) (w w' : World S) (log : List (List ℕ))
      (is_log : IsLog lib st laws view Inv w log)
      (a : Appends lib st view Inv laws medium laid h iovec w is_log.works is_log.position w')
      (some_data : 0 < length (flatten iovec)) (short : length (flatten iovec) < 2 ^ 16)
      (skip : st.crc_skip ≤ length (flatten iovec))
      (fits : w.sd.loc + (length (flatten iovec) + 8) < st.sector_size) where
    abbrev bytes : List ℕ
    bytes = flatten iovec

    abbrev begin : ℕ
    begin = log_start st.sector_cookie st.area.geometry.write_size

    stored : IsStored lib st laws w.sd.wrapcnt w.sd.sector (view w'.dev) w.sd.loc bytes
    stored = record {
      some_data = some_data;
      short = short;
      skip = skip;
      fits = fits;
      holds =
          image-HoldsRecord lib st laws w.sd.wrapcnt bytes (view w'.dev)
            (w.sd.sector * st.sector_size + w.sd.loc) (view w.dev) a.memory;
    }

    older : Chain w.sd.wrapcnt w.sd.sector (view w'.dev) begin log w.sd.loc
    older =
        subst (λ m. Chain w.sd.wrapcnt w.sd.sector m begin log w.sd.loc) (sym a.memory)
          (Chain-splice w.sd.wrapcnt w.sd.sector (view w.dev) (image lib st w.sd.wrapcnt bytes) log
            begin w.sd.loc is_log.chain)

    grown : IsLog lib st laws view Inv w' (log ++ bytes ∷ [])
    grown = record {
      works = a.kept;
      position = subst (IsPosition st) (sym a.moved) (
          after-IsPosition lib st view Inv laws medium laid iovec w is_log.works is_log.position
            short (omega arith));
      chain =
          subst (λ sd. Chain sd.wrapcnt sd.sector (view w'.dev) begin (log ++ bytes ∷ []) sd.loc)
            (sym a.moved)
            (Chain-snoc w.sd.wrapcnt w.sd.sector (view w'.dev) bytes log begin w.sd.loc older
              stored);
    }

  -- What the write of a record leaves behind, by the data of the record.
  pub record IsAppended (w : World S) (log : List (List ℕ)) (iovec : List (List ℕ)) (bytes : List ℕ)
      (w' : World S) : Type 0 where
    pub returned : store_writev lib st iovec w ≡ (ok, w')
    pub longer : IsLog lib st laws view Inv w' (log ++ bytes ∷ [])
    pub holds :
        HoldsRecord lib st laws w.sd.wrapcnt bytes
          (view w'.dev)
          (w.sd.sector * st.sector_size + w.sd.loc)
    pub here : w'.sd.sector ≡ w.sd.sector
    pub count : w'.sd.wrapcnt ≡ w.sd.wrapcnt
    pub further : w.sd.loc < w'.sd.loc
    pub ready : w'.sd.ready ≡ w.sd.ready
    pub advance : w'.sd.advance ≡ w.sd.advance

  pub appended :
      (h : Handle) (w : World S) (log : List (List ℕ)) (iovec : List (List ℕ))
      → IsLog lib st laws view Inv w log
      → is_null w.sd.advance ≡ false
      → 0 < length (flatten iovec)
      → length (flatten iovec) < 2 ^ 16
      → st.crc_skip ≤ length (flatten iovec)
      → w.sd.loc + (length (flatten iovec) + 8) < st.sector_size
      → (w' : World S) × IsAppended w log iovec (flatten iovec) w'
  appended h w log iovec is_log writable some_data short skip fits =
      let (w', a) =
        appends lib st view Inv laws medium laid h iovec w is_log.works is_log.position short
          (omega arith) writable in
      (
        w',
        record {
          returned = a.returned;
          longer = grown h iovec w w' log is_log a some_data short skip fits;
          holds =
              image-HoldsRecord lib st laws w.sd.wrapcnt (flatten iovec) (view w'.dev)
                (w.sd.sector * st.sector_size + w.sd.loc) (view w.dev) a.memory;
          here = ap (λ (d : StoreData). d.sector) a.moved;
          count = ap (λ (d : StoreData). d.wrapcnt) a.moved;
          ready = ap (λ (d : StoreData). d.ready) a.moved;
          advance = ap (λ (d : StoreData). d.advance) a.moved;
          further = omega (
            arith,
            ap (λ (d : StoreData). d.loc) a.moved,
            room_lem lib st w.sd.wrapcnt (flatten iovec) laws laid.unit short,
          );
        },
      )

  length_snoc : (log : List (List ℕ)) (d : List ℕ) → length (log ++ d ∷ []) ≡ suc (length log)
  length_snoc [] d = refl
  length_snoc (x ∷ log) d = ap suc (length_snoc log d)

  -- A store that can be written, on a device that works, whose write sector holds a log of records,
  -- is asked to write data that leaves at least one byte of the sector free behind its checksum,
  -- that is not empty, not longer than the size field holds and not shorter than `crc_skip`: the
  -- call succeeds, the sector then holds the log with this data at its end, and a client that walks
  -- the sector from its start with a read of each record, in at least two rounds more than the log
  -- had records, reads exactly this longer log.
  pub store_writev-IsLog :
      (h : Handle) (iovec : List (List ℕ)) (w : World S) (log : List (List ℕ)) (fuel : ℕ)
      → store_valid h ≡ true
      → is_null w.sd.advance ≡ false
      → IsLog lib st laws view Inv w log
      → 0 < length (flatten iovec)
      → length (flatten iovec) < 2 ^ 16
      → st.crc_skip ≤ length (flatten iovec)
      → w.sd.loc + (length (flatten iovec) + 8) < st.sector_size
      → suc (length log) < fuel
      → let (rc, w') = store_writev lib st iovec w in
        (rc ≡ ok)
        × IsLog lib st laws view Inv w' (log ++ flatten iovec ∷ [])
        × (read_log lib st fuel h (sector_start lib st w') w' ≡ log ++ flatten iovec ∷ [])
  store_writev-IsLog h iovec w log fuel valid writable is_log some_data short skip fits enough =
      let (w', a) =
        appends lib st view Inv laws medium laid h iovec w is_log.works is_log.position short
          (omega arith) writable in
      let longer = grown h iovec w w' log is_log a some_data short skip fits in
      let walk =
        read_log-IsLog lib st view Inv laws medium laid h valid w' longer.works longer.position
          (log ++ flatten iovec ∷ []) fuel longer.chain
          (omega (arith, length_snoc log (flatten iovec))) in
      rw (a.returned) (refl, longer, walk)
