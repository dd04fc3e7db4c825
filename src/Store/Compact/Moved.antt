-- ===== src/Store/Compact/Moved.antt =====
-- A record that is moved goes to the end of the log of the write sector, and stays where it was.
use native.Mathlib.Nat.{mod-eq_of_lt, zero-mod}
use zephyr_goodies.Base.{
  ℕ, suc, ◌+◌, ◌-◌, ◌*◌, ◌%◌, ◌≤◌, ◌<◌, ◌≡◌, ◌≢◌, refl, sym, subst, ap, ap₂, ◌∙◌, ◌⊎◌, inl, inr,
  true, false, some, Bool, List, [], ◌∷◌, ◌++◌, ltb, ltb→lt, ltb_false→le, le→ltb_false, Bool-cases,
  length, length-slice, Memory, slice, splice, arith,
}
use zephyr_goodies.Errno.{ok}
use zephyr_goodies.Size.{size_add, size_sub}
use zephyr_goodies.Size.Align.{IsAlignUp, align_least, multiple_sub, multiple_add}
use zephyr_goodies.Medium.{IsMedium, mul_mono, area_size}
use zephyr_goodies.Store.{Platform, IsPlatform, Store, World, Record, record_len, sector_pos}
use zephyr_goodies.Store.Layout.{
  IsLaidOut, IsPosition, sector_inside, sector_pos-eq-mul, in_sector-unit, SameSector,
  splice-SameSector,
}
use zephyr_goodies.Store.Write.Image.{room, room_lem}
use zephyr_goodies.Store.Write.Readback.{HoldsRecord, HoldsRecord-splice, valid_lem}
use zephyr_goodies.Store.Log.{IsLog, IsStored, log_start}
use zephyr_goodies.Store.Log.Append.{Chain, Chain-splice, Chain-snoc}
use zephyr_goodies.Store.Compact.{stamp, copy_loop, copy_record, move_record}
use zephyr_goodies.Store.Compact.Copy.{copy_loop_lem, length-stamp}
use zephyr_goodies.Store.Compact.Run.{copy-HoldsRecord}

module _ {S : Type 0} (lib : Platform) (st : Store S) (view : S → Memory) (Inv : S → Type 0)
    (laws : IsPlatform lib) (medium : IsMedium st.area view Inv) (laid : IsLaidOut st) where
  abbrev ws : ℕ
  ws = st.area.geometry.write_size

  -- A record with its padding stays in its sector.
  room_in :
      (n al loc : ℕ)
      → IsAlignUp n ws al
      → loc % ws ≡ 0
      → loc + n ≤ st.sector_size
      → loc + al ≤ st.sector_size
  room_in n al loc up unit le = omega (
    arith,
    align_least n ws al (st.sector_size - loc) up (omega arith)
        (multiple_sub ws loc st.sector_size (omega arith) unit laid.aligned),
  )

  -- Runs of two sectors have nothing in common.
  sectors_apart :
      (s t loc loc' al : ℕ)
      → s ≢ t
      → loc + al ≤ st.sector_size
      → loc' + al ≤ st.sector_size
      → (s * st.sector_size + loc + al ≤ t * st.sector_size + loc')
        ⊎ (t * st.sector_size + loc' + al ≤ s * st.sector_size + loc)
  sectors_apart s t loc loc' al ne a b = elim (Bool-cases (ltb s t)) [
    | inl lt ↦ inl (omega (arith, mul_mono (s + 1) t st.sector_size (omega (arith, ltb→lt s t lt))))
    | inr ge ↦
        inr (
          omega (arith, mul_mono (t + 1) s st.sector_size (omega (arith, ltb_false→le s t ge, ne))))
  ]

  module _ (w : World S) (log : List (List ℕ)) (is_log : IsLog lib st laws view Inv w log)
      (sector loc old : ℕ) (bytes : List ℕ) (exists : sector < st.sector_cnt)
      (elsewhere : sector ≢ w.sd.sector) (unit : loc % ws ≡ 0)
      (source : IsStored lib st laws old sector (view w.dev) loc bytes)
      (fits : w.sd.loc + (length bytes + 8) < st.sector_size) where
    abbrev al : ℕ
    al = room lib st old bytes

    up : IsAlignUp (length bytes + 8) ws al
    up = room_lem lib st old bytes laws laid.unit source.short

    abbrev from : ℕ
    from = sector * st.sector_size + loc

    abbrev to : ℕ
    to = w.sd.sector * st.sector_size + w.sd.loc

    abbrev moving : Record
    moving = record { bound = true; sector = sector; loc = loc; size = length bytes }

    here_fits : loc + al ≤ st.sector_size
    here_fits = let f = source.fits in room_in (length bytes + 8) al loc up unit (omega arith)

    there_fits : w.sd.loc + al ≤ st.sector_size
    there_fits = room_in (length bytes + 8) al w.sd.loc up is_log.position.on_unit (omega arith)

    from_inside : from + al ≤ area_size st.area.geometry
    from_inside = omega (arith, here_fits, sector_inside st laid sector exists)

    to_inside : to + al ≤ area_size st.area.geometry
    to_inside = omega (arith, there_fits, sector_inside st laid w.sd.sector is_log.position.exists)

    long : 2 ≤ al
    long = omega (arith, up.above)

    -- What the move leaves behind.
    record IsMoved (w' : World S) : Type 0 where
      memory :
          view w'.dev
          ≡ splice (view w.dev) to (stamp lib st 0 w.sd.wrapcnt (slice (view w.dev) from al))
      moved : w'.sd ≡ record w.sd { loc = w.sd.loc + al }
      kept : Inv w'.dev

    copied : (w' : World S) × (copy_loop lib st (suc al) 0 al from to w ≡ (ok, w')) × IsMoved w'
    copied =
        let (w', ran, c) =
          copy_loop_lem lib st view Inv laws medium laid from to al from_inside to_inside
            (in_sector-unit st laid w.sd.sector is_log.position.exists w.sd.loc
              is_log.position.on_unit)
            up.multiple long
            (sectors_apart sector w.sd.sector loc w.sd.loc al elsewhere here_fits there_fits)
            (suc al) 0 w is_log.works (omega arith) (zero-mod ws) (omega arith)
            (omega (
              arith,
              there_fits,
              laid.small,
              sector_inside st laid w.sd.sector is_log.position.exists,
            )) in
        let all : al - 0 ≡ al = omega arith in
        let t : to + 0 ≡ to = omega arith in
        let f : from + 0 ≡ from = omega arith in
        (
          w',
          ran,
          record {
            memory =
                c.memory
                ∙ ap₂ (splice (view w.dev)) t
                    (ap (stamp lib st 0 w.sd.wrapcnt) (ap₂ (slice (view w.dev)) f all));
            moved = c.moved ∙ ap (λ k. record w.sd { loc = w.sd.loc + k }) all;
            kept = c.kept;
          },
        )

    -- The call comes to the loop.
    move_runs :
        (move : World S → Record → Bool) (w' : World S)
        → move w moving ≡ true
        → copy_loop lib st (suc al) 0 al from to w ≡ (ok, w')
        → move_record lib st (some move) moving w ≡ (ok, w')
    unfolding move_record copy_record
    move_runs move w' wanted ran =
        let inside = sector_inside st laid sector exists in
        let there = sector_inside st laid w.sd.sector is_log.position.exists in
        let valid =
          valid_lem lib st view Inv laws medium laid w.dev is_log.works old sector loc bytes exists
            source.short source.fits source.holds true source.skip in
        let len : record_len (length bytes) ≡ length bytes + 8 = omega (arith, source.short) in
        let rpos : size_add (sector_pos st sector) loc ≡ from =
          ap (λ k. size_add k loc) (sector_pos-eq-mul st laid sector exists)
          ∙ mod-eq_of_lt (omega (arith, laid.small, from_inside, long)) in
        let wpos : size_add (sector_pos st w.sd.sector) w.sd.loc ≡ to =
          ap (λ k. size_add k w.sd.loc)
            (sector_pos-eq-mul st laid w.sd.sector is_log.position.exists)
          ∙ mod-eq_of_lt (omega (arith, laid.small, to_inside, long)) in
        let guard : ltb (size_sub st.sector_size al) w.sd.loc ≡ false =
          le→ltb_false _ _ (omega (arith, there_fits, laid.small, there)) in
        rw (wanted, valid, len, guard, rpos, wpos) ran

    older :
        (w' : World S)
        → IsMoved w'
        → Chain lib st view Inv laws medium laid w.sd.wrapcnt w.sd.sector
            (view w'.dev)
            (log_start st.sector_cookie ws)
            log
            w.sd.loc
    older w' m =
        subst
          (λ k.
            Chain lib st view Inv laws medium laid w.sd.wrapcnt w.sd.sector k
              (log_start st.sector_cookie ws) log w.sd.loc)
          (sym m.memory)
          (Chain-splice lib st view Inv laws medium laid w.sd.wrapcnt w.sd.sector (view w.dev)
            (stamp lib st 0 w.sd.wrapcnt (slice (view w.dev) from al)) log
            (log_start st.sector_cookie ws) w.sd.loc is_log.chain)

    grows : (w' : World S) → IsMoved w' → IsLog lib st laws view Inv w' (log ++ bytes ∷ [])
    grows w' m = record {
      works = m.kept;
      position = subst (IsPosition st) (sym m.moved) (record {
        exists = is_log.position.exists;
        on_unit = multiple_add ws w.sd.loc al is_log.position.on_unit up.multiple;
        in_bounds = there_fits;
      });
      chain =
          subst
            (λ sd.
              Chain lib st view Inv laws medium laid sd.wrapcnt sd.sector (view w'.dev)
                (log_start st.sector_cookie ws) (log ++ bytes ∷ []) sd.loc)
            (sym m.moved)
            (Chain-snoc lib st view Inv laws medium laid w.sd.wrapcnt w.sd.sector (view w'.dev)
              bytes log (log_start st.sector_cookie ws) w.sd.loc (older w' m) stored);
    }
      where
        stored : IsStored lib st laws w.sd.wrapcnt w.sd.sector (view w'.dev) w.sd.loc bytes
        stored = record {
          some_data = source.some_data;
          short = source.short;
          skip = source.skip;
          fits = fits;
          holds =
              subst (λ k. HoldsRecord lib st laws w.sd.wrapcnt bytes k to) (sym m.memory)
                (copy-HoldsRecord lib st laws old w.sd.wrapcnt bytes (view w.dev) from to al
                  source.holds up.above);
        }

    stays : (w' : World S) → IsMoved w' → IsStored lib st laws old sector (view w'.dev) loc bytes
    stays w' m = record {
      some_data = source.some_data;
      short = source.short;
      skip = source.skip;
      fits = source.fits;
      holds =
          subst (λ k. HoldsRecord lib st laws old bytes k from) (sym m.memory)
            (HoldsRecord-splice lib st laws old bytes (view w.dev) from to copy source.holds
              (elim (sectors_apart sector w.sd.sector loc w.sd.loc al elsewhere here_fits
                there_fits) [
                  | inl before ↦ inl (omega (arith, before, up.above))
                  | inr behind ↦ inr (omega (arith, behind, n))
                ]));
    }
      where
        copy : List ℕ
        copy = stamp lib st 0 w.sd.wrapcnt (slice (view w.dev) from al)

        run : length (slice (view w.dev) from al) ≡ al
        run = length-slice (view w.dev) from al

        n : length copy ≡ al
        n =
            length-stamp lib st 0 w.sd.wrapcnt (slice (view w.dev) from al)
              (inl (omega (arith, run, long)))
            ∙ run

    -- On a device that works, where the write sector holds a log of records: a record of another
    -- sector, at a write unit, that the callback wants moved, and whose data leave at least one byte of
    -- both sectors free behind its checksum, is moved by `store_move_record`: the call
    -- succeeds, the log of the write sector then ends with the data of the record, and the record
    -- still stands where it stood.
    pub move_record-IsLog :
        (move : World S → Record → Bool)
        → move w moving ≡ true
        → let (rc, w') = move_record lib st (some move) moving w in
          (rc ≡ ok)
          × IsLog lib st laws view Inv w' (log ++ bytes ∷ [])
          × IsStored lib st laws old sector (view w'.dev) loc bytes
    move_record-IsLog move wanted =
        let (w', ran, m) = copied in
        rw (move_runs move w' wanted ran) (refl, grows w' m, stays w' m)

    -- The whole of what such a move does: nothing but the write sector changes.
    pub move_lem :
        (move : World S → Record → Bool)
        → move w moving ≡ true
        → (w' : World S) × (move_record lib st (some move) moving w ≡ (ok, w'))
          × IsLog lib st laws view Inv w' (log ++ bytes ∷ [])
          × (w'.sd ≡ record w.sd { loc = w.sd.loc + al })
          × ((t : ℕ) → t ≢ w.sd.sector → SameSector st t (view w.dev) (view w'.dev))
    move_lem move wanted =
        let (w', ran, m) = copied in
        (
          w',
          move_runs move w' wanted ran,
          grows w' m,
          m.moved,
          λ t ne b low high.
              splice-SameSector st t w.sd.sector w.sd.loc
                (stamp lib st 0 w.sd.wrapcnt (slice (view w.dev) from al)) (view w.dev) ne
                (omega (arith, there_fits, n)) b low high
              ∙ ap (λ k. k b) (sym m.memory),
        )
      where
        n : length (stamp lib st 0 w.sd.wrapcnt (slice (view w.dev) from al)) ≡ al
        n =
            length-stamp lib st 0 w.sd.wrapcnt (slice (view w.dev) from al)
              (inl (omega (arith, length-slice (view w.dev) from al, long)))
            ∙ length-slice (view w.dev) from al
