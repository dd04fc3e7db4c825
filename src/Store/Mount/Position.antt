-- ===== src/Store/Mount/Position.antt =====
-- Mounting a store that was written before: the write position is found again.
use zephyr_goodies.Base.{
  ℕ, zero, suc, ◌+◌, ◌*◌, ◌%◌, ◌≤◌, ◌<◌, ◌≡◌, refl, sym, ap, ◌∙◌, ◌⊎◌, inl, inr, true, false, ◌&&◌,
  ◌||◌, some, List, [], ◌∷◌, ◌==◌, leb, ne→==_false, length, Memory, slice, arith,
}
use zephyr_goodies.Errno.{ok, enoent}
use zephyr_goodies.Size.{size_add}
use zephyr_goodies.Size.Align.{multiple_add}
use zephyr_goodies.Area.{readv}
use zephyr_goodies.Medium.{IsMedium, area_size}
use zephyr_goodies.Store.{
  Platform, IsPlatform, Store, World, Record, Handle, record_len, sas_hdrsize, sector_pos,
  store_valid,
}
use zephyr_goodies.Store.Layout.{IsLaidOut, IsPosition, sector_inside, sector_pos-eq-mul}
use zephyr_goodies.Store.Check.Crc.{read_inside}
use zephyr_goodies.Store.Walk.{
  leave, round, next_pos, next_loop, skip_cookie, record_next_in_sector,
}
use zephyr_goodies.Store.Write.Image.{room, room_lem}
use zephyr_goodies.Store.Write.Readback.{finds}
use zephyr_goodies.Store.Write.RoundTrip.{own_count}
use zephyr_goodies.Store.Log.{IsLog, IsChain, IsStored, log_start}
use zephyr_goodies.Store.Log.Walk.{
  record_at, past_cookie, next_pos-record, log_start-unit, stops, skip_cookie-log_start,
}
use zephyr_goodies.Store.Mount.{last_end, init_position}

-- The end that a loop over records returns: where it began, if there are none.
abbrev end_of : ℕ → List (List ℕ) → ℕ → ℕ
end_of l [] e = l
end_of l (x ∷ log) e = e

-- A handle whose pointers are all there.
abbrev whole_handle : Handle
whole_handle = record { has_store = true; has_data = true; has_area = true }

whole_valid : store_valid whole_handle ≡ true
unfolding store_valid
whole_valid = refl

module _ {S : Type 0} (lib : Platform) (st : Store S) (view : S → Memory) (Inv : S → Type 0)
    (laws : IsPlatform lib) (medium : IsMedium st.area view Inv) (laid : IsLaidOut st) where
  -- Nothing stands behind a position of a sector: the sector ends, or its next byte is erased.
  abbrev pub IsLast : ℕ → Memory → ℕ → Type 0
  IsLast sector m loc =
      (loc ≡ st.sector_size)
      ⊎ ((loc + sas_hdrsize ≤ st.sector_size) × (m (sector * st.sector_size + loc) ≡ 0xff))

  module _ (w : World S) (works : Inv w.dev) (position : IsPosition st w.sd)
      (all : w.sd.loc ≡ st.sector_size) (end : ℕ) (last : IsLast w.sd.sector (view w.dev) end) where
    abbrev at : ℕ → ℕ → Record
    at = record_at lib st view Inv laws medium laid whole_handle whole_valid w works position

    abbrev Chain : ℕ → List (List ℕ) → Type 0
    Chain loc log = IsChain lib st laws w.sd.wrapcnt w.sd.sector (view w.dev) loc log end

    header_last :
        end + sas_hdrsize ≤ st.sector_size
        → readv (some st.area) (size_add (sector_pos st w.sd.sector) end) (sas_hdrsize ∷ []) w.dev
          ≡ (ok, slice (view w.dev) (w.sd.sector * st.sector_size + end) sas_hdrsize)
    header_last le =
        let inside = sector_inside st laid w.sd.sector position.exists in
        let e : size_add (sector_pos st w.sd.sector) end ≡ w.sd.sector * st.sector_size + end =
          ap (λ k. size_add k end) (sector_pos-eq-mul st laid w.sd.sector position.exists)
          ∙ omega (arith, laid.small) in
        ap (λ k. readv (some st.area) k (sas_hdrsize ∷ []) w.dev) e
        ∙ read_inside lib st view Inv laws medium (w.sd.sector * st.sector_size + end) sas_hdrsize
            w.dev works (omega arith)

    round_last :
        (from size : ℕ)
        → next_pos lib st (at from size) ≡ end
        → end + sas_hdrsize ≤ st.sector_size
        → view w.dev (w.sd.sector * st.sector_size + end) ≡ 0xff
        → round lib st w.sd true false (at from size) w.dev ≡ leave enoent (at end 0)
    unfolding round slice
    round_last from size pos le erased =
        let stop : (w.sd.sector == w.sd.sector && leb w.sd.loc end || end == st.sector_size)
            ≡ false =
          ground (arith, all) in
        rw (pos, header_last le, stop, erased) refl

    ends :
        (from size : ℕ) (r : Record)
        → skip_cookie st.sector_cookie st.area.geometry.write_size r ≡ at from size
        → next_pos lib st (at from size) ≡ end
        → (record_next_in_sector lib st w.sd true r w.dev).0 ≡ enoent
    unfolding record_next_in_sector next_loop
    ends from size r past pos = elim last [
      | inl full ↦
          stops lib st view Inv laws medium laid whole_handle whole_valid w works position from size
            r past (pos ∙ full ∙ sym all)
      | inr erased ↦ rw (past, next_loop, round_last from size pos (erased.0) (erased.1)) refl
    ]

    Chain-last : (log : List (List ℕ)) (loc : ℕ) → Chain loc log → end_of loc log end ≡ end
    Chain-last [] loc c = c
    Chain-last (x ∷ log) loc c = refl

    Chain-length : (log : List (List ℕ)) (loc : ℕ) → Chain loc log → loc + length log ≤ end
    Chain-length [] loc c = omega (arith, c)
    Chain-length (x ∷ log) loc c =
        let short = (c.0).short in
        omega (
          arith,
          Chain-length log (loc + room lib st w.sd.wrapcnt x) (c.1),
          (room_lem lib st w.sd.wrapcnt x laws laid.unit short).above,
        )

    -- The loop finds each record of the chain, and the end of the last one.
    last_end-Chain :
        (log : List (List ℕ)) (fuel l loc from size : ℕ) (r : Record)
        → length log < fuel
        → end ≤ st.sector_size
        → loc % st.area.geometry.write_size ≡ 0
        → log_start st.sector_cookie st.area.geometry.write_size ≤ loc
        → skip_cookie st.sector_cookie st.area.geometry.write_size r ≡ at from size
        → next_pos lib st (at from size) ≡ loc
        → Chain loc log
        → last_end lib st fuel l r w ≡ (ok, end_of l log end)
    unfolding last_end
    last_end-Chain [] zero l loc from size r f le u b past pos c = elim f [ ]
    last_end-Chain (x ∷ log) zero l loc from size r f le u b past pos c = elim f [ ]
    last_end-Chain [] (suc fuel) l loc from size r f le u b past pos c =
        rw (ends from size r past (pos ∙ c)) refl
    last_end-Chain (x ∷ log) (suc fuel) l loc from size r f le u b past pos c =
        let stored : IsStored lib st laws w.sd.wrapcnt w.sd.sector (view w.dev) loc x = c.0 in
        let on = loc + room lib st w.sd.wrapcnt x in
        let inside = sector_inside st laid w.sd.sector position.exists in
        let up = room_lem lib st w.sd.wrapcnt x laws laid.unit stored.short in
        let find : record_next_in_sector lib st w.sd true r w.dev ≡ (ok, at loc (length x)) =
          finds lib st view Inv laws medium laid w.dev works w.sd.wrapcnt w.sd.sector loc x
            position.exists stored.short stored.fits stored.holds w.sd true true from size
            stored.some_data pos (inr (omega (arith, all, stored.fits)))
            (own_count lib st view Inv laws medium laid w.sd w.sd.sector w.sd.wrapcnt refl refl) r
            past in
        let len : record_len (length x) ≡ length x + 8 = omega (arith, stored.short) in
        let next : size_add loc (room lib st w.sd.wrapcnt x) ≡ on =
          omega (arith, laid.small, inside, le, Chain-length log on (c.1)) in
        rw (find, len, next)
          (last_end-Chain log fuel on on loc (length x) (at loc (length x)) (omega arith) le
              (multiple_add st.area.geometry.write_size loc (room lib st w.sd.wrapcnt x) u
                up.multiple)
              (omega arith)
              (past_cookie lib st view Inv laws medium laid whole_handle whole_valid w works
                position loc (length x) b)
              (next_pos-record lib st view Inv laws medium laid whole_handle whole_valid w works
                position loc x u stored.some_data stored.short stored.fits)
              (c.1)
            ∙ ap (λ k. (ok, k)) (Chain-last log on (c.1)))

  -- The store behind a restart, when the sectors have been looked through.
  abbrev pub restarted : World S → World S
  restarted w = record w { sd = record w.sd { loc = st.sector_size; ready = false } }

  restarted-IsPosition : (w : World S) → IsPosition st w.sd → IsPosition st (restarted w).sd
  restarted-IsPosition w p = record {
    exists = p.exists;
    on_unit = laid.aligned;
    in_bounds = omega arith;
  }

  some_end : (log : List (List ℕ)) (e : ℕ) → 0 < length log → end_of 0 log e ≡ e
  some_end [] e h = absurd (omega arith)
  some_end (x ∷ log) e h = refl

  last_end-IsLog :
      (w : World S) (log : List (List ℕ))
      → IsLog lib st laws view Inv w log
      → 0 < length log
      → IsLast w.sd.sector (view w.dev) w.sd.loc
      → last_end lib st
          (suc (suc (area_size st.area.geometry)))
          0
          (record { bound = true; sector = w.sd.sector; loc = 0; size = 0 })
          (restarted w)
        ≡ (ok, w.sd.loc)
  last_end-IsLog w log is_log some_log last =
      let w0 = restarted w in
      let p = restarted-IsPosition w is_log.position in
      let begin = log_start st.sector_cookie st.area.geometry.write_size in
      let le = is_log.position.in_bounds in
      let n = Chain-length w0 is_log.works p refl w.sd.loc last log begin is_log.chain in
      let inside = sector_inside st laid w.sd.sector is_log.position.exists in
      last_end-Chain w0 is_log.works p refl w.sd.loc last log
        (suc (suc (area_size st.area.geometry))) 0 begin begin 0
        (record { bound = true; sector = w.sd.sector; loc = 0; size = 0 }) (omega arith) le
        (log_start-unit lib st view Inv laws medium laid whole_handle whole_valid w0 is_log.works p)
        (omega arith)
        (skip_cookie-log_start st.sector_cookie st.area.geometry.write_size true w.sd.sector 0)
        (unfold next_pos in refl) is_log.chain
      ∙ ap (λ k. (ok, k)) (some_end log w.sd.loc some_log)

  -- On a device that works, when a store whose write sector holds a log of at least one record
  -- starts again, with nothing behind the log (the sector ends there, or its next byte is 0xff and
  -- a header still fits), and the write sector and the wrap count are known again: what
  -- `store_init` does then succeeds, finds the write position where it was, and makes the store ready.
  pub init_position-IsLog :
      (w : World S) (log : List (List ℕ))
      → IsLog lib st laws view Inv w log
      → 0 < length log
      → IsLast w.sd.sector (view w.dev) w.sd.loc
      → init_position lib st (restarted w) ≡ (ok, record w { sd = record w.sd { ready = true } })
  unfolding init_position
  init_position-IsLog w log is_log some_log last =
      rw
        (
          last_end-IsLog w log is_log some_log last,
          ne→==_false w.sd.sector st.sector_cnt (omega (arith, is_log.position.exists)),
        )
        refl
