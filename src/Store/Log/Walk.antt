-- ===== src/Store/Log/Walk.antt =====
-- The walk over the write sector returns its log.
use native.Mathlib.Nat.{zero-mod}
use zephyr_goodies.Base.{
  ℕ, zero, suc, ◌+◌, ◌%◌, ◌^◌, ◌≤◌, ◌<◌, ◌≡◌, refl, ap, ◌∙◌, inl, inr, Bool, true, false, some,
  Option, none, List, [], ◌∷◌, length, ◌==◌, Bool-cases, eq→==, ne→==_false, le→leb, Memory, arith,
}
use zephyr_goodies.Errno.{ok, enoent}
use zephyr_goodies.Size.{size_add, align_up}
use zephyr_goodies.Size.Align.{IsAlignUp, align_up-IsAlignUp, IsAlignUp-unique, multiple_add}
use zephyr_goodies.Medium.{IsMedium}
use zephyr_goodies.Store.{Platform, IsPlatform, Store, World, Record, Handle, store_valid}
use zephyr_goodies.Store.Layout.{IsLaidOut, IsPosition, sector_inside}
use zephyr_goodies.Store.Read.{storage_area_record_readv}
use zephyr_goodies.Store.Walk.{
  leave, round, next_pos, next_loop, skip_cookie, record_next_in_sector,
}
use zephyr_goodies.Store.Write.Image.{room, room_lem}
use zephyr_goodies.Store.Write.Readback.{finds}
use zephyr_goodies.Store.Write.RoundTrip.{own_count, record_readv_lem}
use zephyr_goodies.Store.Log.{log_start, read_log, sector_start, IsStored, IsChain}

pub skip_cookie-log_start :
    (o : Option (List ℕ)) (align : ℕ) (bound : Bool) (sector size : ℕ)
    → skip_cookie o align (record { bound = bound; sector = sector; loc = 0; size = size })
      ≡ record { bound = bound; sector = sector; loc = log_start o align; size = size }
unfolding skip_cookie
skip_cookie-log_start none align bound sector size = refl
skip_cookie-log_start (some c) align bound sector size = ground arith

-- Behind the cookie nothing is skipped.
skip_cookie_behind :
    (o : Option (List ℕ)) (align : ℕ) (r : Record)
    → ((c : List ℕ) → o ≡ some c → length c ≤ align_up (length c) align)
    → log_start o align ≤ r.loc
    → skip_cookie o align r ≡ r
unfolding skip_cookie
skip_cookie_behind none align r up h = refl
skip_cookie_behind (some c) align r up h = ground (arith, up c refl)

module _ {S : Type 0} (lib : Platform) (st : Store S) (view : S → Memory) (Inv : S → Type 0)
    (laws : IsPlatform lib) (medium : IsMedium st.area view Inv) (laid : IsLaidOut st) (h : Handle)
    (valid : store_valid h ≡ true) (w : World S) (works : Inv w.dev)
    (position : IsPosition st w.sd) where
  abbrev pub record_at : ℕ → ℕ → Record
  record_at loc size = record { bound = true; sector = w.sd.sector; loc = loc; size = size }

  pub past_cookie :
      (loc size : ℕ)
      → log_start st.sector_cookie st.area.geometry.write_size ≤ loc
      → skip_cookie st.sector_cookie st.area.geometry.write_size (record_at loc size)
        ≡ record_at loc size
  past_cookie loc size le =
      skip_cookie_behind st.sector_cookie st.area.geometry.write_size (record_at loc size) up le
    where
      up :
          (c : List ℕ)
          → st.sector_cookie ≡ some c
          → length c ≤ align_up (length c) st.area.geometry.write_size
      up c e =
          (align_up-IsAlignUp (length c) st.area.geometry.write_size laid.unit (
            omega (
              arith,
              laid.cookie_fits c e,
              laid.small,
              sector_inside st laid w.sd.sector position.exists,
            ))).above

  -- The walk goes on behind a record where the next one was written.
  pub next_pos-record :
      (loc : ℕ) (bytes : List ℕ)
      → loc % st.area.geometry.write_size ≡ 0
      → 0 < length bytes
      → length bytes < 2 ^ 16
      → loc + (length bytes + 8) < st.sector_size
      → next_pos lib st (record_at loc (length bytes)) ≡ loc + room lib st w.sd.wrapcnt bytes
  unfolding next_pos
  next_pos-record loc bytes unit some_data short fits =
      rw (ne→==_false (length bytes) 0 (omega arith), sum)
        (IsAlignUp-unique (loc + (length bytes + 8)) ws _ _
          (align_up-IsAlignUp (loc + (length bytes + 8)) ws laid.unit
            (omega (arith, laid.headroom, sector_inside st laid w.sd.sector position.exists)))
          (record {
            above = omega (arith, r.above);
            close = omega (arith, r.close);
            multiple = multiple_add ws loc (room lib st w.sd.wrapcnt bytes) unit r.multiple;
          }))
    where
      ws : ℕ
      ws = st.area.geometry.write_size

      r : IsAlignUp (length bytes + 8) ws (room lib st w.sd.wrapcnt bytes)
      r = room_lem lib st w.sd.wrapcnt bytes laws laid.unit short

      sum : size_add loc (size_add (size_add 4 (length bytes)) 4) ≡ loc + (length bytes + 8)
      sum = omega (arith, laid.small, sector_inside st laid w.sd.sector position.exists)

  -- At the write position the walk ends.
  pub stops :
      (from size : ℕ) (r : Record)
      → skip_cookie st.sector_cookie st.area.geometry.write_size r ≡ record_at from size
      → next_pos lib st (record_at from size) ≡ w.sd.loc
      → (record_next_in_sector lib st w.sd true r w.dev).0 ≡ enoent
  unfolding record_next_in_sector next_loop
  stops from size r past at = rw (past, next_loop, ended) refl
    where
      ended :
          round lib st w.sd true false (record_at from size) w.dev
          ≡ leave enoent (record_at w.sd.loc 0)
      ended =
          unfold round in
          rw (at, le→leb w.sd.loc w.sd.loc (omega arith), eq→== w.sd.sector w.sd.sector refl) refl

  pub chain-le :
      (log : List (List ℕ)) (loc : ℕ)
      → IsChain lib st laws w.sd.wrapcnt w.sd.sector (view w.dev) loc log w.sd.loc
      → loc ≤ w.sd.loc
  chain-le [] loc c = omega arith
  chain-le (x ∷ log) loc c = omega (arith, chain-le log (loc + room lib st w.sd.wrapcnt x) (c.1))

  read_log-chain :
      (log : List (List ℕ)) (fuel loc from size : ℕ) (r : Record)
      → length log < fuel
      → loc % st.area.geometry.write_size ≡ 0
      → log_start st.sector_cookie st.area.geometry.write_size ≤ loc
      → skip_cookie st.sector_cookie st.area.geometry.write_size r ≡ record_at from size
      → next_pos lib st (record_at from size) ≡ loc
      → IsChain lib st laws w.sd.wrapcnt w.sd.sector (view w.dev) loc log w.sd.loc
      → read_log lib st fuel h r w ≡ log
  unfolding read_log
  read_log-chain [] zero loc from size r f u b past at c = elim f [ ]
  read_log-chain (x ∷ log) zero loc from size r f u b past at c = elim f [ ]
  read_log-chain [] (suc fuel) loc from size r f u b past at c =
      rw (stops from size r past (at ∙ c)) refl
  read_log-chain (x ∷ log) (suc fuel) loc from size r f u b past at c =
      rw (find, read)
        (ap (λ l. x ∷ l)
          (read_log-chain log fuel (loc + room lib st w.sd.wrapcnt x) loc (length x)
            (record_at loc (length x)) (omega arith)
            (multiple_add st.area.geometry.write_size loc (room lib st w.sd.wrapcnt x) u
              up.multiple)
            (omega arith) (past_cookie loc (length x) b)
            (next_pos-record loc x u stored.some_data stored.short stored.fits) (c.1)))
    where
      stored : IsStored lib st laws w.sd.wrapcnt w.sd.sector (view w.dev) loc x
      stored = c.0

      up : IsAlignUp (length x + 8) st.area.geometry.write_size (room lib st w.sd.wrapcnt x)
      up = room_lem lib st w.sd.wrapcnt x laws laid.unit stored.short

      find : record_next_in_sector lib st w.sd true r w.dev ≡ (ok, record_at loc (length x))
      find =
          finds lib st view Inv laws medium laid w.dev works w.sd.wrapcnt w.sd.sector loc x
            position.exists stored.short stored.fits stored.holds w.sd true true from size
            stored.some_data at
            (inr (omega (arith, chain-le log (loc + room lib st w.sd.wrapcnt x) (c.1), up.above)))
            (own_count lib st view Inv laws medium laid w.sd w.sd.sector w.sd.wrapcnt refl refl) r
            past

      read :
          storage_area_record_readv lib st h (some (record_at loc (length x))) 0 (length x ∷ []) w
          ≡ (ok, x)
      read =
          record_readv_lem lib st view Inv laws medium laid h w w.sd.wrapcnt w.sd.sector loc x works
            position.exists stored.short (omega (arith, stored.fits)) valid stored.holds

  pub log_start-unit :
      log_start st.sector_cookie st.area.geometry.write_size % st.area.geometry.write_size ≡ 0
  log_start-unit = go st.sector_cookie refl
    where
      ws : ℕ
      ws = st.area.geometry.write_size

      go : (o : Option (List ℕ)) → st.sector_cookie ≡ o → log_start o ws % ws ≡ 0
      go none e = zero-mod ws
      go (some c) e = elim (Bool-cases (length c == 0)) [
        | inl empty ↦ rw empty (zero-mod ws)
        | inr there ↦
            rw there
              (align_up-IsAlignUp (length c) ws laid.unit (
                omega (
                  arith,
                  laid.cookie_fits c e,
                  laid.small,
                  sector_inside st laid w.sd.sector position.exists,
                ))).multiple
      ]

  -- On a device that works, a client that walks the write sector of a valid store from its start,
  -- with a read of each record and in more rounds than the sector has records, reads exactly the
  -- data of the records, in the order in which they stand.
  pub read_log-IsLog :
      (log : List (List ℕ)) (fuel : ℕ)
      → IsChain lib st laws w.sd.wrapcnt w.sd.sector
          (view w.dev)
          (log_start st.sector_cookie st.area.geometry.write_size)
          log
          w.sd.loc
      → length log < fuel
      → read_log lib st fuel h (sector_start lib st w) w ≡ log
  read_log-IsLog log fuel c f =
      read_log-chain log fuel (log_start st.sector_cookie st.area.geometry.write_size)
        (log_start st.sector_cookie st.area.geometry.write_size) 0 (sector_start lib st w) f
        log_start-unit (omega arith)
        (skip_cookie-log_start st.sector_cookie st.area.geometry.write_size true w.sd.sector 0)
        (unfold next_pos in refl) c
