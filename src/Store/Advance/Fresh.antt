-- ===== src/Store/Advance/Fresh.antt =====
-- `store_advance_simple` on a device that can be overwritten: the rest of the write sector is
-- filled, and the next one starts an empty log.
use native.Mathlib.Nat.{mod-lt, mod_self, zero-mod, mod-eq_of_lt}
use zephyr_goodies.Base.{
  ◌≢◌, ℕ, zero, suc, ◌+◌, ◌-◌, ◌*◌, ◌%◌, ◌^◌, ◌≤◌, ◌<◌, ◌≡◌, refl, sym, ap, ◌∙◌, subst, inl, inr,
  true, Option, none, some, List, [], ◌∷◌, ◌++◌, append-nil, flatten, ltb, ◌==◌, if◌then◌else◌,
  Bool-cases, ltb→lt, ltb_false→le, eq→==, length, length-append, length-replicate, replicate,
  Memory, arith,
}
use zephyr_goodies.Errno.{ok}
use zephyr_goodies.Size.{size_mod, size_add, size_sub, align_up, IsPow2}
use zephyr_goodies.Size.Align.{align_up-IsAlignUp, pow-bounds, multiple_add, multiple_sub}
use zephyr_goodies.Area.{writev, fovrwrite}
use zephyr_goodies.Medium.{IsMedium}
use zephyr_goodies.Store.{
  Platform, IsPlatform, Store, StoreData, World, sas_min, sas_max, sas_minbufsize, sas_fillval,
  sector_pos, buffer_size,
}
use zephyr_goodies.Store.Sectors.Round.{sector_advance-eq-mod}
use zephyr_goodies.Store.Sectors.{sector_advance}
use zephyr_goodies.Store.Layout.{
  in_sector-unit, IsLaidOut, IsPosition, sector_inside, sector_pos-eq-mul, SameSector,
  splice-SameSector,
}
use zephyr_goodies.Store.Log.{log_start, IsLog}
use zephyr_goodies.Store.Advance.{
  write_cookie, add_cookie, fill_loop, fill_sector, next_sector, advance_simple,
}

small_powers : (k : ℕ) → k ≤ 5 → 32 % 2 ^ k ≡ 0
small_powers zero h = refl
small_powers (suc zero) h = refl
small_powers (suc (suc zero)) h = refl
small_powers (suc (suc (suc zero))) h = refl
small_powers (suc (suc (suc (suc zero)))) h = refl
small_powers (suc (suc (suc (suc (suc zero))))) h = refl
small_powers (suc (suc (suc (suc (suc (suc k)))))) h = absurd (omega arith)

-- The buffers that data is moved through are whole write units.
buffer_units : (a : ℕ) → IsPow2 a → sas_max sas_minbufsize a % a ≡ 0
buffer_units a (k, h, e) = elim (Bool-cases (ltb 32 a)) [
  | inl big ↦ rw big (mod_self a)
  | inr small ↦ rw small (rw e (small_powers k (low (ltb_false→le 32 a small))))
]
  where
    low : a ≤ 32 → k ≤ 5
    low le = elim (Bool-cases (ltb 5 k)) [
      | inl more ↦
          absurd (let p = pow-bounds 6 k (omega (arith, ltb→lt 5 k more)) in omega (arith, p, e))
      | inr few ↦ ltb_false→le 5 k few
    ]

module _ {S : Type 0} (st : Store S) (laid : IsLaidOut st) where
  abbrev unit_size : ℕ
  unit_size = st.area.geometry.write_size

  -- The next buffer that is filled.
  pub chunk_lem :
      (n : ℕ)
      → n % unit_size ≡ 0
      → 0 < n
      → let len = sas_min (buffer_size st) n in (len % unit_size ≡ 0) × (0 < len) × (len ≤ n)
  chunk_lem n whole some_left = elim (Bool-cases (ltb (buffer_size st) n)) [
    | inl less ↦ rw less (buffer_units unit_size laid.unit, pos, omega (arith, ltb→lt _ _ less))
    | inr all ↦ rw all (whole, some_left, omega arith)
  ]
    where
      pos : 0 < sas_max sas_minbufsize unit_size
      pos = ground arith

  pub log_start-fits :
      (o : Option (List ℕ)) (sector : ℕ)
      → st.sector_cookie ≡ o
      → sector < st.sector_cnt
      → (log_start o unit_size % unit_size ≡ 0) × (log_start o unit_size ≤ st.sector_size)
  log_start-fits none sector e exists = (zero-mod unit_size, omega arith)
  log_start-fits (some c) sector e exists = elim (Bool-cases (length c == 0)) [
    | inl empty ↦ rw empty (zero-mod unit_size, omega arith)
    | inr there ↦
        let fits = laid.cookie_fits c e in
        let up =
          align_up-IsAlignUp (length c) unit_size laid.unit
            (omega (arith, laid.small, sector_inside st laid sector exists)) in
        rw there (up.multiple, omega (arith, up.close))
  ]

module _ {S : Type 0} (lib : Platform) (st : Store S) (view : S → Memory) (Inv : S → Type 0)
    (laws : IsPlatform lib) (medium : IsMedium st.area view Inv) (laid : IsLaidOut st) where
  abbrev ws : ℕ
  ws = st.area.geometry.write_size

  -- A write of whole units in a sector.
  write_in_sector :
      (sector loc : ℕ) (iovec : List (List ℕ)) (dev : S)
      → Inv dev
      → sector < st.sector_cnt
      → loc % ws ≡ 0
      → length (flatten iovec) % ws ≡ 0
      → loc + length (flatten iovec) ≤ st.sector_size
      → let r = writev (some st.area) (size_add (sector_pos st sector) loc) iovec dev in
        (r.0 ≡ ok) × Inv r.1 × ((t : ℕ) → t ≢ sector → SameSector st t (view dev) (view r.1))
  write_in_sector sector loc iovec dev i exists unit whole fits =
      let inside = sector_inside st laid sector exists in
      let e : size_add (sector_pos st sector) loc ≡ sector * st.sector_size + loc =
        ap (λ k. size_add k loc) (sector_pos-eq-mul st laid sector exists)
        ∙ mod-eq_of_lt (omega (arith, laid.small)) in
      let r =
        medium.writes (sector * st.sector_size + loc) iovec dev i
          (in_sector-unit st laid sector exists loc unit) whole (omega arith) in
      rw e (
        r.0,
        r.2,
        λ t ne b low high.
            splice-SameSector st t sector loc (flatten iovec) (view dev) ne fits b low high
            ∙ ap (λ k. k b) (sym (r.1)),
      )

  fill_loop_lem :
      (fuel : ℕ) (w : World S)
      → Inv w.dev
      → IsPosition st w.sd
      → st.sector_size < fuel + w.sd.loc
      → let r = fill_loop st fuel w in
        (r.0 ≡ ok)
        × Inv r.1.dev
        × (r.1.sd ≡ record w.sd { loc = st.sector_size })
        × ((t : ℕ) → t ≢ w.sd.sector → SameSector st t (view w.dev) (view r.1.dev))
  unfolding fill_loop flatten
  fill_loop_lem zero w i p h = absurd (omega (arith, p.in_bounds))
  fill_loop_lem (suc fuel) w i p h = elim (Bool-cases (ltb w.sd.loc st.sector_size)) [
    | inr full ↦
        let e : w.sd.loc ≡ st.sector_size = omega (arith, ltb_false→le _ _ full, p.in_bounds) in
        rw full (refl, i, ap (λ k. record w.sd { loc = k }) e, λ t ne b low high. refl)
    | inl more ↦
        let lt = ltb→lt w.sd.loc st.sector_size more in
        let room : size_sub st.sector_size w.sd.loc ≡ st.sector_size - w.sd.loc =
          omega (arith, laid.small, sector_inside st laid w.sd.sector p.exists) in
        let n = sas_min (buffer_size st) (st.sector_size - w.sd.loc) in
        let c =
          chunk_lem st laid (st.sector_size - w.sd.loc)
            (multiple_sub ws w.sd.loc st.sector_size p.in_bounds p.on_unit laid.aligned)
            (omega arith) in
        let on : size_add w.sd.loc n ≡ w.sd.loc + n =
          omega (arith, laid.small, sector_inside st laid w.sd.sector p.exists, c) in
        let len : length (flatten (replicate n sas_fillval ∷ [])) ≡ n =
          ap length (append-nil (replicate n sas_fillval)) ∙ length-replicate n sas_fillval in
        let one =
          write_in_sector w.sd.sector w.sd.loc (replicate n sas_fillval ∷ []) w.dev i p.exists
            p.on_unit (ap (λ k. k % ws) len ∙ c.0) (omega (arith, len, c)) in
        let moved : World S = record {
          dev =
              (writev (some st.area) (size_add (sector_pos st w.sd.sector) w.sd.loc)
                (replicate n sas_fillval ∷ []) w.dev).1;
          sd = record w.sd { loc = w.sd.loc + n };
        } in
        let rest =
          fill_loop_lem fuel moved (one.1)
            (record {
              exists = p.exists;
              on_unit = multiple_add ws w.sd.loc n p.on_unit (c.0);
              in_bounds = omega (arith, c);
            })
            (omega (arith, c)) in
        rw (more, room, one.0, on)
          (
            rest.0,
            rest.1,
            rest.2,
            λ t ne b low high. one.2 t ne b low high ∙ rest.3 t ne b low high,
          )
  ]

  -- The cookie of a sector is written at its start, and the records go behind it.
  add_cookie_lem :
      (o : Option (List ℕ)) (w : World S)
      → st.sector_cookie ≡ o
      → Inv w.dev
      → w.sd.sector < st.sector_cnt
      → w.sd.loc ≡ 0
      → let r = add_cookie st o w in
        (r.0 ≡ ok)
        × Inv r.1.dev
        × (r.1.sd ≡ record w.sd { loc = log_start o ws })
        × ((t : ℕ) → t ≢ w.sd.sector → SameSector st t (view w.dev) (view r.1.dev))
  unfolding add_cookie write_cookie flatten
  add_cookie_lem none w e i exists z =
      (refl, i, ap (λ k. record w.sd { loc = k }) z, λ t ne b low high. refl)
  add_cookie_lem (some c) w e i exists z = elim (Bool-cases (length c == 0)) [
    | inl empty ↦
        rw (eq→== w.sd.loc 0 z, empty)
          (refl, i, ap (λ k. record w.sd { loc = k }) z, λ t ne b low high. refl)
    | inr there ↦
        let fits = laid.cookie_fits c e in
        let inside = sector_inside st laid w.sd.sector exists in
        let up = align_up-IsAlignUp (length c) ws laid.unit (omega (arith, laid.small)) in
        let n = align_up (length c) ws in
        let fill : size_sub n (length c) ≡ n - length c =
          omega (arith, up.above, up.close, laid.small) in
        let end : size_add (length c) (n - length c) ≡ n =
          omega (arith, up.above, up.close, laid.small) in
        let len : length (flatten (c ∷ replicate (n - length c) sas_fillval ∷ [])) ≡ n =
          length-append c (replicate (n - length c) sas_fillval ++ [])
          ∙ ap (λ l. length c + length l) (append-nil (replicate (n - length c) sas_fillval))
          ∙ omega (arith, length-replicate (n - length c) sas_fillval, up.above) in
        let at : size_add (sector_pos st w.sd.sector) 0 ≡ sector_pos st w.sd.sector = omega arith in
        let one =
          write_in_sector w.sd.sector 0 (c ∷ replicate (n - length c) sas_fillval ∷ []) w.dev i
            exists (zero-mod ws) (ap (λ k. k % ws) len ∙ up.multiple)
            (omega (arith, len, up.close)) in
        rw (eq→== w.sd.loc 0 z, there, fill, sym at, one.0, end) (refl, one.1, refl, one.2)
  ]

  module _ (counted : st.sector_cnt < size_mod) where
    step_lem :
        (sector : ℕ)
        → sector < st.sector_cnt
        → (sector_advance st.sector_cnt sector 1 ≡ (sector + 1) % st.sector_cnt)
          × (sector_advance st.sector_cnt sector 1 < st.sector_cnt)
    step_lem sector h =
        let e = sector_advance-eq-mod st.sector_cnt counted sector 1 h in
        (e, rw e (mod-lt (sector + 1) (omega arith)))

    -- The next sector starts an empty log.
    fresh_lem :
        (w : World S) (sector wrapcnt : ℕ)
        → Inv w.dev
        → w.sd.sector ≡ sector
        → w.sd.wrapcnt ≡ wrapcnt
        → sector < st.sector_cnt
        → let (rc, w') = add_cookie st st.sector_cookie (record w { sd = next_sector st w.sd }) in
          (rc ≡ ok)
          × IsLog lib st laws view Inv w' []
          × (w'.sd.sector ≡ (sector + 1) % st.sector_cnt)
          × (w'.sd.wrapcnt
              ≡ (if (sector + 1) % st.sector_cnt == 0 then (wrapcnt + 1) % 256 else wrapcnt))
          × (w'.sd.ready ≡ w.sd.ready)
          × (w'.sd.advance ≡ w.sd.advance)
          × (w'.sd.loc ≡ log_start st.sector_cookie ws)
          × ((t : ℕ)
              → t ≢ (sector + 1) % st.sector_cnt
              → SameSector st t (view w.dev) (view w'.dev))
    unfolding next_sector
    fresh_lem w sector wrapcnt i here count exists = (
      cookie.0,
      record {
        works = cookie.1;
        position =
            subst (IsPosition st) (sym (cookie.2))
              (record { exists = there; on_unit = fits.0; in_bounds = fits.1 });
        chain = sym (ap (λ (d : StoreData). d.loc) (cookie.2));
      },
      ap (λ (d : StoreData). d.sector) (cookie.2) ∙ at,
      ap (λ (d : StoreData). d.wrapcnt) (cookie.2) ∙ rw (at, count) refl,
      ap (λ (d : StoreData). d.ready) (cookie.2),
      ap (λ (d : StoreData). d.advance) (cookie.2),
      ap (λ (d : StoreData). d.loc) (cookie.2),
      λ t ne. cookie.3 t (λ e. ne (e ∙ at)),
    )
      where
        at : sector_advance st.sector_cnt w.sd.sector 1 ≡ (sector + 1) % st.sector_cnt
        at = ap (λ k. sector_advance st.sector_cnt k 1) here ∙ (step_lem sector exists).0

        there : sector_advance st.sector_cnt w.sd.sector 1 < st.sector_cnt
        there = rw here ((step_lem sector exists).1)

        fits :
            (log_start st.sector_cookie ws % ws ≡ 0)
            × (log_start st.sector_cookie ws ≤ st.sector_size)
        fits =
            log_start-fits st laid st.sector_cookie (sector_advance st.sector_cnt w.sd.sector 1)
              refl there

        next : World S
        next = record w { sd = next_sector st w.sd }

        cookie :
            ((add_cookie st st.sector_cookie next).0 ≡ ok)
            × Inv (add_cookie st st.sector_cookie next).1.dev
            × ((add_cookie st st.sector_cookie next).1.sd
                ≡ record next.sd { loc = log_start st.sector_cookie ws })
            × ((t : ℕ)
                → t ≢ next.sd.sector
                → SameSector st t
                    (view next.dev)
                    (view (add_cookie st st.sector_cookie next).1.dev))
        cookie = add_cookie_lem st.sector_cookie next refl i there refl

    pub advance_simple_lem :
        (w : World S)
        → fovrwrite st.area.geometry ≡ true
        → Inv w.dev
        → IsPosition st w.sd
        → let (rc, w') = advance_simple st w in
          (rc ≡ ok)
          × IsLog lib st laws view Inv w' []
          × (w'.sd.sector ≡ (w.sd.sector + 1) % st.sector_cnt)
          × (w'.sd.wrapcnt ≡ (
              if (w.sd.sector + 1) % st.sector_cnt == 0
              then (w.sd.wrapcnt + 1) % 256
              else w.sd.wrapcnt))
          × (w'.sd.ready ≡ w.sd.ready)
          × (w'.sd.advance ≡ w.sd.advance)
          × (w'.sd.loc ≡ log_start st.sector_cookie ws)
          × ((t : ℕ)
              → t ≢ w.sd.sector
              → t ≢ (w.sd.sector + 1) % st.sector_cnt
              → SameSector st t (view w.dev) (view w'.dev))
    unfolding advance_simple fill_sector
    advance_simple_lem w over i p =
        let fill = fill_loop_lem (suc st.sector_size) w i p (omega arith) in
        let next =
          fresh_lem (fill_loop st (suc st.sector_size) w).1 w.sd.sector w.sd.wrapcnt (fill.1)
            (ap (λ (d : StoreData). d.sector) (fill.2)) (ap (λ (d : StoreData). d.wrapcnt) (fill.2))
            p.exists in
        rw (over, fill.0)
          (
            next.0,
            next.1,
            next.2,
            next.3,
            next.4 ∙ ap (λ (d : StoreData). d.ready) (fill.2),
            next.5 ∙ ap (λ (d : StoreData). d.advance) (fill.2),
            next.6,
            λ t here there b low high. fill.3 t here b low high ∙ next.7 t there b low high,
          )

    -- On a device that works and can be overwritten, in a store whose sectors 32 bits count,
    -- `store_advance_simple` succeeds from any write position: the write sector is then the next one, round the store, with an empty log behind
    -- its cookie, and the wrap count has gone up by one, modulo 256, when that is sector 0.
    pub advance_simple-IsLog :
        (w : World S)
        → fovrwrite st.area.geometry ≡ true
        → Inv w.dev
        → IsPosition st w.sd
        → let (rc, w') = advance_simple st w in
          (rc ≡ ok)
          × IsLog lib st laws view Inv w' []
          × (w'.sd.sector ≡ (w.sd.sector + 1) % st.sector_cnt)
          × (w'.sd.wrapcnt ≡ (
              if (w.sd.sector + 1) % st.sector_cnt == 0
              then (w.sd.wrapcnt + 1) % 256
              else w.sd.wrapcnt))
    advance_simple-IsLog w over i p = let a = advance_simple_lem w over i p in (a.0, a.1, a.2, a.3)
