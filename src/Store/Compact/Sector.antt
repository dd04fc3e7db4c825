-- ===== src/Store/Compact/Sector.antt =====
-- `store_move_sector`'s loop: of the records of an old sector those that the callback wants go to
-- the end of the log of the write sector, in their order.
use native.Mathlib.Nat.{mod-eq_of_lt, zero-mod}
use zephyr_goodies.Base.{
  ℕ, zero, suc, ◌+◌, ◌*◌, ◌%◌, ◌≤◌, ◌<◌, ◌≡◌, ◌≢◌, ◌⊎◌, inl, inr, refl, sym, ap, subst, ◌∙◌, Bool,
  true, false, some, List, [], ◌∷◌, ◌++◌, append-nil, append_assoc, if◌then◌else◌, ◌==◌, eq→==,
  ne→==_false, Bool-cases, get_or, length, Memory, slice, slice-ext, arith,
}
use zephyr_goodies.Errno.{ok, enoent}
use zephyr_goodies.Size.{size_add}
use zephyr_goodies.Size.Align.{multiple_add}
use zephyr_goodies.Medium.{IsMedium}
use zephyr_goodies.Store.{
  Platform, IsPlatform, Store, StoreData, World, Record, Handle, store_valid, sector_pos,
}
use zephyr_goodies.Store.Layout.{
  IsLaidOut, IsPosition, sector_inside, sector_pos-eq-mul, SameSector,
}
use zephyr_goodies.Store.Walk.{
  expected_wrapcnt, skip_cookie, next_pos, round, next_loop, leave, record_next_in_sector,
}
use zephyr_goodies.Store.Check.Crc.{read_inside}
use zephyr_goodies.Store.Write.Image.{room, room_lem}
use zephyr_goodies.Store.Write.Readback.{finds}
use zephyr_goodies.Store.Log.Walk.{
  past_cookie, next_pos-record, skip_cookie-log_start, log_start-unit,
}
use zephyr_goodies.Store.Log.{IsLog, IsStored, IsChain, log_start}
use zephyr_goodies.Store.Compact.{move_record, move_retry, move_sector}
use zephyr_goodies.Store.Compact.Moved.{move_lem}

abbrev moved_on : StoreData → ℕ → StoreData
moved_on d k = record d { loc = k }

sd_join :
    (d e : StoreData) (a b c : ℕ)
    → d ≡ moved_on e (e.loc + a)
    → c ≡ a + b
    → moved_on d (d.loc + b) ≡ moved_on e (e.loc + c)
sd_join d e a b c h k =
    ap (λ (x : StoreData). moved_on x (x.loc + b)) h ∙ ap (moved_on e) (omega (arith, k))

module _ {S : Type 0} (lib : Platform) (st : Store S) (view : S → Memory) (Inv : S → Type 0)
    (laws : IsPlatform lib) (medium : IsMedium st.area view Inv) (laid : IsLaidOut st) where
  abbrev ws : ℕ
  ws = st.area.geometry.write_size

  IsStored-same :
      (old s : ℕ) (m m' : Memory) (loc : ℕ) (bytes : List ℕ)
      → SameSector st s m m'
      → IsStored lib st laws old s m loc bytes
      → IsStored lib st laws old s m' loc bytes
  IsStored-same old s m m' loc bytes e i =
      let at = s * st.sector_size + loc in
      let fits = i.fits in
      let run : (a n : ℕ) → at ≤ a → a + n ≤ at + (length bytes + 8) → slice m' a n ≡ slice m a n =
        λ a n low high. slice-ext m' m a n (λ b l u. sym (e b (omega arith) (omega arith))) in
      record {
        some_data = i.some_data;
        short = i.short;
        skip = i.skip;
        fits = i.fits;
        holds = record {
          header = run at 4 (omega arith) (omega arith) ∙ i.holds.header;
          payload = run (at + 4) (length bytes) (omega arith) (omega arith) ∙ i.holds.payload;
          crc = run (at + 4 + length bytes) 4 (omega arith) (omega arith) ∙ i.holds.crc;
        };
      }

  pub IsChain-same :
      (old s : ℕ) (m m' : Memory) (olds : List (List ℕ)) (loc end : ℕ)
      → SameSector st s m m'
      → IsChain lib st laws old s m loc olds end
      → IsChain lib st laws old s m' loc olds end
  IsChain-same old s m m' [] loc end e c = c
  IsChain-same old s m m' (x ∷ olds) loc end e c =
      (IsStored-same old s m m' loc x e c.0, IsChain-same old s m m' olds _ end e c.1)

  -- Where the records of a sector end: at its end, or where the filling begins.
  abbrev pub IsFilled : ℕ → Memory → ℕ → Type 0
  IsFilled s m end =
      (end ≡ st.sector_size) ⊎ ((end + 4 ≤ st.sector_size) × (m (s * st.sector_size + end) ≡ 255))

  pub IsFilled-same :
      (s : ℕ) (m m' : Memory) (end : ℕ)
      → SameSector st s m m'
      → IsFilled s m end
      → IsFilled s m' end
  IsFilled-same s m m' end e f = elim f [
    | inl at ↦ inl at
    | inr p ↦ inr (
      p.0,
      (let room = p.0 in sym (e (s * st.sector_size + end) (omega arith) (omega arith))) ∙ p.1,
    )
  ]

  first-slice : (m : Memory) (a n : ℕ) → get_or (slice m a (suc n)) 0 0 ≡ m a
  unfolding slice
  first-slice m a n = refl

  -- There the walk ends.
  round_ends :
      (sd : StoreData) (dev : S) (s from size end : ℕ)
      → Inv dev
      → s < st.sector_cnt
      → sd.sector ≢ s
      → next_pos lib st (record { bound = true; sector = s; loc = from; size = size }) ≡ end
      → IsFilled s (view dev) end
      → round lib st sd true false
          (record { bound = true; sector = s; loc = from; size = size })
          dev
        ≡ leave enoent (record { bound = true; sector = s; loc = end; size = 0 })
  unfolding round
  round_ends sd dev s from size end works exists other at filled = elim filled [
    | inl full ↦ rw (at, ne→==_false sd.sector s other, eq→== end st.sector_size full) refl
    | inr p ↦
        let low = p.0 in
        let start : size_add (sector_pos st s) end ≡ s * st.sector_size + end =
          ap (λ k. size_add k end) (sector_pos-eq-mul st laid s exists)
          ∙ mod-eq_of_lt (omega (arith, sector_inside st laid s exists, laid.small)) in
        let read =
          read_inside lib st view Inv laws medium (s * st.sector_size + end) 4 dev works
            (omega (arith, sector_inside st laid s exists)) in
        let fill : (get_or (slice (view dev) (s * st.sector_size + end) 4) 0 0 == 255) ≡ true =
          eq→== _ _ (first-slice (view dev) (s * st.sector_size + end) 3 ∙ p.1) in
        rw
          (
            at,
            ne→==_false sd.sector s other,
            ne→==_false end st.sector_size (λ e. omega arith),
            start,
            read,
            fill,
          )
          refl
  ]

  stops_at :
      (sd : StoreData) (dev : S) (s from size end : ℕ) (r : Record)
      → Inv dev
      → s < st.sector_cnt
      → sd.sector ≢ s
      → skip_cookie st.sector_cookie ws r
        ≡ record { bound = true; sector = s; loc = from; size = size }
      → next_pos lib st (record { bound = true; sector = s; loc = from; size = size }) ≡ end
      → IsFilled s (view dev) end
      → (record_next_in_sector lib st sd true r dev).0 ≡ enoent
  unfolding record_next_in_sector next_loop
  stops_at sd dev s from size end r works exists other past at filled =
      rw (past, next_loop, round_ends sd dev s from size end works exists other at filled) refl

  -- The data that are wanted, and the room that they take.
  abbrev pub kept : (List ℕ → Bool) → List (List ℕ) → List (List ℕ)
  kept wanted [] = []
  kept wanted (x ∷ olds) = if wanted x then x ∷ kept wanted olds else kept wanted olds

  abbrev pub rooms : List (List ℕ) → ℕ
  rooms [] = 0
  rooms (x ∷ xs) = room lib st 0 x + rooms xs

  -- A walk has come to record `loc` of a sector.
  abbrev pub at_record : ℕ → ℕ → ℕ → Record
  at_record s loc size = record { bound = true; sector = s; loc = loc; size = size }

  move_retry-once :
      (n : ℕ) (cb : World S → Record → Bool) (r : Record) (w w' : World S)
      → move_record lib st (some cb) r w ≡ (ok, w')
      → move_retry lib st (suc n) (some cb) r w ≡ (ok, w')
  unfolding move_retry
  move_retry-once n cb r w w' e = rw e refl

  unwanted :
      (cb : World S → Record → Bool) (r : Record) (w : World S)
      → cb w r ≡ false
      → move_record lib st (some cb) r w ≡ (ok, w)
  unfolding move_record
  unwanted cb r w e = rw e refl

  -- The write sector counts on where it is written, and the count that the walk looks for in the
  -- old sector with it.
  expected-loc :
      (sd : StoreData) (s old k : ℕ)
      → expected_wrapcnt sd s true old ≡ sd.wrapcnt
      → expected_wrapcnt (record sd { loc = k }) s true old ≡ sd.wrapcnt
  unfolding expected_wrapcnt
  expected-loc sd s old k e = e

  any_handle : Handle
  any_handle = record { has_store = true; has_data = true; has_area = true }

  any_valid : store_valid any_handle ≡ true
  unfolding any_handle store_valid
  any_valid = refl

  module _ (old s end : ℕ) (exists : s < st.sector_cnt) (wanted : List ℕ → Bool)
      (cb : World S → Record → Bool)
      (decides : (w : World S) (loc : ℕ) (bytes : List ℕ)
        → IsStored lib st laws old s (view w.dev) loc bytes
        → cb w (at_record s loc (length bytes)) ≡ wanted bytes) where
    -- The store as if it wrote in the old sector.
    abbrev as_writer : World S → World S
    as_writer w = record w { sd = record w.sd { sector = s; loc = 0; wrapcnt = old } }

    as_writer-IsPosition : (w : World S) → IsPosition st (as_writer w).sd
    as_writer-IsPosition w = record {
      exists = exists;
      on_unit = zero-mod ws;
      in_bounds = omega arith;
    }

    goes_past :
        (w : World S) (loc size : ℕ)
        → Inv w.dev
        → log_start st.sector_cookie ws ≤ loc
        → skip_cookie st.sector_cookie ws (at_record s loc size) ≡ at_record s loc size
    goes_past w loc size works =
        past_cookie lib st view Inv laws medium laid any_handle any_valid (as_writer w) works
          (as_writer-IsPosition w) loc size

    goes_behind :
        (w : World S) (loc : ℕ) (x : List ℕ)
        → Inv w.dev
        → loc % ws ≡ 0
        → IsStored lib st laws old s (view w.dev) loc x
        → next_pos lib st (at_record s loc (length x)) ≡ loc + room lib st old x
    goes_behind w loc x works unit stored =
        next_pos-record lib st view Inv laws medium laid any_handle any_valid (as_writer w) works
          (as_writer-IsPosition w) loc x unit stored.some_data stored.short stored.fits

    -- One record of the old sector.
    record IsOneMoved (x : List ℕ) (loc : ℕ) (w : World S) (log : List (List ℕ)) (w' : World S)
        : Type 0 where
      ran : move_record lib st (some cb) (at_record s loc (length x)) w ≡ (ok, w')
      grown : IsLog lib st laws view Inv w' (log ++ kept wanted (x ∷ []))
      sd : w'.sd ≡ record w.sd { loc = w.sd.loc + rooms (kept wanted (x ∷ [])) }
      same : SameSector st s (view w.dev) (view w'.dev)

    one_moved :
        (x : List ℕ) (loc : ℕ) (w : World S) (log : List (List ℕ))
        → IsLog lib st laws view Inv w log
        → s ≢ w.sd.sector
        → loc % ws ≡ 0
        → IsStored lib st laws old s (view w.dev) loc x
        → w.sd.loc + rooms (kept wanted (x ∷ [])) < st.sector_size
        → (w' : World S) × IsOneMoved x loc w log w'
    one_moved x loc w log is_log other unit stored fits = elim (Bool-cases (wanted x)) [
      | inr drop ↦ (
        w,
        record {
          ran = unwanted cb (at_record s loc (length x)) w (decides w loc x stored ∙ drop);
          grown = rw drop (subst (IsLog lib st laws view Inv w) (sym (append-nil log)) is_log);
          sd = rw drop (ap (λ k. record w.sd { loc = k }) (omega arith));
          same = λ b low high. refl;
        },
      )
      | inl want ↦
          let up = room_lem lib st old x laws laid.unit stored.short in
          let all : rooms (kept wanted (x ∷ [])) ≡ room lib st old x = rw want (omega arith) in
          let (w', ran, grown, sd, same) =
            move_lem lib st view Inv laws medium laid w log is_log s loc old x exists other unit
              stored (omega (arith, fits, all, up.above)) cb (decides w loc x stored ∙ want) in
          (
            w',
            record {
              ran = ran;
              grown = rw want grown;
              sd = sd ∙ ap (λ k. record w.sd { loc = w.sd.loc + k }) (sym all);
              same = same s other;
            },
          )
    ]

    kept-cons :
        (x : List ℕ) (olds : List (List ℕ))
        → kept wanted (x ∷ olds) ≡ kept wanted (x ∷ []) ++ kept wanted olds
    kept-cons x olds = elim (Bool-cases (wanted x)) [
      | inl want ↦ rw want refl
      | inr drop ↦ rw drop refl
    ]

    rooms-append : (xs ys : List (List ℕ)) → rooms (xs ++ ys) ≡ rooms xs + rooms ys
    rooms-append [] ys = omega arith
    rooms-append (x ∷ xs) ys = omega (arith, rooms-append xs ys)

    -- The rest of the loop, from a record that the walk has come to.
    move_rest :
        (olds : List (List ℕ)) (fuel loc from size : ℕ) (r : Record) (w : World S)
        (log : List (List ℕ))
        → length olds < fuel
        → IsLog lib st laws view Inv w log
        → s ≢ w.sd.sector
        → expected_wrapcnt w.sd s true old ≡ w.sd.wrapcnt
        → loc % ws ≡ 0
        → log_start st.sector_cookie ws ≤ loc
        → skip_cookie st.sector_cookie ws r ≡ at_record s from size
        → next_pos lib st (at_record s from size) ≡ loc
        → IsChain lib st laws old s (view w.dev) loc olds end
        → IsFilled s (view w.dev) end
        → w.sd.loc + rooms (kept wanted olds) < st.sector_size
        → (w' : World S) × (move_sector lib st fuel ok (some cb) r w ≡ (ok, w'))
          × IsLog lib st laws view Inv w' (log ++ kept wanted olds)
          × (w'.sd ≡ record w.sd { loc = w.sd.loc + rooms (kept wanted olds) })
    unfolding move_sector
    move_rest olds zero loc from size r w log f is_log other fresh unit behind past at chain filled
          fits =
        absurd (omega arith)
    move_rest [] (suc fuel) loc from size r w log f is_log other fresh unit behind past at chain
          filled fits =
        let out =
          stops_at w.sd w.dev s from size end r is_log.works exists (λ e. other (sym e)) past
            (at ∙ chain) filled in
        (
          w,
          rw out refl,
          subst (IsLog lib st laws view Inv w) (sym (append-nil log)) is_log,
          ap (λ k. record w.sd { loc = k }) (omega arith),
        )
    move_rest (x ∷ olds) (suc fuel) loc from size r w log f is_log other fresh unit behind past at
          chain filled fits =
        let stored = chain.0 in
        let up = room_lem lib st old x laws laid.unit stored.short in
        let sum = rooms-append (kept wanted (x ∷ [])) (kept wanted olds) in
        let split : rooms (kept wanted (x ∷ olds))
            ≡ rooms (kept wanted (x ∷ [])) + rooms (kept wanted olds) =
          ap rooms (kept-cons x olds) ∙ sum in
        let find =
          finds lib st view Inv laws medium laid w.dev is_log.works old s loc x exists stored.short
            stored.fits stored.holds w.sd true true from size stored.some_data at
            (inl (λ e. other (sym e))) fresh r past in
        let (v, one) =
          one_moved x loc w log is_log other unit stored (omega (arith, fits, split)) in
        let once = move_retry-once st.sector_cnt cb (at_record s loc (length x)) w v one.ran in
        let (w', ran, longer, sd) =
          move_rest olds fuel (loc + room lib st old x) loc (length x) (at_record s loc (length x))
            v (log ++ kept wanted (x ∷ [])) (omega arith) one.grown
            (λ e. other (e ∙ ap (λ (d : StoreData). d.sector) one.sd))
            (subst (λ (d : StoreData). expected_wrapcnt d s true old ≡ d.wrapcnt) (sym one.sd)
              (expected-loc w.sd s old _ fresh))
            (multiple_add ws loc (room lib st old x) unit up.multiple) (omega arith)
            (goes_past w loc (length x) is_log.works behind)
            (goes_behind w loc x is_log.works unit stored)
            (IsChain-same old s (view w.dev) (view v.dev) olds _ end one.same chain.1)
            (IsFilled-same s (view w.dev) (view v.dev) end one.same filled)
            (omega (arith, fits, split, ap (λ (d : StoreData). d.loc) one.sd)) in
        (
          w',
          rw (find, once) ran,
          subst (IsLog lib st laws view Inv w')
              (append_assoc log (kept wanted (x ∷ [])) (kept wanted olds)
                ∙ ap (λ l. log ++ l) (sym (kept-cons x olds)))
              longer,
          sd ∙ sd_join v.sd w.sd _ _ _ one.sd split,
        )

    -- On a device that works, where the write sector holds a log of records, and another sector
    -- holds records one behind the other from its start, with the wrap count that the walk looks for
    -- there, up to its end or to bytes of 255: where the callback answers by the data of a record,
    -- and the records that it wants fit the write sector and leave at least a byte of it free, the
    -- loop of a compaction over that sector ends in one round more than the sector has records, with
    -- success. The log then ends with the data of exactly the wanted records, in their order, and
    -- the write position has moved by the room of these records.
    pub move_sector-IsLog :
        (olds log : List (List ℕ)) (fuel : ℕ) (w : World S)
        → length olds < fuel
        → IsLog lib st laws view Inv w log
        → s ≢ w.sd.sector
        → expected_wrapcnt w.sd s true old ≡ w.sd.wrapcnt
        → IsChain lib st laws old s (view w.dev) (log_start st.sector_cookie ws) olds end
        → IsFilled s (view w.dev) end
        → w.sd.loc + rooms (kept wanted olds) < st.sector_size
        → (w' : World S) × (move_sector lib st fuel ok (some cb) (at_record s 0 0) w ≡ (ok, w'))
          × IsLog lib st laws view Inv w' (log ++ kept wanted olds)
          × (w'.sd ≡ record w.sd { loc = w.sd.loc + rooms (kept wanted olds) })
    unfolding next_pos
    move_sector-IsLog olds log fuel w f is_log other fresh chain filled fits =
        move_rest olds fuel (log_start st.sector_cookie ws) (log_start st.sector_cookie ws) 0
          (at_record s 0 0) w log f is_log other fresh
          (log_start-unit lib st view Inv laws medium laid any_handle any_valid (as_writer w)
            is_log.works (as_writer-IsPosition w))
          (omega arith) (skip_cookie-log_start st.sector_cookie ws true s 0) refl chain filled fits
