-- ===== src/Store/Read/Ends.antt =====
-- The walk over the sectors of a store ends, whatever the bytes on the area and whatever its driver
-- does, and each record that it finds stands nearer to the write position.
use native.Mathlib.Nat.{mod-lt}
use zephyr_goodies.Base.{
  ℕ, zero, suc, ◌+◌, ◌-◌, ◌≤◌, ◌<◌, ◌≡◌, ◌≢◌, refl, ap, ◌∙◌, subst, ◌⊎◌, inl, inr, Bool, true,
  false, not, Option, none, some, List, ◌==◌, leb, if◌then◌else◌, Bool-cases, ==_false→ne, length,
  arith,
}
use zephyr_goodies.Errno.{Rc, ok, enoent, is_enoent}
use zephyr_goodies.Size.{size_mod, size_add}
use zephyr_goodies.Medium.{area_size}
use zephyr_goodies.Store.{
  Platform, Store, StoreData, World, Record, Handle, store_valid, sas_hdrsize,
}
use zephyr_goodies.Store.Sectors.Round.{sector_advance-eq-mod}
use zephyr_goodies.Store.Sectors.{sector_advance}
use zephyr_goodies.Store.Layout.{IsLaidOut, sector_inside}
use zephyr_goodies.Store.Walk.{
  Round, leave, again, round, next_loop, skip_cookie, record_next_in_sector,
}
use zephyr_goodies.Store.Walk.Ends.{
  IsRoomy, IsPlaced, IsFound, in_sector, record_next_in_sector_ends,
}
use zephyr_goodies.Store.Read.{next_sectors, first_record, storage_area_record_next}

-- The number of steps to the write sector, round the store.
abbrev pub distance : ℕ → ℕ → ℕ → ℕ
distance cnt target sector = if leb sector target then target - sector else target + cnt - sector

distance-step :
    (cnt target sector : ℕ)
    → cnt < size_mod
    → target < cnt
    → sector < cnt
    → sector ≢ target
    → (sector_advance cnt sector 1 < cnt)
      × (suc (distance cnt target (sector_advance cnt sector 1)) ≡ distance cnt target sector)
unfolding sector_advance
distance-step cnt target sector small t s ne = ground arith

module _ {S : Type 0} (lib : Platform) (st : Store S) where
  -- The walk over a sector stays in it, and in the store.
  abbrev Stays : Record → Record → Type 0
  Stays r r' = (r'.sector ≡ r.sector) × (r'.bound ≡ r.bound)

  round-Stays :
      (sd : StoreData) (wrapcheck check_crc : Bool) (r : Record) (dev : S) (rc : Rc) (r' : Record)
      → round lib st sd wrapcheck check_crc r dev ≡ leave rc r'
      → Stays r r'
  unfolding round
  round-Stays sd wrapcheck check_crc r dev rc r' e = ground arith

  next_loop-Stays :
      (fuel : ℕ) (sd : StoreData) (wrapcheck check_crc : Bool) (r : Record) (dev : S)
      → Stays r (next_loop lib st fuel sd wrapcheck check_crc r dev).1
  unfolding next_loop
  next_loop-Stays zero sd wrapcheck check_crc r dev = (refl, refl)
  next_loop-Stays (suc fuel) sd wrapcheck check_crc r dev =
      go (round lib st sd wrapcheck check_crc r dev) refl
        (next_loop-Stays fuel sd wrapcheck true on dev)
    where
      on : Record
      on = record r { loc = size_add r.loc st.area.geometry.write_size; size = 0 }

      go :
          (x : Round)
          → round lib st sd wrapcheck check_crc r dev ≡ x
          → Stays r (next_loop lib st fuel sd wrapcheck true on dev).1
          → Stays r (next_loop lib st (suc fuel) sd wrapcheck check_crc r dev).1
      go (leave rc r') e ih = rw (e, next_loop) (round-Stays sd wrapcheck check_crc r dev rc r' e)
      go again e ih = rw (e, next_loop) ih

  skip_cookie-Stays :
      (o : Option (List ℕ)) (align : ℕ) (r : Record) → Stays r (skip_cookie o align r)
  unfolding skip_cookie
  skip_cookie-Stays none align r = (refl, refl)
  skip_cookie-Stays (some c) align r = ground arith

  record_next_in_sector-Stays :
      (sd : StoreData) (wrapcheck : Bool) (r : Record) (dev : S)
      → Stays r (record_next_in_sector lib st sd wrapcheck r dev).1
  unfolding record_next_in_sector
  record_next_in_sector-Stays sd wrapcheck r dev =
      let a =
        next_loop-Stays (suc (suc (area_size st.area.geometry))) sd wrapcheck false
          (skip_cookie st.sector_cookie st.area.geometry.write_size r) dev in
      let b = skip_cookie-Stays st.sector_cookie st.area.geometry.write_size r in
      (a.0 ∙ b.0, a.1 ∙ b.1)

  next_sectors-bound :
      (fuel : ℕ) (r : Record) (w : World S) → (next_sectors lib st fuel r w).1.bound ≡ r.bound
  unfolding next_sectors
  next_sectors-bound zero r w = refl
  next_sectors-bound (suc fuel) r w =
      let out = record_next_in_sector lib st w.sd true r w.dev in
      let here = (record_next_in_sector-Stays w.sd true r w.dev).1 in
      let on : Record = record {
        bound = out.1.bound;
        sector = sector_advance st.sector_cnt out.1.sector 1;
        loc = 0;
        size = 0;
      } in
      let rest = next_sectors-bound fuel on w in
      elim (Bool-cases (is_enoent out.0)) [
        | inr other ↦ rw other here
        | inl none_left ↦ rw none_left (elim (Bool-cases (out.1.sector == w.sd.sector)) [
          | inl last ↦ rw last here
          | inr more ↦ rw more (rest ∙ here)
        ])
      ]

  -- A record from which the walk can go on.
  pub record IsOnWay (r : Record) : Type 0 where
    pub exists : r.sector < st.sector_cnt
    pub placed : IsPlaced st r.sector r

  -- What a walk from `r` towards a write sector returns: a record further on, with a size, whose
  -- header lies in the area.
  pub record IsNext (target : ℕ) (r : Record) (out : Rc × Record) : Type 0 where
    pub done : out.0 ≡ ok
    pub on_way : IsOnWay out.1
    pub filled : 0 < out.1.size
    pub inside : in_sector st out.1.sector out.1.loc + sas_hdrsize ≤ area_size st.area.geometry
    pub nearer :
        (distance st.sector_cnt target out.1.sector < distance st.sector_cnt target r.sector)
        ⊎ ((out.1.sector ≡ r.sector) × (r.loc ≤ out.1.loc) × (r.size ≢ 0 → r.loc < out.1.loc))

  module _ (roomy : IsRoomy lib st) (laid : IsLaidOut st) (counted : st.sector_cnt < size_mod)
      (w : World S) (exists : w.sd.sector < st.sector_cnt) where
    abbrev steps : ℕ → ℕ
    steps = distance st.sector_cnt w.sd.sector

    cookie_small : (c : List ℕ) → st.sector_cookie ≡ some c → length c ≤ st.sector_size
    cookie_small c e = omega (arith, laid.cookie_fits c e)

    one_sector :
        (r : Record)
        → IsOnWay r
        → IsFound st r.sector r (record_next_in_sector lib st w.sd true r w.dev)
          ⊎ ((record_next_in_sector lib st w.sd true r w.dev).0 ≡ enoent)
    one_sector r o =
        record_next_in_sector_ends lib st w.sd true w.dev r.sector roomy cookie_small
          (sector_inside st laid r.sector o.exists) r o.placed

    found-IsNext :
        (r : Record) (out : Rc × Record)
        → IsOnWay r
        → IsFound st r.sector r out
        → IsNext w.sd.sector r out
    found-IsNext r out o f =
        let e = f.placed.here in
        let at : in_sector st out.1.sector out.1.loc ≡ in_sector st r.sector out.1.loc =
          ap (λ k. in_sector st k out.1.loc) e in
        record {
          done = f.done;
          on_way = record {
            exists = omega (arith, e, o.exists);
            placed = record {
              here = refl;
              near = omega (arith, at, f.placed.near);
              short = f.placed.short;
            };
          };
          filled = f.filled;
          inside = omega (arith, at, f.inside);
          nearer = inr (e, f.further, f.behind);
        }

    -- The record that the walk goes on with in a sector.
    abbrev start_of : Bool → ℕ → Record
    start_of bound sector = record { bound = bound; sector = sector; loc = 0; size = 0 }

    start_of-IsOnWay :
        (bound : Bool) (sector : ℕ) → sector < st.sector_cnt → IsOnWay (start_of bound sector)
    start_of-IsOnWay bound sector h = record {
      exists = h;
      placed = record {
        here = refl;
        near = omega (arith, sector_inside st laid sector h);
        short = omega arith;
      };
    }

    -- What is found from the start of the next sector is found from this one.
    later :
        (r : Record) (bound : Bool) (sector : ℕ) (out : Rc × Record)
        → suc (steps sector) ≡ steps r.sector
        → IsNext w.sd.sector (start_of bound sector) out
        → IsNext w.sd.sector r out
    later r bound sector out e n = record {
      done = n.done;
      on_way = n.on_way;
      filled = n.filled;
      inside = n.inside;
      nearer = inl (elim n.nearer [
        | inl near ↦ omega (arith, near, e)
        | inr same ↦ omega (arith, ap steps (same.0), e)
      ]);
    }

    next_sectors_lem :
        (fuel : ℕ) (r : Record)
        → IsOnWay r
        → steps r.sector < fuel
        → IsNext w.sd.sector r (next_sectors lib st fuel r w)
          ⊎ ((next_sectors lib st fuel r w).0 ≡ enoent)
    unfolding next_sectors
    next_sectors_lem zero r o h = elim h [ ]
    next_sectors_lem (suc fuel) r o h = elim (one_sector r o) [
      | inl f ↦
          let n = found-IsNext r (record_next_in_sector lib st w.sd true r w.dev) o f in
          inl (subst (IsNext w.sd.sector r) (keeps f.done) n)
      | inr e ↦
          let r' = (record_next_in_sector lib st w.sd true r w.dev).1 in
          let here = (record_next_in_sector-Stays w.sd true r w.dev).0 in
          elim (Bool-cases (r'.sector == w.sd.sector)) [
            | inl last ↦ inr (rw (e, last) refl)
            | inr more ↦
                let ne = ==_false→ne r'.sector w.sd.sector more in
                let step =
                  distance-step st.sector_cnt w.sd.sector r'.sector counted exists
                    (omega (arith, here, o.exists)) ne in
                let next = sector_advance st.sector_cnt r'.sector 1 in
                let d : suc (steps next) ≡ steps r.sector = step.1 ∙ ap steps here in
                rw (e, more)
                  (elim (next_sectors_lem fuel (start_of r'.bound next)
                    (start_of-IsOnWay r'.bound next (step.0)) (omega (arith, d))) [
                      | inl n ↦ inl (
                          later r r'.bound next
                            (next_sectors lib st fuel (start_of r'.bound next) w) d n)
                      | inr none_left ↦ inr none_left
                    ])
          ]
    ]
      where
        keeps :
            (record_next_in_sector lib st w.sd true r w.dev).0 ≡ ok
            → record_next_in_sector lib st w.sd true r w.dev ≡ next_sectors lib st (suc fuel) r w
        keeps e = rw (next_sectors, e) refl

    first_record-IsOnWay : IsOnWay (first_record lib st w)
    unfolding first_record
    first_record-IsOnWay =
        let n = size_add st.spare_sectors 1 in
        let e = sector_advance-eq-mod st.sector_cnt counted w.sd.sector n exists in
        start_of-IsOnWay true (sector_advance st.sector_cnt w.sd.sector n)
          (rw e (mod-lt (w.sd.sector + n) (omega arith)))

    -- Where `storage_area_record_next` goes on from: a record that is not bound starts the walk.
    abbrev pub origin : Record → Record
    origin r = if not r.bound then first_record lib st w else r

    choice :
        (P : Record → Type 0) (b : Bool) (r : Record)
        → P (first_record lib st w)
        → (b ≡ true → P r)
        → P (if not b then first_record lib st w else r)
    choice P true r fresh bound = bound refl
    choice P false r fresh bound = fresh

    origin-IsOnWay : (r : Record) → (r.bound ≡ true → IsOnWay r) → IsOnWay (origin r)
    origin-IsOnWay r on_way = choice IsOnWay r.bound r first_record-IsOnWay on_way

    first_record-bound : (first_record lib st w).bound ≡ true
    unfolding first_record
    first_record-bound = refl

    origin-bound : (r : Record) → (origin r).bound ≡ true
    origin-bound r = choice (λ k. k.bound ≡ true) r.bound r first_record-bound (λ e. e)

    steps-bound : (sector : ℕ) → sector < st.sector_cnt → steps sector < suc st.sector_cnt
    steps-bound sector h = ground arith

    pub storage_area_record_next_ends :
        (h : Handle) (r : Record)
        → store_valid h ≡ true
        → (r.bound ≡ true → IsOnWay r)
        → let out = storage_area_record_next lib st h r w in
          (IsNext w.sd.sector (origin r) out × (out.1.bound ≡ true)) ⊎ (out.0 ≡ enoent)
    unfolding storage_area_record_next
    storage_area_record_next_ends h r valid on_way =
        let bound = next_sectors-bound (suc st.sector_cnt) (origin r) w in
        let start = origin-IsOnWay r on_way in
        let near = steps-bound (origin r).sector start.exists in
        rw valid (elim (next_sectors_lem (suc st.sector_cnt) (origin r) start near) [
          | inl n ↦ inl (n, bound ∙ origin-bound r)
          | inr none_left ↦ inr none_left
        ])
