-- ===== src/Store/Walk/Ends.antt =====
-- The walk over a sector ends, whatever the bytes on the area and whatever its driver does.
use native.Mathlib.Nat.{mod-eq_of_lt}
use zephyr_goodies.Base.{
  ℕ, zero, suc, ◌+◌, ◌*◌, ◌^◌, ◌≤◌, ◌<◌, ◌≡◌, ◌≢◌, refl, sym, ap, ◌∙◌, ◌⊎◌, inl, inr, Bool, true,
  false, ◌&&◌, ◌||◌, not, Option, none, some, List, [], ◌∷◌, ◌==◌, leb, Bool-cases, ==→eq, leb→le,
  leb_false→lt, length, get_or, drop, arith,
}
use zephyr_goodies.Errno.{Rc, ok, enoent, is_ok}
use zephyr_goodies.Size.{size_mod, size_add, align_up, IsPow2}
use zephyr_goodies.Size.Align.{IsAlignUp, align_up-IsAlignUp, pow2_bounds}
use zephyr_goodies.Area.{readv}
use zephyr_goodies.Area.Checks.{readv_outside}
use zephyr_goodies.Medium.{area_size}
use zephyr_goodies.Store.{
  Platform, Store, StoreData, Record, sas_fillval, sas_hdrsize, sector_pos, record_len,
}
use zephyr_goodies.Store.Check.{record_valid}
use zephyr_goodies.Store.Walk.{
  Round, leave, again, round, next_pos, header_ok, next_loop, skip_cookie, record_next_in_sector,
}

and_left : (a b : Bool) → (a && b) ≡ true → a ≡ true
and_left a b h = ground arith

clash : true ≡ false → ⊥
clash e = cc

-- No position of a walk wraps: the largest is a record of 64 KiB and two write units behind the end
-- of the area.
pub record IsRoomy {S : Type 0} (lib : Platform) (st : Store S) : Type 0 where
  pub unit : IsPow2 st.area.geometry.write_size
  pub bits16 : (l : List ℕ) → lib.get_le16 l < 2 ^ 16
  pub room : area_size st.area.geometry + 2 * st.area.geometry.write_size + (2 ^ 16 + 8) < size_mod

-- Where a position of a sector lies in the area.
abbrev pub in_sector : {S : Type 0} → Store S → ℕ → ℕ → ℕ
in_sector st sector loc = sector * st.sector_size + loc

module _ {S : Type 0} (st : Store S) (sector : ℕ) where
  -- A record of the sector, near enough that no position behind it wraps.
  pub record IsPlaced (r : Record) : Type 0 where
    pub here : r.sector ≡ sector
    pub near : in_sector st sector r.loc ≤ area_size st.area.geometry + st.area.geometry.write_size
    pub short : r.size < 2 ^ 16

  -- What a walk from `r` returns: a record further on, with a size, whose header lies in the area.
  pub record IsFound (r : Record) (out : Rc × Record) : Type 0 where
    pub done : out.0 ≡ ok
    pub placed : IsPlaced out.1
    pub filled : 0 < out.1.size
    pub inside : in_sector st sector out.1.loc + sas_hdrsize ≤ area_size st.area.geometry
    pub further : r.loc ≤ out.1.loc
    pub behind : r.size ≢ 0 → r.loc < out.1.loc

module _ {S : Type 0} (lib : Platform) (st : Store S) (sd : StoreData) (wrapcheck : Bool) (dev : S)
    (sector : ℕ) (roomy : IsRoomy lib st) where
  abbrev at : ℕ → ℕ
  at loc = in_sector st sector loc

  next_pos_lem :
      (r : Record)
      → IsPlaced st sector r
      → (r.loc ≤ next_pos lib st r)
        × (r.size ≢ 0 → r.loc < next_pos lib st r)
        × (at (next_pos lib st r) < size_mod)
  unfolding next_pos
  next_pos_lem r p = elim (Bool-cases (r.size == 0)) [
    | inl e ↦
        rw e (omega arith, λ h. absurd (h (==→eq r.size 0 e)), omega (arith, roomy.room, p.near))
    | inr e ↦
        let ws = st.area.geometry.write_size in
        let sum : size_add r.loc (record_len r.size) ≡ r.loc + r.size + 8 =
          omega (arith, roomy.room, p.near, p.short) in
        let a : IsAlignUp (r.loc + r.size + 8) ws (align_up (r.loc + r.size + 8) ws) =
          align_up-IsAlignUp (r.loc + r.size + 8) ws roomy.unit
            (omega (arith, roomy.room, p.near, p.short)) in
        rw (e, sum)
          (
            omega (arith, a.above),
            λ _. omega (arith, a.above),
            omega (arith, a.close, roomy.room, p.near, p.short),
          )
  ]

  -- One round either ends the walk or reads inside the area.
  header_inside :
      (r : Record)
      → IsPlaced st sector r
      → is_ok
          (readv
            (some st.area)
            (size_add (sector_pos st r.sector) (next_pos lib st r))
            (sas_hdrsize ∷ [])
            dev).0
        ≡ true
      → at (next_pos lib st r) + sas_hdrsize ≤ area_size st.area.geometry
  header_inside r p h =
      let n = next_pos_lem r p in
      let e : sector_pos st r.sector ≡ sector * st.sector_size =
        ap (λ k. sector_pos st k) p.here ∙ mod-eq_of_lt (omega (arith, n.2)) in
      let f : size_add (sector_pos st r.sector) (next_pos lib st r) ≡ at (next_pos lib st r) =
        ap (λ k. size_add k (next_pos lib st r)) e ∙ mod-eq_of_lt (n.2) in
      elim (Bool-cases (leb (at (next_pos lib st r) + 4) (area_size st.area.geometry))) [
        | inl le ↦ leb→le _ _ le
        | inr gt ↦ absurd (
            clash (
              sym h
              ∙ ap (λ k. is_ok (readv (some st.area) k (sas_hdrsize ∷ []) dev).0) f
              ∙ readv_outside st.area (at (next_pos lib st r)) (sas_hdrsize ∷ []) dev
                  (omega (arith, roomy.room)) (omega arith)
                  (let g = leb_false→lt _ _ gt in omega (arith, g))))
      ]

  -- What a round makes of a record.
  abbrev RoundOf : Record → Round → Type 0
  RoundOf r (leave rc r') = IsFound st sector r (rc, r') ⊎ (rc ≡ enoent)
  RoundOf r again = at (next_pos lib st r) + sas_hdrsize ≤ area_size st.area.geometry

  found_lem :
      (r : Record) (wc : Bool) (rdpos : ℕ) (header : List ℕ)
      → IsPlaced st sector r
      → rdpos ≡ next_pos lib st r
      → at (next_pos lib st r) + sas_hdrsize ≤ area_size st.area.geometry
      → header_ok lib st sd r wc rdpos header ≡ true
      → IsFound st sector r (ok, record r { loc = rdpos; size = lib.get_le16 (drop 2 header) })
  unfolding header_ok
  found_lem r wc rdpos header p e inside h = record {
    done = refl;
    placed = record { here = p.here; near = omega arith; short = roomy.bits16 (drop 2 header) };
    filled = ground arith;
    inside = omega arith;
    further = omega (arith, next_pos_lem r p);
    behind = λ ne. rw e ((next_pos_lem r p).1 ne);
  }

  round_lem :
      (check_crc : Bool) (r : Record)
      → IsPlaced st sector r
      → RoundOf r (round lib st sd wrapcheck check_crc r dev)
  unfolding round
  round_lem check_crc r p = elim (Bool-cases stop) [
    | inl e ↦ rw e (inr refl)
    | inr e ↦ rw e (elim (Bool-cases (is_ok got.0)) [
      | inr bad ↦ rw bad (inr refl)
      | inl good ↦ rw good (elim (Bool-cases (get_or got.1 0 0 == sas_fillval)) [
        | inl fill ↦ rw fill (inr refl)
        | inr not_fill ↦ rw not_fill (elim (Bool-cases hit) [
          | inl yes_hit ↦ rw yes_hit (
              inl (
                found_lem r wrapcheck rdpos got.1 p refl (header_inside r p good)
                  (and_left _ _ yes_hit)))
          | inr no_hit ↦ rw no_hit (header_inside r p good)
        ])
      ])
    ])
  ]
    where
      rdpos : ℕ
      rdpos = next_pos lib st r

      stop : Bool
      stop = sd.sector == r.sector && leb sd.loc rdpos || rdpos == st.sector_size

      got : Rc × List ℕ
      got = readv (some st.area) (size_add (sector_pos st r.sector) rdpos) (sas_hdrsize ∷ []) dev

      hit : Bool
      hit =
          header_ok lib st sd r wrapcheck rdpos got.1
          && (not check_crc
              || record_valid lib st (record r { loc = rdpos; size = lib.get_le16 (drop 2 got.1) })
                  dev)

  -- With a round for each byte that is left, the loop ends by one of its own exits.
  pub next_loop_lem :
      (fuel : ℕ) (check_crc : Bool) (r : Record)
      → 0 < fuel
      → area_size st.area.geometry < fuel + at r.loc
      → IsPlaced st sector r
      → IsFound st sector r (next_loop lib st fuel sd wrapcheck check_crc r dev)
        ⊎ ((next_loop lib st fuel sd wrapcheck check_crc r dev).0 ≡ enoent)
  unfolding next_loop
  next_loop_lem zero check_crc r pos h p = elim pos [ ]
  next_loop_lem (suc fuel) check_crc r pos h p =
      go (round lib st sd wrapcheck check_crc r dev) refl (round_lem check_crc r p)
        (next_loop_lem fuel true r')
    where
      ws : ℕ
      ws = st.area.geometry.write_size

      r' : Record
      r' = record r { loc = size_add r.loc ws; size = 0 }

      out : Rc × Record
      out = next_loop lib st fuel sd wrapcheck true r' dev

      result : Rc × Record
      result = next_loop lib st (suc fuel) sd wrapcheck check_crc r dev

      on :
          at (next_pos lib st r) + sas_hdrsize ≤ area_size st.area.geometry
          → size_add r.loc ws ≡ r.loc + ws
      on inside = omega (arith, next_pos_lem r p, roomy.room)

      go :
          (x : Round)
          → round lib st sd wrapcheck check_crc r dev ≡ x
          → RoundOf r x
          → (0 < fuel
              → area_size st.area.geometry < fuel + at r'.loc
              → IsPlaced st sector r'
              → IsFound st sector r' out ⊎ (out.0 ≡ enoent))
          → IsFound st sector r result ⊎ (result.0 ≡ enoent)
      go (leave rc left) e h' ih = rw (e, next_loop) h'
      go again e inside ih =
          let q : size_add r.loc ws ≡ r.loc + ws = on inside in
          let n = next_pos_lem r p in
          let w = pow2_bounds ws roomy.unit in
          rw (e, next_loop)
            (elim (ih (omega arith) (omega (arith, n))
              (record { here = p.here; near = omega (arith, n); short = omega arith })) [
                | inl f ↦ inl (record {
                  done = f.done;
                  placed = f.placed;
                  filled = f.filled;
                  inside = f.inside;
                  further = omega (arith, f.further);
                  behind = λ ne. omega (arith, f.further);
                })
                | inr f ↦ inr f
              ])

  module _ (cookie_fits : (c : List ℕ) → st.sector_cookie ≡ some c → length c ≤ st.sector_size)
      (in_area : sector * st.sector_size + st.sector_size ≤ area_size st.area.geometry) where
    abbrev ws : ℕ
    ws = st.area.geometry.write_size

    cookie_end :
        (c : List ℕ)
        → length c ≤ st.sector_size
        → at (align_up (length c) st.area.geometry.write_size)
          ≤ area_size st.area.geometry + st.area.geometry.write_size
    cookie_end c h =
        let a =
          align_up-IsAlignUp (length c) st.area.geometry.write_size roomy.unit
            (omega (arith, roomy.room)) in
        omega (arith, a.close)

    skip_cookie_lem :
        (o : Option (List ℕ)) (r : Record)
        → st.sector_cookie ≡ o
        → IsPlaced st sector r
        → IsPlaced st sector (skip_cookie o ws r)
          × (r.loc ≤ (skip_cookie o ws r).loc)
          × ((skip_cookie o ws r).size ≡ r.size)
    unfolding skip_cookie
    skip_cookie_lem none r e p = (p, omega arith, refl)
    skip_cookie_lem (some c) r e p = elim (Bool-cases (r.loc == 0 && not (length c == 0))) [
      | inl first ↦ rw first (
        record { here = p.here; near = cookie_end c (cookie_fits c e); short = p.short },
        omega (arith, ==→eq r.loc 0 (and_left _ _ first)),
        refl,
      )
      | inr later ↦ rw later (p, omega arith, refl)
    ]

    -- In a sector that lies in the area, from a record that starts no more than a write unit behind
    -- the area, with a cookie that fits the sector and an area far enough below 4 GiB that no
    -- position wraps, whatever the driver returns and the bytes are: the walk ends with -ENOENT, or
    -- with a record that has a size, whose header lies in the area, and that does not stand before
    -- the record that the walk came from, and stands behind it if that one had a size.
    pub record_next_in_sector_ends :
        (r : Record)
        → IsPlaced st sector r
        → IsFound st sector r (record_next_in_sector lib st sd wrapcheck r dev)
          ⊎ ((record_next_in_sector lib st sd wrapcheck r dev).0 ≡ enoent)
    unfolding record_next_in_sector
    record_next_in_sector_ends r p =
        let k = skip_cookie_lem st.sector_cookie r refl p in
        elim (next_loop_lem (suc (suc (area_size st.area.geometry))) false
          (skip_cookie st.sector_cookie ws r) (omega arith) (omega arith) (k.0)) [
            | inl f ↦ inl (record {
              done = f.done;
              placed = f.placed;
              filled = f.filled;
              inside = f.inside;
              further = omega (arith, f.further);
              behind = λ ne. omega (arith, f.behind (λ z. ne (sym (k.2) ∙ z)));
            })
            | inr f ↦ inr f
          ]
