-- ===== src/Store/Layout.antt =====
-- Sectors that lie in the area, and write positions in a sector.
use native.Mathlib.Nat.{mod-eq_of_lt}
use zephyr_goodies.Base.{
  ℕ, ◌+◌, ◌*◌, ◌%◌, ◌≤◌, ◌<◌, ◌≡◌, ◌≢◌, inl, inr, sym, some, List, length, Memory, splice,
  splice_outside, ltb, ltb→lt, ltb_false→le, Bool-cases, arith,
}
use zephyr_goodies.Size.{size_mod, IsPow2}
use zephyr_goodies.Size.Align.{multiple_add, multiple_mul}
use zephyr_goodies.Medium.{area_size, mul_mono}
use zephyr_goodies.Store.{Store, StoreData, sector_pos}

-- What `store_config_valid` and the documentation of the store ask for.
pub record IsLaidOut {S : Type 0} (st : Store S) : Type 0 where
  pub unit : IsPow2 st.area.geometry.write_size
  pub aligned : st.sector_size % st.area.geometry.write_size ≡ 0
  pub fits : st.sector_cnt * st.sector_size ≤ area_size st.area.geometry
  pub small : area_size st.area.geometry < size_mod
  pub headroom : area_size st.area.geometry + st.area.geometry.write_size ≤ size_mod
  pub skip_small : st.crc_skip < size_mod
  pub cookie_fits :
      (c : List ℕ)
      → st.sector_cookie ≡ some c
      → length c + st.area.geometry.write_size ≤ st.sector_size

-- The write position stands on a write unit of a sector.
pub record IsPosition {S : Type 0} (st : Store S) (sd : StoreData) : Type 0 where
  pub exists : sd.sector < st.sector_cnt
  pub on_unit : sd.loc % st.area.geometry.write_size ≡ 0
  pub in_bounds : sd.loc ≤ st.sector_size

module _ {S : Type 0} (st : Store S) (laid : IsLaidOut st) (sector : ℕ)
    (h : sector < st.sector_cnt) where
  pub sector_inside : sector * st.sector_size + st.sector_size ≤ area_size st.area.geometry
  sector_inside =
      omega (arith, mul_mono (sector + 1) st.sector_cnt st.sector_size (omega arith), laid.fits)

  -- The position of a sector does not wrap.
  pub sector_pos-eq-mul : sector_pos st sector ≡ sector * st.sector_size
  sector_pos-eq-mul =
      mod-eq_of_lt
        (omega (arith, sector_inside, laid.small, lift sector st.sector_size st.sector_cnt h))
    where
      lift : (a b c : ℕ) → a < c → a * b ≤ c * b
      lift a b c k = mul_mono a c b (omega arith)

  -- A write unit of a sector is a write unit of the area.
  pub in_sector-unit :
      (loc : ℕ)
      → loc % st.area.geometry.write_size ≡ 0
      → (sector * st.sector_size + loc) % st.area.geometry.write_size ≡ 0
  in_sector-unit loc unit =
      let ws = st.area.geometry.write_size in
      multiple_add ws (sector * st.sector_size) loc
        (multiple_mul ws st.sector_size sector laid.aligned) unit

-- The memories are the same in a sector.
abbrev pub SameSector : {S : Type 0} → Store S → ℕ → Memory → Memory → Type 0
SameSector st s m m' =
    (b : ℕ) → s * st.sector_size ≤ b → b < s * st.sector_size + st.sector_size → m b ≡ m' b

-- A write inside one sector leaves the others.
pub splice-SameSector :
    {S : Type 0} (st : Store S) (t s loc : ℕ) (d : List ℕ) (m : Memory)
    → t ≢ s
    → loc + length d ≤ st.sector_size
    → SameSector st t m (splice m (s * st.sector_size + loc) d)
splice-SameSector st t s loc d m ne fits b low high = sym (
    splice_outside m (s * st.sector_size + loc) d b (elim (Bool-cases (ltb t s)) [
      | inl lt ↦
          inl (omega (arith, mul_mono (t + 1) s st.sector_size (omega (arith, ltb→lt t s lt))))
      | inr ge ↦ inr (
          omega (arith, mul_mono (s + 1) t st.sector_size (omega (arith, ltb_false→le t s ge, ne))))
    ]))
