-- ===== src/Store/Read.antt =====
-- Reading records: `storage_area_record_next`, `storage_area_record_readv` and
-- `storage_area_store_get_sector_cookie` of storage_area_store.c.
pub mod Ends
pub mod Part
use zephyr_goodies.Base.{
  ℕ, zero, suc, ◌%◌, ◌^◌, Bool, true, ◌||◌, not, Option, none, some, List, [], ◌∷◌, ltb, ◌==◌,
  if◌then◌else◌, length,
}
use zephyr_goodies.Errno.{Rc, einval, out_of_fuel, is_enoent}
use zephyr_goodies.Size.{size_add, size_mul}
use zephyr_goodies.Area.{readv, iovec_size}
use zephyr_goodies.Store.{
  Platform, Store, World, Record, sas_min, sas_hdrsize, sector_pos, Handle, store_valid,
  store_ready,
}
use zephyr_goodies.Store.Sectors.{sector_advance}
use zephyr_goodies.Store.Check.{record_valid}
use zephyr_goodies.Store.Walk.{record_next_in_sector}

module _ {S : Type 0} (lib : Platform) (st : Store S) where
  -- `storage_area_record_valid`: of a store that is not ready it returns -EINVAL as a `bool`,
  -- which is true.
  unfoldable pub storage_area_record_valid : Handle → Record → World S → Bool
  storage_area_record_valid h r w =
      if not (store_ready h w.sd) then true else record_valid lib st r w.dev

  -- The loop of `storage_area_record_next` over the sectors.
  unfoldable pub next_sectors : ℕ → Record → World S → Rc × Record
  next_sectors zero r w = (out_of_fuel, r)
  next_sectors (suc fuel) r w =
      let (rc, r') = record_next_in_sector lib st w.sd true r w.dev in
      let on = record r' { sector = sector_advance st.sector_cnt r'.sector 1; loc = 0; size = 0 } in
      let rest = next_sectors fuel on w in
      if not (is_enoent rc) then (rc, r') else if r'.sector == w.sd.sector then (rc, r') else rest

  -- The walk over all records starts behind the spare sectors.
  unfoldable pub first_record : World S → Record
  first_record w = record {
    bound = true;
    sector = sector_advance st.sector_cnt w.sd.sector (size_add st.spare_sectors 1);
    loc = 0;
    size = 0;
  }

  -- `storage_area_record_next`: no sector is visited twice, so `sector_cnt + 1` rounds are enough.
  unfoldable pub storage_area_record_next : Handle → Record → World S → Rc × Record
  storage_area_record_next h r w =
      let from = if not r.bound then first_record w else r in
      if not (store_valid h) then (einval, r) else next_sectors (suc st.sector_cnt) from w

  -- `storage_area_record_readv`; `none` is a record pointer that is NULL
  unfoldable pub storage_area_record_readv :
      Handle → Option Record → ℕ → List ℕ → World S → Rc × List ℕ
  storage_area_record_readv h none start iovec w = (einval, [])
  storage_area_record_readv h (some r) start iovec w =
      let rdpos = size_add (size_add (size_add (sector_pos st r.sector) r.loc) start) sas_hdrsize in
      if not r.bound
        || not (store_valid h)
        || ltb st.sector_size r.loc
        || ltb st.sector_size r.size
        || ltb r.size (size_add start (iovec_size iovec))
      then (einval, [])
      else readv (some st.area) rdpos iovec w.dev

  -- `storage_area_record_read`
  unfoldable pub storage_area_record_read : Handle → Option Record → ℕ → ℕ → World S → Rc × List ℕ
  storage_area_record_read h r start len w = storage_area_record_readv h r start (len ∷ []) w

  get_cookie : Option (List ℕ) → ℕ → ℕ → World S → Rc × List ℕ
  get_cookie none sector cksz w = (einval, [])
  get_cookie (some cookie) sector cksz w =
      if length cookie == 0
      then (einval, [])
      else readv (some st.area) (size_mul (sector % 2 ^ 16) st.sector_size)
          (sas_min cksz (length cookie) ∷ []) w.dev

  -- `storage_area_store_get_sector_cookie`; the helper behind it takes the sector as a `uint16_t`
  unfoldable pub storage_area_store_get_sector_cookie : Handle → ℕ → ℕ → World S → Rc × List ℕ
  unfolding get_cookie
  storage_area_store_get_sector_cookie h sector cksz w =
      if not (store_valid h) then (einval, []) else get_cookie st.sector_cookie sector cksz w
