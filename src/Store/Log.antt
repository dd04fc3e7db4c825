-- ===== src/Store/Log.antt =====
-- The write sector of a store as a log: the data of its records, in the order of their writes.
pub mod Walk
pub mod Append
use zephyr_goodies.Base.{
  ℕ, zero, suc, ◌+◌, ◌*◌, ◌≤◌, ◌<◌, ◌^◌, ◌≡◌, Bool, true, Option, none, some, List, [], ◌∷◌, ◌==◌,
  if◌then◌else◌, length, Memory,
}
use zephyr_goodies.Errno.{Rc, ok, is_ok}
use zephyr_goodies.Size.{align_up}
use zephyr_goodies.Store.{Platform, IsPlatform, Store, StoreData, World, Record, Handle}
use zephyr_goodies.Store.Layout.{IsPosition}
use zephyr_goodies.Store.Read.{storage_area_record_readv}
use zephyr_goodies.Store.Walk.{record_next_in_sector}
use zephyr_goodies.Store.Write.Image.{room}
use zephyr_goodies.Store.Write.Readback.{HoldsRecord}

-- Where the records of a sector begin.
abbrev pub log_start : Option (List ℕ) → ℕ → ℕ
log_start none align = 0
log_start (some cookie) align = if length cookie == 0 then 0 else align_up (length cookie) align

module _ {S : Type 0} (lib : Platform) (st : Store S) where
  -- A client's loop over the records of a sector: find the next one, and read its data.
  unfoldable pub read_log : ℕ → Handle → Record → World S → List (List ℕ)
  read_log zero h r w = []
  read_log (suc fuel) h r w =
      let (rc, found) = record_next_in_sector lib st w.sd true r w.dev in
      let (rc', bytes) = storage_area_record_readv lib st h (some found) 0 (found.size ∷ []) w in
      let rest = read_log fuel h found w in if is_ok rc then bytes ∷ rest else []

  -- The record that such a loop begins with.
  abbrev pub sector_start : World S → Record
  sector_start w = record { bound = true; sector = w.sd.sector; loc = 0; size = 0 }

  module _ (laws : IsPlatform lib) (wrapcnt sector : ℕ) (m : Memory) where
    -- A record with this data stands at a position of the sector, and the walk accepts it.
    pub record IsStored (loc : ℕ) (bytes : List ℕ) : Type 0 where
      pub some_data : 0 < length bytes
      pub short : length bytes < 2 ^ 16
      pub skip : st.crc_skip ≤ length bytes
      pub fits : loc + (length bytes + 8) < st.sector_size
      pub holds : HoldsRecord lib st laws wrapcnt bytes m (sector * st.sector_size + loc)

    -- Records with these data stand one behind the other, from a position to an end.
    abbrev pub IsChain : ℕ → List (List ℕ) → ℕ → Type 0
    IsChain loc [] end = loc ≡ end
    IsChain loc (b ∷ bs) end = IsStored loc b × IsChain (loc + room lib st wrapcnt b) bs end

  -- The write sector holds the log, up to the write position.
  pub record IsLog (laws : IsPlatform lib) (view : S → Memory) (Inv : S → Type 0) (w : World S)
      (log : List (List ℕ)) : Type 0 where
    pub works : Inv w.dev
    pub position : IsPosition st w.sd
    pub chain :
        IsChain laws w.sd.wrapcnt w.sd.sector
          (view w.dev)
          (log_start st.sector_cookie st.area.geometry.write_size)
          log
          w.sd.loc
