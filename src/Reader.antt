-- ===== src/Reader.antt =====
-- The read loop of sa_flash_readv and sa_eeprom_readv, and the erase loop of sa_eeprom_erase and
-- sa_disk_erase.
pub mod Runs
use zephyr_goodies.Base.{ℕ, zero, suc, List, [], ◌∷◌, ◌++◌, if◌then◌else◌}
use zephyr_goodies.Errno.{Rc, ok, is_ok}
use zephyr_goodies.Size.{size_add}

module _ {S : Type 0} (read : ℕ → ℕ → S → Rc × List ℕ) where
  -- After an error, the result holds the buffers that were filled before it.
  pub read_each : ℕ → List ℕ → S → Rc × List ℕ
  read_each rdoff [] s = (ok, [])
  read_each rdoff (n ∷ ns) s =
      let (rc, bytes) = read rdoff n s in
      let (rc', rest) = read_each (size_add rdoff n) ns s in
      if is_ok rc then (rc', bytes ++ rest) else (rc, [])

module _ {S : Type 0} (write : ℕ → List ℕ → S → Rc × S) (step : ℕ) (buf : List ℕ) where
  -- The buffer is written `bcnt` times, each time `step` further on.
  unfoldable pub fill_blocks : ℕ → ℕ → S → Rc × S
  fill_blocks zero pos s = (ok, s)
  fill_blocks (suc bcnt) pos s =
      let (rc, s') = write pos buf s in
      let rest = fill_blocks bcnt (size_add pos step) s' in if is_ok rc then rest else (rc, s')
