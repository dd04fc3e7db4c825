-- ===== src/Store/Sectors.antt =====
-- `sector_advance` and `sector_reverse` of storage_area_store.c.
pub mod Round
use zephyr_goodies.Base.{ℕ, zero, suc, ◌==◌, if◌then◌else◌}
use zephyr_goodies.Size.{size_add, size_sub}

-- The loop over `cnt`, on the sector count of the store.
unfoldable pub sector_advance : ℕ → ℕ → ℕ → ℕ
sector_advance sector_cnt sector zero = sector
sector_advance sector_cnt sector (suc cnt) =
    let next = size_add sector 1 in
    sector_advance sector_cnt (if next == sector_cnt then 0 else next) cnt

unfoldable pub sector_reverse : ℕ → ℕ → ℕ → ℕ
sector_reverse sector_cnt sector zero = sector
sector_reverse sector_cnt sector (suc cnt) =
    let from = if sector == 0 then sector_cnt else sector in
    sector_reverse sector_cnt (size_sub from 1) cnt
