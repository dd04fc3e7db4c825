-- ===== src/Store/Compact/Whole.antt =====
-- `storage_area_store_compact` on a store whose sectors are whole erase blocks.
use native.Mathlib.Nat.{mod-eq_of_lt, div-add-mod}
use zephyr_goodies.Base.{
  ℕ, suc, ◌+◌, ◌/◌, ◌%◌, ◌≤◌, ◌<◌, ◌≡◌, ◌≢◌, inl, inr, refl, ap, ◌∙◌, Bool, true, some, List, [],
  ◌∷◌, if◌then◌else◌, ◌==◌, eq→==, ltb, ltb→lt, Bool-cases, length, Memory, arith,
}
use zephyr_goodies.Errno.{ok}
use zephyr_goodies.Size.{size_mod}
use zephyr_goodies.Size.Align.{multiple_mul}
use zephyr_goodies.Area.{fovrwrite}
use zephyr_goodies.Medium.{IsMedium, mul_mono, area_size}
use zephyr_goodies.Store.{
  Platform, IsPlatform, Store, StoreData, World, Record, Handle, full, store_ready, sector_pos,
  sas_max,
}
use zephyr_goodies.Store.Sectors.{sector_advance}
use zephyr_goodies.Store.Layout.{IsLaidOut, IsPosition, sector_inside, sector_pos-eq-mul}
use zephyr_goodies.Store.Walk.{expected_wrapcnt}
use zephyr_goodies.Store.Write.Image.{room, room_lem}
use zephyr_goodies.Store.Log.{IsLog, IsStored, IsChain, log_start}
use zephyr_goodies.Store.Advance.{advance_simple}
use zephyr_goodies.Store.Advance.Fresh.{advance_simple_lem}
use zephyr_goodies.Store.Compact.{move_sector, move_sectors, advance_full}
use zephyr_goodies.Store.Compact.Sector.{
  kept, rooms, IsFilled, IsFilled-same, IsChain-same, move_sector-IsLog,
}
use zephyr_goodies.Store.Calls.{call_advance, storage_area_store_compact}

expected-same :
    (d e : StoreData) (s old : ℕ)
    → e.sector ≡ d.sector
    → e.wrapcnt ≡ d.wrapcnt
    → expected_wrapcnt d s true old ≡ d.wrapcnt
    → expected_wrapcnt e s true old ≡ e.wrapcnt
unfolding expected_wrapcnt
expected-same d e s old h k f = rw (h, k) f

module _ {S : Type 0} (lib : Platform) (st : Store S) (view : S → Memory) (Inv : S → Type 0)
    (laws : IsPlatform lib) (medium : IsMedium st.area view Inv) (laid : IsLaidOut st) where
  -- A chain of records takes a byte for each at least.
  length-chain :
      (old s : ℕ) (m : Memory) (olds : List (List ℕ)) (loc end : ℕ)
      → IsChain lib st laws old s m loc olds end
      → loc + length olds ≤ end
  length-chain old s m [] loc end c = omega (arith, c)
  length-chain old s m (x ∷ olds) loc end c =
      let up = room_lem lib st old x laws laid.unit c.0.short in
      omega (arith, up.above, length-chain old s m olds (loc + room lib st old x) end c.1)

  filled-bound :
      (s : ℕ) (m : Memory) (end : ℕ)
      → IsFilled lib st view Inv laws medium laid s m end
      → end ≤ st.sector_size
  filled-bound s m end f = elim f [
    | inl at ↦ omega (arith, at)
    | inr p ↦ (let low = p.0 in omega arith)
  ]

  -- One sector of a block.
  one_sector :
      (cb : World S → Record → Bool) (s : ℕ) (w w' : World S)
      → move_sector lib st
          (suc (suc (area_size st.area.geometry)))
          ok
          (some cb)
          (record { bound = true; sector = s; loc = 0; size = 0 })
          w
        ≡ (ok, w')
      → move_sectors lib st 1 ok (some cb) s w ≡ (ok, w')
  unfolding move_sectors
  one_sector cb s w w' e = rw e refl

  module _ (counted : st.sector_cnt < size_mod) (over : fovrwrite st.area.geometry ≡ true)
      (some_size : 0 < st.sector_size)
      (blocks : st.sector_size % st.area.geometry.erase_size ≡ 0) where
    one_block : sas_max 1 (st.area.geometry.erase_size / st.sector_size) ≡ 1
    one_block = elim (Bool-cases (ltb 1 times)) [
      | inl more ↦
          let two = mul_mono 2 times st.sector_size (omega (arith, ltb→lt 1 times more)) in
          let whole = div-add-mod block st.sector_size in
          let less : st.sector_size < block = omega (arith, two, whole) in
          absurd (omega (arith, blocks, mod-eq_of_lt less))
      | inr once ↦ rw once refl
    ]
      where
        block : ℕ
        block = st.area.geometry.erase_size

        times : ℕ
        times = block / st.sector_size

    on_block :
        (s : ℕ) → s < st.sector_cnt → (sector_pos st s % st.area.geometry.erase_size == 0) ≡ true
    on_block s exists = eq→== _ 0 (
        ap (λ k. k % st.area.geometry.erase_size) (sector_pos-eq-mul st laid s exists)
        ∙ multiple_mul st.area.geometry.erase_size st.sector_size s blocks)

    -- The call comes to the loop over the block, and that is one sector.
    compact_runs :
        (h : Handle) (w v w' : World S) (cb : World S → Record → Bool) (s : ℕ)
        → store_ready h w.sd ≡ true
        → w.sd.advance ≡ full
        → advance_simple st w ≡ (ok, v)
        → v.sd.sector < st.sector_cnt
        → sector_advance st.sector_cnt v.sd.sector st.spare_sectors ≡ s
        → move_sectors lib st 1 ok (some cb) s v ≡ (ok, w')
        → storage_area_store_compact lib st h (some cb) w ≡ (ok, w')
    unfolding storage_area_store_compact call_advance advance_full
    compact_runs h w v w' cb s ready mounted done exists at ran =
        let whole : advance_full lib st (some cb) w ≡ (ok, w') =
          rw (done, on_block v.sd.sector exists, one_block, at) ran in
        let called : storage_area_store_compact lib st h (some cb) w
            ≡ call_advance lib st w.sd.advance (some cb) w =
          rw ready refl in
        called ∙ ap (λ a. call_advance lib st a (some cb) w) mounted ∙ whole

    -- On a device that works and can be overwritten, in a store that is mounted with compaction,
    -- whose sectors are whole erase blocks and which 32 bits count, with any write position: let `s`
    -- be the sector that stands `spare_sectors` behind the next one, round the store, and neither
    -- of these two. If it holds records one behind the other from its start, with the wrap count
    -- that the walk looks for there once the next sector is the write sector, up to its end or to
    -- bytes of 255, and the callback answers by the data of a record, and the records that it wants
    -- fit a fresh sector and leave at least a byte of it free, then `storage_area_store_compact`
    -- succeeds, and the write sector is the next one and holds exactly the wanted records, in their
    -- order.
    pub compact-IsLog :
        (h : Handle) (w : World S) (cb : World S → Record → Bool) (wanted : List ℕ → Bool)
        (olds : List (List ℕ)) (old end : ℕ)
        → let next = (w.sd.sector + 1) % st.sector_cnt in
          let count = if next == 0 then (w.sd.wrapcnt + 1) % 256 else w.sd.wrapcnt in
          let s = sector_advance st.sector_cnt next st.spare_sectors in
          store_ready h w.sd ≡ true
          → w.sd.advance ≡ full
          → Inv w.dev
          → IsPosition st w.sd
          → s < st.sector_cnt
          → s ≢ w.sd.sector
          → s ≢ next
          → expected_wrapcnt (record w.sd { sector = next; wrapcnt = count }) s true old ≡ count
          → IsChain lib st laws old s
              (view w.dev)
              (log_start st.sector_cookie st.area.geometry.write_size)
              olds
              end
          → IsFilled lib st view Inv laws medium laid s (view w.dev) end
          → ((v : World S) (loc : ℕ) (bytes : List ℕ)
              → IsStored lib st laws old s (view v.dev) loc bytes
              → cb v (record { bound = true; sector = s; loc = loc; size = length bytes })
                ≡ wanted bytes)
          → log_start st.sector_cookie st.area.geometry.write_size
              + rooms lib st view Inv laws medium laid
                  (kept lib st view Inv laws medium laid wanted olds)
            < st.sector_size
          → (w' : World S) × (storage_area_store_compact lib st h (some cb) w ≡ (ok, w'))
            × (w'.sd.sector ≡ next)
            × IsLog lib st laws view Inv w' (kept lib st view Inv laws medium laid wanted olds)
    compact-IsLog h w cb wanted olds old end ready mounted works position exists apart behind fresh
          chain filled decides fits =
        let (done, empty, sector, wrapcnt, kept_ready, kept_advance, loc, same) =
          advance_simple_lem lib st view Inv laws medium laid counted w over works position in
        let v : World S = (advance_simple st w).1 in
        let next : ℕ = (w.sd.sector + 1) % st.sector_cnt in
        let s : ℕ = sector_advance st.sector_cnt next st.spare_sectors in
        let m = same s apart behind in
        let (w', ran, log, sd) =
          move_sector-IsLog lib st view Inv laws medium laid old s end exists wanted cb decides olds
            [] (suc (suc (area_size st.area.geometry))) v
            (omega (
              arith,
              length-chain old s (view w.dev) olds
                  (log_start st.sector_cookie st.area.geometry.write_size) end chain,
              filled-bound s (view w.dev) end filled,
              sector_inside st laid s exists,
            ))
            empty (λ e. behind (e ∙ sector))
            (expected-same (record w.sd { sector = next; wrapcnt = _ }) v.sd s old sector wrapcnt
              fresh)
            (IsChain-same lib st view Inv laws medium laid old s (view w.dev) (view v.dev) olds
              (log_start st.sector_cookie st.area.geometry.write_size) end m chain)
            (IsFilled-same lib st view Inv laws medium laid s (view w.dev) (view v.dev) end m
              filled)
            (omega (arith, fits, loc)) in
        (
          w',
          compact_runs h w v w' cb s ready mounted (ap (λ rc. (rc, v)) done) empty.position.exists
              (ap (λ k. sector_advance st.sector_cnt k st.spare_sectors) sector)
              (one_sector cb s v w' ran),
          ap (λ (d : StoreData). d.sector) sd ∙ sector,
          log,
        )
