-- ===== src/Store/Calls/ReadOnly.antt =====
-- A store that is mounted read-only: the mount and all later calls leave the device as it is.
use zephyr_goodies.Base.{
  arith, get_or, some, [], ◌∷◌, ℕ, zero, suc, ◌+◌, ◌≡◌, refl, sym, ap, ◌∙◌, Bool, true, false, ◌||◌,
  not, List, if◌then◌else◌, inl, inr, Bool-cases, ltb, ◌==◌,
}
use zephyr_goodies.Errno.{Rc, ok, einval, enotsup, ealready, is_ok, proceed, ◌>>=◌}
use zephyr_goodies.Size.{size_add}
use zephyr_goodies.Area.{readv}
use zephyr_goodies.Store.Walk.{record_next_in_sector}
use zephyr_goodies.Store.{
  sector_pos, Platform, Store, World, Record, null, Handle, store_valid, store_ready,
}
use zephyr_goodies.Store.Compact.{Move}
use zephyr_goodies.Store.Mount.{
  config_valid, scan_sectors, init_start, init_position, store_init, storage_area_store_mount_ro,
}
use zephyr_goodies.Store.Calls.{
  call_advance, storage_area_store_advance, storage_area_store_compact, storage_area_store_writev,
}
use zephyr_goodies.Store.Write.{store_writev}

module _ {S : Type 0} (lib : Platform) (st : Store S) where
  scan_sectors-dev :
      (left i : ℕ) (r : Record) (w : World S) → (scan_sectors lib st left i r w).dev ≡ w.dev
  unfolding scan_sectors
  scan_sectors-dev zero i r w = refl
  scan_sectors-dev (suc left) i r w =
      let rr = record r { sector = i; loc = 0 } in
      let find = record_next_in_sector lib st w.sd false rr w.dev in
      let get =
        readv (some st.area) (size_add (size_add (sector_pos st i) find.1.loc) 1) (1 ∷ []) w.dev in
      let byte = get_or get.1 0 0 in
      let count = if ltb i w.sd.sector then byte else w.sd.wrapcnt in
      let next : World S = record w { sd = record w.sd { wrapcnt = count; sector = i } } in
      let a = scan_sectors-dev left (i + 1) find.1 w in
      let b = scan_sectors-dev left (i + 1) find.1 next in
      elim (Bool-cases (is_ok find.0)) [
        | inr e ↦ rw e a
        | inl e ↦ rw e (elim (Bool-cases (is_ok get.0)) [
          | inr f ↦ rw f a
          | inl f ↦ rw f (elim (Bool-cases (byte == count)) [ inl g ↦ rw g b | inr g ↦ rw g refl ])
        ])
      ]

  store_init-dev : (w : World S) → (store_init lib st w).1.dev ≡ w.dev
  unfolding store_init init_position init_start
  store_init-dev w =
      let scanned =
        scan_sectors lib st st.sector_cnt 0 (record { bound = true; sector = 0; loc = 0; size = 0 })
          (init_start lib st w) in
      let e : scanned.dev ≡ w.dev =
        scan_sectors-dev st.sector_cnt 0 (record { bound = true; sector = 0; loc = 0; size = 0 })
          (init_start lib st w) in
      elim (Bool-cases (scanned.sd.sector == st.sector_cnt)) [ inl f ↦ rw f e | inr f ↦ rw f e ]

  abbrev read_only : World S → World S
  read_only w = record w { sd = record w.sd { advance = null; ready = true } }

  proceed_ok :
      (rc : Rc) (w : World S)
      → (proceed rc w (λ w. (ok, read_only w))).0 ≡ ok
      → proceed rc w (λ w. (ok, read_only w)) ≡ (ok, read_only w)
  proceed_ok rc w h = ground arith

  guarded :
      (w : World S) (bad busy : Bool) (m : Rc × World S)
      → (if bad then (einval, w) else if busy then (ealready, w) else m).0 ≡ ok
      → (bad ≡ false) × ((if bad then (einval, w) else if busy then (ealready, w) else m) ≡ m)
  guarded w bad busy m h = ground arith

  checked : (valid bad : Bool) → (not valid || bad) ≡ false → valid ≡ true
  checked valid bad h = ground arith

  mounted_lem :
      (h : Handle) (w : World S)
      → (storage_area_store_mount_ro lib st h w).0 ≡ ok
      → (store_valid h ≡ true)
        × (storage_area_store_mount_ro lib st h w ≡ (ok, read_only (store_init lib st w).1))
  unfolding storage_area_store_mount_ro
  mounted_lem h w done =
      let g =
        guarded w (not (store_valid h) || not (config_valid st)) w.sd.ready
          (store_init lib st w >>= λ w. (ok, read_only w)) done in
      (
        checked (store_valid h) (not (config_valid st)) (g.0),
        g.1
            ∙ proceed_ok (store_init lib st w).0 (store_init lib st w).1
                (ap (λ (p : Rc × World S). p.0) (sym (g.1)) ∙ done),
      )

  -- When `storage_area_store_mount_ro` succeeds, on any device, the device is as it was before, and
  -- each write, advance and compaction that follows fails with -ENOTSUP, and leaves the device and
  -- the store as they are.
  pub mount_ro-refuses :
      (h : Handle) (w : World S) (cb : Move S) (iovec : List (List ℕ))
      → (storage_area_store_mount_ro lib st h w).0 ≡ ok
      → let w' = (storage_area_store_mount_ro lib st h w).1 in
        (w'.dev ≡ w.dev)
        × (storage_area_store_writev lib st h iovec w' ≡ (enotsup, w'))
        × (storage_area_store_advance lib st h w' ≡ (enotsup, w'))
        × (storage_area_store_compact lib st h cb w' ≡ (enotsup, w'))
  unfolding storage_area_store_writev storage_area_store_advance storage_area_store_compact
      call_advance store_writev store_ready
  mount_ro-refuses h w cb iovec done =
      let m = mounted_lem h w done in rw (m.1, m.0) (store_init-dev w, refl, refl, refl)
