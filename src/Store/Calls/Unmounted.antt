-- ===== src/Store/Calls/Unmounted.antt =====
-- The calls on a store after it was unmounted.
use zephyr_goodies.Base.{true, false, ◌≡◌, refl, List, ℕ, arith}
use zephyr_goodies.Errno.{ok, einval}
use zephyr_goodies.Store.{Platform, Store, World, Record, Handle, store_ready}
use zephyr_goodies.Store.Read.{storage_area_record_valid}
use zephyr_goodies.Store.Compact.{Move}
use zephyr_goodies.Store.Mount.{storage_area_store_unmount}
use zephyr_goodies.Store.Calls.{
  storage_area_store_writev, storage_area_store_write, storage_area_store_advance,
  storage_area_store_compact,
}

module _ {S : Type 0} (lib : Platform) (st : Store S) (h : Handle) where
  unmounted :
      (w : World S)
      → (storage_area_store_unmount st h w).0 ≡ ok
      → let w' = (storage_area_store_unmount st h w).1 in
        (w'.dev ≡ w.dev)
        × (store_ready h w'.sd ≡ false)
        × (storage_area_store_unmount st h w' ≡ (ok, w'))
  unfolding storage_area_store_unmount store_ready
  unmounted w done = ground arith

  -- When `storage_area_store_unmount` succeeds, on any store, mounted or not, the device is as it
  -- was; each write, advance and compaction that follows fails with -EINVAL, and a second unmount
  -- succeeds, all without a change to the device and the store; but any record is reported to be
  -- valid.
  pub unmount-refuses :
      (w : World S) (iovec : List (List ℕ)) (bytes : List ℕ) (cb : Move S) (r : Record)
      → (storage_area_store_unmount st h w).0 ≡ ok
      → let w' = (storage_area_store_unmount st h w).1 in
        (w'.dev ≡ w.dev)
        × (storage_area_store_writev lib st h iovec w' ≡ (einval, w'))
        × (storage_area_store_write lib st h bytes w' ≡ (einval, w'))
        × (storage_area_store_advance lib st h w' ≡ (einval, w'))
        × (storage_area_store_compact lib st h cb w' ≡ (einval, w'))
        × (storage_area_store_unmount st h w' ≡ (ok, w'))
        × (storage_area_record_valid lib st h r w' ≡ true)
  unfolding storage_area_store_writev storage_area_store_write storage_area_store_advance
      storage_area_store_compact storage_area_record_valid
  unmount-refuses w iovec bytes cb r done =
      let (same, refused, again) = unmounted w done in
      rw refused (same, refl, refl, refl, refl, again, refl)
