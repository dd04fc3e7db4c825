-- ===== src/Store/Calls.antt =====
-- The calls of storage_area_store.c that check that a store is mounted and go on to the work.
pub mod ReadOnly
pub mod Unmounted
use zephyr_goodies.Base.{ℕ, not, none, List, [], ◌∷◌, if◌then◌else◌}
use zephyr_goodies.Errno.{Rc, einval, enotsup}
use zephyr_goodies.Store.{Platform, Store, World, Advancer, null, simple, full, Handle, store_ready}
use zephyr_goodies.Store.Advance.{advance_simple}
use zephyr_goodies.Store.Compact.{Move, advance_full}
use zephyr_goodies.Store.Write.{store_writev}

module _ {S : Type 0} (lib : Platform) (st : Store S) where
  -- The call through `data->advance`; the simple form does not look at its callbacks.
  unfoldable pub call_advance : Advancer → Move S → World S → Rc × World S
  call_advance null cb w = (enotsup, w)
  call_advance simple cb w = advance_simple st w
  call_advance full cb w = advance_full lib st cb w

  -- `storage_area_store_advance`
  unfoldable pub storage_area_store_advance : Handle → World S → Rc × World S
  storage_area_store_advance h w =
      if not (store_ready h w.sd) then (einval, w) else call_advance w.sd.advance none w

  -- `storage_area_store_compact`
  unfoldable pub storage_area_store_compact : Handle → Move S → World S → Rc × World S
  storage_area_store_compact h cb w =
      if not (store_ready h w.sd) then (einval, w) else call_advance w.sd.advance cb w

  -- `storage_area_store_writev`
  unfoldable pub storage_area_store_writev : Handle → List (List ℕ) → World S → Rc × World S
  storage_area_store_writev h iovec w =
      if not (store_ready h w.sd) then (einval, w) else store_writev lib st iovec w

  -- `storage_area_store_write`
  unfoldable pub storage_area_store_write : Handle → List ℕ → World S → Rc × World S
  storage_area_store_write h bytes w = storage_area_store_writev h (bytes ∷ []) w
