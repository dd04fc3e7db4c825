-- ===== src/Area/Returns.antt =====
-- A call of a storage area returns if the driver's does.
use zephyr_goodies.Base.{ℕ, ◌≡◌, ◌≢◌, some, List, Bool, true, false, if◌then◌else◌}
use zephyr_goodies.Errno.{Rc, einval, out_of_fuel}
use zephyr_goodies.Area.{Geometry, Api, StorageArea, call_writev, writev, call_erase, erase}

module _ {S : Type 0} (a : StorageArea S) (api : Api S) (driven : a.api ≡ some api) where
  guarded :
      (b : Bool) (s : S) (m : Rc × S)
      → m.0 ≢ out_of_fuel
      → (if b then (einval, s) else m).0 ≢ out_of_fuel
  guarded true s m r e = cc
  guarded false s m r e = r e

  pub writev-returns :
      (f : Geometry → ℕ → List (List ℕ) → S → Rc × S)
      → api.writev ≡ some f
      → ((g : Geometry) (offset : ℕ) (iovec : List (List ℕ)) (s : S)
          → (f g offset iovec s).0 ≢ out_of_fuel)
      → (offset : ℕ) (iovec : List (List ℕ)) (s : S)
      → (writev (some a) offset iovec s).0 ≢ out_of_fuel
  unfolding writev call_writev
  writev-returns f e r offset iovec s = rw (driven, e) (guarded _ s _ (r a.geometry offset iovec s))

  pub erase-returns :
      (f : Geometry → ℕ → ℕ → S → Rc × S)
      → api.erase ≡ some f
      → ((g : Geometry) (sblk bcnt : ℕ) (s : S) → (f g sblk bcnt s).0 ≢ out_of_fuel)
      → (sblk bcnt : ℕ) (s : S) → (erase (some a) sblk bcnt s).0 ≢ out_of_fuel
  unfolding erase call_erase
  erase-returns f e r sblk bcnt s = rw (driven, e) (guarded _ s _ (r a.geometry sblk bcnt s))
