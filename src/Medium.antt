-- ===== src/Medium.antt =====
-- What a client of a storage area relies on: inside the area, the area is a byte memory.
use zephyr_goodies.Base.{
  ℕ, ◌+◌, ◌*◌, ◌%◌, ◌≤◌, ◌<◌, ◌≡◌, some, List, arith, [], ◌∷◌, flatten, length, replicate, Memory,
  slice, splice,
}
use zephyr_goodies.Errno.{ok}
use zephyr_goodies.Size.{size_mod, IsPow2}
use zephyr_goodies.Area.{Geometry, StorageArea, erasevalue, readv, writev, erase}

-- The sum of the lengths of buffers, with no wrap.
abbrev pub total : List ℕ → ℕ
total [] = 0
total (n ∷ ns) = n + total ns

-- The size of an area.
abbrev pub area_size : Geometry → ℕ
area_size g = g.erase_size * g.erase_blocks

-- The checks of the STORAGE_AREA_..._DEFINE macros, and a size that a `size_t` holds.
pub record IsSound (g : Geometry) : Type 0 where
  pub unit : IsPow2 g.write_size
  pub erasable : 0 < g.erase_size
  pub blocks : g.erase_size % g.write_size ≡ 0
  pub small : area_size g < size_mod

-- `view s` are the bytes of the area at the state `s`; `Inv` is what the device keeps.
pub record IsMedium {S : Type 0} (area : StorageArea S) (view : S → Memory) (Inv : S → Type 0)
    : Type 0 where
  pub sound : IsSound area.geometry
  pub reads :
      (offset : ℕ) (iovec : List ℕ) (s : S)
      → Inv s
      → offset + total iovec ≤ area_size area.geometry
      → readv (some area) offset iovec s ≡ (ok, slice (view s) offset (total iovec))
  pub writes :
      (offset : ℕ) (iovec : List (List ℕ)) (s : S)
      → Inv s
      → offset % area.geometry.write_size ≡ 0
      → length (flatten iovec) % area.geometry.write_size ≡ 0
      → offset + length (flatten iovec) ≤ area_size area.geometry
      → ((writev (some area) offset iovec s).0 ≡ ok)
        × (view (writev (some area) offset iovec s).1 ≡ splice (view s) offset (flatten iovec))
        × Inv (writev (some area) offset iovec s).1
  pub erases :
      (sblk bcnt : ℕ) (s : S)
      → Inv s
      → sblk + bcnt ≤ area.geometry.erase_blocks
      → ((erase (some area) sblk bcnt s).0 ≡ ok)
        × (view (erase (some area) sblk bcnt s).1
            ≡ splice
                (view s)
                (sblk * area.geometry.erase_size)
                (replicate (bcnt * area.geometry.erase_size) (erasevalue area.geometry)))
        × Inv (erase (some area) sblk bcnt s).1

pub mul_mono : (a b k : ℕ) → a ≤ b → a * k ≤ b * k
mul_mono a b k h = grind arith

module _ (g : Geometry) (sound : IsSound g) where
  pub blocks_small : g.erase_blocks < size_mod
  blocks_small = let p = sound.erasable in let q = sound.small in grind arith

  -- A run of blocks lies inside the area.
  pub blocks_inside :
      (sblk bcnt : ℕ)
      → sblk + bcnt ≤ g.erase_blocks
      → sblk * g.erase_size + bcnt * g.erase_size ≤ area_size g
  blocks_inside sblk bcnt h = omega (arith, mul_mono (sblk + bcnt) g.erase_blocks g.erase_size h)
