-- ===== src/Size.antt =====
-- `size_t` and `sa_off_t`, both 32 bits wide, and the alignment macros of storage_area_store.c.
pub mod Mask
pub mod Align
use Prim.Native.Nat.{bit_and}
use zephyr_goodies.Base.{ℕ, ◌+◌, ◌-◌, ◌*◌, ◌%◌, ◌^◌, ◌≤◌, ◌≡◌}

abbrev pub size_mod : ℕ
size_mod = 2 ^ 32

abbrev pub size_add : ℕ → ℕ → ℕ
size_add a b = (a + b) % size_mod

abbrev pub size_sub : ℕ → ℕ → ℕ
size_sub a b = (a + size_mod - b) % size_mod

abbrev pub size_mul : ℕ → ℕ → ℕ
size_mul a b = a * b % size_mod

-- `~a`
abbrev pub size_not : ℕ → ℕ
size_not a = size_mod - 1 - a

-- `SAS_ALIGNUP`
unfoldable pub align_up : ℕ → ℕ → ℕ
align_up num align = bit_and (size_add num (size_sub align 1)) (size_not (size_sub align 1))

-- `SAS_ALIGNDOWN`, and `blen & ~(align - 1)` of the writers
unfoldable pub align_down : ℕ → ℕ → ℕ
align_down num align = bit_and num (size_not (size_sub align 1))

-- `num & (align - 1)`
unfoldable pub align_rest : ℕ → ℕ → ℕ
align_rest num align = bit_and num (size_sub align 1)

-- A power of two, as a `size_t`.
abbrev pub IsPow2 : ℕ → Type 0
IsPow2 a = (k : ℕ) × (k ≤ 31) × (a ≡ 2 ^ k)
