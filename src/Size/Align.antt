-- ===== src/Size/Align.antt =====
-- The alignment macros by a power of two, as division and remainder.
use native.Mathlib.Nat.{pow-suc, div-add-mod, mod-lt, mul-mod_left, add-mod, mod-mod, zero-add}
use zephyr_goodies.Base.{
  ℕ, zero, suc, ◌+◌, ◌-◌, ◌*◌, ◌/◌, ◌%◌, ◌^◌, ◌≤◌, ◌<◌, ◌≡◌, sym, ap, ◌∙◌, arith,
}
use zephyr_goodies.Size.{
  size_mod, size_add, size_sub, size_not, align_up, align_down, align_rest, IsPow2,
}
use zephyr_goodies.Size.Mask.{mask_low, mask_high}

pub pow-bounds : (k j : ℕ) → k ≤ j → (0 < 2 ^ k) × (2 ^ k ≤ 2 ^ j)
pow-bounds zero zero h = omega arith
pow-bounds zero (suc j) h = omega (arith, pow-bounds zero j (omega arith), pow-suc 2 j)
pow-bounds (suc k) zero h = elim h [ ]
pow-bounds (suc k) (suc j) h = omega (arith, pow-bounds k j (omega arith), pow-suc 2 j, pow-suc 2 k)

pub pow2_bounds : (a : ℕ) → IsPow2 a → (0 < a) × (a ≤ 2 ^ 31)
pow2_bounds a (k, h, e) = omega (arith, pow-bounds k 31 h)

-- `num & (align - 1)` is the remainder.
pub align_rest-eq-mod : (n a : ℕ) → IsPow2 a → align_rest n a ≡ n % a
unfolding align_rest
align_rest-eq-mod n a (k, h, e) =
    let f : size_sub a 1 ≡ 2 ^ k - 1 = omega (arith, pow-bounds k 31 h) in rw (f, mask_low k n, e)

-- `num & ~(align - 1)` is the multiple just below.
pub align_down-eq-mul : (n a : ℕ) → IsPow2 a → n < size_mod → align_down n a ≡ n / a * a
unfolding align_down
align_down-eq-mul n a (k, h, e) lt =
    let f : size_not (size_sub a 1) ≡ 2 ^ 32 - 2 ^ k = omega (arith, pow-bounds k 31 h) in
    rw (f, mask_high k 32 n (omega arith) lt, e)

-- What a caller needs of an aligned number.
pub record IsAlignUp (n a r : ℕ) : Type 0 where
  pub above : n ≤ r
  pub close : r < n + a
  pub multiple : r % a ≡ 0

mul-mod : (q a : ℕ) → q * a % a ≡ 0
mul-mod q a = mul-mod_left q a

-- By a power of two, and where the sum does not wrap, `SAS_ALIGNUP` is a multiple that is not below
-- its number, and less than one alignment above it.
pub align_up-IsAlignUp : (n a : ℕ) → IsPow2 a → n + a ≤ size_mod → IsAlignUp n a (align_up n a)
unfolding align_up align_down
align_up-IsAlignUp n a p h =
    let pos : 0 < a = (pow2_bounds a p).0 in
    let sum : size_add n (size_sub a 1) ≡ n + a - 1 = omega (arith, pow2_bounds a p) in
    let e : align_up n a ≡ (n + a - 1) / a * a =
      ap (λ s. align_down s a) sum ∙ align_down-eq-mul (n + a - 1) a p (omega arith) in
    let m : ((n + a - 1) / a * a) % a ≡ 0 = mul-mod ((n + a - 1) / a) a in
    record {
      above = omega (arith, e, div-add-mod (n + a - 1) a, mod-lt (n + a - 1) pos);
      close = omega (arith, e, div-add-mod (n + a - 1) a);
      multiple = ap (λ s. s % a) e ∙ m;
    }

-- The multiple is the only one in its range.
pub IsAlignUp-unique : (n a r s : ℕ) → IsAlignUp n a r → IsAlignUp n a s → r ≡ s
IsAlignUp-unique n a r s p q = grind (arith, div-add-mod r a, div-add-mod s a)

-- No multiple at or above `n` is smaller.
pub align_least : (n a r s : ℕ) → IsAlignUp n a r → n ≤ s → s % a ≡ 0 → r ≤ s
align_least n a r s p h e = grind (arith, p, div-add-mod r a, div-add-mod s a)

pub multiple_add : (a x y : ℕ) → x % a ≡ 0 → y % a ≡ 0 → (x + y) % a ≡ 0
multiple_add a x y p q = rw (add-mod, p, q) (omega arith)

-- By a power of two, `SAS_ALIGNDOWN` of a 32-bit number is a multiple that is not above the number,
-- and less than one alignment below it.
pub align_down_bounds :
    (n a : ℕ)
    → IsPow2 a
    → n < size_mod
    → (align_down n a ≤ n) × (n < align_down n a + a) × (align_down n a % a ≡ 0)
align_down_bounds n a p h =
    let e : align_down n a ≡ n / a * a = align_down-eq-mul n a p h in
    (
      omega (arith, e, div-add-mod n a),
      omega (arith, e, div-add-mod n a, mod-lt n (pow2_bounds a p).0),
      ap (λ s. s % a) e ∙ mul-mod (n / a) a,
    )

-- A multiple in front does not change a remainder.
pub mod-add_multiple : (a w p : ℕ) → w % a ≡ 0 → p % a ≡ (w + p) % a
mod-add_multiple a w p h =
    sym (add-mod w p a ∙ rw h (ap (λ k. k % a) (zero-add (p % a)) ∙ mod-mod p a))

pub multiple_sub : (a x y : ℕ) → x ≤ y → x % a ≡ 0 → y % a ≡ 0 → (y - x) % a ≡ 0
multiple_sub a x y h p q =
    let e : x + (y - x) ≡ y = omega arith in mod-add_multiple a x (y - x) p ∙ ap (λ k. k % a) e ∙ q

pub multiple_mul : (a x k : ℕ) → x % a ≡ 0 → k * x % a ≡ 0
multiple_mul a x k h =
    let e : x ≡ x / a * a = omega (arith, div-add-mod x a) in
    let f : k * x ≡ k * (x / a) * a = ap (λ t. k * t) e ∙ grind arith in
    ap (λ t. t % a) f ∙ mul-mod (k * (x / a)) a
