-- ===== src/Size/Mask.antt =====
-- A mask of the low bits is a remainder, and a mask of the high bits drops it.
use Prim.Native.Nat.{bit_and, digits, bit_and-bitwise}
use native.Mathlib.Nat.{pow-suc, div-add-mod, div-div-eq-div-mul, mod-lt, mod-eq_of_lt}
use zephyr_goodies.Base.{
  ℕ, zero, suc, ◌+◌, ◌-◌, ◌*◌, ◌/◌, ◌%◌, ◌^◌, ◌≤◌, ◌<◌, min, ◌≡◌, refl, sym, ap, ◌∙◌, arith,
}

-- The digit recursion does not depend on how much fuel above its argument it gets.
digits_fuel :
    (n m a b : ℕ) → a ≤ n → a ≤ m → digits (λ b. zero) min n a b ≡ digits (λ b. zero) min m a b
digits_fuel zero zero a b p q = refl
digits_fuel zero (suc m) zero b p q = refl
digits_fuel zero (suc m) (suc a) b p q = elim p [ ]
digits_fuel (suc n) zero zero b p q = refl
digits_fuel (suc n) zero (suc a) b p q = elim q [ ]
digits_fuel (suc n) (suc m) zero b p q = refl
digits_fuel (suc n) (suc m) (suc a) b p q =
    omega (arith, digits_fuel n m (suc a / 2) (b / 2) (omega arith) (omega arith))

-- One binary digit of a conjunction.
pub bit_and_digit : (a b : ℕ) → bit_and a b ≡ 2 * bit_and (a / 2) (b / 2) + min (a % 2) (b % 2)
bit_and_digit zero b = omega (arith, bit_and-bitwise 0 b, bit_and-bitwise 0 (b / 2))
bit_and_digit (suc a) b = omega (
  arith,
  bit_and-bitwise (suc a) b,
  bit_and-bitwise (suc a / 2) (b / 2),
  digits_fuel a (suc a / 2) (suc a / 2) (b / 2) (omega arith) (omega arith),
)

bit_and_none : (n a : ℕ) → a ≤ n → bit_and a 0 ≡ 0
bit_and_none n zero h = omega (arith, bit_and-bitwise 0 0)
bit_and_none zero (suc a) h = elim h [ ]
bit_and_none (suc n) (suc a) h =
    omega (arith, bit_and_digit (suc a) 0, bit_and_none n (suc a / 2) (omega arith))

pow_pos : (k : ℕ) → 0 < 2 ^ k
pow_pos zero = omega arith
pow_pos (suc k) = omega (arith, pow_pos k, pow-suc 2 k)

mod_double : (x m : ℕ) → 0 < m → x % (m * 2) ≡ 2 * (x / 2 % m) + x % 2
mod_double x m h =
    let q : ℕ = x / (m * 2) in
    let e : x / 2 / m ≡ q = div-div-eq-div-mul x 2 m ∙ ap (λ k. x / k) (omega arith) in
    omega (
      arith,
      div-add-mod x (m * 2),
      div-add-mod (x / 2) m,
      ap (λ t. m * t) e,
      mod-lt x {m = m * 2} (omega arith),
      mod-lt (x / 2) h,
    )

-- A mask of `k` ones takes the remainder by `2 ^ k`.
pub mask_low : (k x : ℕ) → bit_and x (2 ^ k - 1) ≡ x % 2 ^ k
mask_low zero x = omega (arith, bit_and_none x x (omega arith))
mask_low (suc k) x =
    let e : 2 ^ suc k ≡ 2 ^ k * 2 = pow-suc 2 k in
    let half : (2 ^ suc k - 1) / 2 ≡ 2 ^ k - 1 = omega (arith, pow_pos k) in
    let odd : (2 ^ suc k - 1) % 2 ≡ 1 = omega (arith, pow_pos k) in
    bit_and_digit x (2 ^ suc k - 1)
    ∙ rw (half, odd, mask_low k (x / 2), e, mod_double x (2 ^ k) (pow_pos k)) (omega arith)

-- A mask of the ones from `2 ^ k` up drops that remainder.
pub mask_high : (k w x : ℕ) → k ≤ w → x < 2 ^ w → bit_and x (2 ^ w - 2 ^ k) ≡ x / 2 ^ k * 2 ^ k
mask_high zero w x h lt = mask_low w x ∙ mod-eq_of_lt lt ∙ omega arith
mask_high (suc k) zero x h lt = elim h [ ]
mask_high (suc k) (suc w) x h lt =
    let e : 2 ^ suc k ≡ 2 ^ k * 2 = pow-suc 2 k in
    let f : 2 ^ suc w ≡ 2 ^ w * 2 = pow-suc 2 w in
    let half : (2 ^ suc w - 2 ^ suc k) / 2 ≡ 2 ^ w - 2 ^ k = omega arith in
    let even : (2 ^ suc w - 2 ^ suc k) % 2 ≡ 0 = omega arith in
    let q : x / 2 ^ suc k ≡ x / 2 / 2 ^ k =
      ap (λ t. x / t) (e ∙ omega arith) ∙ sym (div-div-eq-div-mul x 2 (2 ^ k)) in
    bit_and_digit x (2 ^ suc w - 2 ^ suc k)
    ∙ rw (half, even, mask_high k w (x / 2) (omega arith) (omega arith), q)
        (omega (arith, ap (λ t. x / 2 / 2 ^ k * t) e))
