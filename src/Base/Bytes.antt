-- ===== src/Base/Bytes.antt =====
-- Byte memory: a byte at each address, reading a run of bytes, and writing one.
use Prim.Native.Nat.{ℕ, zero, suc, ◌+◌, ◌-◌, ◌≤◌, ◌<◌}
use mathlib.Core.Path.{◌≡◌, refl, sym, ap, ap₂, ◌∙◌}
use mathlib.Core.Logic.{◌⊎◌, inl, inr, ◌≢◌}
use mathlib.Core.List.{List, [], ◌∷◌, ◌++◌}
use native.Mathlib.Omega.{arith}
use zephyr_goodies.Base.Tests.{◌==◌, if◌then◌else◌, Bool-cases, ==→eq, ==_false→ne}
use zephyr_goodies.Base.Lists.{take, drop, length}

abbrev pub Memory : Type 0
Memory = ℕ → ℕ

-- `n` bytes from address `a` on.
unfoldable pub slice : Memory → ℕ → ℕ → List ℕ
slice m a zero = []
slice m a (suc n) = m a ∷ slice m (suc a) n

-- One byte put at address `a`.
abbrev pub poke : Memory → ℕ → ℕ → Memory
poke m a v b = if a == b then v else m b

-- `memcpy(a, d, length d)`.
unfoldable pub splice : Memory → ℕ → List ℕ → Memory
splice m a [] = m
splice m a (x ∷ xs) = splice (poke m a x) (suc a) xs

pub length-slice : (m : Memory) (a n : ℕ) → length (slice m a n) ≡ n
unfolding slice
length-slice m a zero = refl
length-slice m a (suc n) = ap suc (length-slice m (suc a) n)

-- A write changes nothing outside its run.
pub splice_outside :
    (m : Memory) (a : ℕ) (d : List ℕ) (b : ℕ) → (b < a) ⊎ (a + length d ≤ b) → splice m a d b ≡ m b
unfolding splice
splice_outside m a [] b h = refl
splice_outside m a (x ∷ xs) b h =
    splice_outside (poke m a x) (suc a) xs b (omega arith) ∙ ground arith

pub slice-splice_disjoint :
    (m : Memory) (b : ℕ) (d : List ℕ) (a n : ℕ)
    → (a + n ≤ b) ⊎ (b + length d ≤ a)
    → slice (splice m b d) a n ≡ slice m a n
unfolding slice
slice-splice_disjoint m b d a zero h = refl
slice-splice_disjoint m b d a (suc n) h =
    ap₂ ◌∷◌ (splice_outside m b d a (omega arith))
      (slice-splice_disjoint m b d (suc a) n (omega arith))

-- What was written is read back.
pub slice-splice_self : (m : Memory) (a : ℕ) (d : List ℕ) → slice (splice m a d) a (length d) ≡ d
unfolding slice splice
slice-splice_self m a [] = refl
slice-splice_self m a (x ∷ xs) =
    ap₂ ◌∷◌ (splice_outside (poke m a x) (suc a) xs a (omega arith) ∙ ground arith)
      (slice-splice_self (poke m a x) (suc a) xs)

-- Two writes side by side are one.
pub splice-append :
    (m : Memory) (a : ℕ) (x y : List ℕ)
    → splice m a (x ++ y) ≡ splice (splice m a x) (a + length x) y
unfolding splice
splice-append m a [] y = let e : a ≡ a + 0 = omega arith in ap (λ k. splice m k y) e
splice-append m a (x ∷ xs) y =
    splice-append (poke m a x) (suc a) xs y
    ∙ (let e : suc a + length xs ≡ a + suc (length xs) = omega arith in
        ap (λ k. splice (splice (poke m a x) (suc a) xs) k y) e)

-- Two reads side by side are one.
pub slice-append : (m : Memory) (a n k : ℕ) → slice m a (n + k) ≡ slice m a n ++ slice m (a + n) k
unfolding slice
slice-append m a zero k =
    let e : 0 + k ≡ k = omega arith in
    let f : a ≡ a + 0 = omega arith in ap (λ j. slice m a j) e ∙ ap (λ j. slice m j k) f
slice-append m a (suc n) k =
    let e : suc n + k ≡ suc (n + k) = omega arith in
    let f : suc a + n ≡ a + suc n = omega arith in
    ap (λ j. slice m a j) e
    ∙ ap (λ r. m a ∷ r) (slice-append m (suc a) n k ∙ ap (λ j. slice m (suc a) n ++ slice m j k) f)

pub slice-zero : (m : Memory) (a : ℕ) → slice m a 0 ≡ []
unfolding slice
slice-zero m a = refl

pub splice-nil : (m : Memory) (a : ℕ) → splice m a [] ≡ m
unfolding splice
splice-nil m a = refl

-- Lists of one length split in one way.
pub append-injective :
    (x x' y y' : List ℕ) → length x ≡ length x' → x ++ y ≡ x' ++ y' → (x ≡ x') × (y ≡ y')
append-injective [] [] y y' h e = (refl, e)
append-injective [] (b ∷ x') y y' h e = absurd (omega arith)
append-injective (a ∷ x) [] y y' h e = absurd (omega arith)
append-injective (a ∷ x) (b ∷ x') y y' h e =
    let rest : (x ≡ x') × (y ≡ y') = append-injective x x' y y' (omega arith) (cc) in
    (cc (rest.0), rest.1)

-- The two parts of what a read returns stand where the read found them.
pub slice_parts :
    (m : Memory) (a : ℕ) (x y : List ℕ)
    → slice m a (length x + length y) ≡ x ++ y
    → (slice m a (length x) ≡ x) × (slice m (a + length x) (length y) ≡ y)
slice_parts m a x y h =
    append-injective (slice m a (length x)) x (slice m (a + length x) (length y)) y
      (length-slice m a (length x)) (sym (slice-append m a (length x) (length y)) ∙ h)

pub take-slice : (m : Memory) (a c n : ℕ) → c ≤ n → take c (slice m a n) ≡ slice m a c
unfolding slice
take-slice m a zero n h = refl
take-slice m a (suc c) zero h = elim h [ ]
take-slice m a (suc c) (suc n) h = ap (λ l. m a ∷ l) (take-slice m (suc a) c n (omega arith))

pub drop-slice : (m : Memory) (a b n : ℕ) → b ≤ n → drop b (slice m a n) ≡ slice m (a + b) (n - b)
unfolding slice
drop-slice m a zero n h = ap₂ (slice m) (omega arith) (omega arith)
drop-slice m a (suc b) zero h = elim h [ ]
drop-slice m a (suc b) (suc n) h =
    drop-slice m (suc a) b n (omega arith) ∙ ap₂ (slice m) (omega arith) (omega arith)

-- A part of a run.
pub take-drop-slice :
    (m : Memory) (a b c n : ℕ) → b + c ≤ n → take c (drop b (slice m a n)) ≡ slice m (a + b) c
take-drop-slice m a b c n h =
    ap (take c) (drop-slice m a b n (omega arith)) ∙ take-slice m (a + b) c (n - b) (omega arith)

-- A run is known by its bytes.
pub slice-ext :
    (m m' : Memory) (a n : ℕ)
    → ((b : ℕ) → a ≤ b → b < a + n → m b ≡ m' b)
    → slice m a n ≡ slice m' a n
unfolding slice
slice-ext m m' a zero h = refl
slice-ext m m' a (suc n) h =
    ap₂ ◌∷◌ (h a (omega arith) (omega arith))
      (slice-ext m m' (suc a) n (λ b l u. h b (omega arith) (omega arith)))

pub slice-get :
    (m m' : Memory) (a n b : ℕ) → slice m a n ≡ slice m' a n → a ≤ b → b < a + n → m b ≡ m' b
unfolding slice
slice-get m m' a zero b e l u = absurd (omega arith)
slice-get m m' a (suc n) b e l u = elim (Bool-cases (a == b)) [
  | inl h ↦
      let at : a ≡ b = ==→eq a b h in let same : m a ≡ m' a = cc in ap m (sym at) ∙ same ∙ ap m' at
  | inr h ↦
      let far : a ≢ b = ==_false→ne a b h in
      let rest : slice m (suc a) n ≡ slice m' (suc a) n = cc in
      slice-get m m' (suc a) n b rest (omega arith) (omega arith)
]
