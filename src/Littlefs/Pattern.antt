-- ===== src/Littlefs/Pattern.antt =====
-- samples/subsys/fs/littlefs-eeprom/src/main.c: the bytes of the test file.
use zephyr_goodies.Base.{
  ℕ, zero, suc, ◌+◌, ◌-◌, ◌*◌, ◌/◌, ◌%◌, ◌<◌, ◌≤◌, ◌≡◌, ◌⊎◌, ◌≢◌, ==→eq, ==_false→ne, lt→ltb,
  ne→==_false, ap₂, inl, inr, refl, sym, ap, ◌∙◌, true, List, ltb, ◌==◌, if◌then◌else◌, Bool-cases,
  Memory, slice, splice, poke, replicate, splice_outside, slice-ext, slice-get, arith,
}

-- `p[i] += inc` on a `uint8_t`.
abbrev pub add_byte : ℕ → ℕ → ℕ
add_byte x inc = (x + inc) % 256

abbrev fill_of : ℕ → ℕ
fill_of first = if (first % 2) == 0 then 170 else 85

-- What the loop leaves in byte `i` that held `x`.
bumped : ℕ → ℕ → ℕ → ℕ → ℕ
bumped fill inc x i = if (i % 8) == 0 then add_byte x inc else fill

incr_loop : ℕ → ℕ → ℕ → ℕ → Memory → Memory
incr_loop fill inc zero i p = p
incr_loop fill inc (suc n) i p = incr_loop fill inc n (suc i) (poke p i (bumped fill inc (p i) i))

unfoldable pub incr_pattern : Memory → ℕ → ℕ → Memory
unfolding incr_loop bumped
incr_pattern p size inc =
    let p' = incr_loop (fill_of (p 0)) inc (size - 1) 0 p in
    poke p' (size - 1) (add_byte (p' (size - 1)) inc)

-- `for (int i = 0; i < size; i += 8) { p[i] = v++; }`; `size` rounds are more than it makes.
init_loop : ℕ → ℕ → ℕ → ℕ → Memory → Memory
init_loop zero size i v p = p
init_loop (suc fuel) size i v p =
    let rest = init_loop fuel size (i + 8) (add_byte v 1) (poke p i v) in
    if ltb i size then rest else p

unfoldable pub init_pattern : Memory → ℕ → Memory
unfolding init_loop
init_pattern p size = poke (init_loop size size 0 1 (splice p 0 (replicate size 85))) (size - 1) 170

poke_same : (m : Memory) (a v : ℕ) → poke m a v a ≡ v
poke_same m a v = ground arith

poke_other : (m : Memory) (a v b : ℕ) → (b < a) ⊎ (a < b) → poke m a v b ≡ m b
poke_other m a v b h = ground arith

incr_loop_outside :
    (fill inc n i : ℕ) (p : Memory) (b : ℕ)
    → (b < i) ⊎ (i + n ≤ b)
    → incr_loop fill inc n i p b ≡ p b
unfolding incr_loop
incr_loop_outside fill inc zero i p b h = refl
incr_loop_outside fill inc (suc n) i p b h =
    incr_loop_outside fill inc n (suc i) (poke p i (bumped fill inc (p i) i)) b (omega arith)
    ∙ poke_other p i (bumped fill inc (p i) i) b (omega arith)

incr_loop_inside :
    (fill inc n i : ℕ) (p : Memory) (b : ℕ)
    → i ≤ b
    → b < i + n
    → incr_loop fill inc n i p b ≡ bumped fill inc (p b) b
unfolding incr_loop
incr_loop_inside fill inc zero i p b h l = absurd (omega arith)
incr_loop_inside fill inc (suc n) i p b h l =
    let q : Memory = poke p i (bumped fill inc (p i) i) in
    elim (Bool-cases (i == b)) [
      | inl e ↦
          let at : i ≡ b = ==→eq i b e in
          incr_loop_outside fill inc n (suc i) q b (omega arith)
          ∙ ap (poke p i (bumped fill inc (p i) i)) (sym at)
          ∙ poke_same p i (bumped fill inc (p i) i)
          ∙ ap (λ k. bumped fill inc (p k) k) at
      | inr e ↦
          let far : i ≢ b = ==_false→ne i b e in
          incr_loop_inside fill inc n (suc i) q b (omega arith) (omega arith)
          ∙ ap (λ x. bumped fill inc x b) (poke_other p i (bumped fill inc (p i) i) b (omega arith))
    ]

-- What one round of the program's runs leaves in byte `b` of a pattern that starts with `first`.
abbrev pub next_byte : ℕ → ℕ → ℕ → ℕ → ℕ → ℕ
next_byte size inc first x b =
    if b == (size - 1)
    then add_byte x inc
    else if (b % 8) == 0
    then add_byte x inc
    else fill_of first

pub incr_pattern_at :
    (p : Memory) (size inc b : ℕ)
    → b < size
    → incr_pattern p size inc b ≡ next_byte size inc (p 0) (p b) b
unfolding incr_pattern bumped
incr_pattern_at p size inc b l =
    let q : Memory = incr_loop (fill_of (p 0)) inc (size - 1) 0 p in
    elim (Bool-cases (b == (size - 1))) [
      | inl e ↦
          let at : b ≡ size - 1 = ==→eq b (size - 1) e in
          let before : q b ≡ p b =
            incr_loop_outside (fill_of (p 0)) inc (size - 1) 0 p b (omega arith) in
          rw e (
            ap (λ k. poke q k (add_byte (q k) inc) b) (sym at)
            ∙ poke_same q b (add_byte (q b) inc)
            ∙ ap (λ x. add_byte x inc) before)
      | inr e ↦
          let far : b ≢ size - 1 = ==_false→ne b (size - 1) e in
          rw e (
            poke_other q (size - 1) (add_byte (q (size - 1)) inc) b (omega arith)
            ∙ incr_loop_inside (fill_of (p 0)) inc (size - 1) 0 p b (omega arith) (omega arith))
    ]

init_loop_outside :
    (fuel size i v : ℕ) (p : Memory) (b : ℕ) → b < i → init_loop fuel size i v p b ≡ p b
unfolding init_loop
init_loop_outside zero size i v p b l = refl
init_loop_outside (suc fuel) size i v p b l = elim (Bool-cases (ltb i size)) [
  | inl e ↦ rw e (
      init_loop_outside fuel size (i + 8) (add_byte v 1) (poke p i v) b (omega arith)
      ∙ poke_other p i v b (omega arith))
  | inr e ↦ rw e
]

first_round :
    (p : Memory) (i v r : ℕ)
    → v < 256
    → poke p i v (i + r) ≡ (if r == 0 then (v + 0) % 256 else p (i + r))
first_round p i v zero w = ground arith
first_round p i v (suc r) w =
    rw (ne→==_false (suc r) 0 (λ e. omega arith)) (poke_other p i v (i + suc r) (omega arith))

-- Byte `i + 8 * k + r`, for a round that starts at byte `i`.
init_loop_inside :
    (k fuel size i v r : ℕ) (p : Memory)
    → v < 256
    → r < 8
    → k < fuel
    → i + 8 * k + r < size
    → init_loop fuel size i v p (i + 8 * k + r)
      ≡ (if r == 0 then (v + k) % 256 else p (i + 8 * k + r))
unfolding init_loop
init_loop_inside k zero size i v r p w h f l = absurd (omega arith)
init_loop_inside zero (suc fuel) size i v r p w h f l =
    let more : ltb i size ≡ true = lt→ltb i size (omega arith) in
    let at : i + 8 * 0 + r ≡ i + r = omega arith in
    rw more (
      ap (init_loop fuel size (i + 8) (add_byte v 1) (poke p i v)) at
      ∙ init_loop_outside fuel size (i + 8) (add_byte v 1) (poke p i v) (i + r) (omega arith)
      ∙ first_round p i v r w
      ∙ ap (λ b. if r == 0 then (v + 0) % 256 else p b) (sym at))
init_loop_inside (suc k) (suc fuel) size i v r p w h f l =
    let more : ltb i size ≡ true = lt→ltb i size (omega arith) in
    let at : i + 8 * suc k + r ≡ i + 8 + 8 * k + r = omega arith in
    let wraps : (add_byte v 1 + k) % 256 ≡ (v + suc k) % 256 = omega arith in
    rw more (
      ap (init_loop fuel size (i + 8) (add_byte v 1) (poke p i v)) at
      ∙ init_loop_inside k fuel size (i + 8) (add_byte v 1) r (poke p i v) (omega arith) h
          (omega arith) (omega arith)
      ∙ ap₂ (λ x y. if r == 0 then x else y) wraps
          (poke_other p i v (i + 8 + 8 * k + r) (omega arith) ∙ ap p (sym at)))

splice-replicate :
    (n : ℕ) (m : Memory) (a x b : ℕ) → a ≤ b → b < a + n → splice m a (replicate n x) b ≡ x
unfolding splice
splice-replicate zero m a x b h l = absurd (omega arith)
splice-replicate (suc n) m a x b h l = elim (Bool-cases (a == b)) [
  | inl e ↦
      let at : a ≡ b = ==→eq a b e in
      splice_outside (poke m a x) (suc a) (replicate n x) b (inl (omega arith))
      ∙ ap (poke m a x) (sym at)
      ∙ poke_same m a x
  | inr e ↦
      let far : a ≢ b = ==_false→ne a b e in
      splice-replicate n (poke m a x) (suc a) x b (omega arith) (omega arith)
]

-- Byte `b` of a pattern of `size` bytes that was made new and then changed `n` times.
abbrev pub pattern_byte : ℕ → ℕ → ℕ → ℕ
pattern_byte size n b =
    if b == (size - 1)
    then (170 + n) % 256
    else if (b % 8) == 0
    then (1 + b / 8 + n) % 256
    else if n == 0
    then 85
    else fill_of n

pub init_pattern_at :
    (p : Memory) (size b : ℕ) → b < size → init_pattern p size b ≡ pattern_byte size 0 b
unfolding init_pattern
init_pattern_at p size b l =
    let old : Memory = splice p 0 (replicate size 85) in
    let q : Memory = init_loop size size 0 1 old in
    elim (Bool-cases (b == (size - 1))) [
      | inl e ↦
          let at : b ≡ size - 1 = ==→eq b (size - 1) e in
          rw e (ap (λ k. poke q k 170 b) (sym at) ∙ poke_same q b 170)
      | inr e ↦
          let far : b ≢ size - 1 = ==_false→ne b (size - 1) e in
          let split : b ≡ 0 + 8 * (b / 8) + b % 8 = omega arith in
          let kept : old b ≡ 85 = splice-replicate size p 0 85 b (omega arith) (omega arith) in
          rw e (
            poke_other q (size - 1) 170 b (omega arith)
            ∙ ap q split
            ∙ init_loop_inside (b / 8) size size 0 1 (b % 8) old (omega arith) (omega arith)
                (omega arith) (omega arith)
            ∙ ap₂ (λ x y. if (b % 8) == 0 then x else y) (omega arith) (ap old (sym split) ∙ kept))
    ]

pub next_byte-pattern_byte :
    (size n b : ℕ)
    → 1 < size
    → next_byte size 1 (pattern_byte size n 0) (pattern_byte size n b) b
      ≡ pattern_byte size (suc n) b
next_byte-pattern_byte size n b h =
    let start : pattern_byte size n 0 ≡ (1 + n) % 256 =
      rw (ne→==_false 0 (size - 1) (λ e. omega arith)) (omega arith) in
    let parity : fill_of (pattern_byte size n 0) ≡ fill_of (suc n) =
      let halves : pattern_byte size n 0 % 2 ≡ suc n % 2 = omega (arith, start) in
      ap (λ k. if k == 0 then 170 else 85) halves in
    elim (Bool-cases (b == (size - 1))) [
      | inl e ↦ rw e (omega arith)
      | inr e ↦ elim (Bool-cases ((b % 8) == 0)) [
        | inl k ↦ rw e (rw k (omega arith))
        | inr k ↦ rw e (
            rw k (
              parity
              ∙ ap (λ x. if x then 85 else fill_of (suc n))
                  (sym (ne→==_false (suc n) 0 (λ z. omega arith)))))
      ]
    ]

-- What the file holds after `n` changes.
abbrev pub pattern_bytes : ℕ → ℕ → List ℕ
pattern_bytes size n = slice (pattern_byte size n) 0 size

pub init_pattern_lem :
    (p : Memory) (size : ℕ) → slice (init_pattern p size) 0 size ≡ pattern_bytes size 0
init_pattern_lem p size =
    slice-ext (init_pattern p size) (pattern_byte size 0) 0 size
      (λ b _ l. init_pattern_at p size b (omega arith))

pub incr_pattern_lem :
    (p : Memory) (size n : ℕ)
    → 1 < size
    → slice p 0 size ≡ pattern_bytes size n
    → slice (incr_pattern p size 1) 0 size ≡ pattern_bytes size (suc n)
incr_pattern_lem p size n h e =
    let at : (b : ℕ) → b < size → p b ≡ pattern_byte size n b =
      λ b l. slice-get p (pattern_byte size n) 0 size b e (omega arith) (omega arith) in
    slice-ext (incr_pattern p size 1) (pattern_byte size (suc n)) 0 size (λ b _ k.
      let l : b < size = omega arith in
      incr_pattern_at p size 1 b l
      ∙ ap₂ (λ x y. next_byte size 1 x y b) (at 0 (omega arith)) (at b l)
      ∙ next_byte-pattern_byte size n b h)

abbrev pub times : ℕ → (Memory → Memory) → Memory → Memory
times zero f p = p
times (suc n) f p = f (times n f p)

-- A pattern of two bytes or more that is made new and then changed `n` times by one holds, in its
-- last byte, 170 + n; in each other byte whose number eight divides, one more than that eighth
-- plus n; and in the rest 85 or 170 as n is odd or even, but 85 at the start. Bytes wrap at 256,
-- and what stood in memory before does not matter.
pub pattern_after :
    (p : Memory) (size n : ℕ)
    → 1 < size
    → slice (times n (λ q. incr_pattern q size 1) (init_pattern p size)) 0 size
      ≡ pattern_bytes size n
pattern_after p size zero h = init_pattern_lem p size
pattern_after p size (suc n) h =
    incr_pattern_lem (times n (λ q. incr_pattern q size 1) (init_pattern p size)) size n h
      (pattern_after p size n h)
