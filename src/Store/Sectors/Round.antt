-- ===== src/Store/Sectors/Round.antt =====
-- The steps from sector to sector go round the store.
use native.Mathlib.Nat.{mod_self, mod-eq_of_lt, add-mod, mod-mod}
use zephyr_goodies.Base.{
  ℕ, zero, suc, ◌+◌, ◌%◌, ◌<◌, ◌≡◌, ◌≢◌, refl, sym, ap, ◌∙◌, inl, inr, ◌==◌, if◌then◌else◌,
  Bool-cases, ==→eq, ==_false→ne, arith,
}
use zephyr_goodies.Size.{size_mod, size_add, size_sub}
use zephyr_goodies.Store.Sectors.{sector_advance, sector_reverse}

module _ (cnt : ℕ) (counted : cnt < size_mod) where
  step_lem :
      (sector : ℕ)
      → sector < cnt
      → (if size_add sector 1 == cnt then 0 else size_add sector 1) ≡ (sector + 1) % cnt
  step_lem sector h =
      let e : size_add sector 1 ≡ sector + 1 = omega arith in
      elim (Bool-cases (size_add sector 1 == cnt)) [
        | inl last ↦
            let all : sector + 1 ≡ cnt = sym e ∙ ==→eq (size_add sector 1) cnt last in
            rw last (sym (ap (λ k. k % cnt) all ∙ mod_self cnt))
        | inr more ↦
            let lt : sector + 1 < cnt =
              omega (arith, below sector h e (==_false→ne (size_add sector 1) cnt more)) in
            rw more (e ∙ sym (mod-eq_of_lt lt))
      ]
    where
      below : (k : ℕ) → k < cnt → size_add k 1 ≡ k + 1 → size_add k 1 ≢ cnt → k + 1 < cnt
      below k lt e ne = ground arith

  step_below :
      (sector : ℕ)
      → sector < cnt
      → (if size_add sector 1 == cnt then 0 else size_add sector 1) < cnt
  step_below sector h = ground arith

  -- `sector_advance` by any number of steps, from a sector of a store whose sectors 32 bits count,
  -- is addition modulo the number of sectors.
  pub sector_advance-eq-mod :
      (sector n : ℕ) → sector < cnt → sector_advance cnt sector n ≡ (sector + n) % cnt
  unfolding sector_advance
  sector_advance-eq-mod sector zero h =
      let e : sector + 0 ≡ sector = omega arith in sym (ap (λ k. k % cnt) e ∙ mod-eq_of_lt h)
  sector_advance-eq-mod sector (suc n) h =
      let next = if size_add sector 1 == cnt then 0 else size_add sector 1 in
      let e : sector + suc n ≡ sector + 1 + n = omega arith in
      sector_advance-eq-mod next n (step_below sector h)
      ∙ ap (λ k. (k + n) % cnt) (step_lem sector h)
      ∙ add-mod ((sector + 1) % cnt) n cnt
      ∙ ap (λ k. (k + n % cnt) % cnt) (mod-mod (sector + 1) cnt)
      ∙ sym (add-mod (sector + 1) n cnt)
      ∙ ap (λ k. k % cnt) (sym e)

  abbrev back : ℕ → ℕ
  back sector = size_sub (if sector == 0 then cnt else sector) 1

  reverse_last :
      (sector n : ℕ) → sector_reverse cnt sector (suc n) ≡ back (sector_reverse cnt sector n)
  unfolding sector_reverse
  reverse_last sector zero = refl
  reverse_last sector (suc n) = reverse_last (back sector) n

  back-step :
      (sector : ℕ)
      → sector < cnt
      → back (if size_add sector 1 == cnt then 0 else size_add sector 1) ≡ sector
  back-step sector h = ground arith

  -- `sector_reverse` takes back what `sector_advance` did, for any number of steps, from a sector of
  -- a store whose sectors 32 bits count.
  pub sector_reverse-sector_advance :
      (sector n : ℕ) → sector < cnt → sector_reverse cnt (sector_advance cnt sector n) n ≡ sector
  unfolding sector_advance sector_reverse
  sector_reverse-sector_advance sector zero h = refl
  sector_reverse-sector_advance sector (suc n) h =
      let next = if size_add sector 1 == cnt then 0 else size_add sector 1 in
      reverse_last (sector_advance cnt next n) n
      ∙ ap back (sector_reverse-sector_advance next n (step_below sector h))
      ∙ back-step sector h
