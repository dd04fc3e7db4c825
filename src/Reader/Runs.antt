-- ===== src/Reader/Runs.antt =====
-- The read loop returns one run of bytes, and the erase loop writes one run of the erase value.
use zephyr_goodies.Base.{
  ℕ, zero, suc, ◌+◌, ◌*◌, ◌≤◌, ◌<◌, ◌≡◌, refl, sym, ap, ◌∙◌, List, [], ◌∷◌, ◌++◌, length,
  length-replicate, replicate, Memory, slice, splice, slice-append, splice-append, splice-nil,
  arith,
}
use zephyr_goodies.Errno.{Rc, ok}
use zephyr_goodies.Size.{size_mod, size_add}
use zephyr_goodies.Medium.{total}
use zephyr_goodies.Reader.{read_each, fill_blocks}

pub replicate_add : (m n a : ℕ) → replicate (m + n) a ≡ replicate m a ++ replicate n a
replicate_add zero n a = ap (λ k. replicate k a) (omega arith)
replicate_add (suc m) n a = ap (λ k. replicate k a) e ∙ ap (λ l. a ∷ l) (replicate_add m n a)
  where
    e : suc m + n ≡ suc (m + n)
    e = omega arith

module _ {S : Type 0} (view : S → Memory) (Inv : S → Type 0) (limit : ℕ)
    (small : limit < size_mod) where
  -- Reads below the limit return the bytes that stand there.
  abbrev pub Reads : (ℕ → ℕ → S → Rc × List ℕ) → Type 0
  Reads read =
      (off n : ℕ) (s : S) → Inv s → off + n ≤ limit → read off n s ≡ (ok, slice (view s) off n)

  pub read_each-slice :
      (read : ℕ → ℕ → S → Rc × List ℕ) (ns : List ℕ) (off : ℕ) (s : S)
      → Reads read
      → Inv s
      → off + total ns ≤ limit
      → read_each read off ns s ≡ (ok, slice (view s) off (total ns))
  unfolding read_each slice
  read_each-slice read [] off s law i h = refl
  read_each-slice read (n ∷ ns) off s law i h =
      let e : size_add off n ≡ off + n = omega arith in
      rw (law off n s i (omega arith), e, read_each-slice read ns (off + n) s law i (omega arith))
        (ap (λ l. (ok, l)) (sym (slice-append (view s) off n (total ns))))

  -- Writes below the limit put their bytes at their position.
  abbrev pub Writes : (ℕ → List ℕ → S → Rc × S) → Type 0
  Writes write =
      (off : ℕ) (bytes : List ℕ) (s : S)
      → Inv s
      → off + length bytes ≤ limit
      → ((write off bytes s).0 ≡ ok)
        × (view (write off bytes s).1 ≡ splice (view s) off bytes)
        × Inv (write off bytes s).1

  pub fill_blocks-splice :
      (write : ℕ → List ℕ → S → Rc × S) (step v bcnt off : ℕ) (s : S)
      → Writes write
      → Inv s
      → off + bcnt * step ≤ limit
      → let r = fill_blocks write step (replicate step v) bcnt off s in
        (r.0 ≡ ok) × (view r.1 ≡ splice (view s) off (replicate (bcnt * step) v)) × Inv r.1
  unfolding fill_blocks
  fill_blocks-splice write step v zero off s law i h = (
    refl,
    sym (
        ap (λ l. splice (view s) off l) (ap (λ k. replicate k v) zero_left)
        ∙ splice-nil (view s) off),
    i,
  )
    where
      zero_left : 0 * step ≡ 0
      zero_left = omega arith
  fill_blocks-splice write step v (suc bcnt) off s law i h =
      let n = length-replicate step v in
      let one = law off (replicate step v) s i (omega (arith, n)) in
      let s' = (write off (replicate step v) s).1 in
      let e : size_add off step ≡ off + step = omega arith in
      let rest = fill_blocks-splice write step v bcnt (off + step) s' law (one.2) (omega arith) in
      let more : suc bcnt * step ≡ step + bcnt * step = omega arith in
      rw (one.0, e, more)
        (
          rest.0,
          rest.1
              ∙ ap (λ m. splice m (off + step) (replicate (bcnt * step) v)) (one.1)
              ∙ ap
                  (λ k.
                    splice (splice (view s) off (replicate step v)) (off + k)
                      (replicate (bcnt * step) v))
                  (sym n)
              ∙ sym (splice-append (view s) off (replicate step v) (replicate (bcnt * step) v))
              ∙ ap (splice (view s) off) (sym (replicate_add step (bcnt * step) v)),
          rest.2,
        )
