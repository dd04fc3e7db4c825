-- ===== src/Writer/Returns.antt =====
-- The writer loop ends if the writes of its runs do.
use zephyr_goodies.Base.{ℕ, ◌≢◌, List, [], ◌∷◌, Bool, true, false, if◌then◌else◌}
use zephyr_goodies.Errno.{Rc, ok, out_of_fuel, ◌>>=◌}
use zephyr_goodies.Writer.{
  Gather, put_run, keep_tail, put_units, fill_pending, put_buffer, put_buffers,
}

module _ {S : Type 0} (emit : ℕ → List ℕ → S → Rc × S) (step : ℕ → ℕ → ℕ) (align : ℕ)
    (emits : (pos : ℕ) (run : List ℕ) (dev : S) → (emit pos run dev).0 ≢ out_of_fuel) where
  abbrev Returns : Rc × Gather S → Type 0
  Returns m = m.0 ≢ out_of_fuel

  done : (g : Gather S) → Returns (ok, g)
  done g e = cc

  proceed-Returns :
      (m : Rc × Gather S) (k : Gather S → Rc × Gather S)
      → Returns m
      → ((g : Gather S) → Returns (k g))
      → Returns (m >>= k)
  proceed-Returns (ok, g) k r f = f g
  proceed-Returns (_, g) k r f = r

  if-Returns :
      (b : Bool) (x y : Rc × Gather S) → Returns x → Returns y → Returns (if b then x else y)
  if-Returns true x y r q = r
  if-Returns false x y r q = q

  put_run-Returns : (g : Gather S) (run : List ℕ) → Returns (put_run emit step align g run)
  unfolding put_run
  put_run-Returns g run = proceed-Returns _ _ (emits g.pos run g.dev) (λ g e. cc)

  keep_tail-Returns : (g : Gather S) (bytes : List ℕ) → Returns (keep_tail emit step align g bytes)
  unfolding keep_tail
  keep_tail-Returns g bytes = if-Returns _ _ _ (done (record g { pending = bytes })) (done g)

  put_units-Returns : (g : Gather S) (bytes : List ℕ) → Returns (put_units emit step align g bytes)
  unfolding put_units
  put_units-Returns g bytes =
      if-Returns _ _ _ (proceed-Returns _ _ (put_run-Returns g _) (λ g. keep_tail-Returns g _))
        (keep_tail-Returns g bytes)

  fill_pending-Returns :
      (g : Gather S) (bytes : List ℕ) → Returns (fill_pending emit step align g bytes)
  unfolding fill_pending
  fill_pending-Returns g bytes =
      if-Returns _ _ _ (proceed-Returns _ _ (put_run-Returns _ _) (λ g. put_units-Returns _ _))
        (put_units-Returns _ _)

  put_buffer-Returns :
      (g : Gather S) (bytes : List ℕ) → Returns (put_buffer emit step align g bytes)
  unfolding put_buffer
  put_buffer-Returns g bytes =
      if-Returns _ _ _ (fill_pending-Returns g bytes) (put_units-Returns g bytes)

  pub put_buffers-Returns :
      (g : Gather S) (bs : List (List ℕ)) → Returns (put_buffers emit step align g bs)
  unfolding put_buffers
  put_buffers-Returns g [] = done g
  put_buffers-Returns g (b ∷ bs) =
      proceed-Returns _ _ (put_buffer-Returns g b) (λ g. put_buffers-Returns g bs)
