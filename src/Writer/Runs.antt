-- ===== src/Writer/Runs.antt =====
-- The writer loop puts the bytes of all buffers, one after the other, behind its first position,
-- up to the last whole write unit.
use native.Mathlib.Nat.{zero-mod, mod_self, mod-eq_of_lt}
use zephyr_goodies.Base.{
  ℕ, ◌+◌, ◌-◌, ◌%◌, ◌≤◌, ◌<◌, ◌≡◌, refl, sym, ap, ◌∙◌, subst, inl, inr, min, List, [], ◌∷◌, ◌++◌,
  flatten, append-nil, append_assoc, leb, ◌==◌, Bool-cases, length, take, drop, length-append,
  length-take, length-drop, take-append-drop, take_all, drop_all, Memory, splice, splice-append,
  splice-nil, lt→ltb, eq_nil_of_length, lt→leb_false, leb_false→lt, ==→eq, ==_false→ne, arith,
}
use zephyr_goodies.Errno.{Rc, ok}
use zephyr_goodies.Size.{size_mod, align_down, IsPow2}
use zephyr_goodies.Size.Align.{align_down_bounds, pow2_bounds, multiple_add, mod-add_multiple}
use zephyr_goodies.Writer.{
  Gather, put_run, keep_tail, put_units, fill_pending, put_buffer, put_buffers,
}

-- What the loop relies on: a run of whole write units below `limit` is written where its position
-- says, and the position moves on by its length. `Inv` is what the device keeps.
pub record Emits {S : Type 0} (emit : ℕ → List ℕ → S → Rc × S) (step : ℕ → ℕ → ℕ) (align : ℕ)
    (view : S → Memory) (Inv : S → Type 0) (addr : ℕ → ℕ) (limit : ℕ) : Type 0 where
  pub emitted :
      (pos : ℕ) (run : List ℕ) (s : S)
      → Inv s
      → length run % align ≡ 0
      → addr pos + length run ≤ limit
      → ((emit pos run s).0 ≡ ok)
        × (view (emit pos run s).1 ≡ splice (view s) (addr pos) run)
        × Inv (emit pos run s).1
  pub stepped :
      (pos n : ℕ) → n % align ≡ 0 → addr pos + n ≤ limit → addr (step pos n) ≡ addr pos + n

module _ {S : Type 0} (emit : ℕ → List ℕ → S → Rc × S) (step : ℕ → ℕ → ℕ) (align : ℕ)
    (view : S → Memory) (Inv : S → Type 0) (addr : ℕ → ℕ) (limit : ℕ) (pow : IsPow2 align)
    (laws : Emits emit step align view Inv addr limit) where
  -- From `g`, the loop has taken `bytes` and stands at the state of `r`.
  pub record IsWritten (g : Gather S) (bytes : List ℕ) (r : Rc × Gather S) : Type 0 where
    pub done : r.0 ≡ ok
    pub written : List ℕ
    pub whole : length written % align ≡ 0
    pub split : written ++ r.1.pending ≡ g.pending ++ bytes
    pub short : length r.1.pending < align
    pub memory : view r.1.dev ≡ splice (view g.dev) (addr g.pos) written
    pub moved : addr r.1.pos ≡ addr g.pos + length written
    pub kept : Inv r.1.dev

  -- No byte yet pending or still to come lies above the limit.
  abbrev Fits : Gather S → List ℕ → Type 0
  Fits g bytes = addr g.pos + length g.pending + length bytes ≤ limit

  align_pos : 0 < align
  align_pos = (pow2_bounds align pow).0

  -- One run, with the pending bytes left as they are.
  put_run_lem :
      (g : Gather S) (run : List ℕ)
      → Inv g.dev
      → length run % align ≡ 0
      → addr g.pos + length run ≤ limit
      → (put_run emit step align g run ≡ (
        ok,
        record {
          pos = step g.pos (length run);
          pending = g.pending;
          dev = (emit g.pos run g.dev).1;
        },
      ))
        × (addr (step g.pos (length run)) ≡ addr g.pos + length run)
        × (view (emit g.pos run g.dev).1 ≡ splice (view g.dev) (addr g.pos) run)
        × Inv (emit g.pos run g.dev).1
  unfolding put_run
  put_run_lem g run i h le =
      let e = laws.emitted g.pos run g.dev i h le in
      (rw (e.0), laws.stepped g.pos (length run) h le, e.1, e.2)

  keep_tail-IsWritten :
      (pos : ℕ) (bytes : List ℕ) (s : S)
      → Inv s
      → length bytes < align
      → IsWritten
          (record { pos = pos; pending = []; dev = s })
          bytes
          (keep_tail emit step align (record { pos = pos; pending = []; dev = s }) bytes)
  unfolding keep_tail
  keep_tail-IsWritten pos [] s i lt = record {
    done = refl;
    written = [];
    whole = zero-mod align;
    split = refl;
    short = lt;
    memory = sym (splice-nil (view s) (addr pos));
    moved = omega arith;
    kept = i;
  }
  keep_tail-IsWritten pos (b ∷ bytes) s i lt =
      rw (lt→ltb 0 (length (b ∷ bytes)) (omega arith)) (record {
        done = refl;
        written = [];
        whole = zero-mod align;
        split = refl;
        short = lt;
        memory = sym (splice-nil (view s) (addr pos));
        moved = omega arith;
        kept = i;
      })

  -- What is written behind a run that is written is written behind it.
  after_run :
      (g mid : Gather S) (bytes w y : List ℕ) (r : Rc × Gather S)
      → g.pending ++ bytes ≡ w ++ (mid.pending ++ y)
      → length w % align ≡ 0
      → addr mid.pos ≡ addr g.pos + length w
      → view mid.dev ≡ splice (view g.dev) (addr g.pos) w
      → IsWritten mid y r
      → IsWritten g bytes r
  after_run g mid bytes w y r e h a v h' = record {
    done = h'.done;
    written = w ++ h'.written;
    whole =
        ap (λ n. n % align) (length-append w h'.written)
        ∙ multiple_add align (length w) (length h'.written) h h'.whole;
    split = append_assoc w h'.written r.1.pending ∙ ap (λ z. w ++ z) h'.split ∙ sym e;
    short = h'.short;
    memory = h'.memory ∙ rw (v, a) (sym (splice-append (view g.dev) (addr g.pos) w h'.written));
    moved = omega (arith, h'.moved, length-append w h'.written);
    kept = h'.kept;
  }

  IsWritten-trans :
      (g : Gather S) (x y : List ℕ) (q r : Rc × Gather S)
      → IsWritten g x q
      → IsWritten q.1 y r
      → IsWritten g (x ++ y) r
  IsWritten-trans g x y q r h h' =
      after_run g q.1 (x ++ y) h.written y r
        (sym (append_assoc g.pending x y)
          ∙ ap (λ z. z ++ y) (sym h.split)
          ∙ append_assoc h.written q.1.pending y)
        h.whole h.moved h.memory h'

  put_units-IsWritten :
      (pos : ℕ) (bytes : List ℕ) (s : S)
      → Inv s
      → length bytes < size_mod
      → addr pos + length bytes ≤ limit
      → IsWritten
          (record { pos = pos; pending = []; dev = s })
          bytes
          (put_units emit step align (record { pos = pos; pending = []; dev = s }) bytes)
  unfolding put_units
  put_units-IsWritten pos bytes s i small fits = elim (Bool-cases (leb align (length bytes))) [
    | inl long ↦ rw long (
        rw (run.0) (
          after_run g mid bytes w y _ (sym (take-append-drop n bytes))
            (ap (λ k. k % align) lw ∙ down.2) (run.1) (run.2)
            (keep_tail-IsWritten mid.pos y mid.dev (run.3)
              (omega (arith, length-drop n bytes, down)))))
    | inr tail ↦
        rw tail (keep_tail-IsWritten pos bytes s i (leb_false→lt align (length bytes) tail))
  ]
    where
      n : ℕ
      n = align_down (length bytes) align

      w : List ℕ
      w = take n bytes

      y : List ℕ
      y = drop n bytes

      g : Gather S
      g = record { pos = pos; pending = []; dev = s }

      mid : Gather S
      mid = record { pos = step pos (length w); pending = []; dev = (emit pos w s).1 }

      down : (n ≤ length bytes) × (length bytes < n + align) × (n % align ≡ 0)
      down = align_down_bounds (length bytes) align pow small

      lw : length w ≡ n
      lw = omega (arith, length-take n bytes, down)

      run :
          (put_run emit step align g w ≡ (ok, mid))
          × (addr mid.pos ≡ addr pos + length w)
          × (view mid.dev ≡ splice (view s) (addr pos) w)
          × Inv mid.dev
      run = put_run_lem g w i (ap (λ k. k % align) lw ∙ down.2) (omega (arith, lw, down))

  -- With nothing to come, pending bytes stay pending.
  put_units-nil : (g : Gather S) → put_units emit step align g [] ≡ (ok, g)
  unfolding put_units keep_tail
  put_units-nil g = rw (lt→leb_false align 0 align_pos)

  fill_pending-IsWritten :
      (g : Gather S) (bytes : List ℕ)
      → Inv g.dev
      → length g.pending < align
      → length bytes < size_mod
      → Fits g bytes
      → IsWritten g bytes (fill_pending emit step align g bytes)
  unfolding fill_pending
  fill_pending-IsWritten g bytes i lt small fits = elim (Bool-cases (length p == align)) [
    | inl full ↦ rw full (
        let lp' : length p ≡ align = ==→eq (length p) align full in
        let whole : length p % align ≡ 0 = ap (λ k. k % align) lp' ∙ mod_self align in
        let run = put_run_lem filled p i whole (omega (arith, lp, cap)) in
        rw (run.0) (
          after_run g mid bytes p y _ (sym together) whole (run.1) (run.2) (
            put_units-IsWritten mid.pos y mid.dev (run.3) (omega (arith, length-drop c bytes))
              (omega (arith, length-drop c bytes, run.1, lp, cap)))))
    | inr part ↦ rw part (
        let ne = ==_false→ne (length p) align part in
        let all : length bytes ≤ c = omega (arith, lp) in
        rw (drop_all c bytes all) (
          rw (put_units-nil filled) (record {
            done = refl;
            written = [];
            whole = zero-mod align;
            split = ap (λ z. g.pending ++ z) (take_all c bytes all);
            short = omega (arith, lp);
            memory = sym (splice-nil (view g.dev) (addr g.pos));
            moved = omega arith;
            kept = i;
          })))
  ]
    where
      c : ℕ
      c = min (length bytes) (align - length g.pending)

      p : List ℕ
      p = g.pending ++ take c bytes

      y : List ℕ
      y = drop c bytes

      filled : Gather S
      filled = record g { pending = p }

      mid : Gather S
      mid = record { pos = step g.pos (length p); pending = []; dev = (emit g.pos p g.dev).1 }

      cap : c ≤ length bytes
      cap = omega arith

      lp : length p ≡ length g.pending + c
      lp = omega (arith, length-append g.pending (take c bytes), length-take c bytes)

      together : p ++ y ≡ g.pending ++ bytes
      together =
          append_assoc g.pending (take c bytes) y
          ∙ ap (λ z. g.pending ++ z) (take-append-drop c bytes)

  put_buffer-IsWritten :
      (g : Gather S) (bytes : List ℕ)
      → Inv g.dev
      → length g.pending < align
      → length bytes < size_mod
      → Fits g bytes
      → IsWritten g bytes (put_buffer emit step align g bytes)
  unfolding put_buffer
  put_buffer-IsWritten g bytes i lt small fits = elim (Bool-cases (length g.pending == 0)) [
    | inl none_pending ↦ rw none_pending (
        subst
          (λ p.
            IsWritten (record g { pending = p }) bytes
              (put_units emit step align (record g { pending = p }) bytes))
          (sym (eq_nil_of_length g.pending (==→eq (length g.pending) 0 none_pending)))
          (put_units-IsWritten g.pos bytes g.dev i small (omega arith)))
    | inr some_pending ↦ rw some_pending (fill_pending-IsWritten g bytes i lt small fits)
  ]

  -- The loop over the buffers, from any state: with what was pending before, the bytes of all
  -- buffers are written up to the last whole unit, and what is left is pending.
  pub put_buffers-IsWritten :
      (bs : List (List ℕ)) (g : Gather S)
      → Inv g.dev
      → length g.pending < align
      → length (flatten bs) < size_mod
      → Fits g (flatten bs)
      → IsWritten g (flatten bs) (put_buffers emit step align g bs)
  unfolding put_buffers flatten
  put_buffers-IsWritten [] g i lt small fits = record {
    done = refl;
    written = [];
    whole = zero-mod align;
    split = sym (append-nil g.pending);
    short = lt;
    memory = sym (splice-nil (view g.dev) (addr g.pos));
    moved = omega arith;
    kept = i;
  }
  put_buffers-IsWritten (b ∷ bs) g i lt small fits =
      let len : length (flatten (b ∷ bs)) ≡ length b + length (flatten bs) =
        length-append b (flatten bs) in
      let one : IsWritten g b (put_buffer emit step align g b) =
        put_buffer-IsWritten g b i lt (omega arith) (omega arith) in
      let q : Rc × Gather S = put_buffer emit step align g b in
      let taken = ap length one.split in
      let rest : IsWritten q.1 (flatten bs) (put_buffers emit step align q.1 bs) =
        put_buffers-IsWritten bs q.1 one.kept one.short (omega arith) (
          omega (
            arith,
            one.moved,
            taken,
            length-append one.written q.1.pending,
            length-append g.pending b,
          )) in
      rw (one.done) (IsWritten-trans g b (flatten bs) q _ one rest)

  -- Over a device that writes runs of whole units below a limit where their position says, the
  -- writer loop, started with nothing pending on buffers that hold a whole number of write units,
  -- no more than 32 bits count and none above the limit, succeeds and puts the bytes of all
  -- buffers, in order, at its position, and changes no other byte.
  pub put_buffers_whole :
      (bs : List (List ℕ)) (pos : ℕ) (s : S)
      → Inv s
      → length (flatten bs) < size_mod
      → length (flatten bs) % align ≡ 0
      → addr pos + length (flatten bs) ≤ limit
      → let r = put_buffers emit step align (record { pos = pos; pending = []; dev = s }) bs in
        (r.0 ≡ ok) × (view r.1.dev ≡ splice (view s) (addr pos) (flatten bs)) × Inv r.1.dev
  put_buffers_whole bs pos s i small whole fits =
      (h.done, h.memory ∙ ap (λ z. splice (view s) (addr pos) z) all, h.kept)
    where
      g : Gather S
      g = record { pos = pos; pending = []; dev = s }

      r : Rc × Gather S
      r = put_buffers emit step align g bs

      h : IsWritten g (flatten bs) r
      h = put_buffers-IsWritten bs g i align_pos small (omega arith)

      rest : (length h.written + length r.1.pending) % align ≡ 0
      rest =
          ap (λ k. k % align) (sym (length-append h.written r.1.pending) ∙ ap length h.split)
          ∙ whole

      none_left : length r.1.pending ≡ 0
      none_left =
          sym (mod-eq_of_lt h.short)
          ∙ mod-add_multiple align (length h.written) (length r.1.pending) h.whole
          ∙ rest

      all : h.written ≡ flatten bs
      all =
          sym (append-nil h.written)
          ∙ ap (λ z. h.written ++ z) (sym (eq_nil_of_length r.1.pending none_left))
          ∙ h.split
