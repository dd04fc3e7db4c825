-- ===== src/Store/Compact/Copy.antt =====
-- The copy loop of `store_move_record` copies a record, with the wrap count of the write position.
use zephyr_goodies.Base.{
  ℕ, zero, suc, ◌+◌, ◌-◌, ◌%◌, ◌≤◌, ◌<◌, ◌≡◌, refl, sym, subst, ap, ap₂, ◌∙◌, ◌⊎◌, inl, inr, true,
  some, List, [], ◌∷◌, ◌++◌, append-nil, flatten, ltb, ltb→lt, lt→ltb, ltb_false→le, ◌==◌,
  ne→==_false, Bool-cases, length, length-slice, Memory, slice, splice, slice-append, splice-append,
  slice-zero, splice-nil, slice-splice_disjoint, arith,
}
use zephyr_goodies.Errno.{ok}
use zephyr_goodies.Size.{size_mod, size_add, size_sub}
use zephyr_goodies.Size.Align.{multiple_add, multiple_sub}
use zephyr_goodies.Area.{writev}
use zephyr_goodies.Medium.{IsMedium, area_size}
use zephyr_goodies.Store.{Platform, IsPlatform, Store, World, sas_min, buffer_size}
use zephyr_goodies.Store.Layout.{IsLaidOut}
use zephyr_goodies.Store.Check.Crc.{read_inside}
use zephyr_goodies.Store.Advance.Fresh.{chunk_lem}
use zephyr_goodies.Store.Compact.{stamp, copy_loop}

module _ {S : Type 0} (lib : Platform) (st : Store S) where
  stamp_later :
      (start wrapcnt : ℕ) (buf : List ℕ) → 0 < start → stamp lib st start wrapcnt buf ≡ buf
  unfolding stamp
  stamp_later start wrapcnt buf h = rw (ne→==_false start 0 (omega arith)) refl

  -- A first run has the byte that is stamped.
  abbrev IsEnough : ℕ → ℕ → Type 0
  IsEnough start len = (2 ≤ len) ⊎ (0 < start)

  -- The stamp goes to the first run.
  stamp-append :
      (start wrapcnt : ℕ) (x y : List ℕ)
      → IsEnough start (length x)
      → stamp lib st start wrapcnt (x ++ y) ≡ stamp lib st start wrapcnt x ++ y
  unfolding stamp
  stamp-append start wrapcnt x y (inr h) =
      stamp_later start wrapcnt (x ++ y) h ∙ ap (λ l. l ++ y) (sym (stamp_later start wrapcnt x h))
  stamp-append start wrapcnt [] y (inl h) = absurd (omega arith)
  stamp-append start wrapcnt (a ∷ []) y (inl h) = absurd (omega arith)
  stamp-append start wrapcnt (a ∷ b ∷ x) y (inl h) = elim (Bool-cases (start == 0)) [
    | inl first ↦ rw first refl
    | inr later ↦ rw later refl
  ]

  pub length-stamp :
      (start wrapcnt : ℕ) (x : List ℕ)
      → IsEnough start (length x)
      → length (stamp lib st start wrapcnt x) ≡ length x
  unfolding stamp
  length-stamp start wrapcnt x (inr h) = ap length (stamp_later start wrapcnt x h)
  length-stamp start wrapcnt [] (inl h) = absurd (omega arith)
  length-stamp start wrapcnt (a ∷ []) (inl h) = absurd (omega arith)
  length-stamp start wrapcnt (a ∷ b ∷ x) (inl h) = elim (Bool-cases (start == 0)) [
    | inl first ↦ rw first refl
    | inr later ↦ rw later refl
  ]

module _ {S : Type 0} (lib : Platform) (st : Store S) (view : S → Memory) (Inv : S → Type 0)
    (laws : IsPlatform lib) (medium : IsMedium st.area view Inv) (laid : IsLaidOut st)
    (rd wr al : ℕ) (from : rd + al ≤ area_size st.area.geometry)
    (to : wr + al ≤ area_size st.area.geometry) (unit : wr % st.area.geometry.write_size ≡ 0)
    (whole : al % st.area.geometry.write_size ≡ 0) (long : 2 ≤ al)
    (apart : (rd + al ≤ wr) ⊎ (wr + al ≤ rd)) where
  -- What the loop leaves behind.
  pub record IsCopied (start : ℕ) (w w' : World S) : Type 0 where
    pub memory :
        view w'.dev
        ≡ splice
            (view w.dev)
            (wr + start)
            (stamp lib st start w.sd.wrapcnt (slice (view w.dev) (rd + start) (al - start)))
    pub moved : w'.sd ≡ record w.sd { loc = w.sd.loc + (al - start) }
    pub kept : Inv w'.dev

  abbrev data_from : Memory → ℕ → ℕ → List ℕ
  data_from m wrapcnt start = stamp lib st start wrapcnt (slice m (rd + start) (al - start))

  -- A run and what is copied behind it.
  joined :
      (m : Memory) (start len wrapcnt : ℕ)
      → start + len ≤ al
      → 0 < len
      → IsEnough lib st start len
      → let m' = splice m (wr + start) (stamp lib st start wrapcnt (slice m (rd + start) len)) in
        splice m' (wr + (start + len)) (data_from m' wrapcnt (start + len))
        ≡ splice m (wr + start) (data_from m wrapcnt start)
  joined m start len wrapcnt le some_len enough =
      let x = slice m (rd + start) len in
      let y = slice m (rd + start + len) (al - (start + len)) in
      let sx = stamp lib st start wrapcnt x in
      let n : length x ≡ len = length-slice m (rd + start) len in
      let good : IsEnough lib st start (length x) = subst (IsEnough lib st start) (sym n) enough in
      let ns : length sx ≡ len = length-stamp lib st start wrapcnt x good ∙ n in
      let kept : slice (splice m (wr + start) sx) (rd + (start + len)) (al - (start + len)) ≡ y =
        slice-splice_disjoint m (wr + start) sx (rd + (start + len)) (al - (start + len))
          (omega (arith, ns, apart))
        ∙ ap (λ k. slice m k (al - (start + len))) (omega arith) in
      let parts : slice m (rd + start) (al - start) ≡ x ++ y =
        ap (slice m (rd + start)) (omega arith)
        ∙ slice-append m (rd + start) len (al - (start + len)) in
      ap₂ (splice (splice m (wr + start) sx)) (omega (arith, ns))
        (stamp_later lib st (start + len) wrapcnt _ (omega arith) ∙ kept)
      ∙ sym (splice-append m (wr + start) sx y)
      ∙ ap (splice m (wr + start))
          (sym (ap (stamp lib st start wrapcnt) parts ∙ stamp-append lib st start wrapcnt x y good))

  len_at-IsEnough :
      (start : ℕ)
      → start ≤ al
      → start < al
      → IsEnough lib st start (sas_min (buffer_size st) (al - start))
  len_at-IsEnough start le lt = elim (Bool-cases (ltb 0 start)) [
    | inl later ↦ inr (ltb→lt 0 start later)
    | inr first ↦ let z = ltb_false→le 0 start first in inl (ground arith)
  ]

  abbrev len_at : ℕ → ℕ
  len_at start = sas_min (buffer_size st) (al - start)

  abbrev run_at : ℕ → World S → List ℕ
  run_at start w = stamp lib st start w.sd.wrapcnt (slice (view w.dev) (rd + start) (len_at start))

  -- The world behind a round.
  abbrev next : ℕ → World S → World S
  next start w = record {
    dev = (writev (some st.area) (wr + start) (run_at start w ∷ []) w.dev).1;
    sd = record w.sd { loc = w.sd.loc + len_at start };
  }

  chunk :
      (start : ℕ)
      → start ≤ al
      → start % st.area.geometry.write_size ≡ 0
      → start < al
      → (len_at start % st.area.geometry.write_size ≡ 0)
        × (0 < len_at start)
        × (len_at start ≤ al - start)
  chunk start le u lt =
      chunk_lem st laid (al - start) (multiple_sub st.area.geometry.write_size start al le u whole)
        (omega arith)

  writes_run :
      (start : ℕ) (w : World S)
      → Inv w.dev
      → start ≤ al
      → start % st.area.geometry.write_size ≡ 0
      → start < al
      → ((writev (some st.area) (wr + start) (run_at start w ∷ []) w.dev).0 ≡ ok)
        × (view (next start w).dev ≡ splice (view w.dev) (wr + start) (run_at start w))
        × Inv (next start w).dev
  writes_run start w i le u lt =
      let c = chunk start le u lt in
      let n : length (run_at start w) ≡ len_at start =
        length-stamp lib st start w.sd.wrapcnt (slice (view w.dev) (rd + start) (len_at start)) (
          subst (IsEnough lib st start)
            (sym (length-slice (view w.dev) (rd + start) (len_at start)))
            (len_at-IsEnough start le lt))
        ∙ length-slice (view w.dev) (rd + start) (len_at start) in
      let f : flatten (run_at start w ∷ []) ≡ run_at start w =
        unfold flatten in append-nil (run_at start w) in
      let nf : length (flatten (run_at start w ∷ [])) ≡ len_at start = ap length f ∙ n in
      let out =
        medium.writes (wr + start) (run_at start w ∷ []) w.dev i
          (multiple_add st.area.geometry.write_size wr start unit u)
          (ap (λ k. k % st.area.geometry.write_size) nf ∙ c.0) (omega (arith, nf, c)) in
      (out.0, out.1 ∙ ap (splice (view w.dev) (wr + start)) f, out.2)

  one_round :
      (fuel start : ℕ) (w : World S)
      → Inv w.dev
      → start ≤ al
      → start % st.area.geometry.write_size ≡ 0
      → start < al
      → w.sd.loc + (al - start) < size_mod
      → copy_loop lib st (suc fuel) start al rd wr w
        ≡ copy_loop lib st fuel (start + len_at start) al rd wr (next start w)
  unfolding copy_loop
  one_round fuel start w i le u lt near =
      let c = chunk start le u lt in
      let goes : ltb start al ≡ true = lt→ltb start al lt in
      let left : size_sub al start ≡ al - start = omega (arith, laid.small) in
      let rpos : size_add rd start ≡ rd + start = omega (arith, laid.small) in
      let wpos : size_add wr start ≡ wr + start = omega (arith, laid.small) in
      let on : size_add start (len_at start) ≡ start + len_at start =
        omega (arith, laid.small, c) in
      let loc : size_add w.sd.loc (len_at start) ≡ w.sd.loc + len_at start = omega (arith, c) in
      let reads =
        read_inside lib st view Inv laws medium (rd + start) (len_at start) w.dev i
          (omega (arith, c)) in
      rw (copy_loop, goes, left, rpos, wpos, reads, (writes_run start w i le u lt).0, on, loc) refl

  pub copy_loop_lem :
      (fuel start : ℕ) (w : World S)
      → Inv w.dev
      → start ≤ al
      → start % st.area.geometry.write_size ≡ 0
      → al < fuel + start
      → w.sd.loc + (al - start) < size_mod
      → (w' : World S) × (copy_loop lib st fuel start al rd wr w ≡ (ok, w')) × IsCopied start w w'
  unfolding copy_loop
  copy_loop_lem zero start w i le u more near = absurd (omega arith)
  copy_loop_lem (suc fuel) start w i le u more near = elim (Bool-cases (ltb start al)) [
    | inr end ↦
        let e : start ≡ al = omega (arith, ltb_false→le _ _ end) in
        let z : al - start ≡ 0 = omega arith in
        (
          w,
          rw end refl,
          record {
            memory = sym (
                ap (splice (view w.dev) (wr + start)) (
                  stamp_later lib st start w.sd.wrapcnt _ (omega arith)
                  ∙ ap (slice (view w.dev) (rd + start)) z
                  ∙ slice-zero (view w.dev) (rd + start))
                ∙ splice-nil (view w.dev) (wr + start));
            moved = ap (λ k. record w.sd { loc = k }) (omega (arith, z));
            kept = i;
          },
        )
    | inl goes ↦
        let lt = ltb→lt start al goes in
        let r = writes_run start w i le u lt in
        let len = sas_min (buffer_size st) (al - start) in
        let c = chunk start le u lt in
        let (w', ran, k) =
          copy_loop_lem fuel (start + len) (next start w) (r.2) (omega (arith, c))
            (multiple_add st.area.geometry.write_size start len u (c.0)) (omega (arith, c))
            (omega (arith, c)) in
        (
          w',
          one_round fuel start w i le u lt near ∙ ran,
          record {
            memory =
                k.memory
                ∙ ap (λ m. splice m (wr + (start + len)) (data_from m w.sd.wrapcnt (start + len)))
                    (r.1)
                ∙ joined (view w.dev) start len w.sd.wrapcnt (omega (arith, c)) (c.1)
                    (len_at-IsEnough start le lt);
            moved = k.moved ∙ ap (λ n. record w.sd { loc = n }) (omega (arith, c));
            kept = k.kept;
          },
        )
  ]
