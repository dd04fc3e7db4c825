-- ===== src/Disk/Reads.antt =====
-- The read loop of storage_area_disk.c returns one run of bytes, where a sector follows behind it.
use zephyr_goodies.Base.{
  ℕ, zero, suc, ◌+◌, ◌-◌, ◌*◌, ◌≤◌, ◌<◌, ◌≡◌, refl, sym, ap, ap₂, ◌∙◌, inl, inr, min, Bool, List,
  [], ◌∷◌, ◌++◌, ◌==◌, Bool-cases, ==→eq, ==_false→ne, subst, ◌≢◌, take, drop, Memory, slice,
  slice-append, slice-zero, take-drop-slice, arith,
}
use zephyr_goodies.Errno.{ok}
use zephyr_goodies.Size.{size_mod, size_add, size_sub}
use zephyr_goodies.Size.Align.{pow2_bounds}
use zephyr_goodies.Medium.{total}
use zephyr_goodies.Disk.{DiskDevice, IsDisk, Cursor, read_buffer, read_buffers}

module _ {S : Type 0} (verify : Bool) (device : DiskDevice S) (start ssize : ℕ) (view : S → Memory)
    (Inv : S → Type 0) (scount : ℕ) (laws : IsDisk device view Inv scount ssize) (s : S)
    (ready : Inv s) where
  -- Where a cursor stands on the disk.
  abbrev pub place : Cursor → ℕ
  place c = c.starts * ssize + c.bpos

  -- The cursor stands inside the sector that its buffer holds.
  pub record IsCursor (c : Cursor) : Type 0 where
    pub fine : c.rc ≡ ok
    pub held : c.buf ≡ slice (view s) (c.starts * ssize) ssize
    pub inside : c.bpos < ssize
    pub exists : c.starts < scount

  pub record IsRead (c : Cursor) (blen : ℕ) (out : Cursor × List ℕ) : Type 0 where
    pub at : IsCursor out.0
    pub moved : place out.0 ≡ place c + blen
    pub bytes : out.1 ≡ slice (view s) (place c) blen

  -- One part of a buffer, and the rest of it.
  joined :
      (c c' : Cursor) (blen n : ℕ) (bytes : List ℕ) (out : Cursor × List ℕ)
      → n ≤ blen
      → place c' ≡ place c + n
      → bytes ≡ slice (view s) (place c) n
      → IsRead c' (blen - n) out
      → IsRead c blen (out.0, bytes ++ out.1)
  joined c c' blen n bytes out le e one r = record {
    at = r.at;
    moved = omega (arith, r.moved);
    bytes =
        ap₂ (λ x y. x ++ y) one (r.bytes ∙ ap (λ k. slice (view s) k (blen - n)) e)
        ∙ sym (slice-append (view s) (place c) n (blen - n))
        ∙ ap (slice (view s) (place c)) (omega arith);
  }

  -- A sector that starts below the end of the disk exists.
  pub below : (k p : ℕ) → k * ssize ≤ p → p < scount * ssize → k < scount
  below k p h lt = grind arith

  read_buffer_lem :
      (fuel blen : ℕ) (c : Cursor)
      → IsCursor c
      → blen < fuel
      → place c + blen < scount * ssize
      → IsRead c blen (read_buffer verify device start ssize fuel blen c s)
  unfolding read_buffer
  read_buffer_lem zero blen c i f h = elim f [ ]
  read_buffer_lem (suc fuel) blen c i f h = elim (Bool-cases (blen == 0)) [
    | inl none_left ↦
        let z = ==→eq blen 0 none_left in
        rw none_left (record {
          at = i;
          moved = omega (arith, z);
          bytes = sym (ap (slice (view s) (place c)) z ∙ slice-zero (view s) (place c));
        })
    | inr some_left ↦
        let ne = ==_false→ne blen 0 some_left in
        let unit = pow2_bounds ssize laws.unit in
        let n = min blen (ssize - c.bpos) in
        let room : size_sub ssize c.bpos ≡ ssize - c.bpos = omega (arith, i.inside, unit) in
        let b : (0 < n) × (n ≤ blen) × (c.bpos + n ≤ ssize) = ground (arith, i.inside) in
        let on : size_add c.bpos n ≡ c.bpos + n = omega (arith, b, unit) in
        let left : size_sub blen n ≡ blen - n = omega (arith, b, laws.small) in
        let one : take n (drop c.bpos c.buf) ≡ slice (view s) (place c) n =
          ap (λ l. take n (drop c.bpos l)) i.held
          ∙ take-drop-slice (view s) (c.starts * ssize) c.bpos n ssize (b.2) in
        elim (Bool-cases (c.bpos + n == ssize)) [
          | inl whole ↦
              let full = ==→eq (c.bpos + n) ssize whole in
              let more : (c.starts + 1) * ssize ≡ place c + n = omega (arith, full) in
              let next =
                below (c.starts + 1) (place c + n) (omega (arith, more)) (omega (arith, b)) in
              let up : size_add c.starts 1 ≡ c.starts + 1 = omega (arith, next, many) in
              let single : 1 * ssize ≡ ssize = omega arith in
              let get : device.disk_access_read (c.starts + 1) 1 s
                  ≡ (ok, slice (view s) ((c.starts + 1) * ssize) ssize) =
                laws.reads (c.starts + 1) 1 s ready (omega arith)
                ∙ ap (λ k. (ok, slice (view s) ((c.starts + 1) * ssize) k)) single in
              let c' : Cursor = record {
                rc = ok;
                buf = slice (view s) ((c.starts + 1) * ssize) ssize;
                bpos = 0;
                starts = c.starts + 1;
              } in
              rw (some_left, room, on, whole, left, up, get)
                (joined c c' blen n (take n (drop c.bpos c.buf))
                  (read_buffer verify device start ssize fuel (blen - n) c' s) (b.1)
                  (omega (arith, more)) one
                  (read_buffer_lem fuel (blen - n) c'
                    (record { fine = refl; held = refl; inside = unit.0; exists = next })
                    (omega (arith, b)) (omega (arith, more, b))))
          | inr part ↦
              let c' : Cursor = record c { bpos = c.bpos + n } in
              let ne' = ==_false→ne (c.bpos + n) ssize part in
              rw (some_left, room, on, part, left)
                (joined c c' blen n (take n (drop c.bpos c.buf))
                  (read_buffer verify device start ssize fuel (blen - n) c' s) (b.1) (omega arith)
                  one
                  (read_buffer_lem fuel (blen - n) c'
                    (record {
                      fine = i.fine;
                      held = i.held;
                      inside = strictly (c.bpos + n) (b.2) ne';
                      exists = i.exists;
                    })
                    (omega (arith, b)) (omega (arith, b))))
        ]
  ]
    where
      strictly : (k : ℕ) → k ≤ ssize → k ≢ ssize → k < ssize
      strictly k le ne = ground arith

      many : scount < size_mod
      many = grind (arith, laws.small, pow2_bounds ssize laws.unit)

  pub read_buffers_lem :
      (ns : List ℕ) (c : Cursor)
      → IsCursor c
      → place c + total ns < scount * ssize
      → IsRead c (total ns) (read_buffers verify device start ssize ns c s)
  unfolding read_buffers
  read_buffers_lem [] c i h = record {
    at = i;
    moved = omega arith;
    bytes = sym (slice-zero (view s) (place c));
  }
  read_buffers_lem (n ∷ ns) c i h =
      let one = read_buffer_lem (suc (suc n)) n c i (omega arith) (omega arith) in
      let c' = (read_buffer verify device start ssize (suc (suc n)) n c s).0 in
      let rest = read_buffers_lem ns c' one.at (omega (arith, one.moved)) in
      joined c c' (n + total ns) n (read_buffer verify device start ssize (suc (suc n)) n c s).1
        (read_buffers verify device start ssize ns c' s) (omega arith) one.moved one.bytes
        (subst (λ k. IsRead c' k (read_buffers verify device start ssize ns c' s)) (omega arith)
          rest)
