-- ===== src/SharedInfo/Region.antt =====
-- A shared info device is a byte memory of its size.
use native.Mathlib.Nat.{mod-eq_of_lt}
use zephyr_goodies.Base.{
  ℕ, ◌+◌, ◌≤◌, ◌<◌, ◌≡◌, refl, ap, ◌∙◌, ◌⊎◌, List, [], leb, le→leb, lt→leb_false, not, sym, length,
  Memory, slice, splice, slice-splice_self, slice-splice_disjoint, splice_outside, arith,
}
use zephyr_goodies.Errno.{ok, einval}
use zephyr_goodies.Size.{size_mod, size_add}
use zephyr_goodies.SharedInfo.{
  Config, outside, read_region, prog_region, shared_info_api, shared_info_device, call_read,
  call_prog, shared_info_read, shared_info_prog,
}

-- A range that lies in the region does not wrap.
outside_lem :
    (config : Config) (off len : ℕ)
    → config.size < size_mod
    → len < size_mod
    → outside config off len ≡ not (leb (off + len) config.size)
unfolding outside
outside_lem config off len small h = ground arith

module _ (start size : ℕ) (placed : start + size < size_mod) where
  -- A read returns the bytes of its range.
  read_lem :
      (off len : ℕ) (s : Memory)
      → off + len ≤ size
      → shared_info_read (shared_info_device start size) off len s ≡ (ok, slice s (start + off) len)
  unfolding shared_info_read shared_info_device shared_info_api call_read read_region
  read_lem off len s h =
      let config : Config = record { start = start; size = size } in
      let e : size_add start off ≡ start + off = mod-eq_of_lt (omega arith) in
      rw (outside_lem config off len (omega arith) (omega arith), le→leb (off + len) size h, e) refl

  -- A write puts its bytes at its range.
  prog_lem :
      (off : ℕ) (bytes : List ℕ) (s : Memory)
      → off + length bytes ≤ size
      → shared_info_prog (shared_info_device start size) off bytes s
        ≡ (ok, splice s (start + off) bytes)
  unfolding shared_info_prog shared_info_device shared_info_api call_prog prog_region
  prog_lem off bytes s h =
      let config : Config = record { start = start; size = size } in
      let e : size_add start off ≡ start + off = mod-eq_of_lt (omega arith) in
      rw
        (
          outside_lem config off (length bytes) (omega arith) (omega arith),
          le→leb (off + length bytes) size h,
          e,
        )
        refl

  -- On a shared info device whose region lies in the address space, a write inside the region
  -- succeeds; a read of the same range then returns what was written, a read of a range apart from
  -- it what it returned before, and an address outside the region keeps its byte.
  pub prog-then-read :
      (off off' len' a : ℕ) (bytes : List ℕ) (s : Memory)
      → off + length bytes ≤ size
      → off' + len' ≤ size
      → (off' + len' ≤ off) ⊎ (off + length bytes ≤ off')
      → (a < start) ⊎ (start + size ≤ a)
      → let device = shared_info_device start size in
        let (rc, s') = shared_info_prog device off bytes s in
        (rc ≡ ok)
        × (shared_info_read device off (length bytes) s' ≡ (ok, bytes))
        × (shared_info_read device off' len' s' ≡ shared_info_read device off' len' s)
        × (s' a ≡ s a)
  prog-then-read off off' len' a bytes s h h' apart out =
      let s' = splice s (start + off) bytes in
      rw (prog_lem off bytes s h) (
        refl,
        read_lem off (length bytes) s' h
            ∙ ap (λ l. (ok, l)) (slice-splice_self s (start + off) bytes),
        read_lem off' len' s' h'
            ∙ ap (λ l. (ok, l))
                (slice-splice_disjoint s (start + off) bytes (start + off') len' (omega arith))
            ∙ sym (read_lem off' len' s h'),
        splice_outside s (start + off) bytes a (omega arith),
      )

  -- A range that leaves the region is refused with -EINVAL by reads and by writes, and the memory
  -- is left as it is, for lengths that 32 bits hold.
  pub outside_refused :
      (off len : ℕ) (bytes : List ℕ) (s : Memory)
      → size < off + len
      → len < size_mod
      → length bytes ≡ len
      → let device = shared_info_device start size in
        (shared_info_read device off len s ≡ (einval, []))
        × (shared_info_prog device off bytes s ≡ (einval, s))
  unfolding shared_info_read shared_info_prog shared_info_device shared_info_api call_read call_prog
      read_region prog_region
  outside_refused off len bytes s h small n =
      let config : Config = record { start = start; size = size } in
      let e =
        outside_lem config off len (omega arith) small ∙ ap not (lt→leb_false (off + len) size h) in
      (rw e, rw (n, e))
