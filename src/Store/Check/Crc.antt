-- ===== src/Store/Check/Crc.antt =====
-- `store_record_valid` compares the checksum of the data as one run with the one that is stored
-- behind it, whatever the buffer that it reads through.
use native.Mathlib.Nat.{mod-eq_of_lt, add-zero}
use zephyr_goodies.Base.{
  ℕ, zero, suc, ◌+◌, ◌-◌, ◌*◌, ◌≤◌, ◌<◌, ◌≡◌, ◌≢◌, refl, sym, ap, ◌∙◌, inl, inr, some, [], ◌∷◌,
  ◌==◌, Bool-cases, ==→eq, ==_false→ne, Memory, slice, slice-append, slice-zero, arith,
}
use zephyr_goodies.Errno.{Rc, ok}
use zephyr_goodies.Size.{size_add, size_sub}
use zephyr_goodies.Area.{readv}
use zephyr_goodies.Medium.{total, area_size, IsMedium}
use zephyr_goodies.Store.{
  Platform, IsPlatform, Store, Record, sas_hdrsize, sas_crcsize, sas_crcinit, sas_min, sector_pos,
  buffer_size,
}
use zephyr_goodies.Store.Check.{crc_loop, crc_matches, record_valid}

module _ {S : Type 0} (lib : Platform) (st : Store S) (view : S → Memory) (Inv : S → Type 0)
    (laws : IsPlatform lib) (medium : IsMedium st.area view Inv) where
  -- One buffer read inside the area.
  pub read_inside :
      (off len : ℕ) (dev : S)
      → Inv dev
      → off + len ≤ area_size st.area.geometry
      → readv (some st.area) off (len ∷ []) dev ≡ (ok, slice (view dev) off len)
  read_inside off len dev i h =
      let e : total (len ∷ []) ≡ len = omega arith in
      medium.reads off (len ∷ []) dev i (omega arith) ∙ ap (λ n. (ok, slice (view dev) off n)) e

  min_bounds :
      (rdlen : ℕ)
      → rdlen ≢ 0
      → (0 < sas_min (buffer_size st) rdlen) × (sas_min (buffer_size st) rdlen ≤ rdlen)
  min_bounds rdlen h = ground arith

  joined :
      (crc n k rdlen rdoff : ℕ) (dev : S)
      → rdlen ≡ n + k
      → ◌≡◌ {A = Rc × ℕ × ℕ}
          (
            ok,
            lib.crc32_ieee_update
                (lib.crc32_ieee_update crc (slice (view dev) rdoff n))
                (slice (view dev) (rdoff + n) k),
            rdoff + n + k,
          )
          (ok, lib.crc32_ieee_update crc (slice (view dev) rdoff rdlen), rdoff + rdlen)
  joined crc n k rdlen rdoff dev e =
      let c =
        laws.crc-append crc (slice (view dev) rdoff n) (slice (view dev) (rdoff + n) k)
        ∙ ap (lib.crc32_ieee_update crc) (
            sym (slice-append (view dev) rdoff n k) ∙ ap (λ j. slice (view dev) rdoff j) (sym e)) in
      let p : rdoff + n + k ≡ rdoff + rdlen = omega arith in λ i. (ok, c i, p i)

  crc_loop_lem :
      (fuel crc rdlen rdoff : ℕ) (dev : S)
      → Inv dev
      → rdlen < fuel
      → rdoff + rdlen ≤ area_size st.area.geometry
      → crc_loop lib st fuel crc rdlen rdoff dev
        ≡ (ok, lib.crc32_ieee_update crc (slice (view dev) rdoff rdlen), rdoff + rdlen)
  unfolding crc_loop
  crc_loop_lem zero crc rdlen rdoff dev i h fits = elim h [ ]
  crc_loop_lem (suc fuel) crc rdlen rdoff dev i h fits = elim (Bool-cases (rdlen == 0)) [
    | inl done ↦
        let e : rdlen ≡ 0 = ==→eq rdlen 0 done in
        rw (done, e, slice-zero (view dev) rdoff, laws.crc-nil crc, add-zero rdoff) refl
    | inr more ↦
        let b = min_bounds rdlen (==_false→ne rdlen 0 more) in
        let n = sas_min (buffer_size st) rdlen in
        let left : size_sub rdlen n ≡ rdlen - n = omega (arith, medium.sound.small) in
        let on : size_add rdoff n ≡ rdoff + n = omega (arith, medium.sound.small) in
        let split : rdlen ≡ n + (rdlen - n) = omega arith in
        rw (more, read_inside rdoff n dev i (omega arith), left, on)
          (crc_loop_lem fuel (lib.crc32_ieee_update crc (slice (view dev) rdoff n)) (rdlen - n)
              (rdoff + n) dev i (omega arith) (omega arith)
            ∙ joined crc n (rdlen - n) rdlen rdoff dev split)
  ]

  -- On a device that works, a record that is not shorter than `crc_skip` and whose data and checksum
  -- lie inside the area is valid exactly when the checksum of its data, from `crc_skip` on, is the
  -- one that stands behind the data.
  pub record_valid_lem :
      (r : Record) (dev : S) (at : ℕ)
      → Inv dev
      → st.crc_skip ≤ r.size
      → at ≡ r.sector * st.sector_size + r.loc + sas_hdrsize
      → at + r.size + sas_crcsize ≤ area_size st.area.geometry
      → record_valid lib st r dev
        ≡ lib.crc32_ieee_update sas_crcinit
            (slice (view dev) (at + st.crc_skip) (r.size - st.crc_skip))
          == lib.get_le32 (slice (view dev) (at + r.size) sas_crcsize)
  unfolding record_valid
  record_valid_lem r dev at i skip e fits =
      let small = medium.sound.small in
      let p : sector_pos st r.sector ≡ r.sector * st.sector_size = mod-eq_of_lt (omega arith) in
      let q : size_add (size_add (size_add (r.sector * st.sector_size) r.loc) sas_hdrsize)
            st.crc_skip
          ≡ at + st.crc_skip =
        omega arith in
      let n : size_sub r.size st.crc_skip ≡ r.size - st.crc_skip = omega arith in
      let end : at + st.crc_skip + (r.size - st.crc_skip) ≡ at + r.size = omega arith in
      rw
        (
          p,
          q,
          n,
          crc_loop_lem (suc (r.size - st.crc_skip)) sas_crcinit (r.size - st.crc_skip)
              (at + st.crc_skip) dev i (omega arith) (omega arith),
          end,
        )
        (unfold crc_matches in rw (read_inside (at + r.size) sas_crcsize dev i fits) refl)
