-- ===== src/Store/Update/Changed.antt =====
-- A record whose first bytes, which its checksum does not cover, are written over.
use zephyr_goodies.Base.{
  ℕ, zero, suc, ◌+◌, ◌-◌, ◌≤◌, ◌≡◌, refl, sym, ap, ap₂, fun_ext, poke, ◌==◌, ==→eq, Bool-cases, ◌∙◌,
  inl, inr, List, ◌∷◌, ◌++◌, length, length-append, length-drop, length-slice, drop, take-slice,
  drop-slice, drop-drop, drop-append, Memory, slice, splice, slice-append, splice-append,
  slice-splice_self, slice-splice_disjoint, arith,
}
use zephyr_goodies.Store.{Platform, IsPlatform, Store, sas_magic, sas_crcinit}
use zephyr_goodies.Store.Write.Image.{checksum}
use zephyr_goodies.Store.Write.Readback.{HoldsRecord}
use zephyr_goodies.Store.Update.{overlay}

poke_self : (m : Memory) (a : ℕ) → poke m a (m a) ≡ m
poke_self m a = fun_ext λ b. elim (Bool-cases (a == b)) [
  | inl same ↦ rw same (ap m (==→eq a b same))
  | inr other ↦ rw other refl
]

-- A run that is written over with its own bytes does not change.
splice-slice_self : (m : Memory) (a n : ℕ) → splice m a (slice m a n) ≡ m
unfolding splice slice
splice-slice_self m a zero = refl
splice-slice_self m a (suc n) =
    ap (λ k. splice k (suc a) (slice m (suc a) n)) (poke_self m a) ∙ splice-slice_self m (suc a) n

-- The bytes of an overlay, put where the run came from, are put at their place.
pub splice-overlay :
    (m : Memory) (p n at : ℕ) (bytes : List ℕ)
    → at + length bytes ≤ n
    → splice m p (overlay (slice m p n) at bytes) ≡ splice m (p + at) bytes
unfolding overlay
splice-overlay m p n at bytes le =
    let k = length bytes in
    let x = slice m p at in
    let z = slice m (p + (at + k)) (n - (at + k)) in
    let m1 = splice m (p + at) bytes in
    let parts : overlay (slice m p n) at bytes ≡ x ++ (bytes ++ z) =
      ap₂ (λ u v. u ++ (bytes ++ v)) (take-slice m p at n (omega arith))
        (drop-slice m p (at + k) n le) in
    let kept : z ≡ slice m1 (p + at + k) (n - (at + k)) =
      ap (λ q. slice m q (n - (at + k))) (omega arith)
      ∙ sym (
          slice-splice_disjoint m (p + at) bytes (p + at + k) (n - (at + k)) (inr (omega arith))) in
    let front : splice m p x ≡ m = splice-slice_self m p at in
    ap (splice m p) parts
    ∙ splice-append m p x (bytes ++ z)
    ∙ ap₂ (λ q a. splice q a (bytes ++ z)) front (omega (arith, length-slice m p at))
    ∙ splice-append m (p + at) bytes z
    ∙ ap (splice m1 (p + at + k)) kept
    ∙ splice-slice_self m1 (p + at + k) (n - (at + k))

module _ {S : Type 0} (lib : Platform) (st : Store S) (laws : IsPlatform lib) (wrapcnt : ℕ)
    (old bytes : List ℕ) (m : Memory) (target : ℕ)
    (holds : HoldsRecord lib st laws wrapcnt old m target) (le : length bytes ≤ length old)
    (skip : length bytes ≤ st.crc_skip) where
  abbrev pub changed : List ℕ
  changed = bytes ++ drop (length bytes) old

  pub length-changed : length changed ≡ length old
  length-changed =
      omega (arith, length-append bytes (drop (length bytes) old), length-drop (length bytes) old)

  checksum-changed : checksum lib st wrapcnt changed ≡ checksum lib st wrapcnt old
  checksum-changed =
      let k = length bytes in
      let j = st.crc_skip - k in
      let e : st.crc_skip ≡ k + j = omega arith in
      let cut : drop st.crc_skip changed ≡ drop st.crc_skip old =
        ap (λ n. drop n changed) e
        ∙ drop-append bytes (drop k old) j
        ∙ drop-drop k j old
        ∙ ap (λ n. drop n old) (sym e) in
      ap (lib.crc32_ieee_update sas_crcinit) cut

  pub changed-HoldsRecord :
      HoldsRecord lib st laws wrapcnt changed (splice m (target + 4) bytes) target
  changed-HoldsRecord =
      let k = length bytes in
      let n = length old in
      let m1 = splice m (target + 4) bytes in
      let ln = length-changed in
      let all : n ≡ k + (n - k) = omega arith in
      let rest : slice m (target + 4 + k) (n - k) ≡ drop k old =
        sym (drop-slice m (target + 4) k n le) ∙ ap (drop k) holds.payload in
      record {
        header =
            slice-splice_disjoint m (target + 4) bytes target 4 (inl (omega arith))
            ∙ holds.header
            ∙ ap (λ i. sas_magic ∷ wrapcnt ∷ lib.put_le16 i) (sym ln);
        payload =
            ap (slice m1 (target + 4)) (ln ∙ all)
            ∙ slice-append m1 (target + 4) k (n - k)
            ∙ ap₂ ◌++◌ (slice-splice_self m (target + 4) bytes) (
                slice-splice_disjoint m (target + 4) bytes (target + 4 + k) (n - k)
                  (inr (omega arith))
                ∙ rest);
        crc =
            ap (λ i. slice m1 (target + 4 + i) 4) ln
            ∙ slice-splice_disjoint m (target + 4) bytes (target + 4 + n) 4 (inr (omega arith))
            ∙ holds.crc
            ∙ ap lib.put_le32 (sym checksum-changed);
      }
