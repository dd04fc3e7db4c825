-- ===== src/Store/Compact/Run.antt =====
-- The run of bytes of a record, and its copy with another wrap count.
use zephyr_goodies.Base.{
  ℕ, ◌+◌, ◌-◌, ◌≤◌, ◌≡◌, ap, ap₂, ◌∙◌, List, ◌∷◌, ◌++◌, length, Memory, slice, splice, slice-append,
  arith,
}
use zephyr_goodies.Store.{Platform, IsPlatform, Store, sas_magic}
use zephyr_goodies.Store.Write.Image.{checksum}
use zephyr_goodies.Store.Write.Readback.{HoldsRecord, run-HoldsRecord}
use zephyr_goodies.Store.Compact.{stamp}

module _ {S : Type 0} (lib : Platform) (st : Store S) (laws : IsPlatform lib) where
  -- The run of a record, from its header on.
  record_run :
      (wrapcnt : ℕ) (bytes : List ℕ) (m : Memory) (pos al : ℕ)
      → HoldsRecord lib st laws wrapcnt bytes m pos
      → length bytes + 8 ≤ al
      → slice m pos al
        ≡ (sas_magic ∷ wrapcnt ∷ lib.put_le16 (length bytes))
          ++ (bytes
              ++ (lib.put_le32 (checksum lib st wrapcnt bytes)
                  ++ slice m (pos + 4 + length bytes + 4) (al - (length bytes + 8))))
  record_run wrapcnt bytes m pos al h le =
      let n = length bytes in
      let k = al - (n + 8) in
      let a : al ≡ 4 + (n + (4 + k)) = omega arith in
      ap (slice m pos) a
      ∙ slice-append m pos 4 (n + (4 + k))
      ∙ ap₂ ◌++◌ h.header (
          slice-append m (pos + 4) n (4 + k)
          ∙ ap₂ ◌++◌ h.payload
              (slice-append m (pos + 4 + n) 4 k ∙ ap (λ l. l ++ slice m (pos + 4 + n + 4) k) h.crc))

  -- A copy of a record, with a new wrap count.
  pub copy-HoldsRecord :
      (old new : ℕ) (bytes : List ℕ) (m : Memory) (pos target al : ℕ)
      → HoldsRecord lib st laws old bytes m pos
      → length bytes + 8 ≤ al
      → HoldsRecord lib st laws new bytes
          (splice m target (stamp lib st 0 new (slice m pos al)))
          target
  unfolding stamp
  copy-HoldsRecord old new bytes m pos target al h le =
      run-HoldsRecord lib st laws new bytes (splice m target (stamp lib st 0 new (slice m pos al)))
        target (slice m (pos + 4 + length bytes + 4) (al - (length bytes + 8))) m
        (ap (λ l. splice m target (stamp lib st 0 new l)) (record_run old bytes m pos al h le))
