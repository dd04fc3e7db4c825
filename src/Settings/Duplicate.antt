-- ===== src/Settings/Duplicate.antt =====
-- `settings_sas_duplicate`: what the comparison of a value with a record decides.
use zephyr_goodies.Base.{
  ℕ, zero, suc, ◌+◌, ◌-◌, ◌*◌, ◌^◌, ◌≤◌, ◌<◌, ◌≡◌, refl, sym, ap, ◌∙◌, min, Bool, true, false, ◌&&◌,
  List, [], ◌∷◌, ltb, ◌==◌, Bool-cases, ltb→lt, ltb_false→le, eq→==, ne→==_false, length, drop-drop,
  length-drop, take, drop, drop_all, eq_nil_of_length, ==_false→ne, ==→eq, inl, inr, Memory, arith,
}
use zephyr_goodies.Size.{size_add, size_sub}
use zephyr_goodies.Medium.{IsMedium}
use zephyr_goodies.Store.{Platform, IsPlatform, Store, World, Record, Handle, store_valid}
use zephyr_goodies.Store.Layout.{IsLaidOut}
use zephyr_goodies.Store.Read.Part.{storage_area_record_read_part}
use zephyr_goodies.Store.Write.Readback.{HoldsRecord}
use zephyr_goodies.Settings.{
  sass_value_buf_size, same_bytes, unbound, all_records, first_kept, compare_value,
  settings_sas_duplicate,
}

and_assoc : (a b c : Bool) → (a && (b && c)) ≡ ((a && b) && c)
and_assoc true b c = refl
and_assoc false b c = refl

and_false : (a : Bool) → (a && false) ≡ false
and_false true = refl
and_false false = refl

-- A comparison in two parts.
same_bytes-split :
    (k : ℕ) (x y : List ℕ)
    → same_bytes x y ≡ (same_bytes (take k x) (take k y) && same_bytes (drop k x) (drop k y))
same_bytes-split zero x y = refl
same_bytes-split (suc k) [] [] = refl
same_bytes-split (suc k) [] (b ∷ y) = refl
same_bytes-split (suc k) (a ∷ x) [] = refl
same_bytes-split (suc k) (a ∷ x) (b ∷ y) =
    ap (λ s. a == b && s) (same_bytes-split k x y)
    ∙ and_assoc (a == b) (same_bytes (take k x) (take k y)) (same_bytes (drop k x) (drop k y))

same_bytes-length : (x y : List ℕ) → (length x == length y) ≡ false → same_bytes x y ≡ false
same_bytes-length [] [] h = h
same_bytes-length [] (b ∷ y) h = refl
same_bytes-length (a ∷ x) [] h = refl
same_bytes-length (a ∷ x) (b ∷ y) h =
    let ne = ==_false→ne (suc (length x)) (suc (length y)) h in
    let ih = same_bytes-length x y (ne→==_false (length x) (length y) (λ e. ne (ap suc e))) in
    ap (λ s. a == b && s) ih ∙ and_false (a == b)

chunk-bounds : (m : ℕ) → 0 < m → (0 < min sass_value_buf_size m) × (min sass_value_buf_size m ≤ m)
chunk-bounds m h = ground arith

module _ {S : Type 0} (lib : Platform) (st : Store S) (view : S → Memory) (Inv : S → Type 0)
    (laws : IsPlatform lib) (medium : IsMedium st.area view Inv) (laid : IsLaidOut st) (h : Handle)
    (valid : store_valid h ≡ true) (w : World S) (wrapcnt sector loc : ℕ) (bytes : List ℕ)
    (ready : Inv w.dev) (exists : sector < st.sector_cnt) (short : length bytes < 2 ^ 16)
    (fits : loc + (length bytes + 8) ≤ st.sector_size)
    (holds : HoldsRecord lib st laws wrapcnt bytes
      (view w.dev)
      (sector * st.sector_size + loc)) where
  abbrev pub stored : Record
  stored = record { bound = true; sector = sector; loc = loc; size = length bytes }

  compare_value_lem :
      (fuel dstart : ℕ) (value : List ℕ)
      → dstart ≤ length bytes
      → length value ≡ length bytes - dstart
      → length bytes < fuel + dstart
      → (compare_value lib st h fuel w stored dstart value == length bytes)
        ≡ same_bytes value (drop dstart bytes)
  unfolding compare_value
  compare_value_lem zero dstart value le n more = absurd (omega arith)
  compare_value_lem (suc fuel) dstart value le n more =
      elim (Bool-cases (ltb dstart (length bytes))) [
        | inr end ↦
            let e : dstart ≡ length bytes = omega (arith, ltb_false→le _ _ end) in
            let none_left = eq_nil_of_length value (omega arith) in
            let rest = drop_all dstart bytes (omega arith) in
            rw (end, eq→== dstart (length bytes) e, none_left, rest) refl
        | inl goes ↦
            let lt = ltb→lt dstart (length bytes) goes in
            let k = min sass_value_buf_size (length bytes - dstart) in
            let b = chunk-bounds (length bytes - dstart) (omega arith) in
            let left : size_sub (length bytes) dstart ≡ length bytes - dstart = omega arith in
            let on : size_add dstart k ≡ dstart + k = omega (arith, b) in
            let reads =
              storage_area_record_read_part lib st view Inv laws medium laid h w wrapcnt sector loc
                bytes ready exists short fits valid holds dstart k (omega (arith, b)) in
            let parts = same_bytes-split k value (drop dstart bytes) in
            elim (Bool-cases (same_bytes (take k value) (take k (drop dstart bytes)))) [
              | inr differ ↦
                  rw (goes, left, reads, differ, ne→==_false dstart (length bytes) (omega arith))
                    (sym (
                      parts
                      ∙ ap (λ s. s && same_bytes (drop k value) (drop k (drop dstart bytes)))
                          differ))
              | inl same ↦
                  rw (goes, left, reads, same, on)
                    (compare_value_lem fuel (dstart + k) (drop k value) (omega (arith, b))
                        (length-drop k value ∙ omega (arith, b)) (omega (arith, b))
                      ∙ ap (same_bytes (drop k value)) (sym (drop-drop dstart k bytes))
                      ∙ sym (
                          parts
                          ∙ ap (λ s. s && same_bytes (drop k value) (drop k (drop dstart bytes)))
                              same))
            ]
      ]

  -- On a device that works, where the first record that the search of `settings_sas_duplicate` does
  -- not skip is a valid store's record with these data, that lies in its sector, and is not shorter than
  -- the name and its size byte: `settings_sas_duplicate` is true exactly when the value is what
  -- stands in the record behind as many bytes as the name has and the size byte.
  pub settings_sas_duplicate-eq-same_bytes :
      (name value : List ℕ)
      → first_kept lib st h (all_records lib st h) w name unbound ≡ stored
      → suc (length name) ≤ length bytes
      → settings_sas_duplicate lib st h w name value
        ≡ same_bytes value (drop (suc (length name)) bytes)
  unfolding settings_sas_duplicate
  settings_sas_duplicate-eq-same_bytes name value found long =
      let n = suc (length name) in
      let start : size_add 1 (length name) ≡ n = omega arith in
      let left : size_sub (length bytes) n ≡ length bytes - n = omega arith in
      elim (Bool-cases (length value == length bytes - n)) [
        | inl same ↦
            rw (found, start, left, same)
              (compare_value_lem (suc (length bytes)) n value long (==→eq _ _ same) (omega arith))
        | inr other ↦
            let differ : (length value == length (drop n bytes)) ≡ false =
              ap (λ k. length value == k) (length-drop n bytes) ∙ other in
            rw (found, start, left, other) (sym (same_bytes-length value (drop n bytes) differ))
      ]
