-- ===== src/Store/Write/Image.antt =====
-- The bytes that `store_writev` writes for a record.
use zephyr_goodies.Base.{
  ℕ, ◌+◌, ◌-◌, ◌%◌, ◌^◌, ◌<◌, ◌≡◌, sym, ap, ◌∙◌, inl, inr, List, [], ◌∷◌, ◌++◌, flatten,
  append_assoc, append-nil, leb, Bool-cases, leb→le, leb_false→lt, length, drop, length-append,
  length-replicate, drop-append, drop_prefix, drop_all, replicate, arith,
}
use zephyr_goodies.Size.{size_mod, size_sub, align_up, IsPow2}
use zephyr_goodies.Size.Align.{IsAlignUp, align_up-IsAlignUp, pow2_bounds}
use zephyr_goodies.Area.{erasevalue, iovec_size, lengths}
use zephyr_goodies.Area.Checks.{iovec_size-eq-total, total-lengths}
use zephyr_goodies.Store.{Platform, IsPlatform, Store, sas_magic, sas_crcinit, record_len}
use zephyr_goodies.Store.Write.{crc_buffers, record_buffers}

-- The checksum over buffers is the checksum over their bytes behind the first `skip`.
pub crc_buffers_lem :
    (lib : Platform) (crc skip : ℕ) (bs : List (List ℕ))
    → IsPlatform lib
    → skip < size_mod
    → crc_buffers lib crc skip bs ≡ lib.crc32_ieee_update crc (drop skip (flatten bs))
unfolding crc_buffers flatten
crc_buffers_lem lib crc skip [] laws h =
    sym (ap (lib.crc32_ieee_update crc) (drop_all skip [] (omega arith)) ∙ laws.crc-nil crc)
crc_buffers_lem lib crc skip (b ∷ bs) laws h = elim (Bool-cases (leb (length b) skip)) [
  | inl all ↦
      let le = leb→le (length b) skip all in
      let e : size_sub skip (length b) ≡ skip - length b = omega arith in
      let f : skip ≡ length b + (skip - length b) = omega arith in
      rw (all, e, crc_buffers_lem lib crc (skip - length b) bs laws (omega arith))
        (ap (lib.crc32_ieee_update crc) (
          sym
            (ap (λ k. drop k (b ++ flatten bs)) f ∙ drop-append b (flatten bs) (skip - length b))))
  | inr part ↦
      let lt = leb_false→lt (length b) skip part in
      rw
        (
          part,
          crc_buffers_lem lib (lib.crc32_ieee_update crc (drop skip b)) 0 bs laws (omega arith),
        )
        (laws.crc-append crc (drop skip b) (flatten bs)
          ∙ ap (lib.crc32_ieee_update crc) (sym (drop_prefix skip b (flatten bs) (omega arith))))
]

flatten_snoc : (bs : List (List ℕ)) (c : List ℕ) → flatten (bs ++ c ∷ []) ≡ flatten bs ++ c
unfolding flatten
flatten_snoc [] c = append-nil c
flatten_snoc (b ∷ bs) c = ap (λ z. b ++ z) (flatten_snoc bs c) ∙ sym (append_assoc b (flatten bs) c)

module _ {S : Type 0} (lib : Platform) (st : Store S) (wrapcnt : ℕ) (bytes : List ℕ) where
  -- The checksum of a record that holds `bytes`.
  abbrev pub checksum : ℕ
  checksum = lib.crc32_ieee_update sas_crcinit (drop st.crc_skip bytes)

  -- The room that the record takes.
  abbrev pub room : ℕ
  room = align_up (length bytes + 8) st.area.geometry.write_size

  -- Header, data, checksum, and bytes of the erase value up to a whole write unit.
  abbrev pub image : List ℕ
  image =
      (sas_magic ∷ wrapcnt ∷ lib.put_le16 (length bytes))
      ++ (bytes
          ++ (lib.put_le32 checksum
              ++ replicate (room - (length bytes + 8)) (erasevalue st.area.geometry)))

  module _ (laws : IsPlatform lib) (unit : IsPow2 st.area.geometry.write_size)
      (short : length bytes < 2 ^ 16) where
    pub room_lem : IsAlignUp (length bytes + 8) st.area.geometry.write_size room
    room_lem =
        align_up-IsAlignUp (length bytes + 8) st.area.geometry.write_size unit
          (omega (arith, pow2_bounds st.area.geometry.write_size unit))

    pub length-image : length image ≡ room
    length-image = omega (
      arith,
      length-append (sas_magic ∷ wrapcnt ∷ lib.put_le16 (length bytes)) (
          bytes
          ++ (lib.put_le32 checksum
              ++ replicate (room - (length bytes + 8)) (erasevalue st.area.geometry))),
      length-append bytes (
          lib.put_le32 checksum
          ++ replicate (room - (length bytes + 8)) (erasevalue st.area.geometry)),
      length-append (lib.put_le32 checksum)
          (replicate (room - (length bytes + 8)) (erasevalue st.area.geometry)),
      length-replicate (room - (length bytes + 8)) (erasevalue st.area.geometry),
      laws.length-put_le16 (length bytes),
      laws.length-put_le32 checksum,
      room_lem.above,
    )

    -- With data that the size field holds, the buffers that are written for it, however they cut it,
    -- are together the image of the record: header, data, checksum of the data behind `crc_skip`,
    -- and the erase value up to a whole write unit.
    pub flatten-record_buffers :
        (iovec : List (List ℕ))
        → st.crc_skip < size_mod
        → flatten iovec ≡ bytes
        → flatten (record_buffers lib st wrapcnt iovec) ≡ image
    unfolding record_buffers flatten
    flatten-record_buffers iovec skip e =
        let n : iovec_size (lengths iovec) ≡ length bytes =
          iovec_size-eq-total (lengths iovec) (omega (arith, total-lengths iovec, ap length e))
          ∙ total-lengths iovec
          ∙ ap length e in
        let l : record_len (length bytes) ≡ length bytes + 8 = omega arith in
        let m : length bytes % 2 ^ 16 ≡ length bytes = omega arith in
        let pad : size_sub room (length bytes + 8) ≡ room - (length bytes + 8) =
          omega
            (arith, room_lem.close, pow2_bounds st.area.geometry.write_size unit, room_lem.above) in
        let c : crc_buffers lib sas_crcinit st.crc_skip iovec ≡ checksum =
          crc_buffers_lem lib sas_crcinit st.crc_skip iovec laws skip
          ∙ ap (λ z. lib.crc32_ieee_update sas_crcinit (drop st.crc_skip z)) e in
        rw (n, l, m, flatten_snoc, e, pad, c)
