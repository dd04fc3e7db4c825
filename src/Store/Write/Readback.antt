-- ===== src/Store/Write/Readback.antt =====
-- A record that was written is found by the walk, is valid, and holds the data.
use native.Mathlib.Nat.{mod-eq_of_lt}
use zephyr_goodies.Base.{
  ℕ, ◌+◌, ◌-◌, ◌*◌, ◌^◌, ◌≤◌, ◌<◌, ◌≡◌, ◌≢◌, refl, sym, ap, ap₂, ◌∙◌, ◌⊎◌, Bool, true, false, some,
  List, [], ◌∷◌, ◌++◌, append-nil, ltb, leb, ◌==◌, ◌&&◌, ◌||◌, eq→==, length, drop, take, replicate,
  Memory, slice, splice, slice-splice_self, slice-splice_disjoint, slice_parts, take-append-drop,
  length-take, length-drop, length-append, arith,
}
use zephyr_goodies.Errno.{ok}
use zephyr_goodies.Size.{size_add, size_sub}
use zephyr_goodies.Area.{readv, erasevalue}
use zephyr_goodies.Medium.{IsMedium}
use zephyr_goodies.Store.{
  Platform, IsPlatform, Store, StoreData, Record, sas_magic, sas_crcinit, sas_hdrsize, sas_crcsize,
  sector_pos,
}
use zephyr_goodies.Store.Layout.{IsLaidOut, sector_inside, sector_pos-eq-mul}
use zephyr_goodies.Store.Check.{record_valid}
use zephyr_goodies.Store.Check.Crc.{read_inside, record_valid_lem}
use zephyr_goodies.Store.Walk.{
  leave, round, next_pos, header_ok, expected_wrapcnt, next_loop, skip_cookie,
  record_next_in_sector,
}
use zephyr_goodies.Store.Write.Image.{image, room, checksum}

-- The parts of an image, where it was put.
module _ {S : Type 0} (lib : Platform) (st : Store S) (laws : IsPlatform lib) (wrapcnt : ℕ)
    (bytes : List ℕ) (m : Memory) (target : ℕ) where
  pub record HoldsRecord : Type 0 where
    pub header : slice m target 4 ≡ sas_magic ∷ wrapcnt ∷ lib.put_le16 (length bytes)
    pub payload : slice m (target + 4) (length bytes) ≡ bytes
    pub crc : slice m (target + 4 + length bytes) 4 ≡ lib.put_le32 (checksum lib st wrapcnt bytes)

  -- Bytes behind the checksum do not matter.
  pub run-HoldsRecord :
      (pad : List ℕ) (before : Memory)
      → m
        ≡ splice before target (
            (sas_magic ∷ wrapcnt ∷ lib.put_le16 (length bytes))
            ++ (bytes ++ (lib.put_le32 (checksum lib st wrapcnt bytes) ++ pad)))
      → HoldsRecord
  run-HoldsRecord pad before e = record {
    header = ap (slice m target) (sym lh) ∙ one.0;
    payload = ap (λ k. slice m (target + k) (length bytes)) (sym lh) ∙ two.0;
    crc = ap₂' lh ∙ three.0;
  }
    where
      hdr : List ℕ
      hdr = sas_magic ∷ wrapcnt ∷ lib.put_le16 (length bytes)

      sum : List ℕ
      sum = lib.put_le32 (checksum lib st wrapcnt bytes)

      lh : length hdr ≡ 4
      lh = omega (arith, laws.length-put_le16 (length bytes))

      ls : length sum ≡ 4
      ls = laws.length-put_le32 (checksum lib st wrapcnt bytes)

      whole :
          slice m target (length (hdr ++ (bytes ++ (sum ++ pad)))) ≡ hdr ++ (bytes ++ (sum ++ pad))
      whole = rw e (slice-splice_self before target (hdr ++ (bytes ++ (sum ++ pad))))

      one :
          (slice m target (length hdr) ≡ hdr)
          × (slice m (target + length hdr) (length (bytes ++ (sum ++ pad))) ≡ bytes ++ (sum ++ pad))
      one =
          slice_parts m target hdr (bytes ++ (sum ++ pad))
            (ap (slice m target) (sym (length-append hdr (bytes ++ (sum ++ pad)))) ∙ whole)

      two :
          (slice m (target + length hdr) (length bytes) ≡ bytes)
          × (slice m (target + length hdr + length bytes) (length (sum ++ pad)) ≡ sum ++ pad)
      two =
          slice_parts m (target + length hdr) bytes (sum ++ pad)
            (ap (slice m (target + length hdr)) (sym (length-append bytes (sum ++ pad))) ∙ one.1)

      three :
          (slice m (target + length hdr + length bytes) (length sum) ≡ sum)
          × (slice m (target + length hdr + length bytes + length sum) (length pad) ≡ pad)
      three =
          slice_parts m (target + length hdr + length bytes) sum pad (
            ap (slice m (target + length hdr + length bytes)) (sym (length-append sum pad)) ∙ two.1)

      ap₂' :
          length hdr ≡ 4
          → slice m (target + 4 + length bytes) 4
            ≡ slice m (target + length hdr + length bytes) (length sum)
      ap₂' h = rw (h, ls)

  pub image-HoldsRecord :
      (before : Memory) → m ≡ splice before target (image lib st wrapcnt bytes) → HoldsRecord
  image-HoldsRecord before e =
      run-HoldsRecord
        (replicate (room lib st wrapcnt bytes - (length bytes + 8)) (erasevalue st.area.geometry))
        before e

-- A write that does not touch the record leaves it there.
pub HoldsRecord-splice :
    {S : Type 0} (lib : Platform) (st : Store S) (laws : IsPlatform lib) (wrapcnt : ℕ)
    (bytes : List ℕ) (m : Memory) (target other : ℕ) (d : List ℕ)
    → HoldsRecord lib st laws wrapcnt bytes m target
    → (target + (length bytes + 8) ≤ other) ⊎ (other + length d ≤ target)
    → HoldsRecord lib st laws wrapcnt bytes (splice m other d) target
HoldsRecord-splice lib st laws wrapcnt bytes m target other d h apart = record {
  header = slice-splice_disjoint m other d target 4 (omega arith) ∙ h.header;
  payload = slice-splice_disjoint m other d (target + 4) (length bytes) (omega arith) ∙ h.payload;
  crc = slice-splice_disjoint m other d (target + 4 + length bytes) 4 (omega arith) ∙ h.crc;
}

-- A record on the area, from where the walk may come to it.
module _ {S : Type 0} (lib : Platform) (st : Store S) (view : S → Memory) (Inv : S → Type 0)
    (laws : IsPlatform lib) (medium : IsMedium st.area view Inv) (laid : IsLaidOut st) (dev : S)
    (ready : Inv dev) (wrapcnt sector loc : ℕ) (bytes : List ℕ) (exists : sector < st.sector_cnt)
    (short : length bytes < 2 ^ 16) (fits : loc + (length bytes + 8) < st.sector_size)
    (holds : HoldsRecord lib st laws wrapcnt bytes (view dev) (sector * st.sector_size + loc)) where
  abbrev start : ℕ
  start = sector * st.sector_size + loc

  start_lem : size_add (sector_pos st sector) loc ≡ start
  start_lem =
      ap (λ k. size_add k loc) (sector_pos-eq-mul st laid sector exists)
      ∙ mod-eq_of_lt (omega (arith, sector_inside st laid sector exists, laid.small))

  header_lem :
      readv (some st.area) (size_add (sector_pos st sector) loc) (sas_hdrsize ∷ []) dev
      ≡ (ok, sas_magic ∷ wrapcnt ∷ lib.put_le16 (length bytes))
  header_lem =
      ap (λ k. readv (some st.area) k (sas_hdrsize ∷ []) dev) start_lem
      ∙ read_inside lib st view Inv laws medium start 4 dev ready
          (omega (arith, sector_inside st laid sector exists))
      ∙ ap (λ l. (ok, l)) holds.header

  size_lem : lib.get_le16 (lib.put_le16 (length bytes)) ≡ length bytes
  size_lem =
      ap lib.get_le16 (sym (append-nil (lib.put_le16 (length bytes))))
      ∙ laws.get-put_le16 (length bytes) [] short

  module _ (sd : StoreData) (wrapcheck bound : Bool) (from size : ℕ) (some_data : 0 < length bytes)
      (at : next_pos lib st (record { bound = bound; sector = sector; loc = from; size = size })
        ≡ loc)
      (behind : (sd.sector ≢ sector) ⊎ (loc < sd.loc))
      (fresh : expected_wrapcnt sd sector wrapcheck wrapcnt ≡ sd.wrapcnt) where
    abbrev origin : Record
    origin = record { bound = bound; sector = sector; loc = from; size = size }

    abbrev found : Record
    found = record { bound = bound; sector = sector; loc = loc; size = length bytes }

    header_finds :
        header_ok lib st sd origin wrapcheck loc (sas_magic ∷ wrapcnt ∷ lib.put_le16 (length bytes))
        ≡ true
    unfolding header_ok
    header_finds = rw (size_lem, fresh, eq→== sd.wrapcnt sd.wrapcnt refl) sized
      where
        sized :
            (ltb 0 (length bytes)
              && ltb
                  (length bytes)
                  (size_sub (size_sub (size_sub st.sector_size loc) sas_crcsize) sas_hdrsize))
            ≡ true
        sized = ground (arith, laid.small, sector_inside st laid sector exists)

    round_finds : round lib st sd wrapcheck false origin dev ≡ leave ok found
    unfolding round
    round_finds = rw (at, header_lem, stop, header_finds, size_lem) refl
      where
        stop : (sd.sector == sector && leb sd.loc loc || loc == st.sector_size) ≡ false
        stop = ground arith

    -- The walk, on its way to the record, finds it with its size, if the write position does not
    -- lie before it and its wrap count is the one that is looked for.
    pub finds :
        (r : Record)
        → skip_cookie st.sector_cookie st.area.geometry.write_size r ≡ origin
        → record_next_in_sector lib st sd wrapcheck r dev ≡ (ok, found)
    unfolding record_next_in_sector next_loop
    finds r past = rw (past, next_loop, round_finds) refl

  -- Its checksum is right.
  pub valid_lem :
      (bound : Bool)
      → st.crc_skip ≤ length bytes
      → record_valid lib st
          (record { bound = bound; sector = sector; loc = loc; size = length bytes })
          dev
        ≡ true
  valid_lem bound skip =
      let inside = sector_inside st laid sector exists in
      record_valid_lem lib st view Inv laws medium
        (record { bound = bound; sector = sector; loc = loc; size = length bytes }) dev (start + 4)
        ready skip refl (omega arith)
      ∙ eq→== _ _ (ap (lib.crc32_ieee_update sas_crcinit) tail ∙ sym stored)
    where
      c : ℕ
      c = checksum lib st wrapcnt bytes

      lt : length (take st.crc_skip bytes) ≡ st.crc_skip
      lt = omega (arith, length-take st.crc_skip bytes)

      ld : length (drop st.crc_skip bytes) ≡ length bytes - st.crc_skip
      ld = length-drop st.crc_skip bytes

      both : length (take st.crc_skip bytes) + length (drop st.crc_skip bytes) ≡ length bytes
      both = omega (arith, lt, ld)

      tail :
          slice (view dev) (start + 4 + st.crc_skip) (length bytes - st.crc_skip)
          ≡ drop st.crc_skip bytes
      tail =
          ap₂ (λ j k. slice (view dev) (start + 4 + j) k) (sym lt) (sym ld)
          ∙ (slice_parts (view dev) (start + 4) (take st.crc_skip bytes) (drop st.crc_skip bytes) (
              ap (slice (view dev) (start + 4)) both
              ∙ holds.payload
              ∙ sym (take-append-drop st.crc_skip bytes))).1

      stored : lib.get_le32 (slice (view dev) (start + 4 + length bytes) sas_crcsize) ≡ c
      stored =
          ap lib.get_le32 (holds.crc ∙ sym (append-nil (lib.put_le32 c)))
          ∙ laws.get-put_le32 c []
              (laws.crc_bound sas_crcinit (drop st.crc_skip bytes) (omega arith))
