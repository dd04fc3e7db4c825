-- ===== src/Settings/Save.antt =====
-- Saving a setting: what `settings_sas_save` writes to a mounted store comes back from it.
use zephyr_goodies.Base.{
  ℕ, zero, suc, ◌+◌, ◌*◌, ◌%◌, ◌^◌, ◌≤◌, ◌<◌, ◌≡◌, refl, subst, ap, ◌∙◌, true, false, some, none,
  ◌⊎◌, ◌≢◌, List, [], ◌∷◌, ◌++◌, flatten, length, take, drop, take_all, take_prefix, length-append,
  append-nil, Memory, arith, Option, if◌then◌else◌,
}
use zephyr_goodies.Errno.{ok}
use zephyr_goodies.Medium.{IsMedium}
use zephyr_goodies.Store.{
  Platform, IsPlatform, Store, World, Record, Handle, is_null, store_valid, store_ready,
}
use zephyr_goodies.Store.Layout.{IsLaidOut}
use zephyr_goodies.Store.Read.{storage_area_record_read}
use zephyr_goodies.Store.Read.Part.{storage_area_record_read_part}
use zephyr_goodies.Store.Write.Readback.{HoldsRecord}
use zephyr_goodies.Store.Write.{store_writev}
use zephyr_goodies.Store.Recover.{storage_area_store_mount}
use zephyr_goodies.Store.Calls.{storage_area_store_writev}
use zephyr_goodies.Store.Walk.{record_next_in_sector}
use zephyr_goodies.Store.Log.{IsLog}
use zephyr_goodies.Store.Log.Append.{IsAppended, appended}
use zephyr_goodies.Store.Write.RoundTrip.{comes_back}
use zephyr_goodies.Settings.{
  settings_sas_read_fn, sas_get_name_size, sas_get_name, settings_sas_duplicate, setting_buffers,
  save_loop, save_mounted, settings_sas_save, settings_sas_init, settings_sas_move, or_empty,
}

-- The data of the record of a setting.
abbrev pub setting : List ℕ → List ℕ → List ℕ
setting name value = length name ∷ name ++ value

drop_front : (x y : List ℕ) → drop (length x) (x ++ y) ≡ y
drop_front [] [] = refl
drop_front [] (b ∷ y) = refl
drop_front (a ∷ x) y = drop_front x y

module _ {S : Type 0} (lib : Platform) (st : Store S) (view : S → Memory) (Inv : S → Type 0)
    (laws : IsPlatform lib) (medium : IsMedium st.area view Inv) (laid : IsLaidOut st) (h : Handle)
    (valid : store_valid h ≡ true) where
  flatten-setting_buffers :
      (name value : List ℕ)
      → length name < 256
      → flatten (setting_buffers lib st h name value) ≡ setting name value
  unfolding setting_buffers flatten
  flatten-setting_buffers name value small =
      let e : length name % 256 ≡ length name = omega arith in
      ap (λ n. n ∷ (take n name ++ (value ++ []))) e
      ∙ ap (λ l. length name ∷ l)
          (ap (λ l. l ++ (value ++ [])) (take_all (length name) name (omega arith))
            ∙ ap (λ l. name ++ l) (append-nil value))

  module _ (w : World S) (wrapcnt sector loc : ℕ) (name value : List ℕ) (ready : Inv w.dev)
      (exists : sector < st.sector_cnt) (short : length (setting name value) < 2 ^ 16)
      (fits : loc + (length (setting name value) + 8) ≤ st.sector_size)
      (holds : HoldsRecord lib st laws wrapcnt
        (setting name value)
        (view w.dev)
        (sector * st.sector_size + loc)) where
    abbrev saved : Record
    saved = record { bound = true; sector = sector; loc = loc; size = length (setting name value) }

    part :
        (start len : ℕ)
        → start + len ≤ length (setting name value)
        → storage_area_record_read lib st h (some saved) start len w
          ≡ (ok, take len (drop start (setting name value)))
    part =
        storage_area_record_read_part lib st view Inv laws medium laid h w wrapcnt sector loc
          (setting name value) ready exists short fits valid holds

    size_reads : sas_get_name_size lib st h w saved ≡ length name
    unfolding sas_get_name_size
    size_reads = rw (part 0 1 (omega arith)) refl

    name_reads : sas_get_name lib st h w saved (length name) ≡ (ok, name)
    unfolding sas_get_name
    name_reads =
        part 1 (length name) (omega (arith, length-append name value))
        ∙ ap (λ l. (ok, l)) (take_prefix name value)

    value_reads :
        settings_sas_read_fn lib st h w saved (length name + 1) (length value) ≡ (ok, value)
    unfolding settings_sas_read_fn
    value_reads =
        let n : length name + 1 ≡ suc (length name) = omega arith in
        let whole : take (length value) (drop (length name + 1) (setting name value)) ≡ value =
          ap (λ k. take (length value) (drop k (setting name value))) n
          ∙ ap (take (length value)) (drop_front name value)
          ∙ take_all (length value) value (omega arith) in
        part (length name + 1) (length value) (omega (arith, length-append name value))
        ∙ ap (λ l. (ok, l)) whole

  save_loop-first :
      (tries : ℕ) (wr : List (List ℕ)) (w w' : World S)
      → 0 < tries
      → w.sd.ready ≡ true
      → store_writev lib st wr w ≡ (ok, w')
      → save_loop lib st h tries ok wr w ≡ (ok, w')
  unfolding save_loop storage_area_store_writev store_ready
  save_loop-first zero wr w w' some_tries mounted e = elim some_tries [ ]
  save_loop-first (suc tries) wr w w' some_tries mounted e = rw (valid, e, mounted) refl

  init_ready : (w : World S) → w.sd.ready ≡ true → settings_sas_init lib st h w ≡ (ok, w)
  unfolding settings_sas_init
  init_ready w mounted =
      ap
        (λ b.
          if b
          then (ok, w)
          else storage_area_store_mount lib st h (some (settings_sas_move lib st h)) w)
        mounted

  saves_new :
      (name value : List ℕ) (w : World S)
      → settings_sas_duplicate lib st h w name value ≡ false
      → save_mounted lib st h name value w
        ≡ save_loop lib st h st.sector_cnt ok (setting_buffers lib st h name value) w
  unfolding save_mounted
  saves_new name value w new = rw new refl

  -- A valid store that is mounted and can be written, on a device that works, whose write sector
  -- holds a log of records, is asked to save a setting, or to delete it by a value that is NULL, with a name of at most 255 bytes, that is
  -- not taken for a duplicate, whose record is not shorter than `crc_skip`, not longer than the size field
  -- holds, and leaves at least one byte of the sector free behind its checksum, at a position where the
  -- walk does not skip a cookie: `settings_sas_save` succeeds, the log then
  -- ends with a record of the setting, the walk from the position finds this record, and the
  -- backend reads the size of the name, the name and the value from it.
  pub settings_sas_save-then-read :
      (w : World S) (log : List (List ℕ)) (name : List ℕ) (bytes : Option (List ℕ))
      → IsLog lib st laws view Inv w log
      → w.sd.ready ≡ true
      → is_null w.sd.advance ≡ false
      → settings_sas_duplicate lib st h w name (or_empty bytes) ≡ false
      → length name < 256
      → length (setting name (or_empty bytes)) < 2 ^ 16
      → st.crc_skip ≤ length (setting name (or_empty bytes))
      → w.sd.loc + (length (setting name (or_empty bytes)) + 8) < st.sector_size
      → (w.sd.loc ≢ 0) ⊎ (st.sector_cookie ≡ none)
      → let (rc, w') = settings_sas_save lib st h (some name) bytes w in
        let value = or_empty bytes in
        let r : Record = record {
          bound = true;
          sector = w.sd.sector;
          loc = w.sd.loc;
          size = length (setting name value);
        } in
        (rc ≡ ok)
        × IsLog lib st laws view Inv w' (log ++ setting name value ∷ [])
        × (record_next_in_sector lib st w'.sd true (record r { size = 0 }) w'.dev ≡ (ok, r))
        × (sas_get_name_size lib st h w' r ≡ length name)
        × (sas_get_name lib st h w' r (length name) ≡ (ok, name))
        × (settings_sas_read_fn lib st h w' r (length name + 1) (length value) ≡ (ok, value))
  settings_sas_save-then-read w log name bytes is_log mounted writable new small short skip fits
        cookie =
      let value = or_empty bytes in
      let wr = setting_buffers lib st h name value in
      let e = flatten-setting_buffers name value small in
      let n : length (flatten wr) ≡ length (setting name value) = ap length e in
      let (w', a) : (w' : World S) × IsAppended lib st view Inv laws medium laid w log wr
            (setting name value) w' =
        subst (λ b. (w' : World S) × IsAppended lib st view Inv laws medium laid w log wr b w') e
          (appended lib st view Inv laws medium laid h w log wr is_log writable (omega (arith, n))
            (omega (arith, n)) (omega (arith, n)) (omega (arith, n))) in
      let done : settings_sas_save lib st h (some name) bytes w ≡ (ok, w') =
        unfold settings_sas_save in
        rw (init_ready w mounted) (
          saves_new name value w new
          ∙ save_loop-first st.sector_cnt wr w w' (omega (arith, is_log.position.exists)) mounted
              a.returned) in
      let back =
        comes_back lib st view Inv laws medium laid h w' w.sd.wrapcnt w.sd.sector w.sd.loc
          (setting name value) a.longer.works a.here a.count a.further is_log.position.exists valid
          (omega arith) short skip fits cookie a.holds in
      let works = a.longer.works in
      let at = is_log.position.exists in
      rw done (
        refl,
        a.longer,
        back.0,
        size_reads w' w.sd.wrapcnt w.sd.sector w.sd.loc name value works at short (omega arith)
            a.holds,
        name_reads w' w.sd.wrapcnt w.sd.sector w.sd.loc name value works at short (omega arith)
            a.holds,
        value_reads w' w.sd.wrapcnt w.sd.sector w.sd.loc name value works at short (omega arith)
            a.holds,
      )
