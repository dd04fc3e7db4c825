-- ===== src/Settings.antt =====
-- settings_storage_area_store.c: the settings of a device as records of a store. A record holds a
-- byte with the size of the name, the name and the value; a deleted setting has no value. A name is
-- the list of its bytes, without the NUL that ends it.
pub mod Search
pub mod Save
pub mod Duplicate
use zephyr_goodies.Base.{
  ℕ, zero, suc, ◌+◌, ◌*◌, ◌%◌, min, Bool, true, false, ◌&&◌, ◌||◌, not, Option, none, some, List,
  [], ◌∷◌, ltb, ◌==◌, if◌then◌else◌, length, take, drop, get_or,
}
use zephyr_goodies.Errno.{Rc, ok, enoent, einval, enospc, out_of_fuel, is_ok, is_enospc}
use zephyr_goodies.Size.{size_add, size_sub}
use zephyr_goodies.Medium.{area_size}
use zephyr_goodies.Store.{Platform, Store, World, Record, Handle}
use zephyr_goodies.Store.Read.{
  storage_area_record_valid, storage_area_record_next, storage_area_record_read,
}
use zephyr_goodies.Store.Compact.{Move}
use zephyr_goodies.Store.Recover.{storage_area_store_mount}
use zephyr_goodies.Store.Calls.{storage_area_store_writev, storage_area_store_compact}

abbrev pub sass_value_buf_size : ℕ
sass_value_buf_size = 32

-- `memcmp(a, b, n) == 0` for runs of one length
abbrev pub same_bytes : List ℕ → List ℕ → Bool
same_bytes [] [] = true
same_bytes (x ∷ xs) (y ∷ ys) = x == y && same_bytes xs ys
same_bytes [] (y ∷ ys) = false
same_bytes (x ∷ xs) [] = false

-- The bytes at a pointer that may be NULL.
abbrev pub or_empty : Option (List ℕ) → List ℕ
or_empty none = []
or_empty (some bytes) = bytes

-- A record that no walk has come to yet.
abbrev pub unbound : Record
unbound = record { bound = false; sector = 0; loc = 0; size = 0 }

-- `settings_call_set_handler` of Zephyr's settings subsystem, over the states of the application: it
-- gets the name, the size of the value, and what a read of some bytes of the value returns.
abbrev pub Handler : Type 0 → Type 0
Handler H = List ℕ → ℕ → (ℕ → Rc × List ℕ) → H → Rc × H

module _ {S : Type 0} (lib : Platform) (st : Store S) (h : Handle) where
  -- `settings_sas_read_fn`
  unfoldable pub settings_sas_read_fn : World S → Record → ℕ → ℕ → Rc × List ℕ
  settings_sas_read_fn w r dstart len = storage_area_record_read lib st h (some r) dstart len w

  -- `sas_get_name_size`
  unfoldable pub sas_get_name_size : World S → Record → ℕ
  sas_get_name_size w r =
      let (rc, byte) = storage_area_record_read lib st h (some r) 0 1 w in
      if not (is_ok rc) then 0 else get_or byte 0 0

  -- `sas_get_name`
  unfoldable pub sas_get_name : World S → Record → ℕ → Rc × List ℕ
  sas_get_name w r nsz = storage_area_record_read lib st h (some r) 1 nsz w

  -- More rounds than the store has bytes.
  abbrev pub all_records : ℕ
  all_records = suc st.sector_cnt * suc (suc (area_size st.area.geometry))

  -- The loop of `settings_sas_skip`: whether a valid record of this name stands behind a record.
  unfoldable pub newer : ℕ → World S → List ℕ → Record → Bool
  newer zero w name walk = false
  newer (suc fuel) w name walk =
      let (rc, found) = storage_area_record_next lib st h walk w in
      let (rc', wname) = sas_get_name w found (length name) in
      let rest = newer fuel w name found in
      if not (is_ok rc)
      then false
      else if not (sas_get_name_size w found == length name)
      then rest
      else if not (is_ok rc')
      then rest
      else if same_bytes name wname && storage_area_record_valid lib st h found w
      then true
      else rest

  -- `settings_sas_skip`; `none` is no argument, or one with no subtree.
  unfoldable pub settings_sas_skip : World S → Record → Option (List ℕ) → Bool
  settings_sas_skip w r subtree =
      let prefix = or_empty subtree in
      let slen = length prefix in
      let nsz = sas_get_name_size w r in
      let (rc, name) = sas_get_name w r nsz in
      let rv = newer all_records w name r in
      if nsz == 0 || ltb nsz slen
      then true
      else if not (is_ok rc)
      then true
      else if not (slen == 0) && not (same_bytes (take slen name) prefix)
      then true
      else if not rv && not (storage_area_record_valid lib st h r w)
      then true
      else rv

  -- `settings_sas_move`
  unfoldable pub settings_sas_move : World S → Record → Bool
  settings_sas_move w r =
      if settings_sas_skip w r none
      then false
      else if size_add (sas_get_name_size w r) 1 == r.size
      then false
      else true

  -- `settings_sas_init`
  unfoldable pub settings_sas_init : World S → Rc × World S
  settings_sas_init w =
      if w.sd.ready then (ok, w) else storage_area_store_mount lib st h (some settings_sas_move) w

  module _ {H : Type 0} (handler : Handler H) where
    -- The loop of `settings_sas_load`.
    unfoldable pub load_loop : ℕ → World S → Option (List ℕ) → Record → Rc → H → Rc × H
    load_loop zero w subtree r rc app = (out_of_fuel, app)
    load_loop (suc fuel) w subtree r rc app =
        let (rc_next, found) = storage_area_record_next lib st h r w in
        let nsz = sas_get_name_size w found in
        let (rc_name, name) = sas_get_name w found nsz in
        let dsize = size_sub found.size (nsz + 1) in
        let (rc_set, app') = handler name dsize (settings_sas_read_fn w found (nsz + 1)) app in
        let skipped = load_loop fuel w subtree found rc app in
        let deleted = load_loop fuel w subtree found rc_name app in
        let loaded = load_loop fuel w subtree found rc_set app' in
        if not (is_ok rc_next)
        then (rc, app)
        else if settings_sas_skip w found subtree
        then skipped
        else if not (is_ok rc_name)
        then (rc_name, app)
        else if dsize == 0
        then deleted
        else if is_ok rc_set
        then loaded
        else (rc_set, app')

    -- `settings_sas_load`; a store that cannot be mounted is left to other backends.
    unfoldable pub settings_sas_load : Option (List ℕ) → World S → H → Rc × World S × H
    settings_sas_load subtree w app =
        let (rc, w') = settings_sas_init w in
        let (rc', app') = load_loop all_records w' subtree unbound ok app in
        if not (is_ok rc) then (ok, w', app) else (rc', w', app')

  -- The first loop of `settings_sas_duplicate`: the first record under the name that is not
  -- skipped, or the record that the walk ends with.
  unfoldable pub first_kept : ℕ → World S → List ℕ → Record → Record
  first_kept zero w name r = r
  first_kept (suc fuel) w name r =
      let (rc, found) = storage_area_record_next lib st h r w in
      let rest = first_kept fuel w name found in
      if not (is_ok rc)
      then found
      else if settings_sas_skip w found (some name)
      then rest
      else found

  -- The second loop: where the comparison with the value ends.
  unfoldable pub compare_value : ℕ → World S → Record → ℕ → List ℕ → ℕ
  compare_value zero w r dstart value = dstart
  compare_value (suc fuel) w r dstart value =
      let rdsz = min sass_value_buf_size (size_sub r.size dstart) in
      let (rc, buf) = storage_area_record_read lib st h (some r) dstart rdsz w in
      let rest = compare_value fuel w r (size_add dstart rdsz) (drop rdsz value) in
      if not (ltb dstart r.size)
      then dstart
      else if not (is_ok rc)
      then dstart
      else if not (same_bytes (take rdsz value) buf)
      then dstart
      else rest

  -- `settings_sas_duplicate`; a round of the comparison takes at least one byte.
  unfoldable pub settings_sas_duplicate : World S → List ℕ → List ℕ → Bool
  settings_sas_duplicate w name value =
      let dstart = size_add 1 (length name) in
      let r = first_kept all_records w name unbound in
      if not (length value == size_sub r.size dstart)
      then false
      else compare_value (suc r.size) w r dstart value == r.size

  -- The array `wr` of `settings_sas_save`.
  unfoldable pub setting_buffers : List ℕ → List ℕ → List (List ℕ)
  setting_buffers name value =
      let nsz = length name % 256 in (nsz ∷ []) ∷ take nsz name ∷ value ∷ []

  -- The loop of `settings_sas_save`, with `tries` rounds to go.
  unfoldable pub save_loop : ℕ → Rc → List (List ℕ) → World S → Rc × World S
  save_loop zero rc wr w = (rc, w)
  save_loop (suc tries) rc wr w =
      let (rc_write, written) = storage_area_store_writev lib st h wr w in
      let (rc_compact, compacted) =
        storage_area_store_compact lib st h (some settings_sas_move) written in
      let rest = save_loop tries enospc wr compacted in
      if is_ok rc_write || not (is_enospc rc_write)
      then (rc_write, written)
      else if not (is_ok rc_compact)
      then (rc_compact, compacted)
      else rest

  -- What `settings_sas_save` does with a mounted store.
  unfoldable pub save_mounted : List ℕ → List ℕ → World S → Rc × World S
  save_mounted name value w =
      if settings_sas_duplicate w name value
      then (ok, w)
      else save_loop st.sector_cnt ok (setting_buffers name value) w

  -- `settings_sas_save`; `none` is a name or a value that is NULL.
  unfoldable pub settings_sas_save : Option (List ℕ) → Option (List ℕ) → World S → Rc × World S
  settings_sas_save none value w = (einval, w)
  settings_sas_save (some name) value w =
      let (rc, w') = settings_sas_init w in
      if not (is_ok rc) then (einval, w') else save_mounted name (or_empty value) w'
