-- ===== src/Circular.antt =====
-- samples/subsys/storage_area_store/storage_area_store_cb/src/main.c: a store as a circular buffer,
-- with a producer that makes room by an advance and a consumer that marks what it has read.
pub mod Produce
pub mod Threads
use zephyr_goodies.Base.{
  ℕ, zero, suc, ◌+◌, not, false, some, List, [], ◌∷◌, ◌==◌, if◌then◌else◌, get_or,
}
use zephyr_goodies.Errno.{Rc, ok, out_of_fuel, is_ok, is_enospc}
use zephyr_goodies.Area.{erase}
use zephyr_goodies.Store.{Platform, Store, World, Record, Handle}
use zephyr_goodies.Store.Read.{storage_area_record_next, storage_area_record_read}
use zephyr_goodies.Store.Update.{storage_area_record_update}
use zephyr_goodies.Store.Mount.{storage_area_store_mount_cb}
use zephyr_goodies.Store.Calls.{storage_area_store_write, storage_area_store_advance}

-- `struct data_format`, packed: the state 0xff and the bytes of the value in memory.
abbrev pub data_format : (ℕ → List ℕ) → ℕ → List ℕ
data_format value_bytes value = 0xff ∷ value_bytes value

-- `sizeof(struct data_format)`
abbrev pub data_size : ℕ
data_size = 5

-- `walk` with `walk.store = NULL`
abbrev pub no_record : Record
no_record = record { bound = false; sector = 0; loc = 0; size = 0 }

module _ {S : Type 0} (lib : Platform) (st : Store S) (h : Handle) where
  -- `storage_area_store_init` of the sample
  unfoldable pub storage_area_store_init : World S → Rc × World S
  storage_area_store_init w =
      let (rc, mounted) = storage_area_store_mount_cb lib st h w in
      let (rc', dev) = erase (some st.area) 0 1 mounted.dev in
      if not (is_ok rc) then (rc, mounted) else (rc', record mounted { dev = dev })

  -- The `while (true)` of `producer`.
  unfoldable pub write_message : ℕ → List ℕ → World S → Rc × World S
  write_message zero bytes w = (out_of_fuel, w)
  write_message (suc fuel) bytes w =
      let (rc, written) = storage_area_store_write lib st h bytes w in
      let (rc', advanced) = storage_area_store_advance lib st h written in
      let rest = write_message fuel bytes advanced in
      if is_enospc rc then (if is_ok rc' then rest else (rc', advanced)) else (rc, written)

  module _ (value_bytes : ℕ → List ℕ) (rounds : ℕ) where
    -- The loop of `producer`, with `left` values to go from `i`.
    unfoldable pub produce_loop : ℕ → ℕ → Rc → ℕ → World S → Rc × ℕ × World S
    produce_loop zero i rc rcount w = (rc, rcount, w)
    produce_loop (suc left) i rc rcount w =
        let (rc', w') = write_message rounds (data_format value_bytes i) w in
        produce_loop left (suc i) rc' (if is_ok rc' then suc rcount else rcount) w'

    -- `producer`, with the count that it logs
    unfoldable pub producer : World S → Rc × ℕ × World S
    producer w = produce_loop 8 0 ok 0 w

  -- The loop of `consumer`.
  unfoldable pub consume_loop : ℕ → Record → Rc → ℕ → World S → Rc × ℕ × World S
  consume_loop zero walk rc rcount w = (out_of_fuel, rcount, w)
  consume_loop (suc fuel) walk rc rcount w =
      let (rc_next, found) = storage_area_record_next lib st h walk w in
      let (rc_read, message) = storage_area_record_read lib st h (some found) 0 data_size w in
      let (rc_update, updated) = storage_area_record_update lib st h found (0 ∷ []) w in
      let marked = consume_loop fuel found rc_update (suc rcount) updated in
      let passed = consume_loop fuel found rc_read rcount w in
      if not (is_ok rc_next)
      then (rc, rcount, w)
      else if not (is_ok rc_read)
      then (rc_read, rcount, w)
      else if get_or message 0 0 == 0xff
      then (if is_ok rc_update then marked else (rc_update, suc rcount, updated))
      else passed

  -- `consumer`, with the count that it logs
  unfoldable pub consumer : ℕ → World S → Rc × ℕ × World S
  consumer rounds w = consume_loop rounds no_record ok 0 w

  module _ (value_bytes : ℕ → List ℕ) (rounds : ℕ) where
    -- The loop of `main`, with `turns` to go; it returns 0 in any case.
    unfoldable pub main_loop : ℕ → World S → World S
    main_loop zero w = w
    main_loop (suc turns) w =
        let (rc, _, produced) = producer value_bytes rounds w in
        let (rc', _, consumed) = consumer rounds produced in
        let rest = main_loop turns consumed in
        if not (is_ok rc) then produced else if not (is_ok rc') then consumed else rest

    -- `main`
    unfoldable pub main : World S → World S
    main w =
        let (rc, started) = storage_area_store_init w in
        if not (is_ok rc) then started else main_loop 100 started
