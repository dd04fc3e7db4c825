-- ===== src/Littlefs/Laws.antt =====
-- A file system that does what Zephyr documents and that no call fails on, for
-- samples/subsys/fs/littlefs-eeprom/src/main.c.
use zephyr_goodies.Base.{
  ℕ, ◌+◌, ◌<◌, ◌≤◌, ◌≡◌, ◌≢◌, Bool, true, false, Option, some, none, List, ◌++◌, length, take, drop,
}
use zephyr_goodies.Littlefs.{is_negative, is_zero, is_nil, Fs, entry_file, Mountpoint, open_flags}

-- What a program sees of a file system: whether it is mounted, the bytes of each file (none where
-- there is no such file), and the name of the open file with the position in it.
pub record View : Type 0 where
  pub mounted : Bool
  pub contents : List ℕ → List ℕ
  pub cursor : Option (List ℕ × ℕ)

-- The bytes of a file after `bytes` are written at a position.
abbrev pub overwritten : List ℕ → ℕ → List ℕ → List ℕ
overwritten old at bytes = take at old ++ bytes ++ drop (at + length bytes) old

-- A file system that does what is asked of it. `view` is what a program sees of a state, and no
-- directory lists as many as `limit` entries.
pub record IsFs {S : Type 0} (fs : Fs S) (view : S → View) (limit : ℕ) : Type 0 where
  pub entries : S → ℕ
  pub mounts :
      (mp : Mountpoint) (s : S)
      → (view s).mounted ≡ false
      → (is_negative (fs.fs_mount mp s).0 ≡ false)
        × (view (fs.fs_mount mp s).1 ≡ record (view s) { mounted = true })
  pub unmounts :
      (mp : Mountpoint) (s : S)
      → (view s).mounted ≡ true
      → view (fs.fs_unmount mp s).1 ≡ record (view s) { mounted = false }
  pub measures :
      (path : List ℕ) (s : S)
      → (view s).mounted ≡ true
      → (is_negative (fs.fs_statvfs path s).0 ≡ false) × (view (fs.fs_statvfs path s).1 ≡ view s)
  pub starts :
      (s : S) → (view (fs.fs_dir_t_init s) ≡ view s) × (view (fs.fs_file_t_init s) ≡ view s)
  pub lists :
      (path : List ℕ) (s : S)
      → (view s).mounted ≡ true
      → (is_zero (fs.fs_opendir path s).0 ≡ true)
        × (view (fs.fs_opendir path s).1 ≡ view s)
        × (entries (fs.fs_opendir path s).1 < limit)
  pub goes_on :
      (s : S)
      → (view s).mounted ≡ true
      → (is_zero (fs.fs_readdir s).0 ≡ true)
        × (view (fs.fs_readdir s).2 ≡ view s)
        × (is_nil (fs.fs_readdir s).1.name ≡ false → entries (fs.fs_readdir s).2 < entries s)
  pub leaves : (s : S) → view (fs.fs_closedir s).1 ≡ view s
  pub opens :
      (name : List ℕ) (s : S)
      → (view s).mounted ≡ true
      → (view s).cursor ≡ none
      → (is_negative (fs.fs_open name open_flags s).0 ≡ false)
        × (view (fs.fs_open name open_flags s).1 ≡ record (view s) { cursor = some (name, 0) })
  pub tells :
      (name : List ℕ) (at : ℕ) (s : S)
      → (view s).cursor ≡ some (name, at)
      → let (rc, entry, s') = fs.fs_stat name s in
        (is_zero rc ≡ true)
        × (is_negative rc ≡ false)
        × (entry.entry_type ≡ entry_file)
        × (entry.size ≡ length ((view s).contents name))
        × (view s' ≡ view s)
  pub reads :
      (name : List ℕ) (at n : ℕ) (s : S)
      → (view s).cursor ≡ some (name, at)
      → let (rc, bytes, s') = fs.fs_read n s in
        (is_negative rc ≡ false)
        × (bytes ≡ take n (drop at ((view s).contents name)))
        × (view s' ≡ record (view s) { cursor = some (name, at + length bytes) })
  pub seeks :
      (name : List ℕ) (at to : ℕ) (s : S)
      → (view s).cursor ≡ some (name, at)
      → to ≤ length ((view s).contents name)
      → (is_negative (fs.fs_seek to s).0 ≡ false)
        × (view (fs.fs_seek to s).1 ≡ record (view s) { cursor = some (name, to) })
  -- The other files keep their bytes.
  pub writes :
      (name : List ℕ) (at : ℕ) (bytes : List ℕ) (s : S)
      → (view s).cursor ≡ some (name, at)
      → let (rc, s') = fs.fs_write bytes s in
        (is_negative rc ≡ false)
        × ((view s').mounted ≡ (view s).mounted)
        × ((view s').cursor ≡ some (name, at + length bytes))
        × ((view s').contents name ≡ overwritten ((view s).contents name) at bytes)
        × ((other : List ℕ) → other ≢ name → (view s').contents other ≡ (view s).contents other)
  pub closes :
      (name : List ℕ) (at : ℕ) (s : S)
      → (view s).cursor ≡ some (name, at)
      → (is_negative (fs.fs_close s).0 ≡ false)
        × (view (fs.fs_close s).1 ≡ record (view s) { cursor = none })
