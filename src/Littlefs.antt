-- ===== src/Littlefs.antt =====
-- samples/subsys/fs/littlefs-eeprom/src/main.c: a program that counts its runs in one file of a
-- littlefs volume and changes a pattern of bytes in another. The calls of Zephyr's file system are
-- parameters; its log and console output is left out.
pub mod Pattern
pub mod Calls
pub mod Balance
pub mod Laws
pub mod Files
pub mod Boots
pub use Calls.*
use zephyr_goodies.Base.{
  ℕ, zero, suc, ◌-◌, Bool, true, false, not, ◌&&◌, Option, none, some, List, [], ◌∷◌, ◌++◌, ◌==◌,
  if◌then◌else◌, get_or, take, Memory, ◌||◌, slice, splice,
}
use Pattern.{add_byte, init_pattern, incr_pattern}

-- `MAX_PATH_LEN` and `TEST_FILE_SIZE`
abbrev pub max_path_len : ℕ
max_path_len = 255

abbrev pub test_file_size : ℕ
test_file_size = 547

-- `"/boot_count"` and `"/pattern.bin"`
abbrev pub boot_count : List ℕ
boot_count = b'/' ∷ b'b' ∷ b'o' ∷ b'o' ∷ b't' ∷ b'_' ∷ b'c' ∷ b'o' ∷ b'u' ∷ b'n' ∷ b't' ∷ []

abbrev pub pattern_bin : List ℕ
pattern_bin = b'/' ∷ b'p' ∷ b'a' ∷ b't' ∷ b't' ∷ b'e' ∷ b'r' ∷ b'n' ∷ b'.' ∷ b'b' ∷ b'i' ∷ b'n' ∷ []

-- `snprintf` of a file's name into a buffer of `MAX_PATH_LEN` bytes, the last of them 0.
pub path_in : List ℕ → List ℕ → List ℕ
path_in mnt name = take (max_path_len - 1) (mnt ++ name)

-- What the program keeps: the file system with the file or directory object that a function has,
-- `file_test_pattern`, and what of `struct fs_mount_t` the program sets.
pub record World (S : Type 0) : Type 0 where
  pub disk : S
  pub pattern : Memory
  pub mountpoint : Mountpoint

module _ {S : Type 0} (fs : Fs S) where
  -- `for (;;)` of `lsdir`; `none` where the fuel did not last.
  unfoldable pub lsdir_loop : ℕ → S → Option (ℤ × S)
  lsdir_loop zero s = none
  lsdir_loop (suc n) s =
      let (rc, entry, s') = fs.fs_readdir s in
      let rest = lsdir_loop n s' in
      if not (is_zero rc) || is_nil entry.name then some (rc, s') else rest

  unfoldable pub close_dir : Option (ℤ × S) → Option (ℤ × S)
  close_dir none = none
  close_dir (some (res, s)) = some (res, (fs.fs_closedir s).1)

  unfoldable pub lsdir : ℕ → List ℕ → S → Option (ℤ × S)
  lsdir fuel path s =
      let (res, s') = fs.fs_opendir path (fs.fs_dir_t_init s) in
      if not (is_zero res) then some (res, s') else close_dir (lsdir_loop fuel s')

  -- `out:` of the two functions below, with the code that they come there with.
  unfoldable pub close_file : ℤ × S → ℤ × S
  close_file (rc, s) =
      let (ret, s') = fs.fs_close s in
      if is_negative ret then (ret, s') else (if is_negative rc then rc else pos 0, s')

  -- From `fs_read` to `out:`; `boot_count` is 0 where nothing is read.
  unfoldable pub count_boot : S → ℤ × S
  count_boot s =
      let (rc, bytes, s₁) = fs.fs_read 1 s in
      if is_negative rc
      then (rc, s₁)
      else let (rc', s₂) = fs.fs_seek 0 s₁ in
        if is_negative rc' then (rc', s₂) else fs.fs_write (add_byte (get_or bytes 0 0) 1 ∷ []) s₂

  unfoldable pub littlefs_increase_infile_value : List ℕ → S → ℤ × S
  littlefs_increase_infile_value fname s =
      let (rc, s') = fs.fs_open fname open_flags (fs.fs_file_t_init s) in
      if is_negative rc then (rc, s') else close_file (count_boot s')

  -- The pattern that `fs_read` and `incr_pattern` leave.
  unfoldable pub reload : World S → ℤ × World S
  reload w =
      let (rc, bytes, s) = fs.fs_read test_file_size w.disk in
      let read = splice w.pattern 0 bytes in
      if is_negative rc
      then (rc, record w { disk = s; pattern = read })
      else (rc, record w { disk = s; pattern = incr_pattern read test_file_size 1 })

  unfoldable pub write_pattern : World S → ℤ × World S
  write_pattern w =
      let (rc, s) = fs.fs_seek 0 w.disk in
      if is_negative rc
      then (rc, record w { disk = s })
      else let (rc', s') = fs.fs_write (slice w.pattern 0 test_file_size) s in
        (rc', record w { disk = s' })

  -- From `fs_stat` to `out:`.
  unfoldable pub adjust : List ℕ → World S → ℤ × World S
  adjust fname w =
      let (rc, dirent, s) = fs.fs_stat fname w.disk in
      let at = record w { disk = s } in
      if is_negative rc
      then (rc, at)
      else let (rc', w') =
          if is_zero rc && is_file dirent.entry_type && (dirent.size == 0)
          then (rc, record at { pattern = init_pattern at.pattern test_file_size })
          else reload at in
        if is_negative rc' then (rc', w') else write_pattern w'

  unfoldable pub close_world : ℤ × World S → ℤ × World S
  close_world (rc, w) = let (ret, s) = close_file (rc, w.disk) in (ret, record w { disk = s })

  unfoldable pub littlefs_binary_file_adj : List ℕ → World S → ℤ × World S
  littlefs_binary_file_adj fname w =
      let (rc, s) = fs.fs_open fname open_flags (fs.fs_file_t_init w.disk) in
      let at = record w { disk = s } in
      if is_negative rc then (rc, at) else close_world (adjust fname at)

  -- `disk_name` is `DISK_NAME`, the devicetree's name of the disk.
  unfoldable pub littlefs_mount : List ℕ → World S → ℤ × World S
  littlefs_mount disk_name w =
      let mp : Mountpoint = record {
        storage_dev = disk_name;
        mnt_point = b'/' ∷ disk_name ++ b':' ∷ [];
      } in
      let (rc, s) = fs.fs_mount mp w.disk in (rc, record w { disk = s; mountpoint = mp })

  -- From the listed directory to `out:`.
  unfoldable pub files_changed : World S → ℤ × S → Option (World S)
  files_changed w (rc, s) =
      if is_negative rc
      then some (record w { disk = s })
      else let mnt = w.mountpoint.mnt_point in
        let (rc', s') = littlefs_increase_infile_value (path_in mnt boot_count) s in
        let at = record w { disk = s' } in
        if not (is_zero rc')
        then some at
        else some (littlefs_binary_file_adj (path_in mnt pattern_bin) at).1

  -- From `fs_statvfs` to `out:`.
  unfoldable pub volume_used : ℕ → World S → Option (World S)
  volume_used fuel w =
      let (rc, s) = fs.fs_statvfs w.mountpoint.mnt_point w.disk in
      if is_negative rc
      then some (record w { disk = s })
      else (lsdir fuel w.mountpoint.mnt_point s >>= files_changed w)

  unfoldable pub unmounted : World S → ℤ × World S
  unmounted w = (pos 0, record w { disk = (fs.fs_unmount w.mountpoint w.disk).1 })

  unfoldable pub main : List ℕ → ℕ → World S → Option (ℤ × World S)
  main disk_name fuel w =
      let (rc, w') = littlefs_mount disk_name w in
      if is_negative rc then some (rc, w') else (volume_used fuel w' >>= λ v. some (unmounted v))
