-- ===== src/Littlefs/Balance.antt =====
-- samples/subsys/fs/littlefs-eeprom/src/main.c: what a run opens it closes, and what it mounts it
-- unmounts, whichever of the file system's calls fail.
use zephyr_goodies.Base.{
  ℕ, suc, ◌+◌, ◌≡◌, zero, ◌||◌, subst, refl, inl, inr, not, Option, some, none, List, if◌then◌else◌,
  Bool-cases, arith,
}
use zephyr_goodies.Littlefs.{
  ℤ, pos, is_negative, is_zero, Fs, World, open_flags, is_nil, path_in, boot_count, pattern_bin,
  lsdir_loop, close_dir, lsdir, close_file, count_boot, littlefs_increase_infile_value, reload,
  write_pattern, adjust, close_world, littlefs_binary_file_adj, littlefs_mount, files_changed,
  volume_used, unmounted, main, ◌>>=◌,
}

-- A file system's state, with the calls that succeeded in opening a file or a directory, the calls
-- that close one, and the same of mounting.
pub record Counted (S : Type 0) : Type 0 where
  pub state : S
  pub opens : ℕ
  pub closes : ℕ
  pub mounts : ℕ
  pub unmounts : ℕ

module _ {S : Type 0} where
  abbrev moved : Counted S → S → Counted S
  moved c s = record c { state = s }

  abbrev opened : Counted S → ℤ × S → ℤ × Counted S
  opened c (rc, s) =
      (rc, if is_negative rc then moved c s else record c { state = s; opens = suc c.opens })

  abbrev dir_opened : Counted S → ℤ × S → ℤ × Counted S
  dir_opened c (rc, s) =
      (rc, if is_zero rc then record c { state = s; opens = suc c.opens } else moved c s)

  abbrev closed : Counted S → ℤ × S → ℤ × Counted S
  closed c (rc, s) = (rc, record c { state = s; closes = suc c.closes })

  abbrev passed : Counted S → ℤ × S → ℤ × Counted S
  passed c (rc, s) = (rc, moved c s)

  -- A file system with its calls counted.
  abbrev pub counted : Fs S → Fs (Counted S)
  counted fs = record {
    fs_mount = λ mp c.
        let (rc, s) = fs.fs_mount mp c.state in
        (rc, if is_negative rc then moved c s else record c { state = s; mounts = suc c.mounts });
    fs_unmount = λ mp c.
        let (rc, s) = fs.fs_unmount mp c.state in
        (rc, record c { state = s; unmounts = suc c.unmounts });
    fs_statvfs = λ path c. passed c (fs.fs_statvfs path c.state);
    fs_dir_t_init = λ c. moved c (fs.fs_dir_t_init c.state);
    fs_opendir = λ path c. dir_opened c (fs.fs_opendir path c.state);
    fs_readdir = λ c. let (rc, entry, s) = fs.fs_readdir c.state in (rc, entry, moved c s);
    fs_closedir = λ c. closed c (fs.fs_closedir c.state);
    fs_file_t_init = λ c. moved c (fs.fs_file_t_init c.state);
    fs_open = λ name flags c. opened c (fs.fs_open name flags c.state);
    fs_stat = λ name c. let (rc, entry, s) = fs.fs_stat name c.state in (rc, entry, moved c s);
    fs_read = λ n c. let (rc, bytes, s) = fs.fs_read n c.state in (rc, bytes, moved c s);
    fs_seek = λ at c. passed c (fs.fs_seek at c.state);
    fs_write = λ bytes c. passed c (fs.fs_write bytes c.state);
    fs_close = λ c. closed c (fs.fs_close c.state);
  }

-- Of files and directories, as many were opened as closed between two states; and nothing was
-- mounted or unmounted.
pub record IsLevel {S : Type 0} (a b : Counted S) : Type 0 where
  pub files : a.opens + b.closes ≡ b.opens + a.closes
  pub mounted : b.mounts ≡ a.mounts
  pub unmounted : b.unmounts ≡ a.unmounts

-- The same with one file or directory left open.
record IsOneOpen {S : Type 0} (a b : Counted S) : Type 0 where
  files : suc (a.opens + b.closes) ≡ b.opens + a.closes
  mounted : b.mounts ≡ a.mounts
  unmounted : b.unmounts ≡ a.unmounts

some_injective {ℓ} : {A : Type ℓ} {x y : A} → some x ≡ some y → x ≡ y
some_injective h = cc

some_bind {ℓ κ} :
    {A : Type ℓ} {B : Type κ} (m : Option A) (f : A → Option B) (b : B)
    → (m >>= f) ≡ some b
    → (a : A) × (m ≡ some a) × (f a ≡ some b)
some_bind none f b h = cc
some_bind (some a) f b h = (a, refl, h)

module _ {S : Type 0} (fs : Fs S) where
  abbrev cfs : Fs (Counted S)
  cfs = counted fs

  count_boot-IsLevel : (a : Counted S) → IsLevel a (count_boot cfs a).1
  unfolding count_boot
  count_boot-IsLevel a = ground arith

  close_file-IsLevel :
      (a : Counted S) (m : ℤ × Counted S) → IsOneOpen a m.1 → IsLevel a (close_file cfs m).1
  unfolding close_file
  close_file-IsLevel a m h = ground arith

  lsdir_loop-IsOneOpen :
      (fuel : ℕ) (a b : Counted S) (out : ℤ × Counted S)
      → IsOneOpen a b
      → lsdir_loop cfs fuel b ≡ some out
      → IsOneOpen a out.1
  unfolding lsdir_loop
  lsdir_loop-IsOneOpen zero a b out h e = cc
  lsdir_loop-IsOneOpen (suc n) a b out h e =
      let (rc, entry, s') = cfs.fs_readdir b in
      let next : IsOneOpen a s' = ground arith in
      elim (Bool-cases (not (is_zero rc) || is_nil entry.name)) [
        | inl last ↦ subst (λ o. IsOneOpen a o.1) (some_injective (rw last at e)) next
        | inr more ↦ lsdir_loop-IsOneOpen n a s' out next (rw more at e)
      ]

  close_dir-IsLevel :
      (a : Counted S) (m : Option (ℤ × Counted S)) (out : ℤ × Counted S)
      → ((b : ℤ × Counted S) → m ≡ some b → IsOneOpen a b.1)
      → close_dir cfs m ≡ some out
      → IsLevel a out.1
  unfolding close_dir
  close_dir-IsLevel a none out h e = cc
  close_dir-IsLevel a (some b) out h e =
      let one = h b refl in subst (λ o. IsLevel a o.1) (some_injective e) (ground arith)

  -- A state in which one more is open.
  abbrev one_more : Counted S → S → Counted S
  one_more a s = record a { state = s; opens = suc a.opens }

  left_open : (a b : Counted S) (s : S) → IsLevel (one_more a s) b → IsOneOpen a b
  left_open a b s h = ground arith

  lsdir-IsLevel :
      (fuel : ℕ) (path : List ℕ) (a : Counted S) (out : ℤ × Counted S)
      → lsdir cfs fuel path a ≡ some out
      → IsLevel a out.1
  unfolding lsdir
  lsdir-IsLevel fuel path a out e =
      let (rc, s) = fs.fs_opendir path (fs.fs_dir_t_init a.state) in
      elim (Bool-cases (is_zero rc)) [
        | inl z ↦
            close_dir-IsLevel a (lsdir_loop cfs fuel (one_more a s)) out
              (λ b l. lsdir_loop-IsOneOpen fuel a (one_more a s) b (ground arith) l) (rw z at e)
        | inr z ↦ subst (λ o. IsLevel a o.1) (some_injective (rw z at e)) (ground arith)
      ]

  littlefs_increase_infile_value-IsLevel :
      (name : List ℕ) (a : Counted S) → IsLevel a (littlefs_increase_infile_value cfs name a).1
  unfolding littlefs_increase_infile_value
  littlefs_increase_infile_value-IsLevel name a =
      let (rc, s) = fs.fs_open name open_flags (fs.fs_file_t_init a.state) in
      elim (Bool-cases (is_negative rc)) [
        | inl n ↦ rw n (ground arith)
        | inr n ↦ rw n (
            close_file-IsLevel a (count_boot cfs (one_more a s))
              (left_open a (count_boot cfs (one_more a s)).1 s (count_boot-IsLevel (one_more a s))))
      ]

  adjust-IsLevel :
      (name : List ℕ) (w : World (Counted S)) → IsLevel w.disk (adjust cfs name w).1.disk
  unfolding adjust reload write_pattern
  adjust-IsLevel name w = ground arith

  close_world-IsLevel :
      (a : Counted S) (m : ℤ × World (Counted S))
      → IsOneOpen a m.1.disk
      → IsLevel a (close_world cfs m).1.disk
  unfolding close_world
  close_world-IsLevel a m h = close_file-IsLevel a (m.0, m.1.disk) h

  littlefs_binary_file_adj-IsLevel :
      (name : List ℕ) (w : World (Counted S))
      → IsLevel w.disk (littlefs_binary_file_adj cfs name w).1.disk
  unfolding littlefs_binary_file_adj
  littlefs_binary_file_adj-IsLevel name w =
      let (rc, s) = fs.fs_open name open_flags (fs.fs_file_t_init w.disk.state) in
      let at : World (Counted S) = record w { disk = one_more w.disk s } in
      elim (Bool-cases (is_negative rc)) [
        | inl n ↦ rw n (ground arith)
        | inr n ↦ rw n (
            close_world-IsLevel w.disk (adjust cfs name at)
              (left_open w.disk (adjust cfs name at).1.disk s (adjust-IsLevel name at)))
      ]

  IsLevel-trans : (a b c : Counted S) → IsLevel a b → IsLevel b c → IsLevel a c
  IsLevel-trans a b c h k = ground arith

  files_changed-IsLevel :
      (w : World (Counted S)) (m : ℤ × Counted S) (out : World (Counted S))
      → files_changed cfs w m ≡ some out
      → IsLevel m.1 out.disk
  unfolding files_changed
  files_changed-IsLevel w (rc, s) out e =
      let name = path_in w.mountpoint.mnt_point boot_count in
      let (rc', s') = littlefs_increase_infile_value cfs name s in
      let at : World (Counted S) = record w { disk = s' } in
      let first = littlefs_increase_infile_value-IsLevel name s in
      let file = path_in w.mountpoint.mnt_point pattern_bin in
      elim (Bool-cases (is_negative rc)) [
        | inl n ↦ subst (λ o. IsLevel s o.disk) (some_injective (rw n at e)) (ground arith)
        | inr n ↦ elim (Bool-cases (is_zero rc')) [
          | inl z ↦
              subst (λ o. IsLevel s o.disk) (some_injective (rw (n, z) at e))
                (IsLevel-trans s s' (littlefs_binary_file_adj cfs file at).1.disk first
                  (littlefs_binary_file_adj-IsLevel file at))
          | inr z ↦ subst (λ o. IsLevel s o.disk) (some_injective (rw (n, z) at e)) first
        ]
      ]

  volume_used-IsLevel :
      (fuel : ℕ) (w out : World (Counted S))
      → volume_used cfs fuel w ≡ some out
      → IsLevel w.disk out.disk
  unfolding volume_used
  volume_used-IsLevel fuel w out e =
      let (rc, s) = cfs.fs_statvfs w.mountpoint.mnt_point w.disk in
      elim (Bool-cases (is_negative rc)) [
        | inl n ↦ subst (λ o. IsLevel w.disk o.disk) (some_injective (rw n at e)) (ground arith)
        | inr n ↦
            let (m, listed, changed) =
              some_bind (lsdir cfs fuel w.mountpoint.mnt_point s) (files_changed cfs w) out
                (rw n at e) in
            let first : IsLevel s m.1 = lsdir-IsLevel fuel w.mountpoint.mnt_point s m listed in
            IsLevel-trans w.disk m.1 out.disk (ground arith) (files_changed-IsLevel w m out changed)
      ]

  littlefs_mount_counts :
      (disk_name : List ℕ) (w : World (Counted S))
      → let (rc, w') = littlefs_mount cfs disk_name w in
        (w'.disk.opens ≡ w.disk.opens)
        × (w'.disk.closes ≡ w.disk.closes)
        × (w'.disk.mounts ≡ w.disk.mounts + (if is_negative rc then 0 else 1))
        × (w'.disk.unmounts ≡ w.disk.unmounts)
  unfolding littlefs_mount
  littlefs_mount_counts disk_name w = ground arith

  -- However the calls of the file system answer, a run that ends has made one call that closes a
  -- file or a directory for each call that opened one, and has called for the volume to be
  -- unmounted once if it was mounted and not at all if it was not. It returns the code of the mount
  -- where that is an error, and 0 otherwise.
  pub main-balanced :
      (disk_name : List ℕ) (fuel : ℕ) (w : World (Counted S)) (out : ℤ × World (Counted S))
      → main cfs disk_name fuel w ≡ some out
      → let a = w.disk in
        let b = out.1.disk in
        let code = (littlefs_mount cfs disk_name w).0 in
        (a.opens + b.closes ≡ b.opens + a.closes)
        × (b.mounts ≡ a.mounts + (if is_negative code then 0 else 1))
        × (b.unmounts ≡ a.unmounts + (if is_negative code then 0 else 1))
        × (out.0 ≡ (if is_negative code then code else pos 0))
  unfolding main unmounted
  main-balanced disk_name fuel w out e =
      let (rc, w') = littlefs_mount cfs disk_name w in
      let (opens, closes, mounts, unmounts) = littlefs_mount_counts disk_name w in
      elim (Bool-cases (is_negative rc)) [
        | inl n ↦ let end : (rc, w') ≡ out = some_injective (rw n at e) in rw n (ground arith)
        | inr n ↦
            let (v, used, end) =
              some_bind (volume_used cfs fuel w') (λ v. some (unmounted cfs v)) out (rw n at e) in
            let level : IsLevel w'.disk v.disk = volume_used-IsLevel fuel w' v used in
            let last : unmounted cfs v ≡ out = some_injective end in rw n (ground arith)
      ]
