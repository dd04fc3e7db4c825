-- ===== src/Tests/Volumes.antt =====
-- The theorems of the littlefs sample, at a file system that keeps its files in memory.
use zephyr_goodies.Base.{
  ℕ, zero, suc, ◌+◌, ◌<◌, ◌≡◌, ◌≢◌, refl, Bool, true, false, ◌&&◌, Option, some, none, List, [],
  ◌∷◌, if◌then◌else◌, ◌==◌, eq→==, Bool-cases, inl, inr, length, take, drop, slice, arith,
}
use zephyr_goodies.Littlefs.{
  ℤ, pos, negsuc, Fs, World, Dirent, entry_file, Mountpoint, is_zero, is_nil, path_in, boot_count,
  pattern_bin, main, littlefs_mount, volume_used, lsdir, lsdir_loop, close_dir, files_changed,
  littlefs_increase_infile_value, unmounted,
}
use zephyr_goodies.Littlefs.Pattern.{
  init_pattern, incr_pattern, times, pattern_bytes, pattern_after,
}
use zephyr_goodies.Littlefs.Laws.{View, IsFs, overwritten}
use zephyr_goodies.Littlefs.Files.{count_bytes, stored}
use zephyr_goodies.Littlefs.Boots.{mount_point, runs, runs_counted}
use zephyr_goodies.Littlefs.Balance.{Counted, counted, main-balanced}

abbrev same : List ℕ → List ℕ → Bool
same [] [] = true
same [] (y ∷ ys) = false
same (x ∷ xs) [] = false
same (x ∷ xs) (y ∷ ys) = (x == y) && same xs ys

same_self : (xs : List ℕ) → same xs xs ≡ true
same_self [] = refl
same_self (x ∷ xs) = rw (eq→== x x refl) (same_self xs)

same→eq : (xs ys : List ℕ) → same xs ys ≡ true → xs ≡ ys
same→eq [] [] h = refl
same→eq [] (y ∷ ys) h = cc
same→eq (x ∷ xs) [] h = cc
same→eq (x ∷ xs) (y ∷ ys) h = ground (arith, same→eq xs ys)

ne→same_false : (xs ys : List ℕ) → xs ≢ ys → same xs ys ≡ false
ne→same_false xs ys n = elim (Bool-cases (same xs ys)) [
  | inl e ↦ absurd (n (same→eq xs ys e))
  | inr e ↦ e
]

-- What a program sees, and the entries that are left to list.
record Volume : Type 0 where
  view : View
  left : ℕ

abbrev entry : List ℕ → ℕ → Dirent
entry name size = record { entry_type = entry_file; size = size; name = name }

abbrev placed : Volume → Option (List ℕ × ℕ) → Volume
placed v c = record v { view = record v.view { cursor = c } }

abbrev mounting : Bool → Volume → ℤ × Volume
mounting b v = (pos 0, record v { view = record v.view { mounted = b } })

abbrev list_next : ℕ → Volume → ℤ × Dirent × Volume
list_next zero v = (pos 0, entry [] 0, v)
list_next (suc n) v = (pos 0, entry (b'f' ∷ []) 0, record v { left = n })

abbrev read_at : Option (List ℕ × ℕ) → ℕ → Volume → ℤ × List ℕ × Volume
read_at none n v = (negsuc 8, [], v)
read_at (some (name, at)) n v =
    let bytes = take n (drop at (v.view.contents name)) in
    (pos (length bytes), bytes, placed v (some (name, at + length bytes)))

abbrev seek_at : Option (List ℕ × ℕ) → ℕ → Volume → ℤ × Volume
seek_at none to v = (negsuc 8, v)
seek_at (some (name, at)) to v = (pos 0, placed v (some (name, to)))

abbrev write_at : Option (List ℕ × ℕ) → List ℕ → Volume → ℤ × Volume
write_at none bytes v = (negsuc 8, v)
write_at (some (name, at)) bytes v = (
  pos (length bytes),
  record v {
    view = record v.view {
      contents = λ other.
          if same other name
          then overwritten (v.view.contents name) at bytes
          else v.view.contents other;
      cursor = some (name, at + length bytes);
    };
  },
)

abbrev demo_fs : Fs Volume
demo_fs = record {
  fs_mount = λ mp v. mounting true v;
  fs_unmount = λ mp v. mounting false v;
  fs_statvfs = λ path v. (pos 0, v);
  fs_dir_t_init = λ v. v;
  fs_opendir = λ path v. (pos 0, record v { left = 2 });
  fs_readdir = λ v. list_next v.left v;
  fs_closedir = λ v. (pos 0, v);
  fs_file_t_init = λ v. v;
  fs_open = λ name flags v. (pos 0, placed v (some (name, 0)));
  fs_stat = λ name v. (pos 0, entry name (length (v.view.contents name)), v);
  fs_read = λ n v. read_at v.view.cursor n v;
  fs_seek = λ to v. seek_at v.view.cursor to v;
  fs_write = λ bytes v. write_at v.view.cursor bytes v;
  fs_close = λ v. (pos 0, placed v none);
}

list_next_lem :
    (n : ℕ) (v : Volume)
    → v.left ≡ n
    → (is_zero (list_next n v).0 ≡ true)
      × ((list_next n v).2.view ≡ v.view)
      × (is_nil (list_next n v).1.name ≡ false → (list_next n v).2.left < n)
list_next_lem zero v h = (refl, refl, λ e. cc)
list_next_lem (suc n) v h = (refl, refl, λ e. omega arith)

demo_fs-IsFs : IsFs demo_fs (λ v. v.view) 3
demo_fs-IsFs = record {
  entries = λ v. v.left;
  mounts = λ mp v h. (refl, refl);
  unmounts = λ mp v h. refl;
  measures = λ path v h. (refl, refl);
  starts = λ v. (refl, refl);
  lists = λ path v h. (refl, refl, omega arith);
  goes_on = λ v h. list_next_lem v.left v refl;
  leaves = λ v. refl;
  opens = λ name v h k. (refl, refl);
  tells = λ name at v h. (refl, refl, refl, refl, refl);
  reads = λ name at n v h. rw h (refl, refl, refl);
  seeks = λ name at to v h l. rw h (refl, refl);
  writes = λ name at bytes v h.
      rw h (refl, refl, refl, rw (same_self name) refl, λ o n. rw (ne→same_false o name n) refl);
  closes = λ name at v h. (refl, refl);
}

disk : List ℕ
disk = b'e' ∷ b'e' ∷ []

-- A new volume, and one on which no file can be opened.
abbrev new_volume : Volume
new_volume = record {
  view = record { mounted = false; contents = λ name. []; cursor = none };
  left = 0;
}

abbrev no_mount : Mountpoint
no_mount = record { storage_dev = []; mnt_point = [] }

abbrev new_world : World Volume
new_world = record { disk = new_volume; pattern = λ b. 0; mountpoint = no_mount }

abbrev full_fs : Fs Volume
full_fs = record demo_fs { fs_open = λ name flags v. (negsuc 27, v) }

abbrev tally : ℕ → Volume → Counted Volume
tally n v = record { state = v; opens = n; closes = n; mounts = n; unmounts = n }

abbrev full_world : World (Counted Volume)
full_world = record { disk = tally 0 new_volume; pattern = λ b. 0; mountpoint = no_mount }

abbrev full_end : World (Counted Volume)
full_end = record {
  disk = tally 1 (record new_volume { left = 0 });
  pattern = λ b. 0;
  mountpoint = record { storage_dev = disk; mnt_point = mount_point disk };
}

main_full : main (counted full_fs) disk 3 full_world ≡ some (pos 0, full_end)
unfolding main volume_used lsdir lsdir_loop close_dir files_changed littlefs_increase_infile_value
    littlefs_mount unmounted disk
main_full = refl

runs_counted_example :
    (v : World Volume) × (runs demo_fs disk 3 300 new_world ≡ some v)
    × (v.disk.view.contents (path_in (mount_point disk) boot_count) ≡ count_bytes 300)
    × (v.disk.view.contents (path_in (mount_point disk) pattern_bin) ≡ stored 300)
unfolding disk
runs_counted_example =
    runs_counted demo_fs (λ v. v.view) 3 disk 3 300 new_world demo_fs-IsFs (omega arith)
      (omega arith) refl refl refl refl

main-balanced_example : (0 + 1 ≡ 1 + 0) × (1 ≡ 0 + 1) × (1 ≡ 0 + 1) × (pos 0 ≡ pos 0)
unfolding littlefs_mount
main-balanced_example = main-balanced full_fs disk 3 full_world (pos 0, full_end) main_full

pattern_after_example :
    slice (times 3 (λ q. incr_pattern q 547 1) (init_pattern (λ b. 0) 547)) 0 547
    ≡ pattern_bytes 547 3
pattern_after_example = pattern_after (λ b. 0) 547 3 (omega arith)
