-- ===== src/Littlefs/Boots.antt =====
-- samples/subsys/fs/littlefs-eeprom/src/main.c: what the files hold after a number of runs, on a
-- file system that no call fails on.
use zephyr_goodies.Base.{
  ℕ, zero, suc, ◌+◌, ◌-◌, ◌<◌, ◌≤◌, ◌≡◌, ◌≢◌, refl, sym, ap, ap₂, ◌∙◌, inl, inr, Bool, true, false,
  Option, some, none, List, [], ◌∷◌, ◌++◌, Bool-cases, length, take, get_or, take-append,
  append-injective, length-append, arith,
}
use zephyr_goodies.Littlefs.{
  ℤ, pos, is_zero, is_nil, Fs, World, Mountpoint, open_flags, path_in, boot_count, pattern_bin,
  lsdir_loop, close_dir, lsdir, close_file, littlefs_increase_infile_value, adjust, close_world,
  littlefs_binary_file_adj, littlefs_mount, files_changed, volume_used, unmounted, main, ◌>>=◌,
}
use zephyr_goodies.Littlefs.Laws.{View, IsFs}
use zephyr_goodies.Littlefs.Files.{
  seen, count_bytes, stored, zero-nonnegative, counted_on, counted_on-count_bytes, IsGiven,
  IsRepatterned, opened, close_file_lem, IsGiven-closed, littlefs_increase_infile_value_lem,
  adjust_lem,
}

-- The mount point that `littlefs_mount` makes of the disk's name.
abbrev pub mount_point : List ℕ → List ℕ
mount_point disk_name = b'/' ∷ disk_name ++ b':' ∷ []

-- `n` runs of the program, one after another.
abbrev pub runs : {S : Type 0} → Fs S → List ℕ → ℕ → ℕ → World S → Option (World S)
runs fs disk_name fuel zero w = some w
runs fs disk_name fuel (suc n) w =
    runs fs disk_name fuel n w >>= λ v. main fs disk_name fuel v >>= λ out. some out.1

abbrev view_of : Bool → (List ℕ → List ℕ) → Option (List ℕ × ℕ) → View
view_of m f c = record { mounted = m; contents = f; cursor = c }

-- A state between two calls of the program: the volume is mounted and no file is open.
pub record IsClosed {S : Type 0} (view : S → View) (s : S) : Type 0 where
  pub mounted : (view s).mounted ≡ true
  pub cursor : (view s).cursor ≡ none

-- The files hold what `k` runs leave.
record IsRun {S : Type 0} (view : S → View) (mnt : List ℕ) (k : ℕ) (s : S) : Type 0 where
  counts : (view s).contents (path_in mnt boot_count) ≡ count_bytes k
  pattern : (view s).contents (path_in mnt pattern_bin) ≡ stored k

-- The state between two runs.
record IsOff {S : Type 0} (view : S → View) (s : S) : Type 0 where
  mounted : (view s).mounted ≡ false
  cursor : (view s).cursor ≡ none

-- The names of the two files are not cut to one and the same.
names_apart :
    (disk_name : List ℕ)
    → length disk_name ≤ 250
    → path_in (mount_point disk_name) boot_count ≢ path_in (mount_point disk_name) pattern_bin
unfolding path_in
names_apart disk_name h e =
    let mnt : List ℕ = mount_point disk_name in
    let room : length mnt + suc (suc (252 - length mnt)) ≡ 254 =
      omega (arith, length-append disk_name (b':' ∷ [])) in
    let cut : (name : List ℕ)
        → take 254 (mnt ++ name) ≡ mnt ++ take (suc (suc (252 - length mnt))) name =
      λ name.
        ap (λ n. take n (mnt ++ name)) (sym room)
        ∙ take-append mnt name (suc (suc (252 - length mnt))) in
    let tails =
      append-injective mnt mnt (take (suc (suc (252 - length mnt))) boot_count)
        (take (suc (suc (252 - length mnt))) pattern_bin) refl
        (sym (cut boot_count) ∙ e ∙ cut pattern_bin) in
    let clash : b'b' ≡ b'p' = ap (λ l. get_or l 1 0) tails.1 in omega (arith, clash)

module _ {S : Type 0} (fs : Fs S) (view : S → View) (limit : ℕ) (works : IsFs fs view limit) where
  closed_view : (s : S) → IsClosed view s → view s ≡ seen (view s).contents none
  closed_view s c = ap₂ (λ m k. view_of m (view s).contents k) c.mounted c.cursor

  littlefs_binary_file_adj_lem :
      (name : List ℕ) (f : List ℕ → List ℕ) (k : ℕ) (w : World S)
      → view w.disk ≡ seen f none
      → f name ≡ stored k
      → let w' = (littlefs_binary_file_adj fs name w).1 in
        IsClosed view w'.disk
        × IsGiven view name f (stored (suc k)) w'.disk
        × (w'.mountpoint ≡ w.mountpoint)
  unfolding littlefs_binary_file_adj close_world
  littlefs_binary_file_adj_lem name f k w h e =
      let o = opened fs view limit works name f w.disk h in
      let at : World S = record w {
        disk = (fs.fs_open name open_flags (fs.fs_file_t_init w.disk)).1;
      } in
      let m = adjust fs name at in
      let r : IsRepatterned view name f k w.mountpoint m =
        adjust_lem fs view limit works name f at o.1 k e in
      let end = close_file_lem fs view limit works name r.at (m.0, m.1.disk) r.fine r.cursor in
      let given : IsGiven view name f (stored (suc k)) (close_file fs (m.0, m.1.disk)).1 =
        IsGiven-closed fs view limit works name f (stored (suc k)) m.1.disk
          (close_file fs (m.0, m.1.disk)).1 end.1 r.given in
      rw (o.0)
        (record { mounted = given.mounted; cursor = ap (λ v. v.cursor) end.1 }, given, r.mountpoint)

  lsdir_loop_lem :
      (fuel : ℕ) (s : S)
      → (view s).mounted ≡ true
      → works.entries s < fuel
      → (out : ℤ × S) × (lsdir_loop fs fuel s ≡ some out)
        × (is_zero out.0 ≡ true)
        × (view out.1 ≡ view s)
  unfolding lsdir_loop
  lsdir_loop_lem zero s m l = absurd (omega arith)
  lsdir_loop_lem (suc n) s m l =
      let (nought, same, fewer) = works.goes_on s m in
      let (rc, entry, s') = fs.fs_readdir s in
      elim (Bool-cases (is_nil entry.name)) [
        | inl last ↦ ((rc, s'), rw (nought, last), nought, same)
        | inr more ↦
            let (out, ends, zero_rc, kept) =
              lsdir_loop_lem n s' (ap (λ v. v.mounted) same ∙ m) (omega (arith, fewer more)) in
            (out, rw (nought, more) ends, zero_rc, kept ∙ same)
      ]

  lsdir_lem :
      (fuel : ℕ) (path : List ℕ) (f : List ℕ → List ℕ) (s : S)
      → limit ≤ fuel
      → view s ≡ seen f none
      → (out : ℤ × S) × (lsdir fs fuel path s ≡ some out)
        × (is_zero out.0 ≡ true)
        × (view out.1 ≡ seen f none)
  unfolding lsdir close_dir
  lsdir_lem fuel path f s l h =
      let start = (works.starts s).0 ∙ h in
      let (nought, same, few) = works.lists path (fs.fs_dir_t_init s) (ap (λ v. v.mounted) start) in
      let (out, ends, zero_rc, kept) =
        lsdir_loop_lem fuel (fs.fs_opendir path (fs.fs_dir_t_init s)).1
          (ap (λ v. v.mounted) (same ∙ start)) (omega arith) in
      (
        (out.0, (fs.fs_closedir out.1).1),
        rw (nought, ends),
        zero_rc,
        works.leaves out.1 ∙ kept ∙ same ∙ start,
      )

  module _ (mnt : List ℕ) (apart : path_in mnt boot_count ≢ path_in mnt pattern_bin) where
    IsRun-kept :
        (k : ℕ) (s s' : S)
        → (view s').contents ≡ (view s).contents
        → IsRun view mnt k s
        → IsRun view mnt k s'
    IsRun-kept k s s' e r = record {
      counts = ap (λ g. g (path_in mnt boot_count)) e ∙ r.counts;
      pattern = ap (λ g. g (path_in mnt pattern_bin)) e ∙ r.pattern;
    }

    files_changed_lem :
        (k : ℕ) (w : World S) (m : ℤ × S)
        → w.mountpoint.mnt_point ≡ mnt
        → is_zero m.0 ≡ true
        → IsClosed view m.1
        → IsRun view mnt k m.1
        → (v : World S) × (files_changed fs w m ≡ some v)
          × IsClosed view v.disk
          × IsRun view mnt (suc k) v.disk
    unfolding files_changed
    files_changed_lem k w m at z closed run =
        let f = (view m.1).contents in
        let first : List ℕ = path_in w.mountpoint.mnt_point boot_count in
        let second : List ℕ = path_in w.mountpoint.mnt_point pattern_bin in
        let in_first : first ≡ path_in mnt boot_count = ap (λ p. path_in p boot_count) at in
        let in_second : second ≡ path_in mnt pattern_bin = ap (λ p. path_in p pattern_bin) at in
        let differ : second ≢ first = λ e. apart (sym in_first ∙ sym e ∙ in_second) in
        let (nought, none_open, count) =
          littlefs_increase_infile_value_lem fs view limit works first f m.1
            (closed_view m.1 closed) in
        let s' : S = (littlefs_increase_infile_value fs first m.1).1 in
        let at' : World S = record w { disk = s' } in
        let old : (view s').contents second ≡ stored k =
          count.others second differ ∙ ap f in_second ∙ run.pattern in
        let (closed', given, mp) =
          littlefs_binary_file_adj_lem second (view s').contents k at'
            (closed_view s' (record { mounted = count.mounted; cursor = none_open })) old in
        let v : World S = (littlefs_binary_file_adj fs second at').1 in
        let new : counted_on (f first) ≡ count_bytes (suc k) =
          ap counted_on (ap f in_first ∙ run.counts) ∙ counted_on-count_bytes k in
        (
          v,
          rw (zero-nonnegative m.0 z, nought),
          closed',
          record {
            counts =
                ap (view v.disk).contents (sym in_first)
                ∙ given.others first (λ e. differ (sym e))
                ∙ count.given
                ∙ new;
            pattern = ap (view v.disk).contents (sym in_second) ∙ given.given;
          },
        )

    volume_used_lem :
        (k fuel : ℕ) (w : World S)
        → limit ≤ fuel
        → w.mountpoint.mnt_point ≡ mnt
        → IsClosed view w.disk
        → IsRun view mnt k w.disk
        → (v : World S) × (volume_used fs fuel w ≡ some v)
          × IsClosed view v.disk
          × IsRun view mnt (suc k) v.disk
    unfolding volume_used
    volume_used_lem k fuel w l at closed run =
        let f = (view w.disk).contents in
        let path : List ℕ = w.mountpoint.mnt_point in
        let (fine, same) = works.measures path w.disk closed.mounted in
        let s : S = (fs.fs_statvfs path w.disk).1 in
        let (m, listed, nought, kept) =
          lsdir_lem fuel path f s l (same ∙ closed_view w.disk closed) in
        let (v, changed, closed', run') =
          files_changed_lem k w m at nought
            (record { mounted = ap (λ v. v.mounted) kept; cursor = ap (λ v. v.cursor) kept })
            (IsRun-kept k w.disk m.1 (ap (λ v. v.contents) kept) run) in
        (v, rw (fine, listed, changed), closed', run')

  module _ (disk_name : List ℕ) (fuel : ℕ) (short : length disk_name ≤ 250)
      (enough : limit ≤ fuel) where
    main_lem :
        (k : ℕ) (w : World S)
        → IsOff view w.disk
        → IsRun view (mount_point disk_name) k w.disk
        → (out : ℤ × World S) × (main fs disk_name fuel w ≡ some out)
          × (out.0 ≡ pos 0)
          × IsOff view out.1.disk
          × IsRun view (mount_point disk_name) (suc k) out.1.disk
    unfolding main littlefs_mount unmounted
    main_lem k w off run =
        let mp : Mountpoint = record {
          storage_dev = disk_name;
          mnt_point = mount_point disk_name;
        } in
        let (fine, mounted) = works.mounts mp w.disk off.mounted in
        let w' : World S = record w { disk = (fs.fs_mount mp w.disk).1; mountpoint = mp } in
        let (v, used, closed, run') =
          volume_used_lem (mount_point disk_name) (names_apart disk_name short) k fuel w' enough
            refl
            (record {
              mounted = ap (λ u. u.mounted) mounted;
              cursor = ap (λ u. u.cursor) mounted ∙ off.cursor;
            })
            (IsRun-kept (mount_point disk_name) (names_apart disk_name short) k w.disk w'.disk
              (ap (λ u. u.contents) mounted) run) in
        let end = works.unmounts v.mountpoint v.disk closed.mounted in
        (
          unmounted fs v,
          rw (fine, used),
          refl,
          record {
            mounted = ap (λ u. u.mounted) end;
            cursor = ap (λ u. u.cursor) end ∙ closed.cursor;
          },
          IsRun-kept (mount_point disk_name) (names_apart disk_name short) (suc k) v.disk
              (unmounted fs v).1.disk (ap (λ u. u.contents) end) run',
        )

    runs_lem :
        (n : ℕ) (w : World S)
        → IsOff view w.disk
        → IsRun view (mount_point disk_name) 0 w.disk
        → (v : World S) × (runs fs disk_name fuel n w ≡ some v)
          × IsOff view v.disk
          × IsRun view (mount_point disk_name) n v.disk
    runs_lem zero w off run = (w, refl, off, run)
    runs_lem (suc n) w off run =
        let (v, ran, off', run') = runs_lem n w off run in
        let (out, ends, code, off'', run'') = main_lem n v off' run' in
        (out.1, rw (ran, ends), off'', run'')

-- On a file system that does what is asked of it and lists less than `limit` entries, with room to
-- list `limit`, a disk's name of at most 250 bytes, the volume not mounted, no file open and both
-- files empty or missing, `n` runs of the program end. Then the file `boot_count` is empty if `n`
-- is 0, and else holds the one byte `n` modulo 256; and the file `pattern.bin` is empty if `n` is
-- 0, and else holds the new pattern as it is after `n - 1` changes.
pub runs_counted :
    {S : Type 0} (fs : Fs S) (view : S → View) (limit : ℕ) (disk_name : List ℕ) (fuel n : ℕ)
    (w : World S)
    → IsFs fs view limit
    → limit ≤ fuel
    → length disk_name ≤ 250
    → (view w.disk).mounted ≡ false
    → (view w.disk).cursor ≡ none
    → (view w.disk).contents (path_in (mount_point disk_name) boot_count) ≡ []
    → (view w.disk).contents (path_in (mount_point disk_name) pattern_bin) ≡ []
    → (v : World S) × (runs fs disk_name fuel n w ≡ some v)
      × ((view v.disk).contents (path_in (mount_point disk_name) boot_count) ≡ count_bytes n)
      × ((view v.disk).contents (path_in (mount_point disk_name) pattern_bin) ≡ stored n)
runs_counted fs view limit disk_name fuel n w works enough short off closed no_count no_pattern =
    let (v, ran, off', run) =
      runs_lem fs view limit works disk_name fuel short enough n w
        (record { mounted = off; cursor = closed })
        (record { counts = no_count; pattern = no_pattern }) in
    (v, ran, run.counts, run.pattern)
