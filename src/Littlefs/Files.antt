-- ===== src/Littlefs/Files.antt =====
-- samples/subsys/fs/littlefs-eeprom/src/main.c: what a run does to each of its two files, on a file
-- system that no call fails on.
use zephyr_goodies.Base.{
  ℕ, zero, suc, ◌+◌, ◌%◌, ◌≤◌, ◌≡◌, ◌≢◌, refl, sym, ap, subst, ◌∙◌, true, false, Option, some, none,
  List, [], ◌∷◌, ◌++◌, ◌==◌, length, take, get_or, Memory, slice, splice, slice-splice_self,
  length-slice, take_all, drop_all, append-nil, arith,
}
use zephyr_goodies.Littlefs.{
  ℤ, is_negative, is_zero, is_file, Fs, World, Mountpoint, open_flags, test_file_size, close_file,
  count_boot, littlefs_increase_infile_value, reload, write_pattern, adjust,
}
use zephyr_goodies.Littlefs.Pattern.{
  add_byte, init_pattern, incr_pattern, pattern_bytes, init_pattern_lem, incr_pattern_lem,
}
use zephyr_goodies.Littlefs.Laws.{View, IsFs, overwritten}

-- A mounted volume with its files and what is open.
abbrev pub seen : (List ℕ → List ℕ) → Option (List ℕ × ℕ) → View
seen f c = record { mounted = true; contents = f; cursor = c }

abbrev moved_to : Option (List ℕ × ℕ) → View → View
moved_to c v = record v { cursor = c }

-- New bytes that reach the end of the old ones replace them.
overwritten_whole :
    (old bytes : List ℕ) → length old ≤ length bytes → overwritten old 0 bytes ≡ bytes
overwritten_whole old bytes h =
    ap (λ r. bytes ++ r) (drop_all (0 + length bytes) old (omega arith)) ∙ append-nil bytes

-- The bytes of the two files after `k` runs.
abbrev pub count_bytes : ℕ → List ℕ
count_bytes zero = []
count_bytes (suc k) = (suc k % 256) ∷ []

abbrev pub stored : ℕ → List ℕ
stored zero = []
stored (suc k) = pattern_bytes test_file_size k

pub zero-nonnegative : (rc : ℤ) → is_zero rc ≡ true → is_negative rc ≡ false
zero-nonnegative rc h = ground arith

-- The count that a run writes where the file holds `old`.
abbrev pub counted_on : List ℕ → List ℕ
counted_on old = overwritten old 0 (add_byte (get_or (take 1 old) 0 0) 1 ∷ [])

pub counted_on-count_bytes : (k : ℕ) → counted_on (count_bytes k) ≡ count_bytes (suc k)
counted_on-count_bytes zero = refl
counted_on-count_bytes (suc k) = ap (λ x. x ∷ []) (omega arith)

-- File `name` was given the bytes `new`, of files that held `f`.
pub record IsGiven {S : Type 0} (view : S → View) (name : List ℕ) (f : List ℕ → List ℕ)
    (new : List ℕ) (s : S) : Type 0 where
  pub mounted : (view s).mounted ≡ true
  pub given : (view s).contents name ≡ new
  pub others : (other : List ℕ) → other ≢ name → (view s).contents other ≡ f other

-- What a function that changes the pattern does, on the way to `out:`.
pub record IsRepatterned {S : Type 0} (view : S → View) (name : List ℕ) (f : List ℕ → List ℕ)
    (n : ℕ) (mp : Mountpoint) (m : ℤ × World S) : Type 0 where
  pub fine : is_negative m.0 ≡ false
  pub at : ℕ
  pub cursor : (view m.1.disk).cursor ≡ some (name, at)
  pub given : IsGiven view name f (pattern_bytes test_file_size n) m.1.disk
  pub mountpoint : m.1.mountpoint ≡ mp

module _ {S : Type 0} (fs : Fs S) (view : S → View) (limit : ℕ) (works : IsFs fs view limit) where
  sought :
      (name : List ℕ) (at : ℕ) (f : List ℕ → List ℕ) (s : S)
      → view s ≡ seen f (some (name, at))
      → (is_negative (fs.fs_seek 0 s).0 ≡ false)
        × (view (fs.fs_seek 0 s).1 ≡ seen f (some (name, 0)))
  sought name at f s h =
      let k = works.seeks name at 0 s (ap (λ v. v.cursor) h) (omega arith) in
      (k.0, k.1 ∙ ap (moved_to (some (name, 0))) h)

  wrote :
      (name : List ℕ) (f : List ℕ → List ℕ) (bytes : List ℕ) (s : S)
      → view s ≡ seen f (some (name, 0))
      → let (rc, s') = fs.fs_write bytes s in
        (is_negative rc ≡ false)
        × ((view s').cursor ≡ some (name, 0 + length bytes))
        × IsGiven view name f (overwritten (f name) 0 bytes) s'
  wrote name f bytes s h =
      let (fine, mounted, cursor, given, others) =
        works.writes name 0 bytes s (ap (λ v. v.cursor) h) in
      (
        fine,
        cursor,
        record {
          mounted = mounted ∙ ap (λ v. v.mounted) h;
          given = given ∙ ap (λ v. overwritten (v.contents name) 0 bytes) h;
          others = λ o n. others o n ∙ ap (λ v. v.contents o) h;
        },
      )

  count_boot_lem :
      (name : List ℕ) (f : List ℕ → List ℕ) (s : S)
      → view s ≡ seen f (some (name, 0))
      → let (rc, s') = count_boot fs s in
        (is_negative rc ≡ false)
        × ((view s').cursor ≡ some (name, 1))
        × IsGiven view name f (counted_on (f name)) s'
  unfolding count_boot
  count_boot_lem name f s h =
      let (fine, bytes, after) = works.reads name 0 1 s (ap (λ v. v.cursor) h) in
      let got : (fs.fs_read 1 s).1 ≡ take 1 (f name) =
        bytes ∙ ap (λ v. take 1 (v.contents name)) h in
      let k =
        sought name (0 + length (fs.fs_read 1 s).1) f (fs.fs_read 1 s).2
          (after ∙ ap (moved_to (some (name, 0 + length (fs.fs_read 1 s).1))) h) in
      let put =
        wrote name f (add_byte (get_or (fs.fs_read 1 s).1 0 0) 1 ∷ [])
          (fs.fs_seek 0 (fs.fs_read 1 s).2).1 k.1 in
      rw (fine, k.0)
        (
          put.0,
          put.1,
          subst
              (λ b.
                IsGiven view name f (overwritten (f name) 0 (add_byte (get_or b 0 0) 1 ∷ []))
                  (fs.fs_write (add_byte (get_or (fs.fs_read 1 s).1 0 0) 1 ∷ [])
                    (fs.fs_seek 0 (fs.fs_read 1 s).2).1).1)
              got put.2,
        )

  pub close_file_lem :
      (name : List ℕ) (at : ℕ) (m : ℤ × S)
      → is_negative m.0 ≡ false
      → (view m.1).cursor ≡ some (name, at)
      → (is_zero (close_file fs m).0 ≡ true)
        × (view (close_file fs m).1 ≡ record (view m.1) { cursor = none })
  unfolding close_file
  close_file_lem name at m n c =
      let (fine, after) = works.closes name at m.1 c in rw (fine, n) (refl, after)

  pub IsGiven-closed :
      (name : List ℕ) (f : List ℕ → List ℕ) (new : List ℕ) (s s' : S)
      → view s' ≡ moved_to none (view s)
      → IsGiven view name f new s
      → IsGiven view name f new s'
  IsGiven-closed name f new s s' e h = record {
    mounted = ap (λ v. v.mounted) e ∙ h.mounted;
    given = ap (λ v. v.contents name) e ∙ h.given;
    others = λ o n. ap (λ v. v.contents o) e ∙ h.others o n;
  }

  pub opened :
      (name : List ℕ) (f : List ℕ → List ℕ) (s : S)
      → view s ≡ seen f none
      → let (rc, s') = fs.fs_open name open_flags (fs.fs_file_t_init s) in
        (is_negative rc ≡ false) × (view s' ≡ seen f (some (name, 0)))
  opened name f s h =
      let start : view (fs.fs_file_t_init s) ≡ seen f none = (works.starts s).1 ∙ h in
      let k =
        works.opens name (fs.fs_file_t_init s) (ap (λ v. v.mounted) start)
          (ap (λ v. v.cursor) start) in
      (k.0, k.1 ∙ ap (moved_to (some (name, 0))) start)

  pub littlefs_increase_infile_value_lem :
      (name : List ℕ) (f : List ℕ → List ℕ) (s : S)
      → view s ≡ seen f none
      → let (rc, s') = littlefs_increase_infile_value fs name s in
        (is_zero rc ≡ true)
        × ((view s').cursor ≡ none)
        × IsGiven view name f (counted_on (f name)) s'
  unfolding littlefs_increase_infile_value
  littlefs_increase_infile_value_lem name f s h =
      let o = opened name f s h in
      let s' : S = (fs.fs_open name open_flags (fs.fs_file_t_init s)).1 in
      let done = count_boot_lem name f s' o.1 in
      let end = close_file_lem name 1 (count_boot fs s') done.0 done.1 in
      rw (o.0) (
        end.0,
        ap (λ v. v.cursor) end.1,
        IsGiven-closed name f (counted_on (f name)) (count_boot fs s').1
            (close_file fs (count_boot fs s')).1 end.1 done.2,
      )

  write_pattern_lem :
      (name : List ℕ) (at n : ℕ) (f : List ℕ → List ℕ) (w : World S)
      → view w.disk ≡ seen f (some (name, at))
      → length (f name) ≤ test_file_size
      → slice w.pattern 0 test_file_size ≡ pattern_bytes test_file_size n
      → IsRepatterned view name f n w.mountpoint (write_pattern fs w)
  unfolding write_pattern
  write_pattern_lem name at n f w h short p =
      let k = sought name at f w.disk h in
      let s : S = (fs.fs_seek 0 w.disk).1 in
      let bytes : List ℕ = slice w.pattern 0 test_file_size in
      let put = wrote name f bytes s k.1 in
      let whole : overwritten (f name) 0 bytes ≡ pattern_bytes test_file_size n =
        overwritten_whole (f name) bytes (omega (arith, length-slice w.pattern 0 test_file_size))
        ∙ p in
      rw (k.0) (record {
        fine = put.0;
        at = 0 + length bytes;
        cursor = put.1;
        given = subst (λ b. IsGiven view name f b (fs.fs_write bytes s).1) whole put.2;
        mountpoint = refl;
      })

  module _ (name : List ℕ) (f : List ℕ → List ℕ) (w : World S)
      (h : view w.disk ≡ seen f (some (name, 0))) where
    open_at : (view w.disk).cursor ≡ some (name, 0)
    open_at = ap (λ v. v.cursor) h

    adjust_fresh : f name ≡ [] → IsRepatterned view name f 0 w.mountpoint (adjust fs name w)
    unfolding adjust
    adjust_fresh empty =
        let (nought, fine, ty, size, after) = works.tells name 0 w.disk open_at in
        let none_in : ((fs.fs_stat name w.disk).1.size == 0) ≡ true =
          ap (λ k. k == 0) (size ∙ ap (λ v. length (v.contents name)) h ∙ ap length empty) in
        let w' : World S = record w {
          disk = (fs.fs_stat name w.disk).2;
          pattern = init_pattern w.pattern test_file_size;
        } in
        rw (fine, nought, ap is_file ty, none_in, fine)
          (write_pattern_lem name 0 0 f w' (after ∙ h) (omega (arith, ap length empty))
            (init_pattern_lem w.pattern test_file_size))

    -- The bytes that the file holds are in the buffer after they are read.
    whole_read :
        (n : ℕ) (bytes : List ℕ) (p : Memory)
        → bytes ≡ pattern_bytes test_file_size n
        → slice (splice p 0 bytes) 0 test_file_size ≡ pattern_bytes test_file_size n
    whole_read n bytes p e =
        let long : length (pattern_bytes test_file_size n) ≡ test_file_size = length-slice _ 0 _ in
        ap (λ b. slice (splice p 0 b) 0 test_file_size) e
        ∙ ap (slice (splice p 0 (pattern_bytes test_file_size n)) 0) (sym long)
        ∙ slice-splice_self p 0 (pattern_bytes test_file_size n)

    adjust_kept :
        (n : ℕ)
        → f name ≡ pattern_bytes test_file_size n
        → IsRepatterned view name f (suc n) w.mountpoint (adjust fs name w)
    unfolding adjust reload
    adjust_kept n full =
        let (nought, fine, ty, size, after) = works.tells name 0 w.disk open_at in
        let s : S = (fs.fs_stat name w.disk).2 in
        let long : length (f name) ≡ test_file_size = ap length full ∙ length-slice _ 0 _ in
        let some_in : ((fs.fs_stat name w.disk).1.size == 0) ≡ false =
          ap (λ k. k == 0) (size ∙ ap (λ v. length (v.contents name)) h ∙ long) in
        let (read_fine, bytes, after_read) =
          works.reads name 0 test_file_size s (ap (λ v. v.cursor) after ∙ open_at) in
        let got : (fs.fs_read test_file_size s).1 ≡ pattern_bytes test_file_size n =
          bytes
          ∙ ap (λ v. take test_file_size (v.contents name)) (after ∙ h)
          ∙ take_all test_file_size (f name) (omega arith)
          ∙ full in
        let at : ℕ = 0 + length (fs.fs_read test_file_size s).1 in
        let w' : World S = record w {
          disk = (fs.fs_read test_file_size s).2;
          pattern =
              incr_pattern (splice w.pattern 0 (fs.fs_read test_file_size s).1) test_file_size 1;
        } in
        rw (fine, nought, ap is_file ty, some_in, read_fine, read_fine)
          (write_pattern_lem name at (suc n) f w'
            (after_read ∙ ap (moved_to (some (name, at))) (after ∙ h)) (omega arith)
            (incr_pattern_lem (splice w.pattern 0 (fs.fs_read test_file_size s).1) test_file_size n
              (omega arith) (whole_read n (fs.fs_read test_file_size s).1 w.pattern got)))

    pub adjust_lem :
        (k : ℕ) → f name ≡ stored k → IsRepatterned view name f k w.mountpoint (adjust fs name w)
    adjust_lem zero e = adjust_fresh e
    adjust_lem (suc k) e = adjust_kept k e
