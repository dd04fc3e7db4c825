-- ===== src/Littlefs/Calls.antt =====
-- What samples/subsys/fs/littlefs-eeprom/src/main.c takes from Zephyr: the calls of the file
-- system, with their `int` codes.
use zephyr_goodies.Base.{ℕ, zero, suc, Bool, true, false, Option, none, some, List, [], ◌∷◌}

-- `int`: `pos n` is n, and `negsuc n` is -(n + 1).
pub data ℤ : Type 0 where
  pos negsuc : ℕ → ℤ

abbrev pub is_negative : ℤ → Bool
is_negative (pos n) = false
is_negative (negsuc n) = true

abbrev pub is_zero : ℤ → Bool
is_zero (pos zero) = true
is_zero (pos (suc n)) = false
is_zero (negsuc n) = false

-- `FS_O_CREATE`, `FS_O_RDWR`
pub data OpenFlag : Type 0 where
  fs_o_create fs_o_rdwr : OpenFlag

abbrev pub open_flags : List OpenFlag
open_flags = fs_o_create ∷ fs_o_rdwr ∷ []

-- `FS_DIR_ENTRY_FILE`, `FS_DIR_ENTRY_DIR`
pub data EntryType : Type 0 where
  entry_file entry_dir : EntryType

abbrev pub is_file : EntryType → Bool
is_file entry_file = true
is_file entry_dir = false

-- `struct fs_dirent`
pub record Dirent : Type 0 where
  pub entry_type : EntryType
  pub size : ℕ
  pub name : List ℕ

-- `struct fs_mount_t`: what `littlefs_mount` sets of it.
pub record Mountpoint : Type 0 where
  pub storage_dev : List ℕ
  pub mnt_point : List ℕ

-- The calls on a state that holds the file system and the one file or directory object that a
-- function of the program has. A read returns its code and the bytes that it put in the buffer.
pub record Fs (S : Type 0) : Type 0 where
  pub fs_mount : Mountpoint → S → ℤ × S
  pub fs_unmount : Mountpoint → S → ℤ × S
  pub fs_statvfs : List ℕ → S → ℤ × S
  pub fs_dir_t_init : S → S
  pub fs_opendir : List ℕ → S → ℤ × S
  pub fs_readdir : S → ℤ × Dirent × S
  pub fs_closedir : S → ℤ × S
  pub fs_file_t_init : S → S
  pub fs_open : List ℕ → List OpenFlag → S → ℤ × S
  pub fs_stat : List ℕ → S → ℤ × Dirent × S
  pub fs_read : ℕ → S → ℤ × List ℕ × S
  pub fs_seek : ℕ → S → ℤ × S
  pub fs_write : List ℕ → S → ℤ × S
  pub fs_close : S → ℤ × S

abbrev pub is_nil : List ℕ → Bool
is_nil [] = true
is_nil (x ∷ xs) = false

infixl 5 ◌>>=◌
abbrev pub ◌>>=◌ {ℓ κ} : {A : Type ℓ} {B : Type κ} → Option A → (A → Option B) → Option B
none >>= f = none
some a >>= f = f a
