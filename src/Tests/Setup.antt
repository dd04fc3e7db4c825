-- ===== src/Tests/Setup.antt =====
-- A platform with a polynomial checksum and little-endian numbers, and a RAM store of two sectors.
use zephyr_goodies.Base.{
  ℕ, ◌+◌, ◌*◌, ◌/◌, ◌%◌, ◌^◌, ◌<◌, ◌≡◌, refl, true, none, some, List, [], ◌∷◌, ◌++◌, get_or, Memory,
  arith,
}
use zephyr_goodies.Size.{IsPow2}
use zephyr_goodies.Area.{Geometry, StorageArea}
use zephyr_goodies.Medium.{IsSound, IsMedium}
use zephyr_goodies.Ram.{rw_api, ro_api}
use zephyr_goodies.Ram.Medium.{region, Ram-IsMedium}
use zephyr_goodies.Store.{Platform, IsPlatform, Store, World, Handle, simple}
use zephyr_goodies.Store.Layout.{IsLaidOut, IsPosition}

unfoldable pub crc : ℕ → List ℕ → ℕ
crc c [] = c
crc c (x ∷ xs) = crc ((31 * c + x) % 2 ^ 32) xs

crc-append : (c : ℕ) (x y : List ℕ) → crc (crc c x) y ≡ crc c (x ++ y)
unfolding crc
crc-append c [] y = refl
crc-append c (a ∷ x) y = crc-append ((31 * c + a) % 2 ^ 32) x y

crc_bound : (c : ℕ) (x : List ℕ) → c < 2 ^ 32 → crc c x < 2 ^ 32
unfolding crc
crc_bound c [] h = h
crc_bound c (a ∷ x) h = crc_bound ((31 * c + a) % 2 ^ 32) x (omega arith)

abbrev pub byte : List ℕ → ℕ → ℕ
byte l i = get_or l i 0 % 256

abbrev pub demo_lib : Platform
demo_lib = record {
  crc32_ieee_update = crc;
  get_le16 = λ l. byte l 0 + 256 * byte l 1;
  get_le32 = λ l. byte l 0 + 256 * byte l 1 + 65536 * byte l 2 + 16777216 * byte l 3;
  put_le16 = λ n. n % 256 ∷ n / 256 % 256 ∷ [];
  put_le32 = λ n. n % 256 ∷ n / 256 % 256 ∷ n / 65536 % 256 ∷ n / 16777216 % 256 ∷ [];
}

pub demo_lib-IsPlatform : IsPlatform demo_lib
unfolding crc
demo_lib-IsPlatform = record {
  crc-nil = λ c. refl;
  crc-append = crc-append;
  crc_bound = crc_bound;
  get_le16_bound = λ l. omega arith;
  length-put_le16 = λ n. refl;
  length-put_le32 = λ n. refl;
  get-put_le16 = λ n l h. omega arith;
  get-put_le32 = λ n l h. omega arith;
}

abbrev pub demo_geometry : Geometry
demo_geometry = record { write_size = 4; erase_size = 64; erase_blocks = 2; props = 5 }

abbrev pub demo_area : StorageArea Memory
demo_area = record { api = some (rw_api 16); geometry = demo_geometry }

abbrev pub read_only_area : StorageArea Memory
read_only_area = record { api = some (ro_api 16); geometry = demo_geometry }

pub demo_pow : IsPow2 4
demo_pow = (2, omega arith, refl)

pub demo_geometry-IsSound : IsSound demo_geometry
demo_geometry-IsSound = record {
  unit = demo_pow;
  erasable = omega arith;
  blocks = refl;
  small = omega arith;
}

pub demo_medium : IsMedium demo_area (region 16) (λ _. Unit {0})
demo_medium = Ram-IsMedium 16 demo_area refl demo_geometry-IsSound (omega arith)

abbrev pub erased : Memory
erased a = 0xff

abbrev pub demo_store : Store Memory
demo_store = record {
  area = demo_area;
  sector_cookie = none;
  sector_size = 64;
  sector_cnt = 2;
  spare_sectors = 0;
  crc_skip = 1;
}

pub demo_store-IsLaidOut : IsLaidOut demo_store
demo_store-IsLaidOut = record {
  unit = demo_pow;
  aligned = refl;
  fits = omega arith;
  small = omega arith;
  headroom = omega arith;
  skip_small = omega arith;
  cookie_fits = λ c e. cc;
}

abbrev pub demo_world : World Memory
demo_world = record {
  dev = erased;
  sd = record { advance = simple; ready = true; sector = 1; loc = 0; wrapcnt = 3 };
}

pub demo_position : IsPosition demo_store demo_world.sd
demo_position = record { exists = omega arith; on_unit = refl; in_bounds = omega arith }

abbrev pub demo_handle : Handle
demo_handle = record { has_store = true; has_data = true; has_area = true }

abbrev pub demo_iovec : List (List ℕ)
demo_iovec = (1 ∷ 2 ∷ []) ∷ (3 ∷ 4 ∷ 5 ∷ []) ∷ []
