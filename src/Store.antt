-- ===== src/Store.antt =====
-- The data of storage_area_store.c, and what it takes from the rest of the system. The semaphore
-- of CONFIG_STORAGE_AREA_STORE_SEMAPHORE is left out, as in a build without that option.
pub mod Sectors
pub mod Check
pub mod Walk
pub mod Layout
pub mod Write
pub mod Advance
pub mod Read
pub mod Mount
pub mod Update
pub mod Compact
pub mod Recover
pub mod Calls
pub mod Log
pub mod Threads
use zephyr_goodies.Base.{
  ℕ, ◌+◌, ◌%◌, ◌^◌, ◌<◌, ◌≡◌, Bool, true, false, ◌||◌, not, Option, none, some, List, [], ◌∷◌, ◌++◌,
  ltb, if◌then◌else◌, length,
}
use zephyr_goodies.Size.{size_add, size_mul}
use zephyr_goodies.Area.{Geometry, StorageArea}

abbrev pub sas_magic : ℕ
sas_magic = 0xf0

abbrev pub sas_fillval : ℕ
sas_fillval = 0xff

abbrev pub sas_hdrsize : ℕ
sas_hdrsize = 4

abbrev pub sas_crcinit : ℕ
sas_crcinit = 0

abbrev pub sas_crcsize : ℕ
sas_crcsize = 4

abbrev pub sas_minbufsize : ℕ
sas_minbufsize = 32

-- `SAS_MIN` and `SAS_MAX`
abbrev pub sas_min : ℕ → ℕ → ℕ
sas_min a b = if ltb a b then a else b

abbrev pub sas_max : ℕ → ℕ → ℕ
sas_max a b = if ltb a b then b else a

-- The functions of Zephyr's crc.h and byteorder.h that the store calls.
pub record Platform : Type 0 where
  pub crc32_ieee_update : ℕ → List ℕ → ℕ
  pub get_le16 : List ℕ → ℕ
  pub get_le32 : List ℕ → ℕ
  pub put_le16 : ℕ → List ℕ
  pub put_le32 : ℕ → List ℕ

-- What they document: a checksum can be updated run by run and is a `uint32_t`, and what is put is
-- got back. The list that is got from may go on behind the number.
pub record IsPlatform (lib : Platform) : Type 0 where
  pub crc-nil : (c : ℕ) → lib.crc32_ieee_update c [] ≡ c
  pub crc-append :
      (c : ℕ) (x y : List ℕ)
      → lib.crc32_ieee_update (lib.crc32_ieee_update c x) y ≡ lib.crc32_ieee_update c (x ++ y)
  pub crc_bound : (c : ℕ) (x : List ℕ) → c < 2 ^ 32 → lib.crc32_ieee_update c x < 2 ^ 32
  pub get_le16_bound : (l : List ℕ) → lib.get_le16 l < 2 ^ 16
  pub length-put_le16 : (n : ℕ) → length (lib.put_le16 n) ≡ 2
  pub length-put_le32 : (n : ℕ) → length (lib.put_le32 n) ≡ 4
  pub get-put_le16 : (n : ℕ) (l : List ℕ) → n < 2 ^ 16 → lib.get_le16 (lib.put_le16 n ++ l) ≡ n
  pub get-put_le32 : (n : ℕ) (l : List ℕ) → n < 2 ^ 32 → lib.get_le32 (lib.put_le32 n ++ l) ≡ n

-- `struct storage_area_store`. The cookie is the `sector_cookie_size` bytes at `sector_cookie`,
-- or `none` for NULL.
pub record Store (S : Type 0) : Type 0 where
  pub area : StorageArea S
  pub sector_cookie : Option (List ℕ)
  pub sector_size : ℕ
  pub sector_cnt : ℕ
  pub spare_sectors : ℕ
  pub crc_skip : ℕ

abbrev pub geometry_of : {S : Type 0} → Store S → Geometry
geometry_of st = st.area.geometry

-- The pointer `advance`: NULL, `store_advance_simple` or `store_advance`.
pub data Advancer : Type 0 where
  null simple full : Advancer

-- `data->advance == NULL`
abbrev pub is_null : Advancer → Bool
is_null null = true
is_null _ = false

-- `struct storage_area_store_data`; `wrapcnt` is a `uint8_t`.
pub record StoreData : Type 0 where
  pub advance : Advancer
  pub ready : Bool
  pub sector : ℕ
  pub loc : ℕ
  pub wrapcnt : ℕ

-- The device and the `*store->data` that the calls change.
pub record World (S : Type 0) : Type 0 where
  pub dev : S
  pub sd : StoreData

-- `struct storage_area_record`, with `bound` for `store != NULL`. A record belongs to the one
-- store of the model.
pub record Record : Type 0 where
  pub bound : Bool
  pub sector : ℕ
  pub loc : ℕ
  pub size : ℕ

-- The position of a sector in the area.
abbrev pub sector_pos : {S : Type 0} → Store S → ℕ → ℕ
sector_pos st sector = size_mul sector st.sector_size

-- `sizeof(buf)` of the buffers that data is moved through
abbrev pub buffer_size : {S : Type 0} → Store S → ℕ
buffer_size st = sas_max sas_minbufsize st.area.geometry.write_size

-- `SAS_HDRSIZE + size + SAS_CRCSIZE`
abbrev pub record_len : ℕ → ℕ
record_len size = size_add (size_add sas_hdrsize size) sas_crcsize

-- A pointer to the store: which of `store`, `store->data` and `store->area` are not NULL.
pub record Handle : Type 0 where
  pub has_store : Bool
  pub has_data : Bool
  pub has_area : Bool

unfoldable pub store_valid : Handle → Bool
store_valid h = if not h.has_store || not h.has_data || not h.has_area then false else true

unfoldable pub store_ready : Handle → StoreData → Bool
store_ready h sd = if not (store_valid h) || not sd.ready then false else true
