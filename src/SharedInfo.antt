-- ===== src/SharedInfo.antt =====
-- drivers/shared_info/shared_info.c, and the calls of include/zephyr/drivers/shared_info.h that
-- dispatch to it: a memory region that stages of a boot share.
pub mod Region
use zephyr_goodies.Base.{
  ℕ, Bool, ◌||◌, Option, none, some, List, [], ltb, if◌then◌else◌, length, Memory, slice, splice,
}
use zephyr_goodies.Errno.{Rc, ok, einval, enotsup}
use zephyr_goodies.Size.{size_add, size_sub}

-- `struct shared_info_driver_api`; a read returns the bytes that it stores at `data`.
pub record DriverApi (C S : Type 0) : Type 0 where
  pub size : Option (C → S → Rc × ℕ)
  pub read : Option (C → ℕ → ℕ → S → Rc × List ℕ)
  pub prog : Option (C → ℕ → List ℕ → S → Rc × S)

-- `struct device`, as far as the calls look at it.
pub record Device (C S : Type 0) : Type 0 where
  pub api : DriverApi C S
  pub config : C

-- `struct shared_info_config`
pub record Config : Type 0 where
  pub start : ℕ
  pub size : ℕ

unfoldable size_of : Config → Memory → Rc × ℕ
size_of config s = (ok, config.size)

outside : Config → ℕ → ℕ → Bool
outside config off len = ltb config.size len || ltb (size_sub config.size len) off

read_region : Config → ℕ → ℕ → Memory → Rc × List ℕ
read_region config off len s =
    if outside config off len then (einval, []) else (ok, slice s (size_add config.start off) len)

prog_region : Config → ℕ → List ℕ → Memory → Rc × Memory
prog_region config off bytes s =
    if outside config off (length bytes)
    then (einval, s)
    else (ok, splice s (size_add config.start off) bytes)

-- `shared_info_api`
shared_info_api : DriverApi Config Memory
shared_info_api = record { size = some size_of; read = some read_region; prog = some prog_region }

-- `SHARED_INFO_DEVICE`
pub shared_info_device : ℕ → ℕ → Device Config Memory
shared_info_device start size = record {
  api = shared_info_api;
  config = record { start = start; size = size };
}

module _ {C S : Type 0} where
  unfoldable pub call_size : Option (C → S → Rc × ℕ) → C → S → Rc × ℕ
  call_size none config s = (enotsup, 0)
  call_size (some f) config s = f config s

  -- `z_impl_shared_info_size`
  unfoldable pub shared_info_size : Device C S → S → Rc × ℕ
  shared_info_size device s = call_size device.api.size device.config s

  call_read : Option (C → ℕ → ℕ → S → Rc × List ℕ) → C → ℕ → ℕ → S → Rc × List ℕ
  call_read none config off len s = (enotsup, [])
  call_read (some f) config off len s = f config off len s

  -- `z_impl_shared_info_read`
  pub shared_info_read : Device C S → ℕ → ℕ → S → Rc × List ℕ
  shared_info_read device off len s = call_read device.api.read device.config off len s

  call_prog : Option (C → ℕ → List ℕ → S → Rc × S) → C → ℕ → List ℕ → S → Rc × S
  call_prog none config off bytes s = (enotsup, s)
  call_prog (some f) config off bytes s = f config off bytes s

  -- `z_impl_shared_info_prog`
  pub shared_info_prog : Device C S → ℕ → List ℕ → S → Rc × S
  shared_info_prog device off bytes s = call_prog device.api.prog device.config off bytes s
