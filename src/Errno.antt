-- ===== src/Errno.antt =====
-- The `int` that the functions return: 0, or a negated errno.
use zephyr_goodies.Base.{ℕ, Bool, true, false, ◌≡◌, arith}

-- `driver n` is any other code that a device driver returns. `out_of_fuel` is no code of the
-- program: a loop of the model returns it where the fuel did not last.
pub data Rc : Type 0 where
  ok enoent eio enodev einval enospc enotsup ealready out_of_fuel : Rc
  driver : ℕ → Rc

-- `rc == 0`
abbrev pub is_ok : Rc → Bool
is_ok ok = true
is_ok _ = false

-- `rc == -ENOENT`
abbrev pub is_enoent : Rc → Bool
is_enoent enoent = true
is_enoent _ = false

-- `rc == -ENOSPC`
abbrev pub is_enospc : Rc → Bool
is_enospc enospc = true
is_enospc _ = false

pub is_ok→eq : (rc : Rc) → is_ok rc ≡ true → rc ≡ ok
is_ok→eq rc h = ground arith

abbrev pub proceed {ℓ} : {A : Type ℓ} → Rc → A → (A → Rc × A) → Rc × A
proceed ok a k = k a
proceed rc a k = (rc, a)

-- `if (rc != 0) { goto end; }` behind a call that returns its code and the new state.
infixl 5 ◌>>=◌
abbrev pub ◌>>=◌ {ℓ} : {A : Type ℓ} → Rc × A → (A → Rc × A) → Rc × A
m >>= k = proceed m.0 m.1 k
