-- ===== src/Writer.antt =====
-- The loop of sa_ram_writev, sa_flash_writev, sa_eeprom_writev and sa_disk_writev: the buffers of
-- an iovec are put together to runs of whole write units. The four copies differ in how a run is
-- written (`emit`) and in how the position moves on behind it (`step`).
pub mod Runs
pub mod Returns
use zephyr_goodies.Base.{
  ℕ, ◌+◌, ◌-◌, List, [], ◌∷◌, ◌++◌, ltb, leb, ◌==◌, if◌then◌else◌, length, take, drop, min, not,
}
use zephyr_goodies.Errno.{Rc, ok, ◌>>=◌}
use zephyr_goodies.Size.{align_down}

-- `pending` is `buf[0 .. bpos)`.
pub record Gather (S : Type 0) : Type 0 where
  pub pos : ℕ
  pub pending : List ℕ
  pub dev : S

module _ {S : Type 0} (emit : ℕ → List ℕ → S → Rc × S) (step : ℕ → ℕ → ℕ) (align : ℕ) where
  -- write a run at the position, and move behind it
  pub put_run : Gather S → List ℕ → Rc × Gather S
  put_run g run =
      let (rc, dev) = emit g.pos run g.dev in
      (rc, record g { dev = dev }) >>= λ g. (ok, record g { pos = step g.pos (length run) })

  -- `if (blen > 0U)`
  pub keep_tail : Gather S → List ℕ → Rc × Gather S
  keep_tail g bytes = if ltb 0 (length bytes) then (ok, record g { pending = bytes }) else (ok, g)

  -- `if (blen >= align)`, and the tail
  pub put_units : Gather S → List ℕ → Rc × Gather S
  put_units g bytes =
      if leb align (length bytes)
      then (let wrlen = align_down (length bytes) align in
          do g ← put_run g (take wrlen bytes); keep_tail g (drop wrlen bytes))
      else keep_tail g bytes

  -- `if (bpos != 0U)`: the pending bytes are filled up, and written once they are a whole unit
  pub fill_pending : Gather S → List ℕ → Rc × Gather S
  fill_pending g bytes =
      let cplen = min (length bytes) (align - length g.pending) in
      let filled = record g { pending = g.pending ++ take cplen bytes } in
      if length filled.pending == align
      then (do
        g ← put_run filled filled.pending
        put_units (record g { pending = [] }) (drop cplen bytes))
      else put_units filled (drop cplen bytes)

  pub put_buffer : Gather S → List ℕ → Rc × Gather S
  put_buffer g bytes =
      if not (length g.pending == 0) then fill_pending g bytes else put_units g bytes

  pub put_buffers : Gather S → List (List ℕ) → Rc × Gather S
  put_buffers g [] = (ok, g)
  put_buffers g (b ∷ bs) = put_buffer g b >>= λ g. put_buffers g bs
