-- ===== src/Ram/Returns.antt =====
-- The writes and erases of the RAM driver return.
use zephyr_goodies.Base.{ℕ, ◌≢◌, List, Memory}
use zephyr_goodies.Errno.{out_of_fuel}
use zephyr_goodies.Size.{size_add}
use zephyr_goodies.Area.{Geometry}
use zephyr_goodies.Writer.Returns.{put_buffers-Returns}
use zephyr_goodies.Ram.{copy_run, sa_writev, sa_erase}

pub sa_writev-returns :
    (start : ℕ) (g : Geometry) (offset : ℕ) (iovec : List (List ℕ)) (s : Memory)
    → (sa_writev start g offset iovec s).0 ≢ out_of_fuel
unfolding sa_writev copy_run
sa_writev-returns start g offset iovec s =
    put_buffers-Returns copy_run size_add g.write_size (λ pos run dev e. cc) _ iovec

pub sa_erase-returns :
    (start : ℕ) (g : Geometry) (sblk bcnt : ℕ) (s : Memory)
    → (sa_erase start g sblk bcnt s).0 ≢ out_of_fuel
unfolding sa_erase
sa_erase-returns start g sblk bcnt s e = cc
