-- ===== src/Store/Threads.antt =====
-- The semaphore of CONFIG_STORAGE_AREA_STORE_SEMAPHORE in storage_area_store.c, and threads that
-- write, advance and compact one store between taking and giving it.
pub mod Mode
pub mod Serial
pub mod Known
pub mod Ends
pub mod Progress
use zephyr_goodies.Base.{
  ℕ, suc, ◌≡◌, Option, none, some, List, [], ◌∷◌, ◌++◌, not, if◌then◌else◌, min, ◌+◌,
}
use zephyr_goodies.Errno.{Rc, ok, einval, enotsup}
use zephyr_goodies.Store.{Platform, Store, World, is_null, Handle, store_ready}
use zephyr_goodies.Store.Compact.{Move}
use zephyr_goodies.Store.Write.{store_writev}
use zephyr_goodies.Store.Calls.{
  call_advance, storage_area_store_advance, storage_area_store_compact, storage_area_store_writev,
}

-- The semaphores of Zephyr's kernel. `take` with K_FOREVER is `none` as long as it waits.
pub record Kernel (K : Type 0) : Type 0 where
  pub k_sem_init : ℕ → ℕ → K → Rc × K
  pub k_sem_take : K → Option (Rc × K)
  pub k_sem_give : K → K

-- What the kernel documents: a count that starts as it is set, is taken down from above 0, waits
-- at 0, and is given back up to its limit of 1.
pub record IsKernel {K : Type 0} (kernel : Kernel K) : Type 0 where
  pub count : K → ℕ
  pub init-ok : (k : K) → (kernel.k_sem_init 1 1 k).0 ≡ ok
  pub init-count : (k : K) → count (kernel.k_sem_init 1 1 k).1 ≡ 1
  pub take-wait : (k : K) → count k ≡ 0 → kernel.k_sem_take k ≡ none
  pub take-ready :
      (k : K) (n : ℕ) → count k ≡ suc n → (out : Rc × K) × (kernel.k_sem_take k ≡ some out)
  pub take-count :
      (k k' : K) (rc : Rc) → kernel.k_sem_take k ≡ some (rc, k') → count k ≡ suc (count k')
  pub give-count : (k : K) → count (kernel.k_sem_give k) ≡ min 1 (suc (count k))

module _ {K : Type 0} (kernel : Kernel K) where
  unfoldable pub store_init_semaphore : K → Rc × K
  store_init_semaphore k = kernel.k_sem_init 1 1 k

  unfoldable pub store_take_semaphore : K → Option (Rc × K)
  store_take_semaphore k = kernel.k_sem_take k

  unfoldable pub store_give_semaphore : K → K
  store_give_semaphore k = kernel.k_sem_give k

-- The calls that change a mounted store.
pub data Call (S : Type 0) : Type 0 where
  writing : List (List ℕ) → Call S
  advancing : Call S
  compacting : Move S → Call S

module _ {S : Type 0} (lib : Platform) (st : Store S) (h : Handle) where
  abbrev pub whole : Call S → World S → Rc × World S
  whole (writing iovec) w = storage_area_store_writev lib st h iovec w
  whole advancing w = storage_area_store_advance lib st h w
  whole (compacting cb) w = storage_area_store_compact lib st h cb w

  -- The checks that a call returns from before it takes the semaphore.
  unfoldable pub before : Call S → World S → Option Rc
  before (writing iovec) w = if not (store_ready h w.sd) then some einval else none
  before advancing w =
      if not (store_ready h w.sd)
      then some einval
      else if is_null w.sd.advance
      then some enotsup
      else none
  before (compacting cb) w =
      if not (store_ready h w.sd)
      then some einval
      else if is_null w.sd.advance
      then some enotsup
      else none

  -- What a call does between taking and giving.
  unfoldable pub inside : Call S → World S → Rc × World S
  inside (writing iovec) w = store_writev lib st iovec w
  inside advancing w = call_advance lib st w.sd.advance none w
  inside (compacting cb) w = call_advance lib st w.sd.advance cb w

-- A thread with one call to make. `held` keeps the state that the thread found when it got the
-- semaphore: what it stores in the end is made from that, whatever the other threads did.
pub data Thread (S : Type 0) : Type 0 where
  start : Call S → Thread S
  passed : Call S → Thread S
  held : Call S → World S → Thread S
  ran : Call S → Rc → Thread S
  finished : Call S → Rc → Thread S

-- The threads, the state that they share, and the calls that took effect with what they returned,
-- the last one first.
pub record System (K S : Type 0) : Type 0 where
  pub sem : K
  pub world : World S
  pub threads : List (Thread S)
  pub history : List (Call S × Rc)

-- One step of one thread.
pub data Step {K S : Type 0} (kernel : Kernel K) (lib : Platform) (st : Store S) (h : Handle)
    : System K S → System K S → Type 0 where
  refuses :
      (k : K) (w : World S) (xs ys : List (Thread S)) (past : List (Call S × Rc)) (c : Call S)
      (rc : Rc)
      → before lib st h c w ≡ some rc
      → Step kernel lib st h
          (record { sem = k; world = w; threads = xs ++ start c ∷ ys; history = past })
          (record {
            sem = k;
            world = w;
            threads = xs ++ finished c rc ∷ ys;
            history = (c, rc) ∷ past;
          })
  passes :
      (k : K) (w : World S) (xs ys : List (Thread S)) (past : List (Call S × Rc)) (c : Call S)
      → before lib st h c w ≡ none
      → Step kernel lib st h
          (record { sem = k; world = w; threads = xs ++ start c ∷ ys; history = past })
          (record { sem = k; world = w; threads = xs ++ passed c ∷ ys; history = past })
  takes :
      (k k' : K) (w : World S) (xs ys : List (Thread S)) (past : List (Call S × Rc)) (c : Call S)
      (rc : Rc)
      → store_take_semaphore kernel k ≡ some (rc, k')
      → Step kernel lib st h
          (record { sem = k; world = w; threads = xs ++ passed c ∷ ys; history = past })
          (record { sem = k'; world = w; threads = xs ++ held c w ∷ ys; history = past })
  stores :
      (k : K) (w w' : World S) (xs ys : List (Thread S)) (past : List (Call S × Rc)) (c : Call S)
      → Step kernel lib st h
          (record { sem = k; world = w; threads = xs ++ held c w' ∷ ys; history = past })
          (record {
            sem = k;
            world = (inside lib st h c w').1;
            threads = xs ++ ran c (inside lib st h c w').0 ∷ ys;
            history = (c, (inside lib st h c w').0) ∷ past;
          })
  gives :
      (k : K) (w : World S) (xs ys : List (Thread S)) (past : List (Call S × Rc)) (c : Call S)
      (rc : Rc)
      → Step kernel lib st h
          (record { sem = k; world = w; threads = xs ++ ran c rc ∷ ys; history = past })
          (record {
            sem = store_give_semaphore kernel k;
            world = w;
            threads = xs ++ finished c rc ∷ ys;
            history = past;
          })

pub data Reach {K S : Type 0} (kernel : Kernel K) (lib : Platform) (st : Store S) (h : Handle)
    : System K S → System K S → Type 0 where
  here : (x : System K S) → Reach kernel lib st h x x
  then_step :
      (x y z : System K S)
      → Reach kernel lib st h x y
      → Step kernel lib st h y z
      → Reach kernel lib st h x z
