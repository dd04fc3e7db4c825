-- ===== src/Tests/Threads.antt =====
-- The theorems on threads, with two that write to the store on RAM.
use mathlib.Core.List.{Perm}
use zephyr_goodies.Base.{
  ℕ, zero, suc, ◌<◌, ◌≤◌, ◌≡◌, ◌≢◌, ◌⊎◌, refl, Option, none, some, List, [], ◌∷◌, Memory, min,
  arith,
}
use zephyr_goodies.Errno.{Rc, ok, enospc, out_of_fuel}
use zephyr_goodies.Store.{World, store_ready, store_valid}
use zephyr_goodies.Store.Threads.{
  Kernel, IsKernel, store_init_semaphore, store_take_semaphore, Call, writing, before, inside,
  Thread, start, passed, held, ran, System, Step, passes, takes, stores, Reach, here, then_step,
}
use zephyr_goodies.Store.Threads.Serial.{serial, started, threads-serial}
use zephyr_goodies.Store.Threads.Progress.{steps_left, threads-finish}
use zephyr_goodies.Circular.Produce.{IsMessage}
use zephyr_goodies.Circular.Threads.{logged, threads-IsOpen}
use zephyr_goodies.Area.{iovec_size, iovec_size_from}
use zephyr_goodies.Area.Returns.{writev-returns, erase-returns}
use zephyr_goodies.Ram.Returns.{sa_writev-returns, sa_erase-returns}
use zephyr_goodies.Ram.{rw_api, sa_writev, sa_erase}
use zephyr_goodies.Store.Layout.{IsPosition}
use zephyr_goodies.Store.Advance.{advance_simple}
use zephyr_goodies.Store.Advance.Ends.{IsReturning, advance_simple_ends}
use zephyr_goodies.Ram.Medium.{region}
use zephyr_goodies.Tests.Rings.{over, valid, Open, one-IsOpen}
use zephyr_goodies.Tests.Setup.{
  demo_lib, demo_lib-IsPlatform, demo_medium, demo_store, demo_store-IsLaidOut, demo_handle,
}
use zephyr_goodies.Tests.Stores.{one_record, one_position}

abbrev take_one : ℕ → Option (Rc × ℕ)
take_one zero = none
take_one (suc n) = some (ok, n)

abbrev demo_kernel : Kernel ℕ
demo_kernel = record {
  k_sem_init = λ first limit k. (ok, first);
  k_sem_take = take_one;
  k_sem_give = λ k. min 1 (suc k);
}

take_one-wait : (k : ℕ) → k ≡ 0 → take_one k ≡ none
take_one-wait zero e = refl
take_one-wait (suc k) e = absurd (omega arith)

take_one-ready : (k n : ℕ) → k ≡ suc n → (out : Rc × ℕ) × (take_one k ≡ some out)
take_one-ready zero n e = absurd (omega arith)
take_one-ready (suc k) n e = ((ok, k), refl)

take_one-count : (k k' : ℕ) (rc : Rc) → take_one k ≡ some (rc, k') → k ≡ suc k'
take_one-count zero k' rc e = cc
take_one-count (suc k) k' rc e = ground arith

demo_kernel-IsKernel : IsKernel demo_kernel
demo_kernel-IsKernel = record {
  count = λ k. k;
  init-ok = λ k. refl;
  init-count = λ k. refl;
  take-wait = take_one-wait;
  take-ready = take_one-ready;
  take-count = take_one-count;
  give-count = λ k. refl;
}

abbrev pair : List (Call Memory)
pair = writing ((1 ∷ []) ∷ []) ∷ writing ((2 ∷ []) ∷ []) ∷ []

abbrev begun : System ℕ Memory
begun = started demo_kernel demo_kernel-IsKernel demo_lib demo_store demo_handle one_record 0 pair

abbrev first_call : Call Memory
first_call = writing ((1 ∷ []) ∷ [])

abbrev second_call : Call Memory
second_call = writing ((2 ∷ []) ∷ [])

go_on : (c : List (List ℕ)) → before demo_lib demo_store demo_handle (writing c) one_record ≡ none
unfolding before store_ready store_valid
go_on c = refl

abbrev ReachDemo : System ℕ Memory → System ℕ Memory → Type 0
ReachDemo = Reach demo_kernel demo_lib demo_store demo_handle

abbrev state : ℕ → World Memory → List (Thread Memory) → List (Call Memory × Rc) → System ℕ Memory
state k w ts past = record { sem = k; world = w; threads = ts; history = past }

abbrev written : Rc × World Memory
written = inside demo_lib demo_store demo_handle second_call one_record

-- Both threads pass the checks, and the second writes first.
abbrev halfway : System ℕ Memory
halfway =
    state 0 written.1 (passed first_call ∷ ran second_call written.0 ∷ [])
      ((second_call, written.0) ∷ [])

halfway_reached : ReachDemo begun halfway
unfolding store_init_semaphore store_take_semaphore
halfway_reached =
    let ts : List (Thread Memory) = passed first_call ∷ start second_call ∷ [] in
    let us : List (Thread Memory) = passed first_call ∷ passed second_call ∷ [] in
    let vs : List (Thread Memory) = passed first_call ∷ held second_call one_record ∷ [] in
    then_step begun (state 0 one_record vs []) halfway
      (then_step begun (state 1 one_record us []) (state 0 one_record vs [])
        (then_step begun (state 1 one_record ts []) (state 1 one_record us [])
          (then_step begun begun (state 1 one_record ts []) (here begun)
            (passes 1 one_record [] (start second_call ∷ []) [] first_call (go_on ((1 ∷ []) ∷ []))))
          (passes 1 one_record (passed first_call ∷ []) [] [] second_call (go_on ((2 ∷ []) ∷ []))))
        (takes 1 0 one_record (passed first_call ∷ []) [] [] second_call ok refl))
      (stores 0 one_record one_record (passed first_call ∷ []) [] [] second_call)

threads-serial_example :
    (1 ≤ 1)
    × Perm {A = Call Memory × Rc} ((second_call, written.0) ∷ []) ((second_call, written.0) ∷ [])
    × (serial demo_lib demo_store demo_handle (second_call ∷ []) one_record
        ≡ (written.0 ∷ [], written.1))
threads-serial_example =
    threads-serial demo_kernel demo_kernel-IsKernel demo_lib demo_store demo_handle one_record 0
      pair halfway halfway_reached

demo_store-IsReturning : IsReturning demo_store
unfolding rw_api
demo_store-IsReturning = record {
  writes =
      writev-returns demo_store.area (rw_api 16) refl (sa_writev 16) refl (sa_writev-returns 16);
  erases = erase-returns demo_store.area (rw_api 16) refl (sa_erase 16) refl (sa_erase-returns 16);
}

advance_simple_ends_example :
    ((advance_simple demo_store one_record).0 ≢ out_of_fuel)
    × IsPosition demo_store (advance_simple demo_store one_record).1.sd
advance_simple_ends_example =
    advance_simple_ends demo_store demo_store-IsLaidOut demo_store-IsReturning one_record
      (omega arith) one_position

threads-finish_example :
    ((steps_left halfway.threads ≡ 0)
      ⊎ ((z : System ℕ Memory) × Step demo_kernel demo_lib demo_store demo_handle halfway z))
    × ((z : System ℕ Memory)
        → Step demo_kernel demo_lib demo_store demo_handle halfway z
        → steps_left z.threads < steps_left halfway.threads)
    × ((written.0 ≢ out_of_fuel) × Unit {0})
    × IsPosition demo_store written.1.sd
unfolding iovec_size iovec_size_from
threads-finish_example =
    threads-finish demo_kernel demo_kernel-IsKernel demo_lib demo_store demo_handle
      demo_store-IsLaidOut demo_store-IsReturning (omega arith) one_record 0 pair halfway
      one_position (omega arith, (omega arith, tt)) halfway_reached

message :
    (b : ℕ)
    → IsMessage demo_lib demo_store
        (region 16)
        (λ _. Unit {0})
        demo_lib-IsPlatform
        demo_medium
        demo_store-IsLaidOut
        (omega arith)
        over
        demo_handle
        valid
        (b ∷ [])
message b = record {
  some_data = omega arith;
  short = omega arith;
  skip = omega arith;
  fits = omega arith;
  padded = λ e. omega arith;
}

threads-IsOpen_example :
    (((written.0 ≡ ok) ⊎ (written.0 ≡ enospc)) × Unit {0})
    × Open written.1 (logged second_call written.0 ((7 ∷ 8 ∷ 9 ∷ []) ∷ []))
threads-IsOpen_example =
    threads-IsOpen demo_lib demo_store (region 16) (λ _. Unit {0}) demo_lib-IsPlatform demo_medium
      demo_store-IsLaidOut (omega arith) over demo_handle valid demo_kernel demo_kernel-IsKernel
      one_record 0 pair halfway ((7 ∷ 8 ∷ 9 ∷ []) ∷ []) (message 1, (message 2, tt)) one-IsOpen
      halfway_reached
