-- ===== src/Store/Threads/Progress.antt =====
-- Threads that share a store under the semaphore of storage_area_store.c neither wait for each
-- other for ever nor work for ever.
use zephyr_goodies.Base.{
  ℕ, zero, suc, ◌+◌, ◌<◌, ◌≡◌, ◌⊎◌, refl, sym, ap, subst, inl, inr, Option, none, some, List, [],
  ◌∷◌, ◌++◌, arith,
}
use zephyr_goodies.Errno.{Rc}
use zephyr_goodies.Store.{Platform, Store, World, Handle}
use zephyr_goodies.Store.Threads.{
  Kernel, IsKernel, store_take_semaphore, Call, before, inside, Thread, start, passed, held, ran,
  finished, System, Step, refuses, passes, takes, stores, gives, Reach,
}
use zephyr_goodies.Store.Threads.Serial.{
  holders, calls_of, codes_of, started, Reach-IsSerial, started-IsSerial, threads-serial,
}
use zephyr_goodies.Store.Threads.Known.{EachCall, EachThread-waiting, Reach-EachKnown}
use zephyr_goodies.Store.Threads.Ends.{IsBounded, AllEnded, serial_ends}
use zephyr_goodies.Store.Advance.Ends.{IsReturning}
use zephyr_goodies.Store.Layout.{IsLaidOut, IsPosition}
use zephyr_goodies.Size.{size_mod}

-- The steps that a thread has to go.
abbrev pub steps_left : {S : Type 0} → List (Thread S) → ℕ
steps_left [] = 0
steps_left (start c ∷ ts) = 4 + steps_left ts
steps_left (passed c ∷ ts) = 3 + steps_left ts
steps_left (held c w ∷ ts) = 2 + steps_left ts
steps_left (ran c rc ∷ ts) = 1 + steps_left ts
steps_left (finished c rc ∷ ts) = steps_left ts

steps_left-append :
    {S : Type 0} (xs ys : List (Thread S)) → steps_left (xs ++ ys) ≡ steps_left xs + steps_left ys
steps_left-append [] ys = omega arith
steps_left-append (start c ∷ xs) ys = omega (arith, steps_left-append xs ys)
steps_left-append (passed c ∷ xs) ys = omega (arith, steps_left-append xs ys)
steps_left-append (held c w ∷ xs) ys = omega (arith, steps_left-append xs ys)
steps_left-append (ran c rc ∷ xs) ys = omega (arith, steps_left-append xs ys)
steps_left-append (finished c rc ∷ xs) ys = steps_left-append xs ys

-- A thread that has the semaphore.
record Owner {S : Type 0} (ts : List (Thread S)) : Type 0 where
  front : List (Thread S)
  back : List (Thread S)
  call : Call S
  owner :
      ((w : World S) × (ts ≡ front ++ held call w ∷ back))
      ⊎ ((rc : Rc) × (ts ≡ front ++ ran call rc ∷ back))

-- A thread that has steps to go and has not the semaphore.
record Waiter {S : Type 0} (ts : List (Thread S)) : Type 0 where
  front : List (Thread S)
  back : List (Thread S)
  call : Call S
  waiter : (ts ≡ front ++ start call ∷ back) ⊎ (ts ≡ front ++ passed call ∷ back)

Owner-later : {S : Type 0} (t : Thread S) (ts : List (Thread S)) → Owner ts → Owner (t ∷ ts)
Owner-later t ts o = record {
  front = t ∷ o.front;
  back = o.back;
  call = o.call;
  owner = elim o.owner [
    | inl p ↦ inl (p.0, ap (λ l. t ∷ l) p.1)
    | inr p ↦ inr (p.0, ap (λ l. t ∷ l) p.1)
  ];
}

Waiter-later : {S : Type 0} (t : Thread S) (ts : List (Thread S)) → Waiter ts → Waiter (t ∷ ts)
Waiter-later t ts o = record {
  front = t ∷ o.front;
  back = o.back;
  call = o.call;
  waiter = elim o.waiter [ inl p ↦ inl (ap (λ l. t ∷ l) p) | inr p ↦ inr (ap (λ l. t ∷ l) p) ];
}

find-Owner : {S : Type 0} (ts : List (Thread S)) (n : ℕ) → holders ts ≡ suc n → Owner ts
find-Owner [] n h = absurd (omega arith)
find-Owner (held c w ∷ ts) n h = record { front = []; back = ts; call = c; owner = inl (w, refl) }
find-Owner (ran c rc ∷ ts) n h = record { front = []; back = ts; call = c; owner = inr (rc, refl) }
find-Owner (start c ∷ ts) n h = Owner-later (start c) ts (find-Owner ts n h)
find-Owner (passed c ∷ ts) n h = Owner-later (passed c) ts (find-Owner ts n h)
find-Owner (finished c rc ∷ ts) n h = Owner-later (finished c rc) ts (find-Owner ts n h)

find-Waiter :
    {S : Type 0} (ts : List (Thread S)) (n : ℕ) → holders ts ≡ 0 → steps_left ts ≡ suc n → Waiter ts
find-Waiter [] n h l = absurd (omega arith)
find-Waiter (start c ∷ ts) n h l = record { front = []; back = ts; call = c; waiter = inl refl }
find-Waiter (passed c ∷ ts) n h l = record { front = []; back = ts; call = c; waiter = inr refl }
find-Waiter (held c w ∷ ts) n h l = absurd (omega arith)
find-Waiter (ran c rc ∷ ts) n h l = absurd (omega arith)
find-Waiter (finished c rc ∷ ts) n h l = Waiter-later (finished c rc) ts (find-Waiter ts n h l)

ℕ-cases : (n : ℕ) → (n ≡ 0) ⊎ ((m : ℕ) × (n ≡ suc m))
ℕ-cases zero = inl refl
ℕ-cases (suc m) = inr (m, refl)

Option-cases {ℓ} : {A : Type ℓ} (o : Option A) → (o ≡ none) ⊎ ((a : A) × (o ≡ some a))
Option-cases none = inl refl
Option-cases (some a) = inr (a, refl)

module _ {K S : Type 0} (kernel : Kernel K) (laws : IsKernel kernel) (lib : Platform) (st : Store S)
    (h : Handle) where
  -- The state with its threads written out.
  abbrev with_threads : System K S → List (Thread S) → System K S
  with_threads y ts = record y { threads = ts }

  abbrev Goes : System K S → Type 0
  Goes y = (z : System K S) × Step kernel lib st h y z

  start-Goes :
      (y : System K S) (xs ys : List (Thread S)) (c : Call S)
      → Goes (with_threads y (xs ++ start c ∷ ys))
  start-Goes y xs ys c = elim (Option-cases (before lib st h c y.world)) [
    | inl e ↦ (_, passes y.sem y.world xs ys y.history c e)
    | inr p ↦ (_, refuses y.sem y.world xs ys y.history c p.0 p.1)
  ]

  passed-Goes :
      (y : System K S) (xs ys : List (Thread S)) (c : Call S) (n : ℕ)
      → laws.count y.sem ≡ suc n
      → Goes (with_threads y (xs ++ passed c ∷ ys))
  unfolding store_take_semaphore
  passed-Goes y xs ys c n e =
      let (out, took) = laws.take-ready y.sem n e in
      (_, takes y.sem out.1 y.world xs ys y.history c out.0 took)

  Goes-at :
      (y : System K S) (ts : List (Thread S)) → y.threads ≡ ts → Goes (with_threads y ts) → Goes y
  Goes-at y ts e g = (g.0, subst (λ l. Step kernel lib st h (with_threads y l) g.0) (sym e) g.1)

  Owner-Goes : (y : System K S) → Owner y.threads → Goes y
  Owner-Goes y o = elim o.owner [
    | inl p ↦
        Goes-at y (o.front ++ held o.call p.0 ∷ o.back) p.1
          (_, stores y.sem y.world p.0 o.front o.back y.history o.call)
    | inr p ↦
        Goes-at y (o.front ++ ran o.call p.0 ∷ o.back) p.1
          (_, gives y.sem y.world o.front o.back y.history o.call p.0)
  ]

  Waiter-Goes : (y : System K S) → laws.count y.sem ≡ 1 → Waiter y.threads → Goes y
  Waiter-Goes y one o = elim o.waiter [
    | inl p ↦ Goes-at y (o.front ++ start o.call ∷ o.back) p (start-Goes y o.front o.back o.call)
    | inr p ↦
        Goes-at y (o.front ++ passed o.call ∷ o.back) p (passed-Goes y o.front o.back o.call 0 one)
  ]

  Step-shorter :
      (y z : System K S) → Step kernel lib st h y z → steps_left z.threads < steps_left y.threads
  Step-shorter _ _ (refuses k w xs ys past c rc e) =
      omega (arith, steps_left-append xs (start c ∷ ys), steps_left-append xs (finished c rc ∷ ys))
  Step-shorter _ _ (passes k w xs ys past c e) =
      omega (arith, steps_left-append xs (start c ∷ ys), steps_left-append xs (passed c ∷ ys))
  Step-shorter _ _ (takes k k' w xs ys past c rc e) =
      omega (arith, steps_left-append xs (passed c ∷ ys), steps_left-append xs (held c w ∷ ys))
  Step-shorter _ _ (stores k w w' xs ys past c) =
      let rc = (inside lib st h c w').0 in
      omega (arith, steps_left-append xs (held c w' ∷ ys), steps_left-append xs (ran c rc ∷ ys))
  Step-shorter _ _ (gives k w xs ys past c rc) =
      omega (arith, steps_left-append xs (ran c rc ∷ ys), steps_left-append xs (finished c rc ∷ ys))

  -- Threads each make one call on a store that lies in its area, whose sectors 32 bits count, with a
  -- write position in its sector: a write of a record that is not longer than a sector, an advance,
  -- or a compaction of a store that is not mounted for compaction. The driver of the area returns
  -- from its calls, with whatever code, and the kernel's semaphores are as documented. From the
  -- semaphore as the mount sets it up, however the steps are interleaved: until all calls have
  -- returned one of the threads can make a step; each step, of whichever thread, leaves less steps
  -- to go; and no loop of a call that has taken effect ran out of rounds, so that its work ended,
  -- with a write position in its sector.
  pub threads-finish :
      (laid : IsLaidOut st) (drives : IsReturning st) (counted : st.sector_cnt < size_mod)
      (w : World S) (k : K) (cs : List (Call S)) (y : System K S)
      → IsPosition st w.sd
      → EachCall (IsBounded lib st h laid drives counted w.sd.advance) cs
      → Reach kernel lib st h (started kernel laws lib st h w k cs) y
      → ((steps_left y.threads ≡ 0) ⊎ ((z : System K S) × Step kernel lib st h y z))
        × ((z : System K S)
            → Step kernel lib st h y z
            → steps_left z.threads < steps_left y.threads)
        × AllEnded (codes_of y.history)
        × IsPosition st y.world.sd
  threads-finish laid drives counted w k cs y p bounded r =
      let i =
        Reach-IsSerial kernel laws lib st h w (started kernel laws lib st h w k cs) y r
          (started-IsSerial kernel laws lib st h w k cs) in
      let P = IsBounded lib st h laid drives counted w.sd.advance in
      let known =
        Reach-EachKnown P kernel lib st h (started kernel laws lib st h w k cs) y r
          (EachThread-waiting P cs bounded, tt) in
      let turn = (threads-serial kernel laws lib st h w k cs y r).2 in
      let ends =
        subst
          (λ (m : List Rc × World S).
            AllEnded m.0 × ((m.1.sd.advance ≡ w.sd.advance) × IsPosition st m.1.sd))
          turn
          (serial_ends lib st h laid drives counted w.sd.advance (calls_of y.history) w known.1
            (refl, p)) in
      (
        elim (ℕ-cases (steps_left y.threads)) [
          | inl done ↦ inl done
          | inr more ↦ inr (elim (ℕ-cases (holders y.threads)) [
            | inr some_one ↦ Owner-Goes y (find-Owner y.threads some_one.0 some_one.1)
            | inl no_one ↦
                Waiter-Goes y (omega (arith, i.one)) (find-Waiter y.threads more.0 no_one more.1)
          ])
        ],
        Step-shorter y,
        ends.0,
        ends.1.1,
      )
