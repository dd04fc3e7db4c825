-- ===== src/Store/Threads/Serial.antt =====
-- Threads that share a store under the semaphore of storage_area_store.c do what some order of the
-- same calls does, one after another.
use mathlib.Core.List.{Perm, perm_middle}
use mathlib.Core.List.Perm
use zephyr_goodies.Base.{
  ℕ, suc, ◌+◌, ◌≤◌, ◌≡◌, refl, sym, ap, subst, ◌∙◌, none, some, List, [], ◌∷◌, ◌++◌, arith,
}
use zephyr_goodies.Errno.{Rc}
use zephyr_goodies.Store.{Platform, Store, World, Handle, store_ready}
use zephyr_goodies.Store.Calls.{
  call_advance, storage_area_store_advance, storage_area_store_compact, storage_area_store_writev,
}
use zephyr_goodies.Store.Threads.{
  Kernel, IsKernel, store_init_semaphore, store_take_semaphore, store_give_semaphore, Call, writing,
  advancing, compacting, whole, before, inside, Thread, start, passed, held, ran, finished, System,
  Step, refuses, passes, takes, stores, gives, Reach, here, then_step,
}
use zephyr_goodies.Store.Threads.Mode.{SameMode, inside-SameMode}

module _ {S : Type 0} (lib : Platform) (st : Store S) (h : Handle) where
  -- Calls one after another, the last of the list first, with the codes that they return.
  abbrev pub serial : List (Call S) → World S → List Rc × World S
  serial [] w = ([], w)
  serial (c ∷ cs) w =
      let (codes, w') = serial cs w in let (rc, w'') = whole lib st h c w' in (rc ∷ codes, w'')

  -- A call is its checks and then its work.
  pub whole-refused :
      (c : Call S) (w : World S) (rc : Rc)
      → before lib st h c w ≡ some rc
      → whole lib st h c w ≡ (rc, w)
  unfolding before storage_area_store_writev storage_area_store_advance storage_area_store_compact
      call_advance
  whole-refused (writing iovec) w rc e = ground arith
  whole-refused advancing w rc e = ground arith
  whole-refused (compacting cb) w rc e = ground arith

  pub whole-inside :
      (c : Call S) (w : World S)
      → before lib st h c w ≡ none
      → whole lib st h c w ≡ inside lib st h c w
  unfolding before inside storage_area_store_writev storage_area_store_advance
      storage_area_store_compact
  whole-inside (writing iovec) w e = ground arith
  whole-inside advancing w e = ground arith
  whole-inside (compacting cb) w e = ground arith

  -- The checks look at nothing that a call changes.
  before-SameMode :
      (c : Call S) (w : World S) (m : Rc × World S)
      → SameMode w m
      → before lib st h c w ≡ none
      → before lib st h c m.1 ≡ none
  unfolding before store_ready
  before-SameMode (writing iovec) w m k e = rw k.ready e
  before-SameMode advancing w m k e = rw (k.ready, k.advance) e
  before-SameMode (compacting cb) w m k e = rw (k.ready, k.advance) e

-- How many hold the semaphore.
abbrev pub holders : {S : Type 0} → List (Thread S) → ℕ
holders [] = 0
holders (held c w ∷ ts) = suc (holders ts)
holders (ran c rc ∷ ts) = suc (holders ts)
holders (_ ∷ ts) = holders ts

-- The calls of the threads that took effect, with their codes.
abbrev pub results : {S : Type 0} → List (Thread S) → List (Call S × Rc)
results [] = []
results (ran c rc ∷ ts) = (c, rc) ∷ results ts
results (finished c rc ∷ ts) = (c, rc) ∷ results ts
results (_ ∷ ts) = results ts

abbrev pub calls_of : {S : Type 0} → List (Call S × Rc) → List (Call S)
calls_of [] = []
calls_of ((c, rc) ∷ past) = c ∷ calls_of past

abbrev pub codes_of : {S : Type 0} → List (Call S × Rc) → List Rc
codes_of [] = []
codes_of ((c, rc) ∷ past) = rc ∷ codes_of past

abbrev pub waiting : {S : Type 0} → List (Call S) → List (Thread S)
waiting [] = []
waiting (c ∷ cs) = start c ∷ waiting cs

pub holders-append :
    {S : Type 0} (xs ys : List (Thread S)) → holders (xs ++ ys) ≡ holders xs + holders ys
holders-append [] ys = omega arith
holders-append (start c ∷ xs) ys = holders-append xs ys
holders-append (passed c ∷ xs) ys = holders-append xs ys
holders-append (held c w ∷ xs) ys = omega (arith, holders-append xs ys)
holders-append (ran c rc ∷ xs) ys = omega (arith, holders-append xs ys)
holders-append (finished c rc ∷ xs) ys = holders-append xs ys

results-append :
    {S : Type 0} (xs ys : List (Thread S)) → results (xs ++ ys) ≡ results xs ++ results ys
results-append [] ys = refl
results-append (start c ∷ xs) ys = results-append xs ys
results-append (passed c ∷ xs) ys = results-append xs ys
results-append (held c w ∷ xs) ys = results-append xs ys
results-append (ran c rc ∷ xs) ys = ap (λ r. (c, rc) ∷ r) (results-append xs ys)
results-append (finished c rc ∷ xs) ys = ap (λ r. (c, rc) ∷ r) (results-append xs ys)

module _ {S : Type 0} (lib : Platform) (st : Store S) (h : Handle) where
  -- What a thread that went on knows of the state: its checks hold still, and if it has the
  -- semaphore then the state is as it found it.
  abbrev pub FreshThread : World S → Thread S → Type 0
  FreshThread w (passed c) = before lib st h c w ≡ none
  FreshThread w (held c w') = (w' ≡ w) × (before lib st h c w ≡ none)
  FreshThread w _ = Unit {0}

  abbrev pub Fresh : World S → List (Thread S) → Type 0
  Fresh w [] = Unit {0}
  Fresh w (t ∷ ts) = FreshThread w t × Fresh w ts

  Fresh-here :
      (w : World S) (xs ys : List (Thread S)) (t : Thread S)
      → Fresh w (xs ++ t ∷ ys)
      → FreshThread w t
  Fresh-here w [] ys t f = f.0
  Fresh-here w (x ∷ xs) ys t f = Fresh-here w xs ys t f.1

  Fresh-put :
      (w : World S) (xs ys : List (Thread S)) (t t' : Thread S)
      → FreshThread w t'
      → Fresh w (xs ++ t ∷ ys)
      → Fresh w (xs ++ t' ∷ ys)
  Fresh-put w [] ys t t' k f = (k, f.1)
  Fresh-put w (x ∷ xs) ys t t' k f = (f.0, Fresh-put w xs ys t t' k f.1)

  -- A call in one thread leaves the others what they know, if none of them has the semaphore.
  Fresh-inside :
      (w : World S) (m : Rc × World S) (ts : List (Thread S))
      → SameMode w m
      → holders ts ≡ 0
      → Fresh w ts
      → Fresh m.1 ts
  Fresh-inside w m [] k z f = tt
  Fresh-inside w m (start c ∷ ts) k z f = (tt, Fresh-inside w m ts k z f.1)
  Fresh-inside w m (passed c ∷ ts) k z f =
      (before-SameMode lib st h c w m k f.0, Fresh-inside w m ts k z f.1)
  Fresh-inside w m (held c w' ∷ ts) k z f = absurd (omega arith)
  Fresh-inside w m (ran c rc ∷ ts) k z f = absurd (omega arith)
  Fresh-inside w m (finished c rc ∷ ts) k z f = (tt, Fresh-inside w m ts k z f.1)

  Fresh-waiting : (w : World S) (cs : List (Call S)) → Fresh w (waiting cs)
  Fresh-waiting w [] = tt
  Fresh-waiting w (c ∷ cs) = (tt, Fresh-waiting w cs)

-- One call more among the results.
results-more :
    {S : Type 0} (xs ys : List (Thread S)) (t t' : Thread S) (past : List (Call S × Rc))
    (c : Call S) (rc : Rc)
    → results (t ∷ ys) ≡ results ys
    → results (t' ∷ ys) ≡ (c, rc) ∷ results ys
    → Perm past (results (xs ++ t ∷ ys))
    → Perm ((c, rc) ∷ past) (results (xs ++ t' ∷ ys))
results-more xs ys t t' past c rc old new p =
    subst (λ r. Perm ((c, rc) ∷ past) r)
      (sym (results-append xs (t' ∷ ys) ∙ ap (λ r. results xs ++ r) new))
      (Perm.trans
        (Perm.cons (c, rc)
          (subst (λ r. Perm past r) (results-append xs (t ∷ ys) ∙ ap (λ r. results xs ++ r) old) p))
        (Perm.symm (perm_middle (results xs) (results ys))))

results-kept :
    {S : Type 0} (xs ys : List (Thread S)) (t t' : Thread S) (past : List (Call S × Rc))
    → results (t ∷ ys) ≡ results (t' ∷ ys)
    → Perm past (results (xs ++ t ∷ ys))
    → Perm past (results (xs ++ t' ∷ ys))
results-kept xs ys t t' past e p =
    subst (λ r. Perm past r)
      (results-append xs (t ∷ ys) ∙ ap (λ r. results xs ++ r) e ∙ sym (results-append xs (t' ∷ ys)))
      p

holders-put :
    {S : Type 0} (xs ys : List (Thread S)) (t t' : Thread S)
    → holders (xs ++ t ∷ ys) + holders (t' ∷ ys) ≡ holders (xs ++ t' ∷ ys) + holders (t ∷ ys)
holders-put xs ys t t' = omega (arith, holders-append xs (t ∷ ys), holders-append xs (t' ∷ ys))

holders-waiting : {S : Type 0} (cs : List (Call S)) → holders (waiting cs) ≡ 0
holders-waiting [] = refl
holders-waiting (c ∷ cs) = holders-waiting cs

results-waiting : {S : Type 0} (cs : List (Call S)) → results (waiting cs) ≡ []
results-waiting [] = refl
results-waiting (c ∷ cs) = results-waiting cs

module _ {K S : Type 0} (kernel : Kernel K) (laws : IsKernel kernel) (lib : Platform) (st : Store S)
    (h : Handle) (w₀ : World S) where
  -- What stays true of the threads: one of them or the kernel has the semaphore, and the calls that
  -- took effect are the results of the threads and lead to the state when they are made in turn.
  pub record IsSerial (x : System K S) : Type 0 where
    pub one : laws.count x.sem + holders x.threads ≡ 1
    fresh : Fresh lib st h x.world x.threads
    past : serial lib st h (calls_of x.history) w₀ ≡ (codes_of x.history, x.world)
    effects : Perm x.history (results x.threads)

  -- One call more in turn.
  serial-more :
      (past : List (Call S × Rc)) (c : Call S) (w : World S) (m : Rc × World S)
      → serial lib st h (calls_of past) w₀ ≡ (codes_of past, w)
      → whole lib st h c w ≡ m
      → serial lib st h (c ∷ calls_of past) w₀ ≡ (m.0 ∷ codes_of past, m.1)
  serial-more past c w m e k =
      ap (λ (p : List Rc × World S). ((whole lib st h c p.1).0 ∷ p.0, (whole lib st h c p.1).1)) e
      ∙ ap (λ (n : Rc × World S). (n.0 ∷ codes_of past, n.1)) k

  Step-IsSerial : (x y : System K S) → Step kernel lib st h x y → IsSerial x → IsSerial y
  unfolding store_take_semaphore store_give_semaphore
  Step-IsSerial _ _ (refuses k w xs ys past c rc e) i = record {
    one = omega (arith, i.one, holders-put xs ys (start c) (finished c rc));
    fresh = Fresh-put lib st h w xs ys (start c) (finished c rc) tt i.fresh;
    past = serial-more past c w (rc, w) i.past (whole-refused lib st h c w rc e);
    effects = results-more xs ys (start c) (finished c rc) past c rc refl refl i.effects;
  }
  Step-IsSerial _ _ (passes k w xs ys past c e) i = record {
    one = omega (arith, i.one, holders-put xs ys (start c) (passed c));
    fresh = Fresh-put lib st h w xs ys (start c) (passed c) e i.fresh;
    past = i.past;
    effects = results-kept xs ys (start c) (passed c) past refl i.effects;
  }
  Step-IsSerial _ _ (takes k k' w xs ys past c rc e) i = record {
    one = omega (arith, i.one, holders-put xs ys (passed c) (held c w), laws.take-count k k' rc e);
    fresh =
        Fresh-put lib st h w xs ys (passed c) (held c w)
          (refl, Fresh-here lib st h w xs ys (passed c) i.fresh) i.fresh;
    past = i.past;
    effects = results-kept xs ys (passed c) (held c w) past refl i.effects;
  }
  Step-IsSerial _ _ (stores k w w' xs ys past c) i =
      let m = inside lib st h c w' in
      let (found, checked) = Fresh-here lib st h w xs ys (held c w') i.fresh in
      let mode : SameMode w m = subst (λ v. SameMode v m) found (inside-SameMode lib st h c w') in
      let idle = Fresh-put lib st h w xs ys (held c w') (start c) tt i.fresh in
      let none_else : holders (xs ++ start c ∷ ys) ≡ 0 =
        omega (arith, i.one, holders-put xs ys (held c w') (start c)) in
      record {
        one = omega (arith, i.one, holders-put xs ys (held c w') (ran c m.0));
        fresh =
            Fresh-put lib st h m.1 xs ys (start c) (ran c m.0) tt
              (Fresh-inside lib st h w m (xs ++ start c ∷ ys) mode none_else idle);
        past =
            serial-more past c w m i.past
              (whole-inside lib st h c w checked ∙ ap (inside lib st h c) (sym found));
        effects = results-more xs ys (held c w') (ran c m.0) past c m.0 refl refl i.effects;
      }
  Step-IsSerial _ _ (gives k w xs ys past c rc) i = record {
    one = omega (
      arith,
      i.one,
      holders-put xs ys (ran c rc) (finished c rc),
      holders-append xs (ran c rc ∷ ys),
      laws.give-count k,
    );
    fresh = Fresh-put lib st h w xs ys (ran c rc) (finished c rc) tt i.fresh;
    past = i.past;
    effects = results-kept xs ys (ran c rc) (finished c rc) past refl i.effects;
  }

  pub Reach-IsSerial : (x y : System K S) → Reach kernel lib st h x y → IsSerial x → IsSerial y
  Reach-IsSerial _ _ (here x) i = i
  Reach-IsSerial _ _ (then_step x y z r s) i = Step-IsSerial y z s (Reach-IsSerial x y r i)

  -- The threads at the start, when the semaphore was just set up.
  abbrev pub started : K → List (Call S) → System K S
  started k cs = record {
    sem = (store_init_semaphore kernel k).1;
    world = w₀;
    threads = waiting cs;
    history = [];
  }

  pub started-IsSerial : (k : K) (cs : List (Call S)) → IsSerial (started k cs)
  unfolding store_init_semaphore
  started-IsSerial k cs = record {
    one = omega (arith, laws.init-count k, holders-waiting cs);
    fresh = Fresh-waiting lib st h w₀ cs;
    past = refl;
    effects = subst (λ r. Perm [] r) (sym (results-waiting cs)) Perm.nil;
  }

  -- However the steps of threads are interleaved that each make one call to write, advance or
  -- compact a store, from the semaphore as the mount sets it up: at most one thread has the
  -- semaphore; the calls that have returned or are about to, each with its code, are those of the
  -- history, in another order; and the calls of the history, made one after another by one thread,
  -- return the same codes and leave the same state. The kernel's semaphores are as documented.
  pub threads-serial :
      (k : K) (cs : List (Call S)) (y : System K S)
      → Reach kernel lib st h (started k cs) y
      → (holders y.threads ≤ 1)
        × Perm y.history (results y.threads)
        × (serial lib st h (calls_of y.history) w₀ ≡ (codes_of y.history, y.world))
  threads-serial k cs y r =
      let i = Reach-IsSerial (started k cs) y r (started-IsSerial k cs) in
      (omega (arith, i.one), i.effects, i.past)
