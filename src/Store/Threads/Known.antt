-- ===== src/Store/Threads/Known.antt =====
-- What is known of each call that a thread makes stays known of the calls of the history.
use zephyr_goodies.Base.{◌≡◌, ap, ap₂, List, [], ◌∷◌, ◌++◌}
use zephyr_goodies.Errno.{Rc}
use zephyr_goodies.Store.{Platform, Store, World, Handle}
use zephyr_goodies.Store.Threads.{
  Kernel, Call, whole, Thread, start, passed, held, ran, finished, System, Step, refuses, passes,
  takes, stores, gives, Reach, here, then_step,
}
use zephyr_goodies.Store.Threads.Serial.{serial, waiting, calls_of}

module _ {S : Type 0} (P : Call S → Type 0) where
  abbrev pub EachCall : List (Call S) → Type 0
  EachCall [] = Unit {0}
  EachCall (c ∷ cs) = P c × EachCall cs

  abbrev pub call_of : Thread S → Call S
  call_of (start c) = c
  call_of (passed c) = c
  call_of (held c w) = c
  call_of (ran c rc) = c
  call_of (finished c rc) = c

  abbrev pub EachThread : List (Thread S) → Type 0
  EachThread [] = Unit {0}
  EachThread (t ∷ ts) = P (call_of t) × EachThread ts

  EachThread-here :
      (xs ys : List (Thread S)) (t : Thread S) → EachThread (xs ++ t ∷ ys) → P (call_of t)
  EachThread-here [] ys t e = e.0
  EachThread-here (x ∷ xs) ys t e = EachThread-here xs ys t e.1

  EachThread-put :
      (xs ys : List (Thread S)) (t t' : Thread S)
      → P (call_of t')
      → EachThread (xs ++ t ∷ ys)
      → EachThread (xs ++ t' ∷ ys)
  EachThread-put [] ys t t' p e = (p, e.1)
  EachThread-put (x ∷ xs) ys t t' p e = (e.0, EachThread-put xs ys t t' p e.1)

  pub EachThread-waiting : (cs : List (Call S)) → EachCall cs → EachThread (waiting cs)
  EachThread-waiting [] e = tt
  EachThread-waiting (c ∷ cs) e = (e.0, EachThread-waiting cs e.1)

  -- The calls of a history are calls of the threads.
  abbrev pub EachKnown : {K : Type 0} → System K S → Type 0
  EachKnown x = EachThread x.threads × EachCall (calls_of x.history)

  module _ {K : Type 0} (kernel : Kernel K) (lib : Platform) (st : Store S) (h : Handle) where
    Step-EachKnown : (x y : System K S) → Step kernel lib st h x y → EachKnown x → EachKnown y
    Step-EachKnown _ _ (refuses k w xs ys past c rc e) (a, b) =
        let p = EachThread-here xs ys (start c) a in
        (EachThread-put xs ys (start c) (finished c rc) p a, (p, b))
    Step-EachKnown _ _ (passes k w xs ys past c e) (a, b) =
        let p = EachThread-here xs ys (start c) a in
        (EachThread-put xs ys (start c) (passed c) p a, b)
    Step-EachKnown _ _ (takes k k' w xs ys past c rc e) (a, b) =
        let p = EachThread-here xs ys (passed c) a in
        (EachThread-put xs ys (passed c) (held c w) p a, b)
    Step-EachKnown _ _ (stores k w w' xs ys past c) (a, b) =
        let p = EachThread-here xs ys (held c w') a in
        (EachThread-put xs ys (held c w') (ran c _) p a, (p, b))
    Step-EachKnown _ _ (gives k w xs ys past c rc) (a, b) =
        let p = EachThread-here xs ys (ran c rc) a in
        (EachThread-put xs ys (ran c rc) (finished c rc) p a, b)

    pub Reach-EachKnown : (x y : System K S) → Reach kernel lib st h x y → EachKnown x → EachKnown y
    Reach-EachKnown _ _ (here x) e = e
    Reach-EachKnown _ _ (then_step x y z r s) e = Step-EachKnown y z s (Reach-EachKnown x y r e)

-- One call more in turn, from the end.
pub serial-last :
    {S : Type 0} (lib : Platform) (st : Store S) (h : Handle) (c : Call S) (cs : List (Call S))
    (rc : Rc) (codes : List Rc) (w₀ w : World S)
    → serial lib st h (c ∷ cs) w₀ ≡ (rc ∷ codes, w)
    → (v : World S) × (serial lib st h cs w₀ ≡ (codes, v)) × (whole lib st h c v ≡ (rc, w))
serial-last lib st h c cs rc codes w₀ w e =
    let inner = serial lib st h cs w₀ in
    let last = whole lib st h c inner.1 in
    let made : last.0 ∷ inner.0 ≡ rc ∷ codes = ap (λ (p : List Rc × World _). p.0) e in
    let rest : inner.0 ≡ codes = cc in
    let code : last.0 ≡ rc = cc in
    let state : last.1 ≡ w = ap (λ (p : List Rc × World _). p.1) e in
    (inner.1, ap (λ l. (l, inner.1)) rest, ap₂ (λ a b. (a, b)) code state)
