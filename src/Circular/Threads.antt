-- ===== src/Circular/Threads.antt =====
-- Threads that write to a store as a circular buffer and advance it, under the semaphore of
-- storage_area_store.c.
use zephyr_goodies.Base.{
  ℕ, ◌+◌, ◌<◌, ◌≡◌, refl, sym, ap, subst, ◌⊎◌, inl, inr, true, List, [], ◌∷◌, ◌++◌, flatten, length,
  leb, leb→le, leb_false→lt, if◌then◌else◌, Bool-cases, Memory, append-nil,
}
use zephyr_goodies.Errno.{Rc, ok, enospc, is_ok}
use zephyr_goodies.Size.{size_mod}
use zephyr_goodies.Area.{fovrwrite}
use zephyr_goodies.Medium.{IsMedium}
use zephyr_goodies.Store.{Platform, IsPlatform, Store, World, Handle, store_valid}
use zephyr_goodies.Store.Layout.{IsLaidOut}
use zephyr_goodies.Store.Threads.{
  Kernel, IsKernel, Call, writing, advancing, compacting, whole, System, Reach,
}
use zephyr_goodies.Store.Threads.Serial.{serial, started, calls_of, codes_of, threads-serial}
use zephyr_goodies.Store.Threads.Known.{EachCall, EachThread-waiting, Reach-EachKnown, serial-last}
use zephyr_goodies.Store.Calls.{storage_area_store_write}
use zephyr_goodies.Circular.Produce as Produce
use zephyr_goodies.Circular.Produce.{IsMessage, IsOpen}

-- The log that a call leaves, by the code that it returns.
abbrev pub logged : {S : Type 0} → Call S → Rc → List (List ℕ) → List (List ℕ)
logged (writing iovec) rc log = if is_ok rc then log ++ flatten iovec ∷ [] else log
logged advancing rc log = if is_ok rc then [] else log
logged (compacting cb) rc log = log

-- The log that a history leaves, the last call of it first.
abbrev pub log_after : {S : Type 0} → List (List ℕ) → List (Call S × Rc) → List (List ℕ)
log_after log [] = log
log_after log ((c, rc) ∷ past) = logged c rc (log_after log past)

module _ {S : Type 0} (lib : Platform) (st : Store S) (view : S → Memory) (Inv : S → Type 0)
    (laws : IsPlatform lib) (medium : IsMedium st.area view Inv) (laid : IsLaidOut st)
    (counted : st.sector_cnt < size_mod) (over : fovrwrite st.area.geometry ≡ true) (h : Handle)
    (valid : store_valid h ≡ true) where
  abbrev Opened : World S → List (List ℕ) → Type 0
  Opened w log = IsOpen lib st view Inv laws medium laid counted over h valid w log

  -- A write of a message in one buffer, or an advance.
  abbrev pub IsProducing : Call S → Type 0
  IsProducing (writing (bytes ∷ [])) =
      IsMessage lib st view Inv laws medium laid counted over h valid bytes
  IsProducing advancing = Unit {0}
  IsProducing _ = ⊥

  -- What one such call does to the log.
  abbrev Does : Call S → List (List ℕ) → Rc × World S → Type 0
  Does c log m = ((m.0 ≡ ok) ⊎ (m.0 ≡ enospc)) × Opened m.1 (logged c m.0 log)

  whole-Does :
      (c : Call S) (w : World S) (log : List (List ℕ))
      → IsProducing c
      → Opened w log
      → Does c log (whole lib st h c w)
  unfolding storage_area_store_write
  whole-Does (writing (bytes ∷ [])) w log p o =
      elim (Bool-cases (leb (w.sd.loc + (length bytes + 8)) st.sector_size)) [
        | inl le ↦
            let (w', done, o') =
              Produce.writes lib st view Inv laws medium laid counted over h valid bytes w log p o
                (leb→le _ _ le) in
            let same : bytes ≡ flatten (bytes ∷ []) = unfold flatten in sym (append-nil bytes) in
            subst (Does (writing (bytes ∷ [])) log) (sym done)
              (inl refl, subst (λ b. Opened w' (log ++ b ∷ [])) same o')
        | inr gt ↦
            let full =
              Produce.refuses lib st view Inv laws medium laid counted over h valid bytes w log p o
                (leb_false→lt _ _ gt) in
            subst (Does (writing (bytes ∷ [])) log) (sym full) (inr refl, o)
      ]
  whole-Does (writing []) w log p o = elim p [ ]
  whole-Does (writing (b ∷ d ∷ iovec)) w log p o = elim p [ ]
  whole-Does (compacting cb) w log p o = elim p [ ]
  whole-Does advancing w log p o =
      let (w', done, o', at) =
        Produce.advances lib st view Inv laws medium laid counted over h valid w log o in
      subst (Does advancing log) (sym done) (inl refl, o')

  -- Each code that the calls return.
  abbrev pub EachCode : List (Call S × Rc) → Type 0
  EachCode [] = Unit {0}
  EachCode ((c, rc) ∷ past) = ((rc ≡ ok) ⊎ (rc ≡ enospc)) × EachCode past

  serial-Opened :
      (past : List (Call S × Rc)) (w₀ w : World S) (log : List (List ℕ))
      → EachCall IsProducing (calls_of past)
      → Opened w₀ log
      → serial lib st h (calls_of past) w₀ ≡ (codes_of past, w)
      → EachCode past × Opened w (log_after log past)
  serial-Opened [] w₀ w log p o e =
      (tt, subst (λ v. Opened v log) (ap (λ (m : List Rc × World S). m.1) e) o)
  serial-Opened ((c, rc) ∷ past) w₀ w log (p, ps) o e =
      let (v, before, done) = serial-last lib st h c (calls_of past) rc (codes_of past) w₀ w e in
      let (codes, o') = serial-Opened past w₀ v log ps o before in
      let (code, o'') =
        subst (Does c (log_after log past)) done (whole-Does c v (log_after log past) p o') in
      ((code, codes), o'')

  -- On a device that works and can be overwritten, and a store that lies in its area, whose sectors
  -- 32 bits count, that is mounted as a simple circular buffer and whose write sector holds a log,
  -- threads each make one call: to write a message in
  -- one buffer, or to advance. A message is data that is not empty, is shorter than 2^16 bytes and
  -- not shorter than `crc_skip`, of which the record, with its 8 bytes of header and checksum, fits
  -- a sector behind the cookie with room to spare, and whose record is not a whole number of write
  -- units, so that it never fills a sector to the last byte: with a write size of 1 there is none.
  -- However the steps of the threads are interleaved, each call that has taken effect returns 0 or
  -- -ENOSPC, and the write sector always holds what the history makes of the log, where a write
  -- that returns 0 puts its data at the end, one that returns -ENOSPC puts nothing, and an advance
  -- starts an empty log. The kernel's semaphores are as documented.
  pub threads-IsOpen :
      {K : Type 0} (kernel : Kernel K) (sems : IsKernel kernel) (w : World S) (k : K)
      (cs : List (Call S)) (y : System K S) (log : List (List ℕ))
      → EachCall IsProducing cs
      → IsOpen lib st view Inv laws medium laid counted over h valid w log
      → Reach kernel lib st h (started kernel sems lib st h w k cs) y
      → EachCode y.history
        × IsOpen lib st view Inv laws medium laid counted over h valid y.world
            (log_after log y.history)
  threads-IsOpen kernel sems w k cs y log p o r =
      let known =
        Reach-EachKnown IsProducing kernel lib st h (started kernel sems lib st h w k cs) y r
          (EachThread-waiting IsProducing cs p, tt) in
      let (one, results, turn) = threads-serial kernel sems lib st h w k cs y r in
      serial-Opened y.history w y.world log known.1 o turn
