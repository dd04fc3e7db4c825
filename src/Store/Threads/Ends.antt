-- ===== src/Store/Threads/Ends.antt =====
-- The work of a call that changes a mounted store ends, whatever the driver of the area returns.
use zephyr_goodies.Base.{
  ◌+◌, ◌≤◌, ◌<◌, ◌≡◌, ◌≢◌, ◌⊎◌, refl, sym, ◌∙◌, inl, inr, Option, none, some, List, [], ◌∷◌, arith,
}
use zephyr_goodies.Errno.{Rc, ok, enospc, enotsup, out_of_fuel}
use zephyr_goodies.Size.{size_mod}
use zephyr_goodies.Area.{iovec_size, lengths}
use zephyr_goodies.Store.{Platform, Store, World, Advancer, null, simple, full, Handle}
use zephyr_goodies.Store.Layout.{IsLaidOut, IsPosition}
use zephyr_goodies.Store.Write.Ends.{store_writev_ends}
use zephyr_goodies.Store.Advance.Ends.{IsReturning, HasEnded, advance_simple_ends}
use zephyr_goodies.Store.Compact.{Move, advance_full}
use zephyr_goodies.Store.Calls.{call_advance}
use zephyr_goodies.Store.Threads.{Call, writing, advancing, compacting, whole, before, inside}
use zephyr_goodies.Store.Threads.Mode.{inside-SameMode}
use zephyr_goodies.Store.Threads.Serial.{serial, whole-refused, whole-inside}
use zephyr_goodies.Store.Threads.Known.{EachCall}

Option-cases {ℓ} : {A : Type ℓ} (o : Option A) → (o ≡ none) ⊎ ((a : A) × (o ≡ some a))
Option-cases none = inl refl
Option-cases (some a) = inr (a, refl)

-- No loop of the calls with these codes ran out of rounds.
abbrev pub AllEnded : List Rc → Type 0
AllEnded [] = Unit {0}
AllEnded (rc ∷ codes) = (rc ≢ out_of_fuel) × AllEnded codes

own_code : (rc : Rc) → (rc ≡ ok) ⊎ ((rc ≡ enospc) ⊎ (rc ≡ enotsup)) → rc ≢ out_of_fuel
own_code rc c e = ground arith

module _ {S : Type 0} (lib : Platform) (st : Store S) (h : Handle) (laid : IsLaidOut st)
    (drives : IsReturning st) (counted : st.sector_cnt < size_mod) (mode : Advancer) where
  -- A write of a record that is not longer than a sector, an advance, or a compaction of a store
  -- that is not mounted for it.
  abbrev pub IsBounded : Call S → Type 0
  IsBounded (writing iovec) = iovec_size (lengths iovec) + 8 ≤ st.sector_size
  IsBounded advancing = Unit {0}
  IsBounded (compacting cb) = mode ≢ full

  -- The store is mounted in this way, with a write position in its sector.
  abbrev pub IsStanding : World S → Type 0
  IsStanding w = (w.sd.advance ≡ mode) × IsPosition st w.sd

  call_advance_ends :
      (a : Advancer) (cb : Move S) (w : World S)
      → (a ≡ full → cb ≡ none)
      → IsPosition st w.sd
      → HasEnded st laid drives (call_advance lib st a cb w)
  unfolding call_advance advance_full
  call_advance_ends null cb w f p = (λ e. cc, p)
  call_advance_ends simple cb w f p = advance_simple_ends st laid drives w counted p
  call_advance_ends full none w f p = advance_simple_ends st laid drives w counted p
  call_advance_ends full (some move) w f p = let e = f refl in absurd cc

  inside_ends :
      (c : Call S) (w : World S)
      → IsBounded c
      → IsStanding w
      → HasEnded st laid drives (inside lib st h c w)
  unfolding inside
  inside_ends (writing iovec) w b s =
      let e = store_writev_ends lib st laid iovec w s.1 b in (own_code _ e.code, e.position)
  inside_ends advancing w b s = call_advance_ends w.sd.advance none w (λ e. refl) s.1
  inside_ends (compacting cb) w b s =
      call_advance_ends w.sd.advance cb w (λ e. absurd (b (sym s.0 ∙ e))) s.1

  refused_code :
      (c : Call S) (w : World S) (rc : Rc) → before lib st h c w ≡ some rc → rc ≢ out_of_fuel
  unfolding before
  refused_code (writing iovec) w rc e k = ground arith
  refused_code advancing w rc e k = ground arith
  refused_code (compacting cb) w rc e k = ground arith

  whole_ends :
      (c : Call S) (w : World S)
      → IsBounded c
      → IsStanding w
      → ((whole lib st h c w).0 ≢ out_of_fuel) × IsStanding (whole lib st h c w).1
  whole_ends c w b s = elim (Option-cases (before lib st h c w)) [
    | inr p ↦ rw (whole-refused lib st h c w p.0 p.1) (refused_code c w p.0 p.1, s)
    | inl on ↦
        let ends = inside_ends c w b s in
        let m = inside-SameMode lib st h c w in
        rw (whole-inside lib st h c w on) (ends.0, (m.advance ∙ s.0, ends.1))
  ]

  -- Bounded calls in turn.
  pub serial_ends :
      (cs : List (Call S)) (w : World S)
      → EachCall IsBounded cs
      → IsStanding w
      → AllEnded (serial lib st h cs w).0 × IsStanding (serial lib st h cs w).1
  serial_ends [] w b s = (tt, s)
  serial_ends (c ∷ cs) w b s =
      let before = serial_ends cs w b.1 s in
      let last = whole_ends c (serial lib st h cs w).1 b.0 before.1 in ((last.0, before.0), last.1)
