-- ===== src/Settings/Search.antt =====
-- The loops of the settings backend, as passes over the list of the records that a walk finds. Each
-- is nearer to the write position than the one before.
use native.Mathlib.Nat.{mul-le-mul_right}
use zephyr_goodies.Base.{
  ℕ, zero, suc, ◌+◌, ◌-◌, ◌*◌, ◌<◌, ◌≡◌, ◌≢◌, refl, subst, ap, inl, inr, Bool, true, false, ◌&&◌,
  ◌||◌, not, Option, some, List, [], ◌∷◌, ◌==◌, length, if◌then◌else◌, Bool-cases, arith,
}
use zephyr_goodies.Errno.{Rc, ok, enoent, einval, is_ok}
use zephyr_goodies.Size.{size_mod, size_sub}
use zephyr_goodies.Medium.{area_size}
use zephyr_goodies.Store.{Platform, Store, World, Record, Handle, store_valid}
use zephyr_goodies.Store.Layout.{IsLaidOut}
use zephyr_goodies.Store.Walk.Ends.{IsRoomy}
use zephyr_goodies.Store.Read.{
  next_sectors, first_record, storage_area_record_next, storage_area_record_valid,
}
use zephyr_goodies.Store.Read.Ends.{
  IsOnWay, IsNext, distance, origin, storage_area_record_next_ends,
}
use zephyr_goodies.Settings.{
  Handler, same_bytes, sas_get_name_size, sas_get_name, all_records, newer, load_loop,
  settings_sas_read_fn, settings_sas_skip, first_kept,
}

-- A pair below another in the order of its first part, then of its second.
lex_first : (k a b x y : ℕ) → a < b → x < k → a * k + x < b * k + y
lex_first k a b x y h l = omega (arith, mul-le-mul_right k h)

distance-bound :
    (cnt target sector : ℕ) → target < cnt → sector < cnt → distance cnt target sector < cnt
distance-bound cnt target sector t s = ground arith

positive : {n : ℕ} → 0 < n → n ≢ 0
positive h e = omega (arith, e)

clash : is_ok einval ≡ true → ⊥
clash e = cc

not_ok : (rc : Rc) → rc ≡ enoent → is_ok rc ≡ true → ⊥
not_ok rc e h = ground arith

module _ {S : Type 0} (lib : Platform) (st : Store S) (roomy : IsRoomy lib st) (laid : IsLaidOut st)
    (counted : st.sector_cnt < size_mod) (w : World S) (exists : w.sd.sector < st.sector_cnt)
    (h : Handle) where
  -- A record that no walk has come to, or one that a walk has found.
  abbrev pub IsWalked : Record → Type 0
  IsWalked r = r.bound ≡ true → IsOnWay lib st r × (0 < r.size)

  abbrev width : ℕ
  width = suc (suc (area_size st.area.geometry))

  -- How far a found record is from the write position.
  abbrev far : Record → ℕ
  far r =
      distance st.sector_cnt w.sd.sector r.sector * width
      + (suc (area_size st.area.geometry) - r.loc)

  -- More than the rounds that a loop has to go from a record.
  abbrev pub left : Record → ℕ
  left r = if r.bound then far r else st.sector_cnt * width

  far-bound : (r : Record) → IsOnWay lib st r → far r < st.sector_cnt * width
  far-bound r o =
      let d : distance st.sector_cnt w.sd.sector r.sector < st.sector_cnt =
        distance-bound st.sector_cnt w.sd.sector r.sector exists o.exists in
      omega (
        arith,
        lex_first width (distance st.sector_cnt w.sd.sector r.sector) st.sector_cnt
            (suc (area_size st.area.geometry) - r.loc) 0 d (omega arith),
      )

  refused :
      (r : Record)
      → store_valid h ≡ false
      → is_ok (storage_area_record_next lib st h r w).0 ≡ true
      → ⊥
  unfolding storage_area_record_next
  refused r invalid e = clash (
      subst
        (λ b.
          is_ok
            (if not b
              then (einval, r)
              else next_sectors lib st (suc st.sector_cnt)
                  (if not r.bound then first_record lib st w else r) w).0
          ≡ true)
        invalid e)

  far-drops :
      (r : Record) (out : Rc × Record)
      → (r.size ≢ 0)
      → IsNext lib st w.sd.sector r out
      → far out.1 < far r
  far-drops r out filled n = elim n.nearer [
    | inl near ↦
        lex_first width (distance st.sector_cnt w.sd.sector out.1.sector)
          (distance st.sector_cnt w.sd.sector r.sector)
          (suc (area_size st.area.geometry) - out.1.loc) (suc (area_size st.area.geometry) - r.loc)
          near (omega arith)
    | inr same ↦ omega (
      arith,
      ap (λ k. distance st.sector_cnt w.sd.sector k * width) (same.0),
      same.2 filled,
      n.inside,
    )
  ]

  left-far : (r : Record) → r.bound ≡ true → left r ≡ far r
  left-far r b = ap (λ k. if k then far r else st.sector_cnt * width) b

  drops :
      (r : Record) (out : Rc × Record)
      → IsWalked r
      → out.1.bound ≡ true
      → IsNext lib st w.sd.sector (origin lib st roomy laid counted w exists r) out
      → left out.1 < left r
  drops r out walked bound n = elim (Bool-cases r.bound) [
    | inl b ↦
        let at_r : origin lib st roomy laid counted w exists r ≡ r =
          ap (λ k. if not k then first_record lib st w else r) b in
        let d =
          far-drops r out (positive (walked b).1)
            (subst (λ k. IsNext lib st w.sd.sector k out) at_r n) in
        omega (arith, left-far out.1 bound, left-far r b, d)
    | inr b ↦
        let all : left r ≡ st.sector_cnt * width =
          ap (λ k. if k then far r else st.sector_cnt * width) b in
        omega (arith, left-far out.1 bound, all, far-bound out.1 n.on_way)
  ]

  next-left :
      (r : Record)
      → IsWalked r
      → is_ok (storage_area_record_next lib st h r w).0 ≡ true
      → let found = (storage_area_record_next lib st h r w).1 in
        IsWalked found × (left found < left r)
  next-left r walked e = elim (Bool-cases (store_valid h)) [
    | inr invalid ↦ elim (refused r invalid e) [ ]
    | inl valid ↦
        elim (storage_area_record_next_ends lib st roomy laid counted w exists h r valid
          (λ b. (walked b).0)) [
            | inr none_left ↦
                elim (not_ok (storage_area_record_next lib st h r w).0 none_left e) [ ]
            | inl found ↦ (
              λ b. (found.0.on_way, found.0.filled),
              drops r (storage_area_record_next lib st h r w) walked found.1 found.0,
            )
          ]
  ]

  -- The records that a walk from `r` finds, and what it ends with.
  abbrev pub IsPass : Record → List Record → Record → Type 0
  IsPass r [] last =
      (is_ok (storage_area_record_next lib st h r w).0 ≡ false)
      × ((storage_area_record_next lib st h r w).1 ≡ last)
  IsPass r (x ∷ xs) last =
      (is_ok (storage_area_record_next lib st h r w).0 ≡ true)
      × ((storage_area_record_next lib st h r w).1 ≡ x)
      × IsPass x xs last

  pass :
      (f : ℕ) (r : Record)
      → IsWalked r
      → left r < f
      → (xs : List Record) × (last : Record) × IsPass r xs last × (length xs < f)
  pass zero r walked l = elim l [ ]
  pass (suc f) r walked l =
      let out = storage_area_record_next lib st h r w in
      elim (Bool-cases (is_ok out.0)) [
        | inr ends ↦ ([], out.1, (ends, refl), omega arith)
        | inl goes ↦
            let n = next-left r walked goes in
            let (xs, last, p, short) = pass f out.1 (n.0) (omega (arith, n.1)) in
            (out.1 ∷ xs, last, (goes, refl, p), omega (arith, short))
      ]

  -- A valid record under this name.
  abbrev pub holds_name : List ℕ → Record → Bool
  holds_name name x =
      (sas_get_name_size lib st h w x == length name)
      && is_ok (sas_get_name lib st h w x (length name)).0
      && same_bytes name (sas_get_name lib st h w x (length name)).1
      && storage_area_record_valid lib st h x w

  abbrev pub some_holds : List ℕ → List Record → Bool
  some_holds name [] = false
  some_holds name (x ∷ xs) = holds_name name x || some_holds name xs

  -- The records that are not skipped.
  abbrev pub shown : Option (List ℕ) → List Record → List Record
  shown subtree [] = []
  shown subtree (x ∷ xs) =
      if settings_sas_skip lib st h w x subtree then shown subtree xs else x ∷ shown subtree xs

  abbrev pub head_or : Record → List Record → Record
  head_or last [] = last
  head_or last (x ∷ xs) = x

  -- The settings that the handler gets, until it fails or a name cannot be read. A deleted setting
  -- is passed over.
  abbrev pub hand_over : {H : Type 0} → Handler H → List Record → Rc → H → Rc × H
  hand_over handler [] rc app = (rc, app)
  hand_over handler (x ∷ xs) rc app =
      let nsz = sas_get_name_size lib st h w x in
      let (rc_name, name) = sas_get_name lib st h w x nsz in
      let dsize = size_sub x.size (nsz + 1) in
      let (rc_set, app') = handler name dsize (settings_sas_read_fn lib st h w x (nsz + 1)) app in
      let deleted = hand_over handler xs rc_name app in
      let loaded = hand_over handler xs rc_set app' in
      if not (is_ok rc_name)
      then (rc_name, app)
      else if dsize == 0
      then deleted
      else if is_ok rc_set
      then loaded
      else (rc_set, app')

  newer_lem :
      (xs : List Record) (f : ℕ) (name : List ℕ) (r last : Record)
      → IsPass r xs last
      → length xs < f
      → newer lib st h f w name r ≡ some_holds name xs
  unfolding newer
  newer_lem xs zero name r last p l = elim l [ ]
  newer_lem [] (suc f) name r last p l = rw (p.0) refl
  newer_lem (x ∷ xs) (suc f) name r last (goes, at, p) l =
      let rest = newer_lem xs f name x last p (omega (arith, l)) in
      rw (goes, at, rest) (ground arith)

  first_kept_lem :
      (xs : List Record) (f : ℕ) (name : List ℕ) (r last : Record)
      → IsPass r xs last
      → length xs < f
      → first_kept lib st h f w name r ≡ head_or last (shown (some name) xs)
  unfolding first_kept
  first_kept_lem xs zero name r last p l = elim l [ ]
  first_kept_lem [] (suc f) name r last p l = rw (p.0, p.1) refl
  first_kept_lem (x ∷ xs) (suc f) name r last (goes, at, p) l =
      let rest = first_kept_lem xs f name x last p (omega (arith, l)) in
      rw (goes, at, rest)
        (elim (Bool-cases (settings_sas_skip lib st h w x (some name))) [
          | inl skipped ↦ rw skipped refl
          | inr kept ↦ rw kept refl
        ])

  load_loop_lem :
      {H : Type 0} (handler : Handler H) (xs : List Record) (f : ℕ) (subtree : Option (List ℕ))
      (r last : Record) (rc : Rc) (app : H)
      → IsPass r xs last
      → length xs < f
      → load_loop lib st h handler f w subtree r rc app
        ≡ hand_over handler (shown subtree xs) rc app
  unfolding load_loop
  load_loop_lem handler xs zero subtree r last rc app p l = elim l [ ]
  load_loop_lem handler [] (suc f) subtree r last rc app p l = rw (p.0) refl
  load_loop_lem {H = H} handler (x ∷ xs) (suc f) subtree r last rc app (goes, at, p) l =
      let nsz = sas_get_name_size lib st h w x in
      let (rc_name, name) = sas_get_name lib st h w x nsz in
      let (rc_set, app') =
        handler name (size_sub x.size (nsz + 1)) (settings_sas_read_fn lib st h w x (nsz + 1))
          app in
      let same : (c : Rc) (a : H)
          → load_loop lib st h handler f w subtree x c a
            ≡ hand_over handler (shown subtree xs) c a =
        λ c a. load_loop_lem handler xs f subtree x last c a p (omega (arith, l)) in
      rw (goes, at, same rc app, same rc_name app, same rc_set app')
        (elim (Bool-cases (settings_sas_skip lib st h w x subtree)) [
          | inl skipped ↦ rw skipped refl
          | inr kept ↦ rw kept refl
        ])

  left-bound : (r : Record) → IsWalked r → left r < all_records lib st h
  left-bound r walked = elim (Bool-cases r.bound) [
    | inl b ↦ omega (arith, left-far r b, far-bound r (walked b).0)
    | inr b ↦
        let all : left r ≡ st.sector_cnt * width =
          ap (λ k. if k then far r else st.sector_cnt * width) b in
        omega (arith, all)
  ]

  -- In a store that lies in its area, whose sectors 32 bits count, in an area far enough below 4 GiB
  -- that no position wraps, with a write sector of the store, whatever the driver returns and the bytes are, from a record
  -- that no walk has come to, or one that names a sector of the store and a place at most a write
  -- unit behind the end of the area, with a size above 0 and below 2^16: the calls of `storage_area_record_next`, each on the record that the one before has found, come to
  -- one that fails, and the loops make a pass over the records up to there, which runs out of no
  -- rounds. The loop of `settings_sas_skip` says whether one of them is a valid record of the name.
  -- The first loop of `settings_sas_duplicate` gives the first of them that is not skipped, or else
  -- what the last call left. The loop of `settings_sas_load` hands those that are not skipped to
  -- the handler, in their order, deleted settings left out, until a name cannot be read or the
  -- handler fails, and returns the code of the last name or handler.
  pub settings_sas_loops_end :
      {H : Type 0} (handler : Handler H) (name : List ℕ) (subtree : Option (List ℕ)) (r : Record)
      (app : H)
      → IsWalked r
      → let rounds = all_records lib st h in
        (xs : List Record) × (last : Record) × IsPass r xs last
        × (newer lib st h rounds w name r ≡ some_holds name xs)
        × (first_kept lib st h rounds w name r ≡ head_or last (shown (some name) xs))
        × (load_loop lib st h handler rounds w subtree r ok app
            ≡ hand_over handler (shown subtree xs) ok app)
  settings_sas_loops_end handler name subtree r app walked =
      let rounds = all_records lib st h in
      let (xs, last, p, short) = pass rounds r walked (left-bound r walked) in
      (
        xs,
        last,
        p,
        newer_lem xs rounds name r last p short,
        first_kept_lem xs rounds name r last p short,
        load_loop_lem handler xs rounds subtree r last ok app p short,
      )
