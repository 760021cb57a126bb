-- ===== src/Timer/Laws.antt =====
-- The timer table of src/kerchunk_timer.c as a map from the ids of running timers to their entries.
use mathlib.Core.Path.{subst}
use kerchunk.Prelude.{
  ℕ, zero, suc, ◌+◌, ◌<◌, ◌≡◌, ◌≢◌, refl, sym, ◌∙◌, ap, ◌⊎◌, Bool, true, false, ◌&&◌, pos, negsuc,
  ◌==◌, if◌then◌else◌, Option, none, some, List, [], ◌∷◌, length, replicate, arith, Bool-cases, inl,
  inr,
}
use kerchunk.Timer.{
  Entry, Timers, max_timers, cleared, init, fill_slot, new_entry, create_at, create, cancel_slot,
  cancel,
}

module _ {C : Type 0} where
  -- The entry of a running timer.
  unfoldable pub find_active : ℕ → List (Entry C) → Option (Entry C)
  find_active id [] = none
  find_active id (x ∷ xs) = if x.active && x.id == id then some x else find_active id xs

  -- Every running timer's id was given out, and no two have the same.
  abbrev pub Below : ℕ → List (Entry C) → Type 0
  Below n [] = Unit {0}
  Below n (x ∷ xs) = (x.active ≡ true → x.id < n) × Below n xs

  abbrev pub Absent : ℕ → List (Entry C) → Type 0
  Absent id [] = Unit {0}
  Absent id (x ∷ xs) = (x.active ≡ true → x.id ≢ id) × Absent id xs

  abbrev pub Distinct : List (Entry C) → Type 0
  Distinct [] = Unit {0}
  Distinct (x ∷ xs) = (x.active ≡ true → Absent x.id xs) × Distinct xs

  pub record IsValid (t : Timers C) : Type 0 where
    pub size : length t.slots ≡ max_timers
    pub old_ids : Below t.next_id t.slots
    pub distinct : Distinct t.slots

  find_active-Absent : (id : ℕ) (l : List (Entry C)) → Absent id l → find_active id l ≡ none
  unfolding find_active
  find_active-Absent id [] a = refl
  find_active-Absent id (x ∷ xs) a = ground (arith, find_active-Absent id xs a.1)

  Below-Absent : (n : ℕ) (l : List (Entry C)) → Below n l → Absent n l
  Below-Absent n [] b = tt
  Below-Absent n (x ∷ xs) b = (λ h e. omega (arith, b.0 h), Below-Absent n xs b.1)

  Below-suc : (n : ℕ) (l : List (Entry C)) → Below n l → Below (n + 1) l
  Below-suc n [] b = tt
  Below-suc n (x ∷ xs) b = (λ h. omega (arith, b.0 h), Below-suc n xs b.1)

  -- A cancelled timer is gone, and no other is touched.
  find_active-cancel_slot :
      (i j : ℕ) (l : List (Entry C))
      → Distinct l
      → find_active j (cancel_slot i l) ≡ (if i == j then none else find_active j l)
  unfolding find_active cancel_slot
  find_active-cancel_slot i j [] d = ground arith
  find_active-cancel_slot i j (x ∷ xs) d =
      ground (arith, find_active-cancel_slot i j xs d.1, find_active-Absent j xs)

  -- The first entry that does not run is replaced.
  data Filled (e : Entry C) : List (Entry C) → List (Entry C) → Type 0 where
    here : {x : Entry C} {xs : List (Entry C)} → x.active ≡ false → Filled e (x ∷ xs) (e ∷ xs)
    there :
        {x : Entry C} {xs ys : List (Entry C)}
        → x.active ≡ true
        → Filled e xs ys
        → Filled e (x ∷ xs) (x ∷ ys)

  abbrev pub AllActive : List (Entry C) → Type 0
  AllActive [] = Unit {0}
  AllActive (x ∷ xs) = (x.active ≡ true) × AllActive xs

  fill_slot-Filled :
      (e : Entry C) (l : List (Entry C))
      → ((fill_slot e l ≡ none) × AllActive l)
        ⊎ ((l' : List (Entry C)) × (fill_slot e l ≡ some l') × Filled e l l')
  unfolding fill_slot
  fill_slot-Filled e [] = inl (refl, tt)
  fill_slot-Filled e (x ∷ xs) = elim (Bool-cases x.active) [
    | inr off ↦ inr (e ∷ xs, ground arith, here off)
    | inl on ↦ elim (fill_slot-Filled e xs) [
      | inl (full, all) ↦ inl (ground arith, (on, all))
      | inr (l', ok, f) ↦ inr (x ∷ l', ground arith, there on f)
    ]
  ]

  find_active-Filled :
      (e : Entry C) (j : ℕ) {l l' : List (Entry C)}
      → Filled e l l'
      → e.active ≡ true
      → Absent e.id l
      → find_active j l' ≡ (if e.id == j then some e else find_active j l)
  unfolding find_active
  find_active-Filled e j (here off) a f = ground arith
  find_active-Filled e j (there on r) a f = ground (arith, find_active-Filled e j r a f.1)

  Absent-Filled :
      (e : Entry C) (id : ℕ) {l l' : List (Entry C)}
      → Filled e l l'
      → e.id ≢ id
      → Absent id l
      → Absent id l'
  Absent-Filled e id (here off) n a = ((λ _. n), a.1)
  Absent-Filled e id (there on r) n a = (a.0, Absent-Filled e id r n a.1)

  Distinct-Filled :
      (e : Entry C) {l l' : List (Entry C)}
      → Filled e l l'
      → Absent e.id l
      → Distinct l
      → Distinct l'
  Distinct-Filled e (here off) a d = ((λ _. a.1), d.1)
  Distinct-Filled e (there on r) a d =
      ((λ h. Absent-Filled e _ r (λ q. a.0 on (sym q)) (d.0 h)), Distinct-Filled e r a.1 d.1)

  Below-Filled :
      (e : Entry C) (n : ℕ) {l l' : List (Entry C)}
      → Filled e l l'
      → e.id ≡ n
      → Below n l
      → Below (n + 1) l' × (length l' ≡ length l)
  Below-Filled e n (here off) h b = ((λ _. omega arith, Below-suc n _ b.1), refl)
  Below-Filled e n (there on r) h b =
      let (c, m) = Below-Filled e n r h b.1 in ((λ k. omega (arith, b.0 k), c), ap suc m)

  -- Creating a timer either starts it under a new id, beside all that run, or finds all slots
  -- running and changes nothing; it fails in no other case.
  pub create_lem :
      (ms : ℕ) (repeat : Bool) (cb : C) (now : ℕ) (t : Timers C)
      → 0 < ms
      → IsValid t
      → let (t', id) = create (pos ms) repeat (some cb) now t in
        ((id ≡ negsuc 0) × (t' ≡ t) × AllActive t.slots)
        ⊎ ((id ≡ pos t.next_id)
            × IsValid t'
            × ((j : ℕ)
                → find_active j t'.slots ≡ (
                    if t.next_id == j
                    then some (new_entry t.next_id ms repeat cb now)
                    else find_active j t.slots)))
  unfolding create create_at
  create_lem ms repeat cb now t p v =
      let e = new_entry t.next_id ms repeat cb now in
      let fresh = Below-Absent t.next_id t.slots v.old_ids in
      elim (fill_slot-Filled e t.slots) [
        | inl (full, all) ↦ inl (ground arith, ground arith, all)
        | inr (l, ok, f) ↦
            let (b, n) = Below-Filled e t.next_id f refl v.old_ids in
            let w : IsValid (record { slots = l; next_id = t.next_id + 1 }) = record {
              size = n ∙ v.size;
              old_ids = b;
              distinct = Distinct-Filled e f fresh v.distinct;
            } in
            let r : create_at ms repeat cb now t
                ≡ (record { slots = l; next_id = t.next_id + 1 }, pos t.next_id) =
              ground arith in
            let q : create (pos ms) repeat (some cb) now t ≡ create_at ms repeat cb now t =
              ground arith in
            inr (
              ap (λ z. z.1) (q ∙ r),
              subst IsValid (sym (ap (λ z. z.0) (q ∙ r))) w,
              λ j.
                  ap (λ z. find_active j (z.0).slots) (q ∙ r) ∙ find_active-Filled e j f refl fresh,
            )
      ]

  cancel_slot-Absent : (i j : ℕ) (l : List (Entry C)) → Absent j l → Absent j (cancel_slot i l)
  unfolding cancel_slot
  cancel_slot-Absent i j [] a = tt
  cancel_slot-Absent i j (x ∷ xs) a = ground (arith, cancel_slot-Absent i j xs a.1)

  cancel_slot-Distinct :
      (i n : ℕ) (l : List (Entry C))
      → Distinct l
      → Below n l
      → Distinct (cancel_slot i l)
        × Below n (cancel_slot i l)
        × (length (cancel_slot i l) ≡ length l)
  unfolding cancel_slot
  cancel_slot-Distinct i n [] d b = (tt, tt, refl)
  cancel_slot-Distinct i n (x ∷ xs) d b =
      ground (arith, cancel_slot-Distinct i n xs d.1 b.1, cancel_slot-Absent i x.id xs)

  -- Cancelling a timer stops it and no other, whether it runs or not.
  pub cancel_lem :
      (i : ℕ) (t : Timers C)
      → IsValid t
      → IsValid (cancel (pos i) t)
        × ((j : ℕ)
            → find_active j (cancel (pos i) t).slots
              ≡ (if i == j then none else find_active j t.slots))
  unfolding cancel
  cancel_lem i t v =
      let (d, b, n) = cancel_slot-Distinct i t.next_id t.slots v.distinct v.old_ids in
      (
        record { size = n ∙ v.size; old_ids = b; distinct = d },
        λ j. find_active-cancel_slot i j t.slots v.distinct,
      )

  length-replicate : (n : ℕ) (x : Entry C) → length (replicate n x) ≡ n
  length-replicate zero x = refl
  length-replicate (suc n) x = ap suc (length-replicate n x)

  Below-replicate : (k n : ℕ) (x : Entry C) → x.active ≡ false → Below k (replicate n x)
  Below-replicate k zero x e = tt
  Below-replicate k (suc n) x e = (λ h. ground arith, Below-replicate k n x e)

  Absent-replicate : (id n : ℕ) (x : Entry C) → x.active ≡ false → Absent id (replicate n x)
  Absent-replicate id zero x e = tt
  Absent-replicate id (suc n) x e = (λ h. ground arith, Absent-replicate id n x e)

  Distinct-replicate : (n : ℕ) (x : Entry C) → x.active ≡ false → Distinct (replicate n x)
  Distinct-replicate zero x e = tt
  Distinct-replicate (suc n) x e = (λ h. Absent-replicate x.id n x e, Distinct-replicate n x e)

  -- The table that `kerchunk_timer_init` leaves.
  pub init-IsValid : IsValid init
  unfolding init
  init-IsValid = record {
    size = length-replicate max_timers cleared;
    old_ids = Below-replicate 1 max_timers cleared refl;
    distinct = Distinct-replicate max_timers cleared refl;
  }
