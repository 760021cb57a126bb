-- ===== src/Timer/Firing.antt =====
-- What one pass of `kerchunk_timer_tick` of src/kerchunk_timer.c fires, where the callbacks leave the
-- table alone.
use mathlib.Core.List.{append_assoc, append-nil}
use kerchunk.Prelude.{
  ℕ, ◌+◌, ◌≡◌, refl, sym, ◌∙◌, ap, ◌%◌, ◌*◌, ◌^◌, Bool, true, false, not, ◌&&◌, ltb, if◌then◌else◌,
  Option, none, some, List, [], ◌∷◌, ◌++◌, map, length, get_elem?, set, arith, Bool-cases, inl, inr,
  length-append,
}
use kerchunk.Timer.{
  Entry, Timers, max_timers, rearm, is_due, call_back, tick_entry, tick_slot, tick_from, tick,
}

-- A world that records the callbacks.
abbrev pub Log : Type 0 → Type 0
Log C = Timers C × List C

module _ {C : Type 0} where
  abbrev pub log_timers : Log C → Timers C
  log_timers w = w.0

  abbrev pub log_put : Log C → Timers C → Log C
  log_put w t = (t, w.1)

  abbrev pub log_call : C → Log C → Log C
  log_call c w = (w.0, w.1 ++ (c ∷ []))

  -- What a pass should make of an entry, by whether its time has come and whether it repeats: it stays, or
  -- it is out, or it runs on, to fire next after its interval from now.
  abbrev pub passed : ℕ → Entry C → Bool → Bool → Entry C
  passed now x false repeats = x
  passed now x true false = record {
    active = false;
    id = x.id;
    interval_ms = x.interval_ms;
    repeat = false;
    next_fire_us = x.next_fire_us;
    callback = x.callback;
  }
  passed now x true true = record {
    active = true;
    id = x.id;
    interval_ms = x.interval_ms;
    repeat = true;
    next_fire_us = (now + x.interval_ms * 1000) % 2 ^ 64;
    callback = x.callback;
  }

  abbrev pub time_has_come : ℕ → Entry C → Bool
  time_has_come now x = x.active && not (ltb now x.next_fire_us)

  unfoldable pub fire : ℕ → Entry C → Entry C
  fire now x = passed now x (time_has_come now x) x.repeat

  abbrev call_all : Option C → List C
  call_all none = []
  call_all (some c) = c ∷ []

  -- The callbacks of an entry, and of all in the order of the slots.
  unfoldable pub calls_of : ℕ → Entry C → List C
  calls_of now x = if time_has_come now x then call_all x.callback else []

  unfoldable pub fired : ℕ → List (Entry C) → List C
  fired now [] = []
  fired now (x ∷ xs) = calls_of now x ++ fired now xs

  get_elem?-append :
      (pre : List (Entry C)) (x : Entry C) (post : List (Entry C))
      → get_elem? (pre ++ (x ∷ post)) (length pre) ≡ some x
  get_elem?-append [] x post = refl
  get_elem?-append (y ∷ pre) x post = get_elem?-append pre x post

  set-append :
      (pre : List (Entry C)) (x y : Entry C) (post : List (Entry C))
      → set (pre ++ (x ∷ post)) (length pre) y ≡ pre ++ (y ∷ post)
  set-append [] x y post = refl
  set-append (z ∷ pre) x y post = ap (λ l. z ∷ l) (set-append pre x y post)

  abbrev table : List (Entry C) → ℕ → Timers C
  table l id = record { slots = l; next_id = id }

  call_back_log :
      (o : Option C) (t : Timers C) (log : List C)
      → call_back log_timers log_put log_call o (t, log) ≡ (t, log ++ call_all o)
  call_back_log none t log = ap (λ l. (t, l)) (sym (append-nil log))
  call_back_log (some c) t log = refl

  due_lem : (now : ℕ) (x : Entry C) → is_due now x ≡ time_has_come now x
  due_lem now x = ground arith

  rearm-fire : (now : ℕ) (x : Entry C) → is_due now x ≡ true → rearm now x ≡ fire now x
  unfolding rearm fire
  rearm-fire now x due = ground arith

  fire_later : (now : ℕ) (x : Entry C) → is_due now x ≡ false → fire now x ≡ x
  unfolding fire
  fire_later now x later = ap (λ b. passed now x b x.repeat) (sym (due_lem now x) ∙ later)

  tick_entry_lem :
      (now id : ℕ) (pre : List (Entry C)) (x : Entry C) (post : List (Entry C)) (log : List C)
      → tick_entry log_timers log_put log_call now
          (length pre)
          (table (pre ++ (x ∷ post)) id, log)
          (some x)
        ≡ (table (pre ++ (fire now x ∷ post)) id, log ++ calls_of now x)
  unfolding tick_entry calls_of
  tick_entry_lem now id pre x post log = elim (Bool-cases (is_due now x)) [
    | inl due ↦
        let come : time_has_come now x ≡ true = sym (due_lem now x) ∙ due in
        rw (due, come)
          (call_back_log x.callback (table (set (pre ++ (x ∷ post)) (length pre) (rearm now x)) id)
              log
            ∙ ap (λ l. (table l id, log ++ call_all x.callback))
                (set-append pre x (rearm now x) post
                  ∙ ap (λ y. pre ++ (y ∷ post)) (rearm-fire now x due)))
    | inr later ↦
        let not_come : time_has_come now x ≡ false = sym (due_lem now x) ∙ later in
        rw (later, not_come)
          ((λ k.
            (table (pre ++ (sym (fire_later now x later) k ∷ post)) id, sym (append-nil log) k)))
  ]

  tick_slot_lem :
      (now id : ℕ) (pre : List (Entry C)) (x : Entry C) (post : List (Entry C)) (log : List C)
      → tick_slot log_timers log_put log_call now (length pre) (table (pre ++ (x ∷ post)) id, log)
        ≡ (table (pre ++ (fire now x ∷ post)) id, log ++ calls_of now x)
  unfolding tick_slot
  tick_slot_lem now id pre x post log =
      let w : Log C = (table (pre ++ (x ∷ post)) id, log) in
      ap (tick_entry log_timers log_put log_call now (length pre) w) (get_elem?-append pre x post)
      ∙ tick_entry_lem now id pre x post log

  -- The rounds from the end of `pre` on.
  tick_from_lem :
      (now id : ℕ) (pre post : List (Entry C)) (log : List C) (i : ℕ)
      → i ≡ length pre
      → tick_from log_timers log_put log_call now i (length post) (table (pre ++ post) id, log)
        ≡ (table (pre ++ map (fire now) post) id, log ++ fired now post)
  unfolding tick_from fired
  tick_from_lem now id pre [] log i e = ap (λ l. (table (pre ++ []) id, l)) (sym (append-nil log))
  tick_from_lem now id pre (x ∷ post) log i e =
      let next = pre ++ (fire now x ∷ []) in
      let rest = tick_from log_timers log_put log_call now (i + 1) (length post) in
      let far : i + 1 ≡ length next = omega (arith, length-append pre (fire now x ∷ [])) in
      ap rest (
        ap (λ k. tick_slot log_timers log_put log_call now k (table (pre ++ (x ∷ post)) id, log)) e
        ∙ tick_slot_lem now id pre x post log)
      ∙ ap (λ l. rest (table l id, log ++ calls_of now x))
          (sym (append_assoc pre (fire now x ∷ []) post))
      ∙ tick_from_lem now id next post (log ++ calls_of now x) (i + 1) far
      ∙ (λ k. (
        table (append_assoc pre (fire now x ∷ []) (map (fire now) post) k) id,
        append_assoc log (calls_of now x) (fired now post) k,
      ))

  -- Where the callbacks leave the table alone, one pass over a full table calls the timers that are active
  -- and whose time has come, each once, in the order of the slots, and no other; of these the repeating ones
  -- run on, to fire next after their interval from now, and the others are out; no other entry changes.
  pub tick_lem :
      (now : ℕ) (t : Timers C) (log : List C)
      → length t.slots ≡ max_timers
      → tick log_timers log_put log_call now (t, log)
        ≡ (record t { slots = map (fire now) t.slots }, log ++ fired now t.slots)
  unfolding tick
  tick_lem now t log h =
      ap (λ n. tick_from log_timers log_put log_call now 0 n (t, log)) (sym h)
      ∙ tick_from_lem now t.next_id [] t.slots log 0 refl
