-- ===== src/Timer.antt =====
-- src/kerchunk_timer.c: the fixed table of module timers on the monotonic clock. The clock is an
-- argument, and a callback with its user data is a value of a type `C`.
pub mod Laws
pub mod Firing
use kerchunk.Prelude.{
  ℕ, zero, suc, ◌+◌, ◌-◌, ◌*◌, ◌%◌, ◌^◌, Bool, true, false, not, ◌&&◌, ◌||◌, ℤ, pos, negsuc,
  pos_part, is_pos, ltb, leb, ◌==◌, if◌then◌else◌, Option, none, some, List, [], ◌∷◌, length,
  get_elem?, set, replicate,
}

-- `id >= 0`, as the modules ask of the id of a timer that they may have made
unfoldable pub timer_runs : ℤ → Bool
timer_runs (pos n) = true
timer_runs (negsuc n) = false

-- `timer_entry_t`; a cleared entry has no callback.
pub record Entry (C : Type 0) : Type 0 where
  pub active : Bool
  pub id : ℕ
  pub interval_ms : ℕ
  pub repeat : Bool
  pub next_fire_us : ℕ
  pub callback : Option C

-- `g_timers` and `g_next_id`
pub record Timers (C : Type 0) : Type 0 where
  pub slots : List (Entry C)
  pub next_id : ℕ

-- `MAX_TIMERS`
abbrev pub max_timers : ℕ
max_timers = 128

-- `uint64_t`
abbrev pub u64 : ℕ → ℕ
u64 n = n % 2 ^ 64

abbrev pub cleared : {C : Type 0} → Entry C
cleared = record {
  active = false;
  id = 0;
  interval_ms = 0;
  repeat = false;
  next_fire_us = 0;
  callback = none;
}

module _ {C : Type 0} where
  -- `kerchunk_timer_init`
  unfoldable pub init : Timers C
  init = record { slots = replicate max_timers cleared; next_id = 1 }

  -- `kerchunk_timer_shutdown`
  unfoldable pub shutdown : Timers C → Timers C
  shutdown t = record t { slots = replicate max_timers cleared }

  -- The search for a free slot: the table with the entry in the first one, or `none`.
  unfoldable pub fill_slot : Entry C → List (Entry C) → Option (List (Entry C))
  fill_slot e [] = none
  fill_slot e (x ∷ xs) =
      let rest = fill_slot e xs in
      if x.active then (elim rest [ none ↦ none | some l ↦ some (x ∷ l) ]) else some (e ∷ xs)

  -- The entry that `kerchunk_timer_create` writes.
  abbrev pub new_entry : ℕ → ℕ → Bool → C → ℕ → Entry C
  new_entry id ms repeat cb now = record {
    active = true;
    id = id;
    interval_ms = ms;
    repeat = repeat;
    next_fire_us = u64 (now + ms * 1000);
    callback = some cb;
  }

  -- `kerchunk_timer_create` at a positive interval: the id, or -1 where no slot is free.
  unfoldable pub create_at : ℕ → Bool → C → ℕ → Timers C → Timers C × ℤ
  create_at ms repeat cb now t = elim (fill_slot (new_entry t.next_id ms repeat cb now) t.slots) [
    | none ↦ (t, negsuc 0)
    | some l ↦ (record { slots = l; next_id = t.next_id + 1 }, pos t.next_id)
  ]

  -- `kerchunk_timer_create`
  unfoldable pub create : ℤ → Bool → Option C → ℕ → Timers C → Timers C × ℤ
  create ms repeat none now t = (t, negsuc 0)
  create ms repeat (some cb) now t =
      if is_pos ms then create_at (pos_part ms) repeat cb now t else (t, negsuc 0)

  -- The loop of `kerchunk_timer_cancel`: the first active entry of the id goes out.
  unfoldable pub cancel_slot : ℕ → List (Entry C) → List (Entry C)
  cancel_slot id [] = []
  cancel_slot id (x ∷ xs) =
      if x.active && x.id == id then record x { active = false } ∷ xs else x ∷ cancel_slot id xs

  -- `kerchunk_timer_cancel`; no entry has a negative id.
  unfoldable pub cancel : ℤ → Timers C → Timers C
  unfolding cancel_slot
  cancel (pos id) t = record t { slots = cancel_slot id t.slots }
  cancel (negsuc n) t = t

  -- An entry after its time: armed again if it repeats, and out if not.
  unfoldable pub rearm : ℕ → Entry C → Entry C
  rearm now x =
      if x.repeat
      then record x { next_fire_us = u64 (now + x.interval_ms * 1000) }
      else record x { active = false }

  -- Whether the loop of `kerchunk_timer_tick` fires an entry.
  abbrev pub is_due : ℕ → Entry C → Bool
  is_due now x = x.active && leb x.next_fire_us now

-- `kerchunk_timer_tick` in a world that holds the table: the callbacks run inside the loop, and may
-- change the table, which each round reads anew.
module _ {C : Type 0} {W : Type 0} (timers : W → Timers C) (put : W → Timers C → W)
    (call : C → W → W) where
  -- The callback, where the entry has one.
  abbrev pub call_back : Option C → W → W
  call_back none w = w
  call_back (some c) w = call c w

  -- An entry that is due is armed again or put out before its callback runs.
  unfoldable pub tick_entry : ℕ → ℕ → W → Option (Entry C) → W
  tick_entry now i w none = w
  tick_entry now i w (some x) =
      if is_due now x
      then call_back x.callback
          (put w (record (timers w) { slots = set (timers w).slots i (rearm now x) }))
      else w

  -- The round for slot `i`.
  unfoldable pub tick_slot : ℕ → ℕ → W → W
  tick_slot now i w = tick_entry now i w (get_elem? (timers w).slots i)

  -- The slots from `i` on, `n` of them.
  unfoldable pub tick_from : ℕ → ℕ → ℕ → W → W
  tick_from now i zero w = w
  tick_from now i (suc n) w = tick_from now (i + 1) n (tick_slot now i w)

  -- `kerchunk_timer_tick`
  unfoldable pub tick : ℕ → W → W
  tick now w = tick_from now 0 max_timers w
