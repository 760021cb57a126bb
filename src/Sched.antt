-- ===== src/Sched.antt =====
-- src/kerchunk_sched.c: the wall-clock scheduler, under its mutex. The clock is an argument, and a
-- callback with its user data is a value of a type `C`.
pub mod Boundary
pub mod Laws
use kerchunk.Prelude.{
  ℕ, zero, suc, ◌+◌, ◌-◌, ◌*◌, ◌/◌, ◌%◌, Bool, true, false, not, ◌&&◌, ◌||◌, ℤ, pos, negsuc,
  pos_part, neg_part, is_pos, ltb_ℤ, ◌+ℤ◌, ltb, leb, ◌==◌, if◌then◌else◌, Option, none, some, List,
  [], ◌∷◌, length, replicate,
}

-- `struct timespec` of a time after 1970.
pub record Timespec : Type 0 where
  pub tv_sec : ℕ
  pub tv_nsec : ℕ

-- `sched_entry_t`
pub record SchedEntry (C : Type 0) : Type 0 where
  pub active : Bool
  pub id : ℕ
  pub repeat : Bool
  pub align_ms : ℕ
  pub offset_ms : ℤ
  pub fire_time : Timespec
  pub callback : Option C

-- `g_schedules` and `g_next_id`
pub record Schedules (C : Type 0) : Type 0 where
  pub slots : List (SchedEntry C)
  pub next_id : ℕ

-- `MAX_SCHEDULES`
abbrev pub max_schedules : ℕ
max_schedules = 64

-- `ts_cmp`
unfoldable pub ts_cmp : Timespec → Timespec → ℤ
ts_cmp a b =
    if not (a.tv_sec == b.tv_sec)
    then (if ltb a.tv_sec b.tv_sec then negsuc 0 else pos 1)
    else (if not (a.tv_nsec == b.tv_nsec)
        then (if ltb a.tv_nsec b.tv_nsec then negsuc 0 else pos 1)
        else pos 0)

-- `epoch_ms`
abbrev pub epoch_ms : Timespec → ℕ
epoch_ms now = now.tv_sec * 1000 + now.tv_nsec / 1000000

-- The loop of `compute_next_boundary`, in a number of rounds.
unfoldable pub advance : ℕ → ℕ → ℕ → ℤ → ℤ
advance zero epoch align next = next
advance (suc fuel) epoch align next =
    let rest = advance fuel epoch align (next +ℤ pos align) in
    if ltb_ℤ (pos epoch) next then next else rest

-- `compute_next_boundary` in milliseconds. A round adds at least 1, and only a negative offset takes
-- the start back, so its size is enough for the rounds.
unfoldable pub next_boundary : ℕ → ℕ → ℤ → ℤ
next_boundary epoch align offset =
    advance (neg_part offset) epoch align (pos ((epoch / align + 1) * align) +ℤ offset)

-- `compute_next_boundary`
unfoldable pub boundary_time : Timespec → ℕ → ℤ → Timespec
boundary_time now align offset =
    let next = pos_part (next_boundary (epoch_ms now) align offset) in
    record { tv_sec = next / 1000; tv_nsec = next % 1000 * 1000000 }

abbrev pub cleared : {C : Type 0} → SchedEntry C
cleared = record {
  active = false;
  id = 0;
  repeat = false;
  align_ms = 0;
  offset_ms = pos 0;
  fire_time = record { tv_sec = 0; tv_nsec = 0 };
  callback = none;
}

module _ {C : Type 0} where
  -- `kerchunk_sched_init`
  unfoldable pub init : Schedules C
  init = record { slots = replicate max_schedules cleared; next_id = 1 }

  -- `kerchunk_sched_shutdown`
  unfoldable pub clear_all : List (SchedEntry C) → List (SchedEntry C)
  clear_all [] = []
  clear_all (x ∷ xs) = record x { active = false } ∷ clear_all xs

  -- The search for a free slot: the table with the entry in the first one, or `none`.
  unfoldable pub fill : SchedEntry C → List (SchedEntry C) → Option (List (SchedEntry C))
  fill e [] = none
  fill e (x ∷ xs) =
      let rest = fill e xs in
      if x.active then (elim rest [ none ↦ none | some l ↦ some (x ∷ l) ]) else some (e ∷ xs)

  -- The end of `kerchunk_sched_at` and `kerchunk_sched_aligned`.
  unfoldable pub enter : SchedEntry C → Schedules C → Schedules C × ℤ
  enter e s = elim (fill e s.slots) [
    | none ↦ (s, negsuc 0)
    | some l ↦ (record { slots = l; next_id = s.next_id + 1 }, pos s.next_id)
  ]

  -- `kerchunk_sched_at`
  unfoldable pub schedule_at : Option Timespec → Option C → Schedules C → Schedules C × ℤ
  schedule_at none cb s = (s, negsuc 0)
  schedule_at (some time) none s = (s, negsuc 0)
  schedule_at (some time) (some c) s =
      enter
        (record {
          active = true;
          id = s.next_id;
          repeat = false;
          align_ms = 0;
          offset_ms = pos 0;
          fire_time = time;
          callback = some c;
        })
        s

  -- `kerchunk_sched_aligned`
  unfoldable pub schedule_aligned :
      ℤ → ℤ → Bool → Option C → Timespec → Schedules C → Schedules C × ℤ
  schedule_aligned align offset repeat none now s = (s, negsuc 0)
  schedule_aligned align offset repeat (some c) now s =
      if not (is_pos align)
      then (s, negsuc 0)
      else enter
          (record {
            active = true;
            id = s.next_id;
            repeat = repeat;
            align_ms = pos_part align;
            offset_ms = offset;
            fire_time = boundary_time now (pos_part align) offset;
            callback = some c;
          })
          s

  -- The loop of `kerchunk_sched_cancel`; the first active entry of the id goes out.
  unfoldable pub cancel_entry : ℕ → List (SchedEntry C) → List (SchedEntry C)
  cancel_entry id [] = []
  cancel_entry id (x ∷ xs) =
      if x.active && x.id == id then record x { active = false } ∷ xs else x ∷ cancel_entry id xs

  -- Whether `kerchunk_sched_tick` fires an entry: `ts_cmp(&now, &s->fire_time) >= 0`
  unfoldable pub is_due : Timespec → SchedEntry C → Bool
  is_due now x = x.active && not (ltb_ℤ (ts_cmp now x.fire_time) (pos 0))

  -- An entry after it was copied to be fired.
  unfoldable pub rearm : Timespec → SchedEntry C → SchedEntry C
  rearm now x =
      if x.repeat && ltb 0 x.align_ms
      then record x { fire_time = boundary_time now x.align_ms x.offset_ms }
      else record x { active = false }

  -- `kerchunk_sched_tick`: the table, and the entries whose callbacks run after it, in order.
  unfoldable pub sched_tick :
      Timespec → List (SchedEntry C) → List (SchedEntry C) × List (SchedEntry C)
  sched_tick now [] = ([], [])
  sched_tick now (x ∷ xs) =
      let (ys, fired) = sched_tick now xs in
      if is_due now x then (rearm now x ∷ ys, x ∷ fired) else (x ∷ ys, fired)

  -- `kerchunk_sched_count`
  unfoldable pub sched_count : List (SchedEntry C) → ℕ
  sched_count [] = 0
  sched_count (x ∷ xs) = if x.active then 1 + sched_count xs else sched_count xs
