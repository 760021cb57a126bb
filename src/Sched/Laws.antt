-- ===== src/Sched/Laws.antt =====
-- The scheduler's tick, `kerchunk_sched_tick` of src/kerchunk_sched.c.
use kerchunk.Prelude.{◌≡◌, false, if◌then◌else◌, List, [], ◌∷◌}
use kerchunk.Sched.{Timespec, SchedEntry, is_due}

module _ {C : Type 0} where
  -- No entry is due.
  abbrev pub Settled : Timespec → List (SchedEntry C) → Type 0
  Settled now [] = Unit {0}
  Settled now (x ∷ xs) = (is_due now x ≡ false) × Settled now xs

  -- The entries that are due.
  unfoldable pub due_entries : Timespec → List (SchedEntry C) → List (SchedEntry C)
  due_entries now [] = []
  due_entries now (x ∷ xs) = if is_due now x then x ∷ due_entries now xs else due_entries now xs
