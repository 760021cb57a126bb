-- ===== src/Tests/BusTests.antt =====
-- Runs of src/kerchunk_events.c and src/kerchunk_sched.c.
use kerchunk.Prelude.{
  ℕ, ◌+◌, ◌*◌, ◌≡◌, refl, true, pos, negsuc, pos_part, neg_part, ◌≤ℤ◌, ◌<ℤ◌, some, [], ◌∷◌, arith,
}
use kerchunk.Events.{Sub, Bus, is_there, subscribe, unsubscribe, snapshot, fire, call_each}
use kerchunk.Events.Laws.{IsValid}
use kerchunk.Sched.{Timespec, SchedEntry, next_boundary, advance}
use kerchunk.Sched.Boundary.{next_boundary_lem}

abbrev bus : Bus
bus = record { subs = λ i. record { handler = 5; userdata = 1 } ∷ []; initialized = true }

bus-IsValid : IsValid bus
unfolding is_there
bus-IsValid = record { fits = λ i. ground arith; once = λ i. (refl, tt) }

-- A handler that fires its own event again is called 16 times.
fired_again : fire {W = ℕ} (λ n. bus) (λ s t again n. again t (n + 1)) 16 3 0 ≡ 16
unfolding fire call_each snapshot kerchunk.Events.evt_index
fired_again = refl

-- Five minutes behind each hour, at 00:01: the next time is 01:05, not 00:05.
skipped : next_boundary 60000 3600000 (pos 300000) ≡ pos 3900000
unfolding next_boundary advance
skipped = refl

next_boundary_lem_example :
    let next = next_boundary 60000 3600000 (negsuc 999) in
    (pos 60000 <ℤ next)
    × (next ≤ℤ pos (60000 + 3600000 + pos_part (negsuc 999)))
    × ((k : ℕ) × (pos_part next + neg_part (negsuc 999)
          ≡ k * 3600000 + pos_part (negsuc 999) + neg_part next))
next_boundary_lem_example = next_boundary_lem 60000 3600000 (negsuc 999) (ground arith)

abbrev noon : Timespec
noon = record { tv_sec = 43200; tv_nsec = 500 }

abbrev every_minute : SchedEntry ℕ
every_minute = record {
  active = true;
  id = 1;
  repeat = true;
  align_ms = 60000;
  offset_ms = pos 0;
  fire_time = record { tv_sec = 43200; tv_nsec = 0 };
  callback = some 9;
}
