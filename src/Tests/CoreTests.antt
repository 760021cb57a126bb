-- ===== src/Tests/CoreTests.antt =====
-- Runs of src/kerchunk_timer.c and src/kerchunk_core.c.
use kerchunk.Prelude.{ℕ, ◌≡◌, refl, true, false, List, [], ◌∷◌, ◌++◌, arith, replicate, map}
use kerchunk.Timer.{Timers, cleared, new_entry, init, tick}
use kerchunk.Timer.Firing.{log_timers, log_put, log_call, fire, fired, calls_of, tick_lem}
use kerchunk.Core.Ptt.{Ptt, request, release, ptt_init, run_ptt, run_ptt-IsValid}
use kerchunk.Core.Sessions.{Session}

-- Callbacks are numbers.
abbrev timers : Timers ℕ
timers = init

-- A timer that is due and repeats, one that is due once, and one that is not due.
abbrev three_timers : Timers ℕ
three_timers = record {
  slots =
      new_entry 1 20 true 7 0
      ∷ new_entry 2 10 false 9 0
      ∷ new_entry 3 50 false 8 0
      ∷ replicate 125 cleared;
  next_id = 4;
}

tick_lem_example : tick log_timers log_put log_call 30000 (three_timers, []) ≡ (
  record three_timers { slots = map (fire 30000) three_timers.slots },
  [] ++ fired 30000 three_timers.slots,
)
tick_lem_example = tick_lem 30000 three_timers [] refl

fired_three : fired 30000 three_timers.slots ≡ 7 ∷ 9 ∷ []
unfolding fired calls_of
fired_three = refl

run_ptt-IsValid_example :
    kerchunk.Core.Ptt.IsValid (run_ptt ptt_init (request ∷ request ∷ release ∷ []))
run_ptt-IsValid_example =
    run_ptt-IsValid ptt_init (request ∷ request ∷ release ∷ [])
      (record { keyed = (λ h. ground arith, λ h. ground arith); flag = refl; alternate = tt })

abbrev two_sessions : List Session
two_sessions =
    record { user_id = 4; elevated = true } ∷ record { user_id = 0; elevated = false } ∷ []
