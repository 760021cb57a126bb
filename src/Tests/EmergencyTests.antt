-- ===== src/Tests/EmergencyTests.antt =====
-- Runs of modules/mod_emergency.c.
use kerchunk.Prelude.{◌≡◌, refl, true, false, pos, negsuc, [], ◌∷◌, arith}
use kerchunk.Timer.{timer_runs, init}
use kerchunk.Timer.Laws.{AllActive}
use kerchunk.Emergency.{EmergencyMode, on_emergency_on, code_on, timer_due, configure, run}
use kerchunk.Emergency.Ends.{emergency_unending}

abbrev calm : EmergencyMode
calm = record {
  flag = record { active = false; expires_at = 0 };
  timer = negsuc 0;
  timeout_ms = pos 1800000;
  timers = init;
  now = 1000;
  wall = 5000;
  announced = [];
}

no_timer_yet : timer_runs (negsuc 0) ≡ false
unfolding timer_runs
no_timer_yet = refl

slot_free : ¬ AllActive calm.timers.slots
unfolding init
slot_free a = ground (arith, a.0)

abbrev no_limit : EmergencyMode
no_limit = record calm { timeout_ms = pos 0 }

emergency_unending_example :
    (run
      (timer_due ∷ configure [] ∷ code_on ∷ timer_due ∷ [])
      (on_emergency_on no_limit)).flag.active
    ≡ true
emergency_unending_example =
    emergency_unending no_limit (timer_due ∷ configure [] ∷ code_on ∷ timer_due ∷ []) refl refl
      (refl, (refl, (refl, (refl, tt))))
