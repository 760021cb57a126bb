-- ===== src/Tests/RrdTests.antt =====
-- Runs of src/kerchunk_rrd.c.
use kerchunk.Prelude.{◌≡◌, ◌+◌, ◌%◌, none, [], ◌∷◌, arith}
use kerchunk.Rrd.{Rrd, rrd_fresh, minutes_max}
use kerchunk.Rrd.Rotate.{rrd_tick}
use kerchunk.Rrd.Record.{record_rx}
use kerchunk.Rrd.Hours.{sum_but, hour_loses_minute}
use kerchunk.Rrd.Users.{IsValid, run, tick, restart, received, sent, user_met, run_rrd-IsValid}

-- A file of which an hour is over, with what was received in its first minute.
abbrev hour_over : Rrd
hour_over = record (record_rx 5000 0 60 (rrd_fresh 0)) { minute_idx = 59; last_minute_ts = 3540 }

hour_loses_minute_example :
    (rrd_tick 3600 hour_over).hours hour_over.hour_idx
    ≡ sum_but ((hour_over.minute_idx + 1) % minutes_max) minutes_max hour_over.minutes
unfolding rrd_fresh record_rx
hour_loses_minute_example =
    hour_loses_minute 3600 hour_over (omega arith) (omega arith) (omega arith) (omega arith)
      (omega arith) (omega arith)

fresh-IsValid : IsValid (rrd_fresh 0)
unfolding rrd_fresh
fresh-IsValid = ground arith

run_rrd-IsValid_example : IsValid (
    run (user_met 3 none ∷ received 700 3 9 ∷ sent 50 ∷ tick 130 ∷ restart 4000 ∷ []) (rrd_fresh 0))
run_rrd-IsValid_example =
    run_rrd-IsValid (user_met 3 none ∷ received 700 3 9 ∷ sent 50 ∷ tick 130 ∷ restart 4000 ∷ [])
      (rrd_fresh 0) fresh-IsValid
