-- ===== src/Tests/DtmfTests.antt =====
-- Runs of modules/mod_dtmfcmd.c.
use kerchunk.Prelude.{◌≡◌, refl, true, false, pos, negsuc, [], ◌∷◌, ◌++◌, arith}
use kerchunk.Text.{Bytes}
use kerchunk.Timer.{init}
use kerchunk.DtmfCmd.{DtmfCmd, CmdEntry, find_cmd}
use kerchunk.DtmfCmd.Handlers.{
  fired_for, on_cor_drop, on_dtmf_digit, type_digits, digit, cor_down, timer_due, run,
}
use kerchunk.DtmfCmd.Commands.{AtRest, type_digits-on_cor_drop}
use kerchunk.DtmfCmd.Invariant.{IsValid, run-IsValid}

-- Two commands, the first of which takes an argument.
abbrev keyed : DtmfCmd
keyed = record {
  active = false;
  buf = [];
  timeout_timer = negsuc 0;
  timeout_ms = pos 3000;
  pending = false;
  cmds =
      record { pattern = b'8' ∷ b'7' ∷ []; event = 100; config_key = [] }
      ∷ record { pattern = b'8' ∷ b'6' ∷ []; event = 101; config_key = [] }
      ∷ [];
  timers = init;
  now = 1000;
  receiving = true;
  fired = [];
}

abbrev status : Bytes
status = b'8' ∷ b'7' ∷ []

-- A digit that comes between the hash and the drop of COR.
abbrev late : Bytes
late = b'5' ∷ []

type_digits-on_cor_drop_example :
    let w' =
      on_cor_drop
        (type_digits late (on_dtmf_digit b'#' (type_digits status (on_dtmf_digit b'*' keyed)))) in
    (w'.fired ≡ [] ++ fired_for (find_cmd (status ++ late) keyed.cmds)) × AtRest w'
type_digits-on_cor_drop_example =
    type_digits-on_cor_drop keyed status late (ground arith) (ground arith) (omega arith) refl

-- The late digit is the command's argument.
late_digit :
    fired_for (find_cmd (status ++ late) keyed.cmds) ≡ record { type = 100; arg = late } ∷ []
unfolding find_cmd kerchunk.DtmfCmd.strip_prefix
late_digit = refl

keyed-IsValid : IsValid keyed
unfolding kerchunk.Timer.timer_runs
keyed-IsValid = record {
  fits = omega arith;
  closed_empty = λ h. refl;
  table_fits = omega arith;
  timer_open = λ h. ground arith;
}

run-IsValid_example :
    IsValid (run (digit b'*' ∷ digit b'8' ∷ digit b'#' ∷ timer_due ∷ cor_down ∷ []) keyed)
run-IsValid_example =
    run-IsValid (digit b'*' ∷ digit b'8' ∷ digit b'#' ∷ timer_due ∷ cor_down ∷ []) keyed
      keyed-IsValid
