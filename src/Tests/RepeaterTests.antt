-- ===== src/Tests/RepeaterTests.antt =====
-- Runs of modules/mod_repeater.c.
use kerchunk.Prelude.{◌+◌, ◌≡◌, ◌≢◌, refl, true, false, pos, [], ◌∷◌, arith}
use kerchunk.Timer.{init, create, create_at, fill_slot, cancel, cancel_slot}
use kerchunk.Core.Ptt.{ptt_init}
use kerchunk.Repeater.{
  idle, receiving, tail_wait, hang_wait, rx_timeout, Settings, Rpt, is_live, no_timer, stop_timer,
  start_hang, emit, change_state, same_state,
}
use kerchunk.Repeater.Handlers.{
  tail_expired, tail_expired_in, if_live, on_cor_assert, repeater_unload, cor_assert, cor_drop,
  tail_due, hang_due, tot_due, emergency_set, step, run,
}
use kerchunk.Repeater.Config.{RptKeys}
use kerchunk.Repeater.PttCount.{Keeps, held, run_balance, repeater_unload_lem}
use kerchunk.Repeater.TimeOut.{rekey_unlimited}
use kerchunk.Repeater.Hang.{zero_hang_sticks}

abbrev keys : RptKeys
keys = record {
  tail_time = pos 2000;
  hang_time = pos 500;
  timeout_time = pos 180000;
  cor_debounce = pos 150;
  require_identification = true;
  relay_on = true;
}

abbrev defaults : Settings
defaults = record {
  tail_time_ms = pos 2000;
  hang_time_ms = pos 500;
  tot_time_ms = pos 180000;
  tot_warn_hz = 440;
  cor_debounce_ms = pos 0;
  require_id = false;
  software_relay = true;
}

abbrev at_rest : Rpt
at_rest = record {
  state = idle;
  tail_timer = no_timer;
  hang_timer = no_timer;
  tot_timer = no_timer;
  debounce_timer = no_timer;
  settings = defaults;
  caller_identified = false;
  emergency = false;
  timers = init;
  ptt = ptt_init;
  now = 1000;
  out = [];
}

-- In the tail of a session.
abbrev in_tail : Rpt
in_tail = record at_rest {
  state = tail_wait;
  tail_timer = pos 9;
  ptt = record { refcount = 1; active = true; edges = [] };
}

abbrev no_hang : Rpt
no_hang = record in_tail { settings = record defaults { hang_time_ms = pos 0 } }

run_balance_example : Keeps at_rest (run (cor_assert ∷ cor_drop ∷ tail_due ∷ []) at_rest)
unfolding is_live
run_balance_example =
    run_balance (cor_assert ∷ cor_drop ∷ tail_due ∷ []) at_rest
      (record { relay = refl; counted = ground arith; tot_only = λ h. ground arith })

repeater_unload_lem_example :
    (in_tail.state ≢ rx_timeout
      → (repeater_unload in_tail).ptt.refcount + held in_tail.state ≡ in_tail.ptt.refcount)
    × (in_tail.state ≡ rx_timeout → (repeater_unload in_tail).ptt ≡ in_tail.ptt)
unfolding is_live
repeater_unload_lem_example =
    repeater_unload_lem in_tail
      (record { relay = refl; counted = ground arith; tot_only = λ h. ground arith })

rekey_unlimited_example :
    let w' = run (tot_due ∷ emergency_set true ∷ tail_due ∷ []) (on_cor_assert in_tail) in
    (w'.state ≡ receiving) × (is_live w'.tot_timer ≡ false) × (w'.ptt ≡ in_tail.ptt)
unfolding is_live
rekey_unlimited_example =
    rekey_unlimited in_tail (tot_due ∷ emergency_set true ∷ tail_due ∷ []) refl refl
      (refl, (refl, (refl, tt)))

zero_hang_sticks_example :
    let w' = run (cor_drop ∷ hang_due ∷ []) (tail_expired no_hang) in
    (w'.state ≡ hang_wait) × (w'.ptt ≡ no_hang.ptt)
unfolding is_live
zero_hang_sticks_example =
    zero_hang_sticks no_hang (cor_drop ∷ hang_due ∷ []) refl refl refl (refl, (refl, tt))

hang_made : is_live (step tail_due in_tail).hang_timer ≡ true
unfolding step if_live is_live stop_timer tail_expired tail_expired_in start_hang emit change_state
    same_state create create_at fill_slot cancel cancel_slot init
hang_made = refl
