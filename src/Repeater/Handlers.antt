-- ===== src/Repeater/Handlers.antt =====
-- The timer callbacks, event handlers and unloading of modules/mod_repeater.c.
use kerchunk.Prelude.{
  Bool, true, false, not, ◌&&◌, ◌||◌, ℤ, pos, is_pos, ltb_ℤ, if◌then◌else◌, List, [], ◌∷◌,
}
use kerchunk.Repeater.{
  RptState, idle, receiving, tail_wait, hang_wait, rx_timeout, bridging, same_state, Settings,
  tail_expire, tail_start, timed_out, access_denied, warn_tone, Rpt, is_live, no_timer, emit,
  change_state, hold_ptt, drop_ptt, stop_timer, start_tail, start_hang, start_tot, start_debounce,
}

-- `tail_expired`
unfoldable pub tail_expired_in : RptState → Rpt → Rpt
tail_expired_in tail_wait w = start_hang (change_state hang_wait (emit tail_expire w))
tail_expired_in hang_wait w = change_state idle (drop_ptt (record w { hang_timer = no_timer }))
tail_expired_in _ w = w

unfoldable pub tail_expired : Rpt → Rpt
tail_expired w = tail_expired_in w.state (record w { tail_timer = no_timer })

-- `start_receiving`
unfoldable pub start_receiving : Rpt → Rpt
start_receiving w =
    let w1 = change_state receiving (hold_ptt w) in if not w1.emergency then start_tot w1 else w1

-- `debounce_expired`
unfoldable pub debounce_expired : Rpt → Rpt
debounce_expired w =
    let w1 : Rpt = record w { debounce_timer = no_timer } in
    if not (same_state w1.state idle)
    then w1
    else (if w1.settings.require_id && not w1.caller_identified
        then emit access_denied w1
        else start_receiving w1)

-- `tot_expired`
unfoldable pub tot_expired : Rpt → Rpt
tot_expired w =
    let w1 : Rpt = record w { tot_timer = no_timer } in
    if w1.emergency
    then w1
    else change_state rx_timeout (emit timed_out (emit (warn_tone w1.settings.tot_warn_hz) w1))

-- The debounce time of `on_cor_assert`.
unfoldable pub debounce_ms : Settings → ℤ
debounce_ms s =
    if s.require_id && ltb_ℤ s.cor_debounce_ms (pos 500) then pos 500 else s.cor_debounce_ms

-- `on_cor_assert`
unfoldable pub on_cor_assert_in : RptState → Rpt → Rpt
on_cor_assert_in idle w =
    let w1 : Rpt = record w { caller_identified = false } in
    if is_pos w1.settings.cor_debounce_ms || w1.settings.require_id
    then start_debounce (debounce_ms w1.settings) (stop_timer w1.debounce_timer w1)
    else start_receiving w1
on_cor_assert_in tail_wait w = change_state receiving (
    if is_live w.tail_timer
    then record (stop_timer w.tail_timer w) { tail_timer = no_timer }
    else w)
on_cor_assert_in hang_wait w =
    let w1 = change_state receiving (
      if is_live w.hang_timer
      then record (stop_timer w.hang_timer w) { hang_timer = no_timer }
      else w) in
    start_tot (stop_timer w1.tot_timer w1)
on_cor_assert_in _ w = w

unfoldable pub on_cor_assert : Rpt → Rpt
on_cor_assert w = on_cor_assert_in w.state w

-- The switch of `on_cor_drop`.
unfoldable pub on_cor_drop_in : RptState → Rpt → Rpt
on_cor_drop_in receiving w =
    let w1 : Rpt =
      (if is_live w.tot_timer
        then record (stop_timer w.tot_timer w) { tot_timer = no_timer }
        else w) in
    emit tail_start (start_tail (change_state tail_wait w1))
on_cor_drop_in rx_timeout w = change_state idle (drop_ptt w)
on_cor_drop_in _ w = w

-- `on_cor_drop`
unfoldable pub on_cor_drop : Rpt → Rpt
on_cor_drop w =
    if is_live w.debounce_timer
    then record (stop_timer w.debounce_timer w) { debounce_timer = no_timer }
    else on_cor_drop_in w.state w

-- `on_link_rx_assert`
unfoldable pub on_link_rx_assert : Rpt → Rpt
on_link_rx_assert w = if same_state w.state idle then change_state bridging w else w

-- `on_link_rx_drop`
unfoldable pub on_link_rx_drop : Rpt → Rpt
on_link_rx_drop w = if same_state w.state bridging then change_state idle w else w

-- `on_caller_identified`
unfoldable pub on_caller_identified : Rpt → Rpt
on_caller_identified w = record w { caller_identified = true }

-- `on_caller_cleared`
unfoldable pub on_caller_cleared : Rpt → Rpt
on_caller_cleared w = if same_state w.state idle then record w { caller_identified = false } else w

-- Whether `repeater_unload` counts a state as one that holds PTT.
unfoldable pub unload_holds : RptState → Bool
unload_holds receiving = true
unload_holds tail_wait = true
unload_holds hang_wait = true
unload_holds _ = false

-- The four cancels of `repeater_unload`.
unfoldable pub stop_timers : Rpt → Rpt
stop_timers w =
    stop_timer w.debounce_timer
      (stop_timer w.tot_timer (stop_timer w.hang_timer (stop_timer w.tail_timer w)))

-- `repeater_unload`
unfoldable pub repeater_unload : Rpt → Rpt
repeater_unload w = let w1 = stop_timers w in if unload_holds w1.state then drop_ptt w1 else w1

-- What reaches the module while it is loaded: the events it subscribes to, its timers, and the core's
-- emergency flag as other modules set it.
pub data RptInput : Type 0 where
  cor_assert cor_drop link_rx_assert link_rx_drop caller_known caller_gone : RptInput
  tail_due hang_due tot_due debounce_due : RptInput
  emergency_set : Bool → RptInput

-- A timer calls back only while its id is kept: it is cancelled where a handler forgets it. The table
-- puts it out before the call.
unfoldable pub if_live : ℤ → (Rpt → Rpt) → Rpt → Rpt
if_live id f w = if is_live id then f (stop_timer id w) else w

unfoldable pub step : RptInput → Rpt → Rpt
step cor_assert w = on_cor_assert w
step cor_drop w = on_cor_drop w
step link_rx_assert w = on_link_rx_assert w
step link_rx_drop w = on_link_rx_drop w
step caller_known w = on_caller_identified w
step caller_gone w = on_caller_cleared w
step tail_due w = if_live w.tail_timer tail_expired w
step hang_due w = if_live w.hang_timer tail_expired w
step tot_due w = if_live w.tot_timer tot_expired w
step debounce_due w = if_live w.debounce_timer debounce_expired w
step (emergency_set on) w = record w { emergency = on }

unfoldable pub run : List RptInput → Rpt → Rpt
run [] w = w
run (i ∷ is) w = run is (step i w)
