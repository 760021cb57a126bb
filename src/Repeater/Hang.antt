-- ===== src/Repeater/Hang.antt =====
-- The hang time of modules/mod_repeater.c.
use kerchunk.Prelude.{◌+◌, ◌≡◌, true, false, is_pos, List, [], ◌∷◌, arith}
use kerchunk.Timer.{create}
use kerchunk.Core.Ptt.{Ptt, release_ptt}
use kerchunk.Repeater.{
  idle, tail_wait, hang_wait, same_state, Rpt, is_live, emit, change_state, drop_ptt, stop_timer,
  start_hang,
}
use kerchunk.Repeater.Handlers.{
  tail_expired_in, tail_expired, debounce_expired, on_cor_drop_in, on_cor_drop, on_link_rx_assert,
  on_link_rx_drop, on_caller_identified, on_caller_cleared, RptInput, cor_assert, cor_drop,
  link_rx_assert, link_rx_drop, caller_known, caller_gone, tail_due, hang_due, tot_due,
  debounce_due, emergency_set, if_live, step, run,
}
use kerchunk.Repeater.PttCount.{Holds}
use kerchunk.Repeater.Runs.{AllPass, run_keeps, but_cor_assert}

-- Waiting for the end of a hang time that no timer measures.
record Hung (p : Ptt) (w : Rpt) : Type 0 where
  in_hang : w.state ≡ hang_wait
  no_tail : is_live w.tail_timer ≡ false
  no_hang : is_live w.hang_timer ≡ false
  no_tot : is_live w.tot_timer ≡ false
  same_ptt : w.ptt ≡ p

step-Hung :
    (p : Ptt) (i : RptInput) (w : Rpt) → but_cor_assert i ≡ true → Hung p w → Hung p (step i w)
unfolding step if_live stop_timer on_cor_drop on_cor_drop_in on_link_rx_assert on_link_rx_drop
    on_caller_identified on_caller_cleared same_state debounce_expired
step-Hung p cor_assert w o h = ground arith
step-Hung p cor_drop w o h = ground arith
step-Hung p link_rx_assert w o h = ground arith
step-Hung p link_rx_drop w o h = ground arith
step-Hung p caller_known w o h = ground arith
step-Hung p caller_gone w o h = ground arith
step-Hung p tail_due w o h = ground arith
step-Hung p hang_due w o h = ground arith
step-Hung p tot_due w o h = ground arith
step-Hung p debounce_due w o h = ground arith
step-Hung p (emergency_set on) w o h = ground arith

tail_expired-Hung :
    (w : Rpt)
    → w.state ≡ tail_wait
    → is_live w.tot_timer ≡ false
    → is_pos w.settings.hang_time_ms ≡ false
    → Hung w.ptt (tail_expired w)
unfolding tail_expired tail_expired_in start_hang emit change_state same_state create is_live
tail_expired-Hung w e n z = ground arith

-- With a hang time that is not positive, as the configuration allows 0, and no time-out timer, no
-- timer is made when the tail ends: the machine stays in HANG_WAIT, and PTT as it is, until COR comes
-- up again.
pub zero_hang_sticks :
    (w : Rpt) (is : List RptInput)
    → w.state ≡ tail_wait
    → is_live w.tot_timer ≡ false
    → is_pos w.settings.hang_time_ms ≡ false
    → AllPass but_cor_assert is
    → let w' = run is (tail_expired w) in (w'.state ≡ hang_wait) × (w'.ptt ≡ w.ptt)
zero_hang_sticks w is e n z a =
    let u =
      run_keeps but_cor_assert (Hung w.ptt) (step-Hung w.ptt) is (tail_expired w) a
        (tail_expired-Hung w e n z) in
    (u.in_hang, u.same_ptt)

step-tail_due :
    (w : Rpt)
    → w.state ≡ tail_wait
    → is_live w.tail_timer ≡ true
    → let w' = step tail_due w in
      (w'.state ≡ hang_wait)
      × (w'.ptt ≡ w.ptt)
      × (is_live w'.tail_timer ≡ false)
      × (w'.tot_timer ≡ w.tot_timer)
      × (w'.settings ≡ w.settings)
unfolding step if_live is_live stop_timer tail_expired tail_expired_in start_hang emit change_state
    same_state
step-tail_due w e t = ground arith

step-hang_due :
    (w : Rpt)
    → w.state ≡ hang_wait
    → is_live w.hang_timer ≡ true
    → w.settings.software_relay ≡ true
    → let w' = step hang_due w in
      (w'.state ≡ idle)
      × (w'.ptt ≡ release_ptt w.ptt)
      × (is_live w'.tail_timer ≡ false)
      × (is_live w'.hang_timer ≡ false)
      × (w'.tot_timer ≡ w.tot_timer)
unfolding step if_live is_live stop_timer tail_expired tail_expired_in drop_ptt emit change_state
    same_state
step-hang_due w e t r = ground arith

-- In software-relay mode, a session whose tail and hang time run out, a timer having been made for
-- each, ends in IDLE, with the module's reference given back and no timer of the session left.
pub session_ends :
    (w : Rpt)
    → Holds w
    → w.state ≡ tail_wait
    → is_live w.tail_timer ≡ true
    → is_live (step tail_due w).hang_timer ≡ true
    → let w' = run (tail_due ∷ hang_due ∷ []) w in
      (w'.state ≡ idle)
      × (w'.ptt.refcount + 1 ≡ w.ptt.refcount)
      × (is_live w'.tail_timer ≡ false)
      × (is_live w'.hang_timer ≡ false)
      × (is_live w'.tot_timer ≡ false)
unfolding run release_ptt
session_ends w h e t g =
    let a = step-tail_due w e t in
    let w1 = step tail_due w in ground (arith, a, h.tot_only, h.counted, h.relay, step-hang_due w1)
