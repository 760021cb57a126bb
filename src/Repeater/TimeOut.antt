-- ===== src/Repeater/TimeOut.antt =====
-- The time-out timer of modules/mod_repeater.c.
use mathlib.Core.Path.{subst}
use kerchunk.Prelude.{
  ℕ, inl, inr, ◌<◌, ◌≡◌, ◌≢◌, refl, sym, ◌∙◌, true, false, ℤ, pos_part, some, pos, List, arith,
}
use kerchunk.Timer.{Timers, new_entry}
use kerchunk.Timer.Laws.{IsValid, AllActive, find_active, create_lem}
use kerchunk.Core.Ptt.{Ptt}
use kerchunk.Repeater.{
  Expiry, RptState, idle, tot_expires, receiving, tail_wait, hang_wait, rx_timeout, bridging,
  same_state, Rpt, is_live, no_timer, emit, change_state, hold_ptt, drop_ptt, stop_timer,
  start_tail, start_hang, start_tot, start_debounce,
}
use kerchunk.Repeater.Handlers.{
  tail_expired_in, tail_expired, start_receiving, debounce_expired, tot_expired, on_cor_assert_in,
  on_cor_assert, on_cor_drop_in, on_cor_drop, on_link_rx_assert, on_link_rx_drop,
  on_caller_identified, on_caller_cleared, RptInput, cor_assert, cor_drop, link_rx_assert,
  link_rx_drop, caller_known, caller_gone, tail_due, hang_due, tot_due, debounce_due, emergency_set,
  if_live, step, run,
}
use kerchunk.Repeater.Runs.{AllPass, run_keeps, but_cor_drop, but_emergency_end}

-- Receiving with no time-out timer.
record Unlimited (p : Ptt) (w : Rpt) : Type 0 where
  in_rx : w.state ≡ receiving
  no_tot : is_live w.tot_timer ≡ false
  same_ptt : w.ptt ≡ p

step-Unlimited :
    (p : Ptt) (i : RptInput) (w : Rpt)
    → but_cor_drop i ≡ true
    → Unlimited p w
    → Unlimited p (step i w)
unfolding step if_live stop_timer on_cor_assert on_cor_assert_in on_link_rx_assert on_link_rx_drop
    on_caller_identified on_caller_cleared same_state tail_expired tail_expired_in debounce_expired
step-Unlimited p cor_assert w o h = ground arith
step-Unlimited p cor_drop w o h = ground arith
step-Unlimited p link_rx_assert w o h = ground arith
step-Unlimited p link_rx_drop w o h = ground arith
step-Unlimited p caller_known w o h = ground arith
step-Unlimited p caller_gone w o h = ground arith
step-Unlimited p tail_due w o h = ground arith
step-Unlimited p hang_due w o h = ground arith
step-Unlimited p tot_due w o h = ground arith
step-Unlimited p debounce_due w o h = ground arith
step-Unlimited p (emergency_set on) w o h = ground arith

on_cor_assert-Unlimited :
    (w : Rpt)
    → w.state ≡ tail_wait
    → is_live w.tot_timer ≡ false
    → Unlimited w.ptt (on_cor_assert w)
unfolding on_cor_assert on_cor_assert_in change_state same_state stop_timer
on_cor_assert-Unlimited w e n = ground arith

-- A user who keys up again during the tail, where the time-out timer was stopped, has no time-out:
-- until COR drops, whatever other input comes, the machine stays in RECEIVING with no time-out timer
-- and PTT as it was.
pub rekey_unlimited :
    (w : Rpt) (is : List RptInput)
    → w.state ≡ tail_wait
    → is_live w.tot_timer ≡ false
    → AllPass but_cor_drop is
    → let w' = run is (on_cor_assert w) in
      (w'.state ≡ receiving) × (is_live w'.tot_timer ≡ false) × (w'.ptt ≡ w.ptt)
rekey_unlimited w is e n a =
    let u =
      run_keeps but_cor_drop (Unlimited w.ptt) (step-Unlimited w.ptt) is (on_cor_assert w) a
        (on_cor_assert-Unlimited w e n) in
    (u.in_rx, u.no_tot, u.same_ptt)

-- In an emergency, and not timed out.
record Untimed (w : Rpt) : Type 0 where
  in_emergency : w.emergency ≡ true
  not_out : w.state ≢ rx_timeout

on_cor_assert_in-Untimed :
    (st : RptState) (w : Rpt) → w.state ≡ st → Untimed w → Untimed (on_cor_assert_in st w)
unfolding on_cor_assert_in start_receiving hold_ptt start_tot start_debounce stop_timer change_state
    same_state
on_cor_assert_in-Untimed idle w e h = ground arith
on_cor_assert_in-Untimed receiving w e h = ground arith
on_cor_assert_in-Untimed tail_wait w e h = ground arith
on_cor_assert_in-Untimed hang_wait w e h = ground arith
on_cor_assert_in-Untimed rx_timeout w e h = ground arith
on_cor_assert_in-Untimed bridging w e h = ground arith

on_cor_drop_in-Untimed :
    (st : RptState) (w : Rpt) → w.state ≡ st → Untimed w → Untimed (on_cor_drop_in st w)
unfolding on_cor_drop_in drop_ptt start_tail stop_timer emit change_state same_state
on_cor_drop_in-Untimed idle w e h = ground arith
on_cor_drop_in-Untimed receiving w e h = ground arith
on_cor_drop_in-Untimed tail_wait w e h = ground arith
on_cor_drop_in-Untimed hang_wait w e h = ground arith
on_cor_drop_in-Untimed rx_timeout w e h = ground arith
on_cor_drop_in-Untimed bridging w e h = ground arith

tail_expired_in-Untimed :
    (st : RptState) (w : Rpt) → w.state ≡ st → Untimed w → Untimed (tail_expired_in st w)
unfolding tail_expired_in drop_ptt start_hang emit change_state same_state
tail_expired_in-Untimed idle w e h = ground arith
tail_expired_in-Untimed receiving w e h = ground arith
tail_expired_in-Untimed tail_wait w e h = ground arith
tail_expired_in-Untimed hang_wait w e h = ground arith
tail_expired_in-Untimed rx_timeout w e h = ground arith
tail_expired_in-Untimed bridging w e h = ground arith

tail_expired-Untimed : (id : ℤ) (w : Rpt) → Untimed w → Untimed (tail_expired (stop_timer id w))
unfolding tail_expired stop_timer
tail_expired-Untimed id w h =
    let w1 : Rpt = record (stop_timer id w) { tail_timer = no_timer } in
    ground (arith, tail_expired_in-Untimed w.state w1)

debounce_expired-Untimed : (w : Rpt) → Untimed w → Untimed (debounce_expired w)
unfolding debounce_expired start_receiving hold_ptt start_tot emit change_state same_state
debounce_expired-Untimed w h = ground arith

step-Untimed :
    (i : RptInput) (w : Rpt) → but_emergency_end i ≡ true → Untimed w → Untimed (step i w)
unfolding step if_live stop_timer on_cor_assert on_cor_drop on_link_rx_assert on_link_rx_drop
    on_caller_identified on_caller_cleared tot_expired change_state same_state
step-Untimed cor_assert w o h = on_cor_assert_in-Untimed w.state w refl h
step-Untimed cor_drop w o h = ground (arith, on_cor_drop_in-Untimed w.state w refl h)
step-Untimed link_rx_assert w o h = ground arith
step-Untimed link_rx_drop w o h = ground arith
step-Untimed caller_known w o h = ground arith
step-Untimed caller_gone w o h = ground arith
step-Untimed tail_due w o h = ground (arith, tail_expired-Untimed w.tail_timer w h)
step-Untimed hang_due w o h = ground (arith, tail_expired-Untimed w.hang_timer w h)
step-Untimed tot_due w o h = ground arith
step-Untimed debounce_due w o h =
    ground (arith, debounce_expired-Untimed (stop_timer w.debounce_timer w))
step-Untimed (emergency_set on) w o h = ground arith

-- While an emergency lasts, no input and no timer puts the machine into the time-out state.
pub emergency_never_times_out :
    (w : Rpt) (is : List RptInput)
    → w.emergency ≡ true
    → w.state ≢ rx_timeout
    → AllPass but_emergency_end is
    → (run is w).state ≢ rx_timeout
emergency_never_times_out w is e n a =
    (run_keeps but_emergency_end Untimed step-Untimed is w a
      (record { in_emergency = e; not_out = n })).not_out

start_tot-find_active :
    (w : Rpt) (t : Timers Expiry) (ms now : ℕ)
    → w.timers ≡ t
    → w.now ≡ now
    → w.settings.tot_time_ms ≡ pos ms
    → 0 < ms
    → IsValid t
    → ¬ AllActive t.slots
    → let w' = start_tot w in
      find_active (pos_part w'.tot_timer) w'.timers.slots
      ≡ some (new_entry t.next_id ms false tot_expires now)
unfolding start_tot
start_tot-find_active w t ms now et en e p v f = elim (create_lem ms false tot_expires now t p v) [
  | inl (bad, same, all) ↦ absurd (f all)
  | inr (fresh, ok, found) ↦ rw (et, en, e, fresh, found t.next_id) ground arith
]

session_frame :
    (w : Rpt)
    → let w1 = change_state receiving (hold_ptt w) in
      (w1.timers ≡ w.timers)
      × (w1.now ≡ w.now)
      × (w1.settings.tot_time_ms ≡ w.settings.tot_time_ms)
      × (w1.emergency ≡ w.emergency)
unfolding change_state hold_ptt
session_frame w = ground arith

start_receiving-start_tot :
    (w : Rpt)
    → let w1 = change_state receiving (hold_ptt w) in
      w1.emergency ≡ false → start_receiving w ≡ start_tot w1
unfolding start_receiving
start_receiving-start_tot w n = rw n refl

-- A session that starts outside an emergency has its time-out: where a slot of the timer table is
-- free, the timer that the module keeps runs, and calls `tot_expired` after the configured time.
pub start_receiving-find_active :
    (w : Rpt) (ms : ℕ)
    → w.settings.tot_time_ms ≡ pos ms
    → 0 < ms
    → w.emergency ≡ false
    → IsValid w.timers
    → ¬ AllActive w.timers.slots
    → let w' = start_receiving w in
      find_active (pos_part w'.tot_timer) w'.timers.slots
      ≡ some (new_entry w.timers.next_id ms false tot_expires w.now)
start_receiving-find_active w ms e p n v f =
    let w1 = change_state receiving (hold_ptt w) in
    let (t, k, s, m) = session_frame w in
    let a = start_tot-find_active w1 w.timers ms w.now t k (s ∙ e) p v f in
    subst
      (λ v.
        find_active (pos_part v.tot_timer) v.timers.slots
        ≡ some (new_entry w.timers.next_id ms false tot_expires w.now))
      (sym (start_receiving-start_tot w (m ∙ n))) a
