-- ===== src/Repeater/PttCount.antt =====
-- The PTT references that the state machine of modules/mod_repeater.c holds in software-relay mode.
use kerchunk.Prelude.{
  ℕ, ◌+◌, ◌≤◌, ◌≡◌, ◌≢◌, refl, sym, ◌∙◌, ap, true, ℤ, ◌==◌, if◌then◌else◌, List, [], ◌∷◌, arith,
}
use kerchunk.Core.Ptt.{request_ptt, release_ptt}
use kerchunk.Repeater.{
  RptState, idle, receiving, tail_wait, hang_wait, rx_timeout, bridging, state_code, same_state,
  Rpt, is_live, no_timer, emit, change_state, hold_ptt, drop_ptt, stop_timer, start_tail,
  start_hang, start_tot, start_debounce,
}
use kerchunk.Repeater.Handlers.{
  tail_expired_in, tail_expired, start_receiving, debounce_expired, tot_expired, on_cor_assert_in,
  on_cor_assert, on_cor_drop_in, on_cor_drop, on_link_rx_assert, on_link_rx_drop,
  on_caller_identified, on_caller_cleared, unload_holds, stop_timers, repeater_unload, RptInput,
  cor_assert, cor_drop, link_rx_assert, link_rx_drop, caller_known, caller_gone, tail_due, hang_due,
  tot_due, debounce_due, emergency_set, if_live, step, run,
}

-- The references that the module holds in a state.
abbrev pub held : RptState → ℕ
held idle = 0
held receiving = 1
held tail_wait = 1
held hang_wait = 1
held rx_timeout = 1
held bridging = 0

-- In a session the module's reference is in the count; the time-out timer runs while receiving only.
pub record Holds (w : Rpt) : Type 0 where
  pub relay : w.settings.software_relay ≡ true
  pub counted : held w.state ≤ w.ptt.refcount
  pub tot_only : is_live w.tot_timer ≡ true → w.state ≡ receiving

-- A step keeps all of this, and the count moves with what the module holds.
abbrev pub Keeps : Rpt → Rpt → Type 0
Keeps w w' = Holds w' × (w'.ptt.refcount + held w.state ≡ w.ptt.refcount + held w'.state)

abbrev state_of : ℕ → RptState
state_of n =
    if n == 0
    then idle
    else (if n == 1
        then receiving
        else (if n == 2
            then tail_wait
            else (if n == 3 then hang_wait else (if n == 4 then rx_timeout else bridging))))

state_of-state_code : (a : RptState) → state_of (state_code a) ≡ a
state_of-state_code idle = refl
state_of-state_code receiving = refl
state_of-state_code tail_wait = refl
state_of-state_code hang_wait = refl
state_of-state_code rx_timeout = refl
state_of-state_code bridging = refl

pub same_state-true : (a b : RptState) → same_state a b ≡ true → a ≡ b
unfolding same_state
same_state-true a b h =
    let e : state_code a ≡ state_code b = ground arith in
    sym (state_of-state_code a) ∙ ap state_of e ∙ state_of-state_code b

-- `change_state` sets the state and writes the log, and that is all.
pub change_state_lem :
    (n : RptState) (w : Rpt)
    → let w' = change_state n w in w' ≡ record w { state = n; out = w'.out }
unfolding change_state
change_state_lem n w = grind (arith, same_state-true n w.state)

on_cor_assert_in_lem :
    (st : RptState) (w : Rpt) → w.state ≡ st → Holds w → Keeps w (on_cor_assert_in st w)
unfolding on_cor_assert_in start_receiving hold_ptt request_ptt start_tot start_debounce stop_timer
    change_state same_state
on_cor_assert_in_lem idle w e h = ground arith
on_cor_assert_in_lem receiving w e h = ground arith
on_cor_assert_in_lem tail_wait w e h = ground arith
on_cor_assert_in_lem hang_wait w e h = ground arith
on_cor_assert_in_lem rx_timeout w e h = ground arith
on_cor_assert_in_lem bridging w e h = ground arith

on_cor_drop_in_lem :
    (st : RptState) (w : Rpt) → w.state ≡ st → Holds w → Keeps w (on_cor_drop_in st w)
unfolding is_live on_cor_drop_in drop_ptt release_ptt start_tail stop_timer emit change_state
    same_state
on_cor_drop_in_lem idle w e h = ground arith
on_cor_drop_in_lem receiving w e h = ground arith
on_cor_drop_in_lem tail_wait w e h = ground arith
on_cor_drop_in_lem hang_wait w e h = ground arith
on_cor_drop_in_lem rx_timeout w e h = ground arith
on_cor_drop_in_lem bridging w e h = ground arith

tail_expired_in_lem :
    (st : RptState) (w : Rpt) → w.state ≡ st → Holds w → Keeps w (tail_expired_in st w)
unfolding tail_expired_in drop_ptt release_ptt start_hang emit change_state same_state
tail_expired_in_lem idle w e h = ground arith
tail_expired_in_lem receiving w e h = ground arith
tail_expired_in_lem tail_wait w e h = ground arith
tail_expired_in_lem hang_wait w e h = ground arith
tail_expired_in_lem rx_timeout w e h = ground arith
tail_expired_in_lem bridging w e h = ground arith

-- The table and the tail's id do not matter to the count.
tail_expired_lem : (id : ℤ) (w : Rpt) → Holds w → Keeps w (tail_expired (stop_timer id w))
unfolding tail_expired stop_timer
tail_expired_lem id w h =
    let w1 : Rpt = record (stop_timer id w) { tail_timer = no_timer } in
    ground (arith, tail_expired_in_lem w.state w1)

debounce_expired_lem : (w : Rpt) → Holds w → Keeps w (debounce_expired w)
unfolding debounce_expired start_receiving hold_ptt request_ptt start_tot emit change_state
    same_state
debounce_expired_lem w h = ground (arith, same_state-true w.state idle)

tot_expired_lem : (w : Rpt) → Holds w → w.state ≡ receiving → Keeps w (tot_expired w)
unfolding is_live tot_expired emit change_state same_state
tot_expired_lem w h r = ground arith

on_cor_assert_lem : (w : Rpt) → Holds w → Keeps w (on_cor_assert w)
unfolding on_cor_assert
on_cor_assert_lem w h = on_cor_assert_in_lem w.state w refl h

on_cor_drop_lem : (w : Rpt) → Holds w → Keeps w (on_cor_drop w)
unfolding on_cor_drop stop_timer
on_cor_drop_lem w h = ground (arith, on_cor_drop_in_lem w.state w refl h)

on_link_rx_assert_lem : (w : Rpt) → Holds w → Keeps w (on_link_rx_assert w)
unfolding on_link_rx_assert change_state same_state
on_link_rx_assert_lem w h = ground (arith, same_state-true w.state idle)

on_link_rx_drop_lem : (w : Rpt) → Holds w → Keeps w (on_link_rx_drop w)
unfolding on_link_rx_drop change_state same_state
on_link_rx_drop_lem w h = ground (arith, same_state-true w.state bridging)

-- Each input to the loaded module moves the core's reference count exactly as it moves what the
-- module holds.
step_lem : (i : RptInput) (w : Rpt) → Holds w → Keeps w (step i w)
unfolding step if_live stop_timer on_caller_identified on_caller_cleared
step_lem cor_assert w h = on_cor_assert_lem w h
step_lem cor_drop w h = on_cor_drop_lem w h
step_lem link_rx_assert w h = on_link_rx_assert_lem w h
step_lem link_rx_drop w h = on_link_rx_drop_lem w h
step_lem caller_known w h = ground arith
step_lem caller_gone w h = ground arith
step_lem tail_due w h = ground (arith, tail_expired_lem w.tail_timer w h)
step_lem hang_due w h = ground (arith, tail_expired_lem w.hang_timer w h)
step_lem tot_due w h = ground (arith, tot_expired_lem (stop_timer w.tot_timer w))
step_lem debounce_due w h = ground (arith, debounce_expired_lem (stop_timer w.debounce_timer w))
step_lem (emergency_set on) w h = ground arith

-- Over any inputs to the loaded module in software-relay mode, the core's reference count moves exactly
-- as what the module holds: one reference while a session lasts, and none outside. The time-out timer
-- runs while receiving only.
pub run_balance : (is : List RptInput) (w : Rpt) → Holds w → Keeps w (run is w)
unfolding run
run_balance [] w h = (h, refl)
run_balance (i ∷ is) w h =
    let (h1, e1) = step_lem i w h in
    let (h2, e2) = run_balance is (step i w) h1 in (h2, omega (arith, e1, e2))

stop_timer_lem :
    (id : ℤ) (w : Rpt) → stop_timer id w ≡ record w { timers = (stop_timer id w).timers }
unfolding stop_timer
stop_timer_lem id w = ground arith

stop_timers_lem :
    (w : Rpt)
    → let w' = stop_timers w in (w'.state ≡ w.state) × (w'.ptt ≡ w.ptt) × (w'.settings ≡ w.settings)
unfolding stop_timers
stop_timers_lem w =
    let w1 = stop_timer w.tail_timer w in
    let w2 = stop_timer w.hang_timer w1 in
    let w3 = stop_timer w.tot_timer w2 in
    let e1 = stop_timer_lem w.tail_timer w in
    let e2 = stop_timer_lem w.hang_timer w1 in
    let e3 = stop_timer_lem w.tot_timer w2 in
    let e4 = stop_timer_lem w.debounce_timer w3 in
    (
      ap (λ v. v.state) e4 ∙ ap (λ v. v.state) e3 ∙ ap (λ v. v.state) e2 ∙ ap (λ v. v.state) e1,
      ap (λ v. v.ptt) e4 ∙ ap (λ v. v.ptt) e3 ∙ ap (λ v. v.ptt) e2 ∙ ap (λ v. v.ptt) e1,
      ap (λ v. v.settings) e4
          ∙ ap (λ v. v.settings) e3
          ∙ ap (λ v. v.settings) e2
          ∙ ap (λ v. v.settings) e1,
    )

unload_at :
    (st : RptState) (w : Rpt)
    → w.state ≡ st
    → Holds w
    → (w.state ≢ rx_timeout → (repeater_unload w).ptt.refcount + held w.state ≡ w.ptt.refcount)
      × (w.state ≡ rx_timeout → (repeater_unload w).ptt ≡ w.ptt)
unfolding repeater_unload unload_holds drop_ptt release_ptt
unload_at idle w e h = ground (arith, stop_timers_lem w)
unload_at receiving w e h = ground (arith, stop_timers_lem w)
unload_at tail_wait w e h = ground (arith, stop_timers_lem w)
unload_at hang_wait w e h = ground (arith, stop_timers_lem w)
unload_at rx_timeout w e h = ground (arith, stop_timers_lem w)
unload_at bridging w e h = ground (arith, stop_timers_lem w)

-- In software-relay mode, unloading the module gives its reference back, except in the time-out
-- state, where it keeps it.
pub repeater_unload_lem :
    (w : Rpt)
    → Holds w
    → (w.state ≢ rx_timeout → (repeater_unload w).ptt.refcount + held w.state ≡ w.ptt.refcount)
      × (w.state ≡ rx_timeout → (repeater_unload w).ptt ≡ w.ptt)
repeater_unload_lem w h = unload_at w.state w refl h
