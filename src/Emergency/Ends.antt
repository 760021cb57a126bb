-- ===== src/Emergency/Ends.antt =====
-- When the emergency mode of modules/mod_emergency.c ends by itself.
use kerchunk.Prelude.{
  ℕ, ◌<◌, ◌≡◌, inl, inr, ℤ, pos, true, false, Bool, is_pos, pos_part, ap, ◌∙◌, some, List, [], ◌∷◌,
  arith,
}
use kerchunk.Timer.{timer_runs, new_entry, create}
use kerchunk.Timer.Laws.{IsValid, AllActive, find_active, create_lem}
use kerchunk.Core.Sessions.{set_emergency, set_emergency_expires_at}
use kerchunk.Emergency.{
  EmergencyMode, emergency_expires, emergency_off, emergency_timeout, on_emergency_on,
  emergency_configure, EmergencyInput, code_on, code_off, timer_due, unload, configure, step, run,
}

-- Inputs that neither end the mode nor unload the module.
abbrev pub leaves_on : EmergencyInput → Bool
leaves_on code_on = true
leaves_on code_off = false
leaves_on timer_due = true
leaves_on unload = false
leaves_on (configure cfg) = true

abbrev pub AllLeaveOn : List EmergencyInput → Type 0
AllLeaveOn [] = Unit {0}
AllLeaveOn (i ∷ is) = (leaves_on i ≡ true) × AllLeaveOn is

-- On, and without a timer.
record Unending (w : EmergencyMode) : Type 0 where
  on : w.flag.active ≡ true
  timerless : timer_runs w.timer ≡ false

step-Unending :
    (i : EmergencyInput) (w : EmergencyMode) → leaves_on i ≡ true → Unending w → Unending (step i w)
unfolding step on_emergency_on emergency_configure timer_runs
step-Unending code_on w l u = ground arith
step-Unending code_off w l u = ground arith
step-Unending timer_due w l u = ground arith
step-Unending unload w l u = ground arith
step-Unending (configure cfg) w l u = record { on = u.on; timerless = u.timerless }

run-Unending :
    (is : List EmergencyInput) (w : EmergencyMode)
    → AllLeaveOn is
    → Unending w
    → Unending (run is w)
unfolding run
run-Unending [] w a u = u
run-Unending (i ∷ is) w a u = run-Unending is (step i w) a.1 (step-Unending i w a.0 u)

on_emergency_on-Unending :
    (w : EmergencyMode)
    → w.flag.active ≡ false
    → is_pos w.timeout_ms ≡ false
    → Unending (on_emergency_on w)
unfolding on_emergency_on timer_runs create set_emergency set_emergency_expires_at
on_emergency_on-Unending w e n = ground arith

-- With a time-out that is not positive the emergency mode, once switched on from off, stays on
-- until it is switched off or the module is unloaded, whatever the configuration becomes.
pub emergency_unending :
    (w : EmergencyMode) (is : List EmergencyInput)
    → w.flag.active ≡ false
    → is_pos w.timeout_ms ≡ false
    → AllLeaveOn is
    → (run is (on_emergency_on w)).flag.active ≡ true
emergency_unending w is e n a =
    (run-Unending is (on_emergency_on w) a (on_emergency_on-Unending w e n)).on

-- What switching on does to the timer.
started :
    (w : EmergencyMode)
    → w.flag.active ≡ false
    → timer_runs w.timer ≡ false
    → let w' = on_emergency_on w in
      let (t, id) = create w.timeout_ms false (some emergency_expires) w.now w.timers in
      (w'.timers ≡ t) × (w'.timer ≡ id) × (w'.flag.active ≡ true)
unfolding on_emergency_on timer_runs set_emergency set_emergency_expires_at
started w e n = ground arith

times_out :
    (w : EmergencyMode)
    → w.flag.active ≡ true
    → timer_runs w.timer ≡ true
    → let w' = step timer_due w in
      (w'.flag.active ≡ false) × (w'.flag.expires_at ≡ 0) × (timer_runs w'.timer ≡ false)
unfolding step emergency_timeout emergency_off timer_runs set_emergency
times_out w e n = ground arith

live_id : (id : ℤ) (n : ℕ) → id ≡ pos n → (timer_runs id ≡ true) × (pos_part id ≡ n)
unfolding timer_runs
live_id id n e = ground arith

-- With a positive time-out, a free timer slot and no timer of its own, switching the emergency
-- mode on from off starts a timer for the configured time, and the mode ends when that timer is
-- due, with no timer left.
pub emergency_ends :
    (w : EmergencyMode) (ms : ℕ)
    → w.flag.active ≡ false
    → timer_runs w.timer ≡ false
    → w.timeout_ms ≡ pos ms
    → 0 < ms
    → IsValid w.timers
    → ¬ AllActive w.timers.slots
    → let w' = on_emergency_on w in
      let w'' = step timer_due w' in
      (w'.flag.active ≡ true)
      × (find_active (pos_part w'.timer) w'.timers.slots
          ≡ some (new_entry w.timers.next_id ms false emergency_expires w.now))
      × (w''.flag.active ≡ false)
      × (w''.flag.expires_at ≡ 0)
      × (timer_runs w''.timer ≡ false)
emergency_ends w ms e n m p v f =
    let (ts, id, on) = started w e n in
    let w' = on_emergency_on w in
    elim (create_lem ms false emergency_expires w.now w.timers p v) [
      | inl (none_left, same, all) ↦ elim (f all) [ ]
      | inr (new_id, valid, found) ↦
          let same = ap (λ x. create x false (some emergency_expires) w.now w.timers) m in
          let (live, part) = live_id w'.timer w.timers.next_id (id ∙ ap (λ c. c.1) same ∙ new_id) in
          let (off, expires, gone) = times_out w' on live in
          (
            on,
            ground (arith, ap (λ c. c.0) same, ts, part, found w.timers.next_id),
            off,
            expires,
            gone,
          )
    ]
