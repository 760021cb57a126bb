-- ===== src/Emergency.antt =====
-- modules/mod_emergency.c: the emergency mode, which lifts the repeater's time-out. The state holds the
-- module's variables, and of the core the emergency flag, the timer table and the clocks. Announcements
-- are recorded in `announced`, oldest first.
pub mod Ends
use kerchunk.Prelude.{
  ℕ, ◌+◌, ◌-◌, ◌/◌, Bool, true, false, if◌then◌else◌, ℤ, pos, negsuc, some, List, [], ◌∷◌, ◌++◌,
  suc,
}
use kerchunk.Text.{Bytes}
use kerchunk.Timer.{Timers, timer_runs, create, cancel}
use kerchunk.Core.Sessions.{Emergency, set_emergency, set_emergency_expires_at}
use kerchunk.Config.{CfgEntry}
use kerchunk.Config.Duration.{get_duration_ms}

-- The module's one timer callback.
pub data EmergencyExpiry : Type 0 where
  emergency_expires : EmergencyExpiry

pub data Announcement : Type 0 where
  activated deactivated : Announcement

-- `g_timer` and `g_timeout_ms`; `wall` is `time(NULL)`.
pub record EmergencyMode : Type 0 where
  pub flag : Emergency
  pub timer : ℤ
  pub timeout_ms : ℤ
  pub timers : Timers EmergencyExpiry
  pub now : ℕ
  pub wall : ℕ
  pub announced : List Announcement

abbrev pub put_out : EmergencyMode → EmergencyMode
put_out w =
    if timer_runs w.timer
    then record w { timers = cancel w.timer w.timers; timer = negsuc 0 }
    else w

-- `emergency_off`
unfoldable pub emergency_off : EmergencyMode → EmergencyMode
unfolding timer_runs
emergency_off w =
    if w.flag.active
    then (let w' = put_out (record w { flag = set_emergency false w.flag }) in
        record w' { announced = w'.announced ++ (deactivated ∷ []) })
    else w

-- `timeout_cb`
unfoldable pub emergency_timeout : EmergencyMode → EmergencyMode
unfolding emergency_off
emergency_timeout w = emergency_off (record w { timer = negsuc 0 })

-- `time(NULL) + g_timeout_ms / 1000`; C rounds towards 0.
abbrev pub expiry : ℕ → ℤ → ℕ
expiry wall (pos n) = wall + n / 1000
expiry wall (negsuc n) = wall - suc n / 1000

-- `on_emergency_on`
unfoldable pub on_emergency_on : EmergencyMode → EmergencyMode
unfolding timer_runs
on_emergency_on w =
    if w.flag.active
    then w
    else (let w' = put_out (record w {
      flag = set_emergency_expires_at (expiry w.wall w.timeout_ms) (set_emergency true w.flag);
    }) in
        let (t, id) = create w'.timeout_ms false (some emergency_expires) w'.now w'.timers in
        record w' { timers = t; timer = id; announced = w'.announced ++ (activated ∷ []) })

abbrev pub emergency_section : Bytes
emergency_section = b'e' ∷ b'm' ∷ b'e' ∷ b'r' ∷ b'g' ∷ b'e' ∷ b'n' ∷ b'c' ∷ b'y' ∷ []

abbrev pub timeout_key : Bytes
timeout_key = b't' ∷ b'i' ∷ b'm' ∷ b'e' ∷ b'o' ∷ b'u' ∷ b't' ∷ []

-- `emergency_configure`
unfoldable pub emergency_configure : List CfgEntry → EmergencyMode → EmergencyMode
emergency_configure cfg w = record w {
  timeout_ms = get_duration_ms cfg emergency_section timeout_key (pos 1800000);
}

-- `emergency_unload`; it leaves the id in `g_timer`.
unfoldable pub emergency_unload : EmergencyMode → EmergencyMode
unfolding timer_runs
emergency_unload w = record w {
  timers = if timer_runs w.timer then cancel w.timer w.timers else w.timers;
  flag = set_emergency false w.flag;
}

-- What reaches the module; its timer while it runs, which the table puts out before the call.
pub data EmergencyInput : Type 0 where
  code_on code_off timer_due unload : EmergencyInput
  configure : List CfgEntry → EmergencyInput

unfoldable pub step : EmergencyInput → EmergencyMode → EmergencyMode
step code_on w = on_emergency_on w
step code_off w = emergency_off w
step timer_due w =
    if timer_runs w.timer
    then emergency_timeout (record w { timers = cancel w.timer w.timers })
    else w
step unload w = emergency_unload w
step (configure cfg) w = emergency_configure cfg w

unfoldable pub run : List EmergencyInput → EmergencyMode → EmergencyMode
run [] w = w
run (i ∷ is) w = run is (step i w)
