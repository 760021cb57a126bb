-- ===== src/Repeater.antt =====
-- modules/mod_repeater.c: the repeater's state machine. Its state holds the module's variables, and
-- of the core what it calls: the PTT count, the timer table and the clock. Events and queue calls are
-- recorded in `out`, oldest first.
pub mod Handlers
pub mod Config
pub mod Runs
pub mod PttCount
pub mod TimeOut
pub mod Hang
use kerchunk.Prelude.{
  ℕ, zero, suc, ◌+◌, ◌≡◌, Bool, true, false, not, ◌&&◌, ◌||◌, ℤ, pos, negsuc, ◌==◌, if◌then◌else◌,
  List, [], ◌∷◌, ◌++◌, Option, none, some,
}
use kerchunk.Timer.{Timers, create, cancel}
use kerchunk.Core.Ptt.{Ptt, request_ptt, release_ptt}

-- `RPT_IDLE` to `RPT_BRIDGING`
pub data RptState : Type 0 where
  idle receiving tail_wait hang_wait rx_timeout bridging : RptState

abbrev pub state_code : RptState → ℕ
state_code idle = 0
state_code receiving = 1
state_code tail_wait = 2
state_code hang_wait = 3
state_code rx_timeout = 4
state_code bridging = 5

unfoldable pub same_state : RptState → RptState → Bool
same_state a b = state_code a == state_code b

-- The module's timer callbacks.
pub data Expiry : Type 0 where
  tail_expires tot_expires debounce_expires : Expiry

-- The configuration, after its limits.
pub record Settings : Type 0 where
  pub tail_time_ms : ℤ
  pub hang_time_ms : ℤ
  pub tot_time_ms : ℤ
  pub tot_warn_hz : ℕ
  pub cor_debounce_ms : ℤ
  pub require_id : Bool
  pub software_relay : Bool

-- `RX_STATE_CHANGE`, `TAIL_EXPIRE`, `TAIL_START` and `RX_TIMEOUT` events, the time-out tone and the
-- "access denied" prompt.
pub data RptOut : Type 0 where
  state_changed : RptState → RptState → RptOut
  tail_expire tail_start timed_out access_denied : RptOut
  warn_tone : ℕ → RptOut

pub record Rpt : Type 0 where
  pub state : RptState
  pub tail_timer : ℤ
  pub hang_timer : ℤ
  pub tot_timer : ℤ
  pub debounce_timer : ℤ
  pub settings : Settings
  pub caller_identified : Bool
  pub emergency : Bool
  pub timers : Timers Expiry
  pub ptt : Ptt
  pub now : ℕ
  pub out : List RptOut

-- `g_..._timer >= 0`
unfoldable pub is_live : ℤ → Bool
is_live (pos n) = true
is_live (negsuc n) = false

-- The id of no timer, -1.
abbrev pub no_timer : ℤ
no_timer = negsuc 0

unfoldable pub emit : RptOut → Rpt → Rpt
emit o w = record w { out = w.out ++ (o ∷ []) }

-- `change_state`
unfoldable pub change_state : RptState → Rpt → Rpt
change_state new w =
    if same_state new w.state
    then w
    else record w { state = new; out = w.out ++ (state_changed w.state new ∷ []) }

-- `g_core->request_ptt("repeater")` and `g_core->release_ptt("repeater")` under `g_software_relay`
unfoldable pub hold_ptt : Rpt → Rpt
hold_ptt w = if w.settings.software_relay then record w { ptt = request_ptt w.ptt } else w

unfoldable pub drop_ptt : Rpt → Rpt
drop_ptt w = if w.settings.software_relay then record w { ptt = release_ptt w.ptt } else w

-- `g_core->timer_cancel(id)` where the id is one.
unfoldable pub stop_timer : ℤ → Rpt → Rpt
stop_timer id w = if is_live id then record w { timers = cancel id w.timers } else w

-- `g_core->timer_create(ms, 0, cb, NULL)`, into each of the variables.
unfoldable pub start_tail : Rpt → Rpt
start_tail w =
    let (t, id) = create w.settings.tail_time_ms false (some tail_expires) w.now w.timers in
    record w { timers = t; tail_timer = id }

unfoldable pub start_hang : Rpt → Rpt
start_hang w =
    let (t, id) = create w.settings.hang_time_ms false (some tail_expires) w.now w.timers in
    record w { timers = t; hang_timer = id }

unfoldable pub start_tot : Rpt → Rpt
start_tot w =
    let (t, id) = create w.settings.tot_time_ms false (some tot_expires) w.now w.timers in
    record w { timers = t; tot_timer = id }

unfoldable pub start_debounce : ℤ → Rpt → Rpt
start_debounce ms w =
    let (t, id) = create ms false (some debounce_expires) w.now w.timers in
    record w { timers = t; debounce_timer = id }
