-- ===== src/Caller.antt =====
-- modules/mod_caller.c: who transmits. The state holds the module's variables, and of the core the users,
-- the timer table and the clocks. What the module fires, publishes and says is recorded in `fired`,
-- oldest first. A user id is positive; 0 is nobody.
pub mod Handlers
pub mod Invariant
pub mod Login
use kerchunk.Prelude.{
  ℕ, Bool, true, false, not, ◌&&◌, ◌||◌, ltb, ◌==◌, if◌then◌else◌, ℤ, pos, negsuc, Option, none,
  some, List, [], ◌∷◌, ◌++◌,
}
use kerchunk.Text.{Bytes, same_text, is_empty}
use kerchunk.Timer.{Timers, timer_runs, create, cancel}
use kerchunk.User.{User}

-- `MAX_ANI_LEN`
abbrev pub max_ani_len : ℕ
max_ani_len = 8

-- `g_current_method`: 0, `KERCHUNK_CALLER_DTMF_ANI` and `KERCHUNK_CALLER_DTMF_LOGIN`
pub data Method : Type 0 where
  no_method by_ani by_login : Method

-- The module's timer callbacks.
pub data CallerExpiry : Type 0 where
  ani_expires session_expires : CallerExpiry

pub data CallerEvent : Type 0 where
  identified : ℕ → Method → CallerEvent
  caller_cleared : CallerEvent
  snapshot : ℕ → ℕ → CallerEvent
  welcome goodbye expired : ℕ → CallerEvent

-- The file-scope variables; a buffer has as many bytes as its position says.
pub record Caller : Type 0 where
  pub current_user : ℕ
  pub method : Method
  pub ani_active : Bool
  pub ani_buf : Bytes
  pub ani_timer : ℤ
  pub ani_window_ms : ℤ
  pub login_active : Bool
  pub login_buf : Bytes
  pub session_user : ℕ
  pub session_timer : ℤ
  pub login_timeout_ms : ℤ
  pub session_started_at : ℕ
  pub logout_code : Bytes
  pub users : List User
  pub timers : Timers CallerExpiry
  pub now : ℕ
  pub wall : ℕ
  pub fired : List CallerEvent

abbrev pub tell : CallerEvent → Caller → Caller
tell e w = record w { fired = w.fired ++ (e ∷ []) }

-- `publish_session_snapshot`
abbrev pub publish_session_snapshot : Caller → Caller
publish_session_snapshot w = tell (snapshot w.session_user w.current_user) w

-- `fire_identified`
unfoldable pub fire_identified : ℕ → Method → Caller → Caller
fire_identified user method w =
    publish_session_snapshot
      (tell (identified user method) (record w { current_user = user; method = method }))

-- `fire_cleared`
unfoldable pub fire_cleared : Caller → Caller
fire_cleared w =
    if w.current_user == 0
    then w
    else publish_session_snapshot
        (tell caller_cleared (record w { current_user = 0; method = no_method }))

abbrev pub is_login : Method → Bool
is_login no_method = false
is_login by_ani = false
is_login by_login = true

-- `session_timeout_cb`
unfoldable pub session_timeout_cb : Caller → Caller
unfolding fire_cleared
session_timeout_cb w0 =
    let w : Caller = record w0 { session_timer = negsuc 0 } in
    if w.session_user == 0
    then w
    else (let out : Caller = record w { session_user = 0; session_started_at = 0 } in
        let gone =
          if ltb 0 out.current_user && is_login out.method then fire_cleared out else out in
        tell (expired w.session_user) (publish_session_snapshot gone))

-- The restart of the session's timer, which `session_start` and `session_refresh` share.
abbrev pub rearm_session : Caller → Caller
rearm_session w =
    let (t, id) =
      create w.login_timeout_ms false (some session_expires) w.now
        (if timer_runs w.session_timer then cancel w.session_timer w.timers else w.timers) in
    record w { timers = t; session_timer = id }

-- `session_start`
unfoldable pub session_start : ℕ → Caller → Caller
unfolding timer_runs
session_start user w = tell (welcome user) (
    publish_session_snapshot
      (rearm_session (record w { session_user = user; session_started_at = w.wall })))

-- `session_refresh`
unfoldable pub session_refresh : Caller → Caller
unfolding timer_runs
session_refresh w =
    if w.session_user == 0 || not (timer_runs w.session_timer)
    then w
    else (let w' = rearm_session w in
        publish_session_snapshot (record w' { session_started_at = w.wall }))

-- `session_clear`
unfoldable pub session_clear : Caller → Caller
unfolding timer_runs
session_clear w =
    let w' =
      if timer_runs w.session_timer
      then record w { timers = cancel w.session_timer w.timers; session_timer = negsuc 0 }
      else w in
    publish_session_snapshot (record w' { session_user = 0; session_started_at = 0 })

-- `do_logout`
unfoldable pub do_logout : Caller → Caller
unfolding session_clear fire_cleared
do_logout w =
    if w.session_user == 0
    then w
    else (let w' = session_clear (tell (goodbye w.session_user) w) in
        if ltb 0 w'.current_user then fire_cleared w' else w')
