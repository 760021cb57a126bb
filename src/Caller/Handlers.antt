-- ===== src/Caller/Handlers.antt =====
-- The handlers of modules/mod_caller.c.
use kerchunk.Prelude.{
  ℕ, ◌+◌, true, false, not, ◌&&◌, ltb, ◌==◌, if◌then◌else◌, pos, negsuc, Option, none, some, List,
  [], ◌∷◌, ◌++◌, length,
}
use kerchunk.Text.{Bytes, same_text, fit, is_empty}
use kerchunk.Timer.{timer_runs, create, cancel}
use kerchunk.Config.{CfgEntry}
use kerchunk.Config.Entries.{config_get}
use kerchunk.Config.Duration.{get_duration_ms}
use kerchunk.User.{User, lookup_by_ani}
use kerchunk.Caller.{
  Caller, no_method, by_ani, by_login, max_ani_len, ani_expires, caller_cleared, tell,
  publish_session_snapshot, is_login, fire_identified, fire_cleared, session_timeout_cb,
  session_start, session_refresh, session_clear, do_logout,
}

-- The user of the digits captured, if there are digits and a user.
unfoldable pub identify_ani : Caller → Caller
unfolding fire_identified
identify_ani w = if is_empty w.ani_buf then w else (elim (lookup_by_ani w.ani_buf w.users) [
  | none ↦ w
  | some u ↦ fire_identified u.id by_ani w
])

-- `ani_timeout`
unfoldable pub ani_timeout : Caller → Caller
unfolding identify_ani
ani_timeout w = identify_ani (record w { ani_timer = negsuc 0; ani_active = false })

abbrev pub cancel_ani : Caller → Caller
cancel_ani w =
    if timer_runs w.ani_timer
    then record w { timers = cancel w.ani_timer w.timers; ani_timer = negsuc 0 }
    else w

-- `on_cor_assert`
unfoldable pub on_cor_assert : Caller → Caller
unfolding session_refresh fire_identified
on_cor_assert w =
    let armed : Caller = if w.ani_active then w else record w { ani_active = true; ani_buf = [] } in
    if armed.session_user == 0
    then armed
    else (let w' = session_refresh armed in
        if w'.current_user == w'.session_user
        then w'
        else fire_identified w'.session_user by_login w')

-- `on_cor_drop`
unfoldable pub on_cor_drop : Caller → Caller
unfolding fire_cleared timer_runs
on_cor_drop w0 =
    let w1 = cancel_ani w0 in
    let w : Caller = record w1 { ani_active = false } in
    if is_login w.method
    then tell caller_cleared (record w { current_user = 0; method = no_method })
    else fire_cleared w

-- The first user with a login code.
unfoldable pub find_login : Bytes → List User → Option User
find_login code [] = none
find_login code (u ∷ us) =
    let rest = find_login code us in
    if not (is_empty u.dtmf_login) && same_text u.dtmf_login code then some u else rest

-- The part of `on_dtmf_digit` for the hash.
unfoldable pub end_login : Caller → Caller
unfolding do_logout fire_identified session_start
end_login w0 =
    let w : Caller = record w0 { login_active = false } in
    let code = w.login_buf in
    if ltb 0 w.session_user
    then (if not (is_empty w.logout_code) && same_text code w.logout_code then do_logout w else w)
    else (elim (find_login code w.users) [
      | none ↦ w
      | some u ↦ session_start u.id (fire_identified u.id by_login w)
    ])

-- The part for the login sequence.
unfoldable pub login_digit : ℕ → Caller → Caller
unfolding end_login
login_digit d w =
    if d == b'*'
    then record w { login_active = true; login_buf = [] }
    else if not w.login_active
    then w
    else if d == b'#'
    then end_login w
    else if ltb (length w.login_buf) max_ani_len
    then record w { login_buf = w.login_buf ++ (d ∷ []) }
    else record w { login_active = false }

-- The part for a digit within the ANI window.
unfoldable pub ani_digit : ℕ → Caller → Caller
unfolding timer_runs
ani_digit d w =
    let timed : Caller =
      if is_empty w.ani_buf && not (timer_runs w.ani_timer)
      then (let (t, id) = create w.ani_window_ms false (some ani_expires) w.now w.timers in
          record w { timers = t; ani_timer = id })
      else w in
    record timed { ani_buf = timed.ani_buf ++ (d ∷ []) }

-- `on_dtmf_digit`
unfoldable pub on_dtmf_digit : ℕ → Caller → Caller
unfolding login_digit ani_digit identify_ani timer_runs
on_dtmf_digit d w =
    if w.ani_active && ltb (length w.ani_buf) max_ani_len
    then (if d == b'*'
        then login_digit d (identify_ani (cancel_ani (record w { ani_active = false })))
        else ani_digit d w)
    else login_digit d w

abbrev pub caller_section : Bytes
caller_section = b'c' ∷ b'a' ∷ b'l' ∷ b'l' ∷ b'e' ∷ b'r' ∷ []

abbrev pub ani_window_key : Bytes
ani_window_key = b'a' ∷ b'n' ∷ b'i' ∷ b'_' ∷ b'w' ∷ b'i' ∷ b'n' ∷ b'd' ∷ b'o' ∷ b'w' ∷ []

abbrev pub login_timeout_key : Bytes
login_timeout_key =
    b'l' ∷ b'o' ∷ b'g' ∷ b'i' ∷ b'n' ∷ b'_' ∷ b't' ∷ b'i' ∷ b'm' ∷ b'e' ∷ b'o' ∷ b'u' ∷ b't' ∷ []

abbrev pub logout_code_key : Bytes
logout_code_key = b'l' ∷ b'o' ∷ b'g' ∷ b'o' ∷ b'u' ∷ b't' ∷ b'_' ∷ b'c' ∷ b'o' ∷ b'd' ∷ b'e' ∷ []

abbrev pub code_or_empty : Option Bytes → Bytes
code_or_empty none = []
code_or_empty (some v) = fit (max_ani_len + 1) v

-- `caller_configure`
unfoldable pub caller_configure : List CfgEntry → Caller → Caller
caller_configure cfg w = publish_session_snapshot (record w {
  ani_window_ms = get_duration_ms cfg caller_section ani_window_key (pos 1000);
  login_timeout_ms = get_duration_ms cfg caller_section login_timeout_key (pos 1800000);
  logout_code = code_or_empty (config_get caller_section logout_code_key cfg);
})

-- `caller_unload`, which leaves the id in `g_ani_timer`
unfoldable pub caller_unload : Caller → Caller
unfolding session_clear timer_runs
caller_unload w =
    session_clear (record w {
      timers = if timer_runs w.ani_timer then cancel w.ani_timer w.timers else w.timers;
    })

-- What reaches the loaded module; a timer only while it runs, and the table puts it out before the
-- call. `logout` is the command line's.
pub data CallerInput : Type 0 where
  cor_up cor_down ani_due session_due logout : CallerInput
  digit : ℕ → CallerInput
  configure : List CfgEntry → CallerInput
  time_passes : ℕ → ℕ → CallerInput

unfoldable pub step : CallerInput → Caller → Caller
unfolding timer_runs
step cor_up w = on_cor_assert w
step cor_down w = on_cor_drop w
step ani_due w =
    if timer_runs w.ani_timer
    then ani_timeout (record w { timers = cancel w.ani_timer w.timers })
    else w
step session_due w =
    if timer_runs w.session_timer
    then session_timeout_cb (record w { timers = cancel w.session_timer w.timers })
    else w
step logout w = do_logout w
step (digit d) w = on_dtmf_digit d w
step (configure cfg) w = caller_configure cfg w
step (time_passes us s) w = record w { now = w.now + us; wall = w.wall + s }

unfoldable pub run : List CallerInput → Caller → Caller
run [] w = w
run (i ∷ is) w = run is (step i w)
