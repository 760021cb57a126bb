-- ===== src/Otp/Command.antt =====
-- The handlers of modules/mod_otp.c. The code of a secret at a time step (base 32, HMAC and SHA-1) is a
-- parameter, with the test that a secret has bytes at all.
use kerchunk.Prelude.{
  ℕ, zero, suc, ◌+◌, ◌-◌, ◌*◌, ◌/◌, ◌%◌, ◌^◌, Bool, false, not, ◌||◌, ltb, leb, ◌==◌, if◌then◌else◌,
  ℤ, pos, negsuc, is_neg, pos_part, Option, none, some, List, [], ◌∷◌, ◌++◌, length, take,
}
use kerchunk.Text.{Bytes, is_empty}
use kerchunk.Timer.{timer_runs, cancel}
use kerchunk.Core.Sessions.{set_otp_elevated}
use kerchunk.User.{User, lookup_by_id}
use kerchunk.Config.{CfgEntry}
use kerchunk.Config.Duration.{get_duration_ms, all_digits}
use kerchunk.Config.Numbers.{atoi, get_int}
use kerchunk.Otp.{
  Otp, OtpSession, OtpEvent, access_denied, not_configured, invalid_code, replay_rejected,
  auth_failed, auth_success, is_locked, forget_failures, clear_failures, note_failure, guard_of,
  record_counter, session_start, session_expire_cb,
}

abbrev pub otp_section : Bytes
otp_section = b'o' ∷ b't' ∷ b'p' ∷ []

abbrev pub session_timeout_key : Bytes
session_timeout_key =
    b's' ∷ b'e' ∷ b's' ∷ b's' ∷ b'i' ∷ b'o' ∷ b'n' ∷ b'_' ∷ b't' ∷ b'i' ∷ b'm' ∷ b'e' ∷ b'o' ∷ b'u'
    ∷ b't' ∷ []

abbrev pub time_skew_key : Bytes
time_skew_key = b't' ∷ b'i' ∷ b'm' ∷ b'e' ∷ b'_' ∷ b's' ∷ b'k' ∷ b'e' ∷ b'w' ∷ []

abbrev pub same_code : ℕ → ℤ → Bool
same_code n (pos m) = n == m
same_code n (negsuc m) = false

-- `otp_configure`
unfoldable pub otp_configure : List CfgEntry → Otp → Otp
otp_configure cfg w = record w {
  session_timeout_ms = get_duration_ms cfg otp_section session_timeout_key (pos 120000);
  time_skew = get_int cfg otp_section time_skew_key (pos 1);
}

-- The loop of `otp_unload`.
unfoldable pub drop_sessions : List OtpSession → Otp → Otp
unfolding timer_runs
drop_sessions [] w = w
drop_sessions (s ∷ ss) w = drop_sessions ss (
    if s.active
    then record w {
      timers = if timer_runs s.timer_id then cancel s.timer_id w.timers else w.timers;
      elevated = set_otp_elevated (pos s.user_id) false w.elevated;
    }
    else w)

unfoldable pub otp_unload : Otp → Otp
unfolding drop_sessions
otp_unload w = drop_sessions w.sessions w

-- A code whose counter is accepted behind the replay guard.
unfoldable pub accept : ℕ → ℕ → Otp → Otp × List OtpEvent
unfolding record_counter clear_failures session_start
accept id counter w = (
  session_start id (record w {
    last_counter = record_counter id counter w.last_counter;
    lockout = clear_failures id w.lockout;
  }),
  auth_success id counter ∷ [],
)

abbrev pub is_replay : ℕ → Option ℕ → Bool
is_replay counter none = false
is_replay counter (some last) = leb counter last

-- The end of `on_otp_command`, with the counter that the code matches.
unfoldable pub decide : ℕ → Option ℕ → Otp → Otp × List OtpEvent
unfolding note_failure guard_of accept
decide id none w = (record w { lockout = note_failure id w.wall w.lockout }, auth_failed ∷ [])
decide id (some counter) w =
    if is_replay counter (guard_of id w.last_counter)
    then (w, replay_rejected ∷ [])
    else accept id counter w

-- What the module is called with. A timer that is due has been taken out of the table.
pub data OtpInput : Type 0 where
  command : Bytes → OtpInput
  identified : ℕ → OtpInput
  session_due : ℕ → OtpInput
  configure : List CfgEntry → OtpInput
  time_passes : ℕ → ℕ → OtpInput

module _ (usable : Bytes → Bool) (code_at : Bytes → ℕ → ℕ) where
  -- The loop of `totp_verify_at` over so many steps from a time on; times are `uint64_t`.
  unfoldable pub find_counter : ℕ → Bytes → ℤ → ℕ → Option ℕ
  find_counter zero secret code t = none
  find_counter (suc n) secret code t =
      let rest = find_counter n secret code ((t + 30) % 2 ^ 64) in
      if same_code (code_at secret (t / 30)) code then some (t / 30) else rest

  -- `totp_verify`
  unfoldable pub totp_verify : Bytes → Bytes → ℤ → ℕ → Option ℕ
  unfolding find_counter
  totp_verify secret code skew wall =
      if not (usable secret) || is_neg skew
      then none
      else (let n = pos_part skew in
          find_counter (2 * n + 1) secret (atoi code) ((wall + (2 ^ 64 - n * 30)) % 2 ^ 64))

  -- `on_otp_command` for a user with a secret.
  unfoldable pub try_code : Bytes → User → Otp → Otp × List OtpEvent
  unfolding is_locked forget_failures totp_verify decide
  try_code dat u w =
      let id = w.current_caller in
      let code = take 6 dat in
      if ltb (length dat) 6 || not (all_digits code)
      then (w, invalid_code ∷ [])
      else if is_locked id w.wall w.lockout
      then (w, [])
      else decide id (totp_verify u.totp_secret code w.time_skew w.wall)
          (record w { lockout = forget_failures id w.wall w.lockout })

  abbrev pub for_user : Bytes → Option User → Otp → Otp × List OtpEvent
  for_user dat none w = (w, not_configured ∷ [])
  for_user dat (some u) w =
      if is_empty u.totp_secret then (w, not_configured ∷ []) else try_code dat u w

  -- `on_otp_command`
  unfoldable pub on_otp_command : Bytes → Otp → Otp × List OtpEvent
  unfolding try_code
  on_otp_command dat w =
      if w.current_caller == 0
      then (w, access_denied ∷ [])
      else for_user dat (lookup_by_id w.current_caller w.users) w

  unfoldable pub step : OtpInput → Otp → Otp × List OtpEvent
  step (command dat) w = on_otp_command dat w
  step (identified id) w = (record w { current_caller = id }, [])
  step (session_due i) w = session_expire_cb i w
  step (configure cfg) w = (otp_configure cfg w, [])
  step (time_passes us s) w = (record w { now = w.now + us; wall = w.wall + s }, [])

  -- What is announced over some inputs, oldest first.
  unfoldable pub events : List OtpInput → Otp → List OtpEvent
  events [] w = []
  events (i ∷ is) w = let (w', es) = step i w in es ++ events is w'
