-- ===== src/Tests/CallerTests.antt =====
-- Runs of modules/mod_caller.c.
use kerchunk.Prelude.{◌≡◌, false, pos, negsuc, [], ◌∷◌, arith}
use kerchunk.Timer.{timer_runs, init}
use kerchunk.User.{User}
use kerchunk.Caller.{Caller, no_method}
use kerchunk.Caller.Handlers.{
  run, on_dtmf_digit, cor_up, cor_down, ani_due, session_due, digit, time_passes,
}
use kerchunk.Caller.Invariant.{IsValid, run_caller-IsValid}
use kerchunk.Caller.Login.{type_digits, session_after, typed_code}

abbrev ada : User
ada = record {
  id = 3;
  username = b'a' ∷ [];
  name = b'A' ∷ [];
  email = [];
  callsign = [];
  dtmf_login = b'7' ∷ b'7' ∷ [];
  ani = b'1' ∷ b'2' ∷ [];
  access = pos 2;
  voicemail = pos 0;
  group = pos 0;
  totp_secret = [];
}

abbrev idle : Caller
idle = record {
  current_user = 0;
  method = no_method;
  ani_active = false;
  ani_buf = [];
  ani_timer = negsuc 0;
  ani_window_ms = pos 500;
  login_active = false;
  login_buf = [];
  session_user = 0;
  session_timer = negsuc 0;
  login_timeout_ms = pos 1800000;
  session_started_at = 0;
  logout_code = b'0' ∷ [];
  users = ada ∷ [];
  timers = init;
  now = 1000;
  wall = 5000;
  fired = [];
}

idle-IsValid : IsValid idle
unfolding init timer_runs
idle-IsValid = ground arith

run_caller-IsValid_example : IsValid (
    run
      (cor_up
        ∷ digit b'1'
        ∷ ani_due
        ∷ digit b'*'
        ∷ digit b'7'
        ∷ digit b'7'
        ∷ digit b'#'
        ∷ cor_down
        ∷ time_passes 9000 9
        ∷ session_due
        ∷ [])
      idle)
run_caller-IsValid_example =
    run_caller-IsValid
      (cor_up
        ∷ digit b'1'
        ∷ ani_due
        ∷ digit b'*'
        ∷ digit b'7'
        ∷ digit b'7'
        ∷ digit b'#'
        ∷ cor_down
        ∷ time_passes 9000 9
        ∷ session_due
        ∷ [])
      idle idle-IsValid

typed_code_example :
    let w' = on_dtmf_digit b'#' (type_digits (b'7' ∷ b'7' ∷ []) (on_dtmf_digit b'*' idle)) in
    (w'.session_user ≡ session_after (b'7' ∷ b'7' ∷ []) idle) × (w'.login_active ≡ false)
typed_code_example =
    typed_code idle (b'7' ∷ b'7' ∷ [])
      ((λ e. omega arith), (λ e. omega arith), ((λ e. omega arith), (λ e. omega arith), tt))
      (omega arith)
