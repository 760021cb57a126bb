-- ===== src/Tests/OtpTests.antt =====
-- Runs of modules/mod_otp.c.
use kerchunk.Prelude.{ℕ, ◌≡◌, ◌%◌, ◌+◌, ◌<◌, refl, Bool, not, pos, some, List, [], ◌∷◌, arith}
use kerchunk.Text.{Bytes, is_empty}
use kerchunk.Timer.{init}
use kerchunk.User.{User}
use kerchunk.Otp.{Otp, guard_of, otp_lockout_s}
use kerchunk.Otp.Command.{OtpInput, command, identified, time_passes, events}
use kerchunk.Otp.Sessions.{accepted}
use kerchunk.Otp.Replay.{Growing, events-Growing}
use kerchunk.Otp.Locks.{lock_of}
use kerchunk.Otp.Locked.{time_of, locked_out}

-- The code of a time step is its number.
abbrev number_code : Bytes → ℕ → ℕ
number_code secret counter = counter % 1000000

abbrev has_bytes : Bytes → Bool
has_bytes secret = not (is_empty secret)

abbrev ben : User
ben = record {
  id = 3;
  username = b'b' ∷ [];
  name = b'B' ∷ [];
  email = [];
  callsign = [];
  dtmf_login = [];
  ani = [];
  access = pos 2;
  voicemail = pos 0;
  group = pos 0;
  totp_secret = b'A' ∷ b'A' ∷ [];
}

-- The user has used the code of step 40, and another has given five wrong ones at 1260.
abbrev in_use : Otp
in_use = record {
  session_timeout_ms = pos 120000;
  time_skew = pos 1;
  current_caller = 3;
  lockout = record { user_id = 4; failures = 5; last_failure = 1260 } ∷ [];
  last_counter = record { user_id = 3; last_counter = 40 } ∷ [];
  sessions = [];
  elevated = [];
  users = ben ∷ [];
  timers = init;
  now = 5000;
  wall = 1260;
}

abbrev inputs : List OtpInput
inputs =
    command (b'0' ∷ b'0' ∷ b'0' ∷ b'0' ∷ b'4' ∷ b'2' ∷ [])
    ∷ time_passes 9000 30
    ∷ identified 4
    ∷ command (b'0' ∷ b'0' ∷ b'0' ∷ b'0' ∷ b'4' ∷ b'3' ∷ [])
    ∷ []

guarded_at_40 : guard_of 3 in_use.last_counter ≡ some 40
unfolding guard_of
guarded_at_40 = refl

events-Growing_example : Growing 40 (accepted 3 (events has_bytes number_code inputs in_use))
events-Growing_example =
    events-Growing has_bytes number_code 3 40 inputs in_use (omega arith) guarded_at_40

locked_at_1260 : lock_of 4 in_use.lockout ≡ some 1260
unfolding lock_of
locked_at_1260 = refl

soon : in_use.wall + time_of inputs < 1260 + otp_lockout_s
unfolding time_of
soon = omega arith

locked_out_example : accepted 4 (events has_bytes number_code inputs in_use) ≡ []
locked_out_example =
    locked_out has_bytes number_code 4 1260 inputs in_use (omega arith) locked_at_1260 soon

-- The right code is taken, and a wrong one of another user is not.
takes_42 : accepted 3 (events has_bytes number_code inputs in_use) ≡ 42 ∷ []
unfolding events accepted kerchunk.Otp.Command.step kerchunk.Otp.Command.on_otp_command
    kerchunk.Otp.Command.try_code kerchunk.Otp.Command.totp_verify kerchunk.Otp.Command.find_counter
    kerchunk.Otp.Command.decide kerchunk.Otp.Command.accept kerchunk.Otp.is_locked
    kerchunk.Otp.forget_failures guard_of kerchunk.Otp.record_counter kerchunk.Otp.put_counter
    kerchunk.Otp.session_start kerchunk.Otp.first_session kerchunk.User.lookup_by_id
    kerchunk.Config.Duration.all_digits kerchunk.Config.Numbers.atoi kerchunk.Config.Numbers.signed
    kerchunk.Text.trim_start kerchunk.Config.Duration.read_digits
takes_42 = refl
