-- ===== src/Otp.antt =====
-- modules/mod_otp.c: raised access by one-time codes. The state holds the module's variables, and of the
-- core the raised sessions, the users, the timer table and the clocks; `wall` is `time(NULL)`. The
-- snapshots for the web pages, the words that are spoken and the tones are left out.
pub mod Command
pub mod Sessions
pub mod Guards
pub mod Replay
pub mod Locks
pub mod Locked
use kerchunk.Prelude.{
  ℕ, zero, suc, ◌+◌, ◌-◌, Bool, true, false, not, ◌&&◌, ◌||◌, ltb, leb, ◌==◌, if◌then◌else◌, ℤ, pos,
  negsuc, Option, none, some, List, [], ◌∷◌, set, get_elem?,
}
use kerchunk.Timer.{Timers, timer_runs, create, cancel}
use kerchunk.Core.Sessions.{Session, set_otp_elevated}
use kerchunk.User.{User}

-- `OTP_MAX_FAILURES` and `OTP_LOCKOUT_S`
abbrev pub otp_max_failures : ℕ
otp_max_failures = 5

abbrev pub otp_lockout_s : ℕ
otp_lockout_s = 300

-- Entries of `g_otp_lockout` and `g_otp_last_counter`; a slot that was never used has user id 0.
pub record Lockout : Type 0 where
  pub user_id : ℕ
  pub failures : ℕ
  pub last_failure : ℕ

pub record LastCounter : Type 0 where
  pub user_id : ℕ
  pub last_counter : ℕ

-- `otp_session_t`
pub record OtpSession : Type 0 where
  pub user_id : ℕ
  pub active : Bool
  pub timer_id : ℤ
  pub started_at : ℕ

-- The module's one timer callback, with the slot that it is given.
pub data OtpExpiry : Type 0 where
  session_expires : ℕ → OtpExpiry

-- What is announced, with the user and the counter of a code that is accepted.
pub data OtpEvent : Type 0 where
  access_denied not_configured invalid_code replay_rejected auth_failed session_expired : OtpEvent
  auth_success : ℕ → ℕ → OtpEvent

pub record Otp : Type 0 where
  pub session_timeout_ms : ℤ
  pub time_skew : ℤ
  pub current_caller : ℕ
  pub lockout : List Lockout
  pub last_counter : List LastCounter
  pub sessions : List OtpSession
  pub elevated : List Session
  pub users : List User
  pub timers : Timers OtpExpiry
  pub now : ℕ
  pub wall : ℕ

-- The loop before the check of a code: whether the user is locked out.
unfoldable pub is_locked : ℕ → ℕ → List Lockout → Bool
is_locked id wall [] = false
is_locked id wall (x ∷ xs) =
    let rest = is_locked id wall xs in
    if x.user_id == id
    then leb otp_max_failures x.failures && ltb (wall - x.last_failure) otp_lockout_s
    else rest

-- The same loop where it goes on: failures that are long ago are forgotten.
unfoldable pub forget_failures : ℕ → ℕ → List Lockout → List Lockout
forget_failures id wall [] = []
forget_failures id wall (x ∷ xs) =
    let rest = forget_failures id wall xs in
    if x.user_id == id
    then (if leb otp_lockout_s (wall - x.last_failure) then record x { failures = 0 } else x) ∷ xs
    else x ∷ rest

-- The loop behind a success.
unfoldable pub clear_failures : ℕ → List Lockout → List Lockout
clear_failures id [] = []
clear_failures id (x ∷ xs) =
    let rest = clear_failures id xs in
    if x.user_id == id then record x { failures = 0 } ∷ xs else x ∷ rest

-- The loop behind a failure: the user's slot, or the first that was never used.
unfoldable pub note_failure : ℕ → ℕ → List Lockout → List Lockout
note_failure id wall [] = []
note_failure id wall (x ∷ xs) =
    let rest = note_failure id wall xs in
    if x.user_id == id || x.user_id == 0
    then record { user_id = id; failures = x.failures + 1; last_failure = wall } ∷ xs
    else x ∷ rest

-- The replay guard's loop: the counter of the user's slot.
unfoldable pub guard_of : ℕ → List LastCounter → Option ℕ
guard_of id [] = none
guard_of id (x ∷ xs) =
    let rest = guard_of id xs in if x.user_id == id then some x.last_counter else rest

-- A counter written to the first slot of an id; `none` where there is none.
unfoldable pub put_counter : ℕ → LastCounter → List LastCounter → Option (List LastCounter)
put_counter id v [] = none
put_counter id v (x ∷ xs) =
    let rest = put_counter id v xs in
    if x.user_id == id then some (v ∷ xs) else (elim rest [ none ↦ none | some l ↦ some (x ∷ l) ])

abbrev pub or_kept : List LastCounter → Option (List LastCounter) → List LastCounter
or_kept l none = l
or_kept l (some l') = l'

abbrev pub or_new : ℕ → ℕ → List LastCounter → Option (List LastCounter) → List LastCounter
or_new id counter l none =
    or_kept l (put_counter 0 (record { user_id = id; last_counter = counter }) l)
or_new id counter l (some l') = l'

-- The slot that the loop has found: the user's, or the first that was never used.
unfoldable pub record_counter : ℕ → ℕ → List LastCounter → List LastCounter
unfolding put_counter
record_counter id counter l =
    or_new id counter l (put_counter id (record { user_id = id; last_counter = counter }) l)

-- The index of the first session with a property.
unfoldable pub first_session : (OtpSession → Bool) → List OtpSession → Option ℕ
first_session p [] = none
first_session p (x ∷ xs) =
    let rest = first_session p xs in
    if p x then some 0 else (elim rest [ none ↦ none | some i ↦ some (suc i) ])

-- `find_session`
abbrev pub find_session : ℕ → List OtpSession → Option ℕ
find_session id l = first_session (λ s. s.active && s.user_id == id) l

-- The end of `session_start`, with a slot.
unfoldable pub start_at : ℕ → ℕ → Otp → Otp
start_at i id w =
    let (timers, timer_id) =
      create w.session_timeout_ms false (some (session_expires i)) w.now w.timers in
    record w {
      sessions =
          set w.sessions i
            (record { user_id = id; active = true; timer_id = timer_id; started_at = w.wall });
      timers = timers;
      elevated = set_otp_elevated (pos id) true w.elevated;
    }

-- The timer of a session that is started again.
abbrev pub stop_timer : Option OtpSession → Otp → Otp
stop_timer none w = w
stop_timer (some s) w =
    if timer_runs s.timer_id then record w { timers = cancel s.timer_id w.timers } else w

abbrev pub start_in_free : ℕ → Otp → Option ℕ → Otp
start_in_free id w none = w
start_in_free id w (some i) = start_at i id w

abbrev pub start_in : ℕ → Otp → Option ℕ → Otp
start_in id w none = start_in_free id w (first_session (λ s. not s.active) w.sessions)
start_in id w (some i) = start_at i id (stop_timer (get_elem? w.sessions i) w)

-- `session_start`
unfoldable pub session_start : ℕ → Otp → Otp
unfolding first_session start_at
session_start id w = start_in id w (find_session id w.sessions)

abbrev pub expire_at : ℕ → Otp → Option OtpSession → Otp × List OtpEvent
expire_at i w none = (w, [])
expire_at i w (some s) = if not s.active then (w, []) else (
  record w {
    sessions = set w.sessions i (record s { active = false; timer_id = negsuc 0; started_at = 0 });
    elevated = set_otp_elevated (pos s.user_id) false w.elevated;
  },
  session_expired ∷ [],
)

-- `session_expire_cb`
unfoldable pub session_expire_cb : ℕ → Otp → Otp × List OtpEvent
session_expire_cb i w = expire_at i w (get_elem? w.sessions i)
