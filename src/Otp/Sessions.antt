-- ===== src/Otp/Sessions.antt =====
-- What the sessions of modules/mod_otp.c leave alone, and what is accepted.
use mathlib.Core.List.{append_assoc}
use kerchunk.Prelude.{
  ℕ, ◌≡◌, refl, ap, ◌∙◌, sym, not, ◌==◌, if◌then◌else◌, Option, none, some, List, [], ◌∷◌, ◌++◌,
  get_elem?, arith,
}
use kerchunk.Otp.{
  Otp, OtpEvent, OtpSession, LastCounter, Lockout, access_denied, not_configured, invalid_code,
  replay_rejected, auth_failed, auth_success, session_expired, session_start, start_at, start_in,
  start_in_free, find_session, first_session, stop_timer, expire_at,
}

-- The counters of the codes of a user that are accepted.
abbrev pub accepted_of : ℕ → OtpEvent → List ℕ
accepted_of id (auth_success user counter) = if user == id then counter ∷ [] else []
accepted_of id access_denied = []
accepted_of id not_configured = []
accepted_of id invalid_code = []
accepted_of id replay_rejected = []
accepted_of id auth_failed = []
accepted_of id session_expired = []

unfoldable pub accepted : ℕ → List OtpEvent → List ℕ
accepted id [] = []
accepted id (e ∷ es) = accepted_of id e ++ accepted id es

pub accepted-append :
    (id : ℕ) (es fs : List OtpEvent) → accepted id (es ++ fs) ≡ accepted id es ++ accepted id fs
unfolding accepted
accepted-append id [] fs = refl
accepted-append id (e ∷ es) fs =
    ap (λ l. accepted_of id e ++ l) (accepted-append id es fs)
    ∙ sym (append_assoc (accepted_of id e) (accepted id es) (accepted id fs))

-- The tables of the guards and of the failures, and the clock.
abbrev pub tables : Otp → (List LastCounter × List Lockout) × ℕ
tables w = ((w.last_counter, w.lockout), w.wall)

start_at-tables : (i id : ℕ) (w : Otp) → tables (start_at i id w) ≡ tables w
unfolding start_at
start_at-tables i id w = refl

stop_timer-tables : (s : Option OtpSession) (w : Otp) → tables (stop_timer s w) ≡ tables w
stop_timer-tables none w = refl
stop_timer-tables (some s) w = ground arith

start_in_free-tables : (id : ℕ) (w : Otp) (r : Option ℕ) → tables (start_in_free id w r) ≡ tables w
start_in_free-tables id w none = refl
start_in_free-tables id w (some i) = start_at-tables i id w

start_in-tables : (id : ℕ) (w : Otp) (r : Option ℕ) → tables (start_in id w r) ≡ tables w
start_in-tables id w none = start_in_free-tables id w (first_session (λ s. not s.active) w.sessions)
start_in-tables id w (some i) =
    let s = get_elem? w.sessions i in start_at-tables i id (stop_timer s w) ∙ stop_timer-tables s w

pub session_start-tables : (id : ℕ) (w : Otp) → tables (session_start id w) ≡ tables w
unfolding session_start
session_start-tables id w = start_in-tables id w (find_session id w.sessions)

pub expire_at-tables :
    (i : ℕ) (w : Otp) (s : Option OtpSession) → tables (expire_at i w s).0 ≡ tables w
expire_at-tables i w none = refl
expire_at-tables i w (some s) = ground arith

pub expire_at-accepted :
    (id i : ℕ) (w : Otp) (s : Option OtpSession) → accepted id (expire_at i w s).1 ≡ []
unfolding accepted
expire_at-accepted id i w none = refl
expire_at-accepted id i w (some s) = ground arith
