-- ===== src/Otp/Locks.antt =====
-- The table of wrong codes of modules/mod_otp.c.
use kerchunk.Prelude.{
  ℕ, ◌+◌, ◌<◌, ◌≡◌, ◌≢◌, refl, true, leb, ◌==◌, if◌then◌else◌, Option, none, some, List, [], ◌∷◌,
  arith,
}
use kerchunk.Otp.{
  Lockout, is_locked, forget_failures, clear_failures, note_failure, otp_max_failures,
  otp_lockout_s,
}

-- When the last of five or more failures of a user was.
unfoldable pub lock_of : ℕ → List Lockout → Option ℕ
lock_of id [] = none
lock_of id (x ∷ xs) =
    let rest = lock_of id xs in
    if x.user_id == id
    then (if leb otp_max_failures x.failures then some x.last_failure else none)
    else rest

pub lock_of-is_locked :
    (id wall last : ℕ) (l : List Lockout)
    → lock_of id l ≡ some last
    → wall < last + otp_lockout_s
    → is_locked id wall l ≡ true
unfolding lock_of is_locked
lock_of-is_locked id wall last [] e t = cc
lock_of-is_locked id wall last (x ∷ xs) e t = ground (arith, lock_of-is_locked id wall last xs)

-- What the loops do for one user leaves the lock of another.
pub lock_of-forget_failures :
    (id user wall : ℕ) (l : List Lockout)
    → user ≢ id
    → lock_of id (forget_failures user wall l) ≡ lock_of id l
unfolding lock_of forget_failures
lock_of-forget_failures id user wall [] n = refl
lock_of-forget_failures id user wall (x ∷ xs) n =
    ground (arith, lock_of-forget_failures id user wall xs n)

pub lock_of-clear_failures :
    (id user : ℕ) (l : List Lockout) → user ≢ id → lock_of id (clear_failures user l) ≡ lock_of id l
unfolding lock_of clear_failures
lock_of-clear_failures id user [] n = refl
lock_of-clear_failures id user (x ∷ xs) n = ground (arith, lock_of-clear_failures id user xs n)

pub lock_of-note_failure :
    (id user wall : ℕ) (l : List Lockout)
    → user ≢ id
    → 0 < id
    → lock_of id (note_failure user wall l) ≡ lock_of id l
unfolding lock_of note_failure
lock_of-note_failure id user wall [] n p = refl
lock_of-note_failure id user wall (x ∷ xs) n p =
    ground (arith, lock_of-note_failure id user wall xs n p)
