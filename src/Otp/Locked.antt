-- ===== src/Otp/Locked.antt =====
-- The lock behind five wrong codes, of modules/mod_otp.c.
use kerchunk.Prelude.{
  ℕ, ◌+◌, ◌<◌, ◌≡◌, ◌≢◌, refl, ap, ◌∙◌, Bool, true, false, not, ◌||◌, ltb, ◌==◌, if◌then◌else◌,
  Option, none, some, List, [], ◌∷◌, ◌++◌, get_elem?, arith, length, take,
}
use kerchunk.Text.{Bytes, is_empty}
use kerchunk.User.{User, lookup_by_id}
use kerchunk.Config.Duration.{all_digits}
use kerchunk.Otp.{
  Otp, OtpEvent, access_denied, not_configured, invalid_code, replay_rejected, is_locked,
  forget_failures, clear_failures, guard_of, record_counter, session_expire_cb, expire_at,
  otp_lockout_s,
}
use kerchunk.Otp.Sessions.{
  accepted, accepted-append, tables, session_start-tables, expire_at-tables, expire_at-accepted,
}
use kerchunk.Otp.Locks.{
  lock_of, lock_of-is_locked, lock_of-forget_failures, lock_of-clear_failures, lock_of-note_failure,
}
use kerchunk.Otp.Command.{
  accept, decide, is_replay, totp_verify, try_code, for_user, on_otp_command, OtpInput, command,
  identified, session_due, configure, time_passes, step, events, otp_configure,
}

-- A step that accepts no code of a user, and leaves the lock, at a time.
record Shut (id last wall : ℕ) (r : Otp × List OtpEvent) : Type 0 where
  refused : accepted id r.1 ≡ []
  lock : lock_of id r.0.lockout ≡ some last
  time : r.0.wall ≡ wall

Shut-if :
    (id last wall : ℕ) (b : Bool) (r r' : Otp × List OtpEvent)
    → (b ≡ true → Shut id last wall r)
    → (b ≡ false → Shut id last wall r')
    → Shut id last wall (if b then r else r')
Shut-if id last wall true r r' f g = f refl
Shut-if id last wall false r r' f g = g refl

quiet-Shut :
    (id last : ℕ) (w : Otp) (r : Otp × List OtpEvent)
    → lock_of id w.lockout ≡ some last
    → tables r.0 ≡ tables w
    → accepted id r.1 ≡ []
    → Shut id last w.wall r
quiet-Shut id last w r e same none_accepted = record {
  refused = none_accepted;
  lock = ap (λ t. lock_of id t.0.1) same ∙ e;
  time = ap (λ t. t.1) same;
}

accept-Shut :
    (id user last counter : ℕ) (w : Otp)
    → user ≢ id
    → lock_of id w.lockout ≡ some last
    → Shut id last w.wall (accept user counter w)
unfolding accept accepted
accept-Shut id user last counter w n e =
    let w' : Otp = record w {
      last_counter = record_counter user counter w.last_counter;
      lockout = clear_failures user w.lockout;
    } in
    let same = session_start-tables user w' in
    record {
      refused = ground arith;
      lock = ap (λ t. lock_of id t.0.1) same ∙ (lock_of-clear_failures id user w.lockout n ∙ e);
      time = ap (λ t. t.1) same;
    }

decide-Shut :
    (id user last : ℕ) (counter : Option ℕ) (w : Otp)
    → 0 < id
    → user ≢ id
    → lock_of id w.lockout ≡ some last
    → Shut id last w.wall (decide user counter w)
unfolding decide accepted
decide-Shut id user last none w p n e = record {
  refused = refl;
  lock = lock_of-note_failure id user w.wall w.lockout n p ∙ e;
  time = refl;
}
decide-Shut id user last (some counter) w p n e =
    Shut-if id last w.wall (is_replay counter (guard_of user w.last_counter))
      (w, replay_rejected ∷ []) (accept user counter w)
      (λ f. quiet-Shut id last w (w, replay_rejected ∷ []) e refl refl)
      (λ f. accept-Shut id user last counter w n e)

-- The seconds that pass.
abbrev pub passes : OtpInput → ℕ
passes (command dat) = 0
passes (identified id) = 0
passes (session_due i) = 0
passes (configure cfg) = 0
passes (time_passes us s) = s

-- The clock behind an input.
abbrev later : OtpInput → ℕ → ℕ
later (command dat) t = t
later (identified id) t = t
later (session_due i) t = t
later (configure cfg) t = t
later (time_passes us s) t = t + s

later-passes : (i : OtpInput) (t : ℕ) → later i t ≡ t + passes i
later-passes (command dat) t = omega arith
later-passes (identified id) t = omega arith
later-passes (session_due i) t = omega arith
later-passes (configure cfg) t = omega arith
later-passes (time_passes us s) t = refl

unfoldable pub time_of : List OtpInput → ℕ
time_of [] = 0
time_of (i ∷ is) = passes i + time_of is

module _ (usable : Bytes → Bool) (code_at : Bytes → ℕ → ℕ) where
  -- A code of the user who is locked out is not looked at, and one of another user leaves the lock.
  locked_code :
      (id last : ℕ) (dat : Bytes) (u : User) (w : Otp)
      → 0 < id
      → lock_of id w.lockout ≡ some last
      → w.wall < last + otp_lockout_s
      → Shut id last w.wall (
          if is_locked w.current_caller w.wall w.lockout
          then (w, [])
          else decide w.current_caller
              (totp_verify usable code_at u.totp_secret (take 6 dat) w.time_skew w.wall)
              (record w { lockout = forget_failures w.current_caller w.wall w.lockout }))
  unfolding accepted
  locked_code id last dat u w p e t =
      let user = w.current_caller in
      let w' : Otp = record w { lockout = forget_failures user w.wall w.lockout } in
      let counter = totp_verify usable code_at u.totp_secret (take 6 dat) w.time_skew w.wall in
      let locked = is_locked user w.wall w.lockout in
      Shut-if id last w.wall locked (w, []) (decide user counter w')
        (λ f. quiet-Shut id last w (w, []) e refl refl)
        (λ f.
          let other : user ≢ id = λ same.
            let own : locked ≡ true =
              ap (λ i. is_locked i w.wall w.lockout) same
              ∙ lock_of-is_locked id w.wall last w.lockout e t in
            ground arith in
          decide-Shut id user last counter w' p other
            (lock_of-forget_failures id user w.wall w.lockout other ∙ e))

  try_code-Shut :
      (id last : ℕ) (dat : Bytes) (u : User) (w : Otp)
      → 0 < id
      → lock_of id w.lockout ≡ some last
      → w.wall < last + otp_lockout_s
      → Shut id last w.wall (try_code usable code_at dat u w)
  unfolding try_code accepted
  try_code-Shut id last dat u w p e t =
      let user = w.current_caller in
      let w' : Otp = record w { lockout = forget_failures user w.wall w.lockout } in
      let code = take 6 dat in
      let counter = totp_verify usable code_at u.totp_secret code w.time_skew w.wall in
      let locked = is_locked user w.wall w.lockout in
      Shut-if id last w.wall (ltb (length dat) 6 || not (all_digits code)) (w, invalid_code ∷ [])
        (if locked then (w, []) else decide user counter w')
        (λ f. quiet-Shut id last w (w, invalid_code ∷ []) e refl refl)
        (λ f. locked_code id last dat u w p e t)

  for_user-Shut :
      (id last : ℕ) (dat : Bytes) (u : Option User) (w : Otp)
      → 0 < id
      → lock_of id w.lockout ≡ some last
      → w.wall < last + otp_lockout_s
      → Shut id last w.wall (for_user usable code_at dat u w)
  unfolding accepted
  for_user-Shut id last dat none w p e t = quiet-Shut id last w (w, not_configured ∷ []) e refl refl
  for_user-Shut id last dat (some u) w p e t =
      Shut-if id last w.wall (is_empty u.totp_secret) (w, not_configured ∷ [])
        (try_code usable code_at dat u w)
        (λ f. quiet-Shut id last w (w, not_configured ∷ []) e refl refl)
        (λ f. try_code-Shut id last dat u w p e t)

  on_otp_command-Shut :
      (id last : ℕ) (dat : Bytes) (w : Otp)
      → 0 < id
      → lock_of id w.lockout ≡ some last
      → w.wall < last + otp_lockout_s
      → Shut id last w.wall (on_otp_command usable code_at dat w)
  unfolding on_otp_command accepted
  on_otp_command-Shut id last dat w p e t =
      let u = lookup_by_id w.current_caller w.users in
      Shut-if id last w.wall (w.current_caller == 0) (w, access_denied ∷ [])
        (for_user usable code_at dat u w)
        (λ f. quiet-Shut id last w (w, access_denied ∷ []) e refl refl)
        (λ f. for_user-Shut id last dat u w p e t)

  step-Shut :
      (id last : ℕ) (i : OtpInput) (w : Otp)
      → 0 < id
      → lock_of id w.lockout ≡ some last
      → w.wall < last + otp_lockout_s
      → Shut id last (later i w.wall) (step usable code_at i w)
  unfolding step accepted session_expire_cb otp_configure
  step-Shut id last (command dat) w p e t = on_otp_command-Shut id last dat w p e t
  step-Shut id last (identified user) w p e t =
      quiet-Shut id last w (record w { current_caller = user }, []) e refl refl
  step-Shut id last (session_due i) w p e t =
      let s = get_elem? w.sessions i in
      quiet-Shut id last w (expire_at i w s) e (expire_at-tables i w s)
        (expire_at-accepted id i w s)
  step-Shut id last (configure cfg) w p e t =
      quiet-Shut id last w (otp_configure cfg w, []) e refl refl
  step-Shut id last (time_passes us s) w p e t = record { refused = refl; lock = e; time = refl }

  -- For 300 seconds behind the last of five or more wrong codes of a user of positive id, none of the user's
  -- codes is accepted, right or wrong, over any commands, identified callers, expiries and configurations, as
  -- long as the module is not loaded again.
  pub locked_out :
      (id last : ℕ) (is : List OtpInput) (w : Otp)
      → 0 < id
      → lock_of id w.lockout ≡ some last
      → w.wall + time_of is < last + otp_lockout_s
      → accepted id (events usable code_at is w) ≡ []
  unfolding events accepted time_of
  locked_out id last [] w p e t = refl
  locked_out id last (i ∷ is) w p e t =
      let r = step usable code_at i w in
      let k = step-Shut id last i w p e (omega (arith, t)) in
      let rest =
        locked_out id last is r.0 p k.lock (omega (arith, t, k.time, later-passes i w.wall)) in
      accepted-append id r.1 (events usable code_at is r.0)
      ∙ (ap (λ l. l ++ accepted id (events usable code_at is r.0)) k.refused ∙ rest)
