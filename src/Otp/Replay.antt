-- ===== src/Otp/Replay.antt =====
-- No code twice: the replay guard of modules/mod_otp.c.
use kerchunk.Prelude.{
  ℕ, ◌+◌, ◌<◌, ◌≡◌, ◌≢◌, refl, ap, subst, ◌∙◌, sym, Bool, true, false, not, ◌||◌, ltb, ◌==◌,
  if◌then◌else◌, Option, none, some, List, [], ◌∷◌, ◌++◌, get_elem?, arith, Bool-cases, inl, inr,
  length, take,
}
use kerchunk.Text.{Bytes, is_empty}
use kerchunk.User.{User, lookup_by_id}
use kerchunk.Config.Duration.{all_digits}
use kerchunk.Otp.{
  Otp, OtpEvent, access_denied, not_configured, invalid_code, replay_rejected, auth_success,
  is_locked, forget_failures, guard_of, record_counter, clear_failures, session_expire_cb,
  expire_at,
}
use kerchunk.Otp.Sessions.{
  accepted, accepted-append, session_start-tables, expire_at-tables, expire_at-accepted,
}
use kerchunk.Otp.Guards.{guard_of-record_counter, guard_of-record_counter_other}
use kerchunk.Otp.Command.{
  accept, decide, is_replay, totp_verify, try_code, for_user, on_otp_command, OtpInput, command,
  identified, session_due, configure, time_passes, step, events, otp_configure,
}

-- Numbers that grow strictly, from above a bound.
abbrev pub Growing : ℕ → List ℕ → Type 0
Growing c [] = Unit {0}
Growing c (x ∷ xs) = (c < x) × Growing x xs

-- The last of some numbers, or the one before them.
abbrev newest : ℕ → List ℕ → ℕ
newest c [] = c
newest c (x ∷ xs) = newest x xs

-- A step keeps the guard at the newest counter that was accepted.
record Guarded (id c : ℕ) (r : Otp × List OtpEvent) : Type 0 where
  grows : Growing c (accepted id r.1)
  guard : guard_of id r.0.last_counter ≡ some (newest c (accepted id r.1))

Guarded-if :
    (id c : ℕ) (b : Bool) (r r' : Otp × List OtpEvent)
    → (b ≡ true → Guarded id c r)
    → (b ≡ false → Guarded id c r')
    → Guarded id c (if b then r else r')
Guarded-if id c true r r' f g = f refl
Guarded-if id c false r r' f g = g refl

-- A step that accepts nothing and leaves the guards.
quiet-Guarded :
    (id c : ℕ) (w : Otp) (r : Otp × List OtpEvent)
    → guard_of id w.last_counter ≡ some c
    → r.0.last_counter ≡ w.last_counter
    → accepted id r.1 ≡ []
    → Guarded id c r
quiet-Guarded id c w r g same none_accepted = record {
  grows = subst (Growing c) (sym none_accepted) tt;
  guard = ap (guard_of id) same ∙ (g ∙ ap (λ l. some (newest c l)) (sym none_accepted));
}

accept-last_counter :
    (id counter : ℕ) (w : Otp)
    → (accept id counter w).0.last_counter ≡ record_counter id counter w.last_counter
unfolding accept
accept-last_counter id counter w =
    ap (λ t. t.0.0)
      (session_start-tables id (record w {
        last_counter = record_counter id counter w.last_counter;
        lockout = clear_failures id w.lockout;
      }))

accept_own-Guarded :
    (id c counter : ℕ) (w : Otp)
    → guard_of id w.last_counter ≡ some c
    → is_replay counter (guard_of id w.last_counter) ≡ false
    → Guarded id c (accept id counter w)
unfolding accept accepted
accept_own-Guarded id c counter w g r =
    let own : accepted id (auth_success id counter ∷ []) ≡ counter ∷ [] = ground arith in
    let above : c < counter = ground arith in
    record {
      grows = subst (Growing c) (sym own) (above, tt);
      guard =
          ap (guard_of id) (accept-last_counter id counter w)
          ∙ (guard_of-record_counter id counter c w.last_counter g
              ∙ ap (λ l. some (newest c l)) (sym own));
    }

accept_other-Guarded :
    (id user c counter : ℕ) (w : Otp)
    → 0 < id
    → user ≢ id
    → guard_of id w.last_counter ≡ some c
    → Guarded id c (accept user counter w)
unfolding accept accepted
accept_other-Guarded id user c counter w p n g =
    let none_own : accepted id (auth_success user counter ∷ []) ≡ [] = ground arith in
    record {
      grows = subst (Growing c) (sym none_own) tt;
      guard =
          ap (guard_of id) (accept-last_counter user counter w)
          ∙ (guard_of-record_counter_other id user counter w.last_counter n p
              ∙ (g ∙ ap (λ l. some (newest c l)) (sym none_own)));
    }

accept-Guarded :
    (id user c counter : ℕ) (w : Otp)
    → 0 < id
    → guard_of id w.last_counter ≡ some c
    → is_replay counter (guard_of user w.last_counter) ≡ false
    → Guarded id c (accept user counter w)
accept-Guarded id user c counter w p g r = elim (Bool-cases (user == id)) [
  | inl y ↦
      let same : id ≡ user = ground arith in
      subst
        (λ u.
          is_replay counter (guard_of u w.last_counter) ≡ false → Guarded id c (accept u counter w))
        same (accept_own-Guarded id c counter w g) r
  | inr n ↦ accept_other-Guarded id user c counter w p (ground arith) g
]

decide-Guarded :
    (id user c : ℕ) (counter : Option ℕ) (w : Otp)
    → 0 < id
    → guard_of id w.last_counter ≡ some c
    → Guarded id c (decide user counter w)
unfolding decide accepted
decide-Guarded id user c none w p g = quiet-Guarded id c w (decide user none w) g refl refl
decide-Guarded id user c (some counter) w p g =
    Guarded-if id c (is_replay counter (guard_of user w.last_counter)) (w, replay_rejected ∷ [])
      (accept user counter w) (λ e. quiet-Guarded id c w (w, replay_rejected ∷ []) g refl refl)
      (λ e. accept-Guarded id user c counter w p g e)

Growing-append :
    (c : ℕ) (xs ys : List ℕ) → Growing c xs → Growing (newest c xs) ys → Growing c (xs ++ ys)
Growing-append c [] ys g h = h
Growing-append c (x ∷ xs) ys g h = (g.0, Growing-append x xs ys g.1 h)

module _ (usable : Bytes → Bool) (code_at : Bytes → ℕ → ℕ) where
  try_code-Guarded :
      (id c : ℕ) (dat : Bytes) (u : User) (w : Otp)
      → 0 < id
      → guard_of id w.last_counter ≡ some c
      → Guarded id c (try_code usable code_at dat u w)
  unfolding try_code accepted
  try_code-Guarded id c dat u w p g =
      let user = w.current_caller in
      let w' : Otp = record w { lockout = forget_failures user w.wall w.lockout } in
      let code = take 6 dat in
      let counter = totp_verify usable code_at u.totp_secret code w.time_skew w.wall in
      let locked = is_locked user w.wall w.lockout in
      let decided = decide user counter w' in
      Guarded-if id c (ltb (length dat) 6 || not (all_digits code)) (w, invalid_code ∷ [])
        (if locked then (w, []) else decided)
        (λ e. quiet-Guarded id c w (w, invalid_code ∷ []) g refl refl)
        (λ e.
          Guarded-if id c locked (w, []) decided (λ f. quiet-Guarded id c w (w, []) g refl refl)
            (λ f. decide-Guarded id user c counter w' p g))

  for_user-Guarded :
      (id c : ℕ) (dat : Bytes) (u : Option User) (w : Otp)
      → 0 < id
      → guard_of id w.last_counter ≡ some c
      → Guarded id c (for_user usable code_at dat u w)
  unfolding accepted
  for_user-Guarded id c dat none w p g = quiet-Guarded id c w (w, not_configured ∷ []) g refl refl
  for_user-Guarded id c dat (some u) w p g =
      Guarded-if id c (is_empty u.totp_secret) (w, not_configured ∷ [])
        (try_code usable code_at dat u w)
        (λ e. quiet-Guarded id c w (w, not_configured ∷ []) g refl refl)
        (λ e. try_code-Guarded id c dat u w p g)

  on_otp_command-Guarded :
      (id c : ℕ) (dat : Bytes) (w : Otp)
      → 0 < id
      → guard_of id w.last_counter ≡ some c
      → Guarded id c (on_otp_command usable code_at dat w)
  unfolding on_otp_command accepted
  on_otp_command-Guarded id c dat w p g =
      let u = lookup_by_id w.current_caller w.users in
      Guarded-if id c (w.current_caller == 0) (w, access_denied ∷ [])
        (for_user usable code_at dat u w)
        (λ e. quiet-Guarded id c w (w, access_denied ∷ []) g refl refl)
        (λ e. for_user-Guarded id c dat u w p g)

  step-Guarded :
      (id c : ℕ) (i : OtpInput) (w : Otp)
      → 0 < id
      → guard_of id w.last_counter ≡ some c
      → Guarded id c (step usable code_at i w)
  unfolding step accepted session_expire_cb otp_configure
  step-Guarded id c (command dat) w p g = on_otp_command-Guarded id c dat w p g
  step-Guarded id c (identified user) w p g =
      quiet-Guarded id c w (record w { current_caller = user }, []) g refl refl
  step-Guarded id c (session_due i) w p g =
      let s = get_elem? w.sessions i in
      quiet-Guarded id c w (expire_at i w s) g (ap (λ t. t.0.0) (expire_at-tables i w s))
        (expire_at-accepted id i w s)
  step-Guarded id c (configure cfg) w p g =
      quiet-Guarded id c w (otp_configure cfg w, []) g refl refl
  step-Guarded id c (time_passes us s) w p g =
      quiet-Guarded id c w (record w { now = w.now + us; wall = w.wall + s }, []) g refl refl

  -- Every code that is accepted of a user of positive id who has a slot in the replay guard is of a later
  -- counter than the one in the slot and than those accepted before it, whatever commands, identified
  -- callers, expiries, configurations and passing of time are in between: until the module is loaded again, no
  -- code is taken twice.
  pub events-Growing :
      (id c : ℕ) (is : List OtpInput) (w : Otp)
      → 0 < id
      → guard_of id w.last_counter ≡ some c
      → Growing c (accepted id (events usable code_at is w))
  unfolding events accepted
  events-Growing id c [] w p g = tt
  events-Growing id c (i ∷ is) w p g =
      let r = step usable code_at i w in
      let k = step-Guarded id c i w p g in
      let rest = events-Growing id (newest c (accepted id r.1)) is r.0 p k.guard in
      subst (Growing c) (sym (accepted-append id r.1 (events usable code_at is r.0))) (
        Growing-append c (accepted id r.1) (accepted id (events usable code_at is r.0)) k.grows
          rest)
