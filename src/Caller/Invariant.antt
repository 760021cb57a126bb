-- ===== src/Caller/Invariant.antt =====
-- What holds of modules/mod_caller.c whatever is received.
use kerchunk.Prelude.{
  ℕ, negsuc, ◌<◌, ◌≤◌, ◌≡◌, refl, Bool, true, false, if◌then◌else◌, not, ◌&&◌, ltb, ◌==◌, some,
  List, [], ◌∷◌, length, length-append, arith, Bool-cases, Option-cases, inl, inr,
}
use kerchunk.Text.{Bytes, is_empty, same_text}
use kerchunk.Timer.{timer_runs}
use kerchunk.User.{User, lookup_by_ani, find_ani}
use kerchunk.Caller.{Caller, no_method, by_login, max_ani_len, session_timeout_cb, do_logout}
use kerchunk.Caller.Handlers.{
  identify_ani, ani_timeout, cancel_ani, on_cor_assert, on_cor_drop, find_login, end_login,
  login_digit, ani_digit, on_dtmf_digit, caller_configure, CallerInput, cor_up, cor_down, ani_due,
  session_due, logout, digit, configure, time_passes, step, run,
}

abbrev pub AllUsers : List User → Type 0
AllUsers [] = Unit {0}
AllUsers (u ∷ us) = (0 < u.id) × AllUsers us

-- The buffers are within their arrays; there is a method exactly where there is a caller, and one by login
-- is that of the session; a timer runs for a session only.
pub record IsValid (w : Caller) : Type 0 where
  pub ani_fits : length w.ani_buf ≤ max_ani_len
  pub login_fits : length w.login_buf ≤ max_ani_len
  pub nobody : w.current_user ≡ 0 → w.method ≡ no_method
  pub known : w.method ≡ no_method → w.current_user ≡ 0
  pub by_session : w.method ≡ by_login → w.current_user ≡ w.session_user
  pub timer_open : timer_runs w.session_timer ≡ true → 0 < w.session_user
  pub all_users : AllUsers w.users

find_ani_id :
    (ani : Bytes) (us : List User) (u : User) → AllUsers us → find_ani ani us ≡ some u → 0 < u.id
unfolding find_ani
find_ani_id ani [] u a h = ground arith
find_ani_id ani (v ∷ us) u a h = elim (Bool-cases (not (is_empty v.ani) && same_text v.ani ani)) [
  | inl e ↦ ground (arith, a.0)
  | inr e ↦ find_ani_id ani us u a.1 (ground arith)
]

lookup_by_ani_id :
    (ani : Bytes) (us : List User) (u : User)
    → AllUsers us
    → lookup_by_ani ani us ≡ some u
    → 0 < u.id
unfolding lookup_by_ani
lookup_by_ani_id ani us u a h = elim (Bool-cases (is_empty ani)) [
  | inl e ↦ ground arith
  | inr e ↦ find_ani_id ani us u a (ground arith)
]

find_login_id :
    (code : Bytes) (us : List User) (u : User)
    → AllUsers us
    → find_login code us ≡ some u
    → 0 < u.id
unfolding find_login
find_login_id code [] u a h = ground arith
find_login_id code (v ∷ us) u a h =
    elim (Bool-cases (not (is_empty v.dtmf_login) && same_text v.dtmf_login code)) [
      | inl e ↦ ground (arith, a.0)
      | inr e ↦ find_login_id code us u a.1 (ground arith)
    ]

identify_ani-IsValid : (w : Caller) → IsValid w → IsValid (identify_ani w)
unfolding identify_ani
identify_ani-IsValid w v = elim (Option-cases (lookup_by_ani w.ani_buf w.users)) [
  | inl e ↦ ground arith
  | inr (u, e) ↦ ground (arith, lookup_by_ani_id w.ani_buf w.users u v.all_users e)
]

do_logout-IsValid : (w : Caller) → IsValid w → IsValid (do_logout w)
unfolding do_logout timer_runs
do_logout-IsValid w v = ground arith

session_timeout_cb-IsValid : (w : Caller) → IsValid w → IsValid (session_timeout_cb w)
unfolding session_timeout_cb timer_runs
session_timeout_cb-IsValid w v = ground arith

on_cor_assert-IsValid : (w : Caller) → IsValid w → IsValid (on_cor_assert w)
unfolding on_cor_assert timer_runs
on_cor_assert-IsValid w v = ground arith

on_cor_drop-IsValid : (w : Caller) → IsValid w → IsValid (on_cor_drop w)
unfolding on_cor_drop
on_cor_drop-IsValid w v = ground arith

end_login-IsValid : (w : Caller) → IsValid w → IsValid (end_login w)
unfolding end_login timer_runs
end_login-IsValid w v = elim (Option-cases (find_login w.login_buf w.users)) [
  | inl e ↦ ground (arith, do_logout-IsValid (record w { login_active = false }))
  | inr (u, e) ↦ ground (
    arith,
    do_logout-IsValid (record w { login_active = false }),
    find_login_id w.login_buf w.users u v.all_users e,
  )
]

login_digit-IsValid : (d : ℕ) (w : Caller) → IsValid w → IsValid (login_digit d w)
unfolding login_digit
login_digit-IsValid d w v =
    ground (arith, end_login-IsValid w v, length-append w.login_buf (d ∷ []))

ani_digit-IsValid :
    (d : ℕ) (w : Caller) → length w.ani_buf < max_ani_len → IsValid w → IsValid (ani_digit d w)
unfolding ani_digit
ani_digit-IsValid d w l v = ground (arith, length-append w.ani_buf (d ∷ []))

closed-IsValid : (w : Caller) → IsValid w → IsValid (cancel_ani (record w { ani_active = false }))
closed-IsValid w v = ground arith

IsValid-if :
    (b : Bool) (x y : Caller)
    → (b ≡ true → IsValid x)
    → (b ≡ false → IsValid y)
    → IsValid (if b then x else y)
IsValid-if true x y p q = p refl
IsValid-if false x y p q = q refl

on_dtmf_digit-IsValid : (d : ℕ) (w : Caller) → IsValid w → IsValid (on_dtmf_digit d w)
unfolding on_dtmf_digit
on_dtmf_digit-IsValid d w v =
    let shut = cancel_ani (record w { ani_active = false }) in
    IsValid-if (w.ani_active && ltb (length w.ani_buf) max_ani_len) _ _
      (λ h.
        IsValid-if (d == b'*') _ _
          (λ s.
            login_digit-IsValid d (identify_ani shut)
              (identify_ani-IsValid shut (closed-IsValid w v)))
          (λ s. ani_digit-IsValid d w (ground arith) v))
      (λ h. login_digit-IsValid d w v)

step-IsValid : (i : CallerInput) (w : Caller) → IsValid w → IsValid (step i w)
unfolding step ani_timeout caller_configure
step-IsValid cor_up w v = on_cor_assert-IsValid w v
step-IsValid cor_down w v = on_cor_drop-IsValid w v
step-IsValid ani_due w v =
    let w' : Caller = record w {
      timers = kerchunk.Timer.cancel w.ani_timer w.timers;
      ani_timer = negsuc 0;
      ani_active = false;
    } in
    ground (arith, identify_ani-IsValid w')
step-IsValid session_due w v = ground (
  arith,
  session_timeout_cb-IsValid (record w { timers = kerchunk.Timer.cancel w.session_timer w.timers }),
)
step-IsValid logout w v = do_logout-IsValid w v
step-IsValid (digit d) w v = on_dtmf_digit-IsValid d w v
step-IsValid (configure cfg) w v = ground arith
step-IsValid (time_passes us s) w v = ground arith

-- Over any key-ups, digits, time-outs, logouts and configurations, from a valid state: both digit buffers
-- stay within their arrays, there is a method exactly where a caller is identified, a caller by login is the
-- user of the session, and the session's timer runs for a session only.
pub run_caller-IsValid : (is : List CallerInput) (w : Caller) → IsValid w → IsValid (run is w)
unfolding run
run_caller-IsValid [] w v = v
run_caller-IsValid (i ∷ is) w v = run_caller-IsValid is (step i w) (step-IsValid i w v)
