-- ===== src/Caller/Login.antt =====
-- Logging in and out by digits, and what a session does to key-ups, in modules/mod_caller.c.
use mathlib.Core.List.{append-nil, append_assoc}
use kerchunk.Prelude.{
  ℕ, ◌+◌, ◌<◌, ◌≤◌, ◌≡◌, ◌≢◌, refl, ap, ◌∙◌, true, false, if◌then◌else◌, not, ◌&&◌, ltb, ◌==◌,
  Option, none, some, [], ◌∷◌, ◌++◌, length, length-append, arith, Option-cases, inl, inr,
}
use kerchunk.Text.{Bytes, is_empty, same_text}
use kerchunk.Timer.{timer_runs}
use kerchunk.User.{User, lookup_by_ani}
use kerchunk.DtmfCmd.Commands.{Plain}
use kerchunk.Caller.{Caller, by_login, max_ani_len, fire_identified, session_start, do_logout}
use kerchunk.Caller.Handlers.{
  on_cor_assert, on_cor_drop, find_login, end_login, login_digit, on_dtmf_digit,
}
use kerchunk.Caller.Invariant.{IsValid}

unfoldable pub type_digits : Bytes → Caller → Caller
type_digits [] w = w
type_digits (d ∷ ds) w = type_digits ds (on_dtmf_digit d w)

-- A login sequence is open with these digits; the window for others is shut.
pub record Entering (buf : Bytes) (w w' : Caller) : Type 0 where
  pub entered : w'.login_buf ≡ buf
  pub open_sequence : w'.login_active ≡ true
  pub ani_shut : (w'.ani_active && ltb (length w'.ani_buf) max_ani_len) ≡ false
  pub same_session : w'.session_user ≡ w.session_user
  pub same_users : w'.users ≡ w.users
  pub same_logout : w'.logout_code ≡ w.logout_code

-- The first star shuts the window, whoever its digits identify.
star-Entering : (w : Caller) → Entering [] w (on_dtmf_digit b'*' w)
unfolding on_dtmf_digit
star-Entering w = elim (Option-cases (lookup_by_ani w.ani_buf w.users)) [
  | inl e ↦ ground arith
  | inr (u, e) ↦ ground arith
]

shut_digit :
    (d : ℕ) (w : Caller)
    → (w.ani_active && ltb (length w.ani_buf) max_ani_len) ≡ false
    → on_dtmf_digit d w ≡ login_digit d w
unfolding on_dtmf_digit
shut_digit d w h = rw h refl

entered_digit :
    (d : ℕ) (w : Caller)
    → (d == b'*') ≡ false
    → (d == b'#') ≡ false
    → w.login_active ≡ true
    → ltb (length w.login_buf) max_ani_len ≡ true
    → login_digit d w ≡ record w { login_buf = w.login_buf ++ (d ∷ []) }
unfolding login_digit
entered_digit d w s h a l = rw (s, h, a, l) refl

digit-Entering :
    (d : ℕ) (buf : Bytes) (w0 w : Caller)
    → d ≢ b'*'
    → d ≢ b'#'
    → length buf < max_ani_len
    → Entering buf w0 w
    → Entering (buf ++ (d ∷ [])) w0 (on_dtmf_digit d w)
digit-Entering d buf w0 w s h l e =
    let buf_lt : length w.login_buf < max_ani_len = omega (arith, ap length e.entered) in
    let same =
      shut_digit d w e.ani_shut
      ∙ entered_digit d w (ground arith) (ground arith) e.open_sequence (ground arith) in
    rw same (record {
      entered = ap (λ b. b ++ (d ∷ [])) e.entered;
      open_sequence = e.open_sequence;
      ani_shut = e.ani_shut;
      same_session = e.same_session;
      same_users = e.same_users;
      same_logout = e.same_logout;
    })

type_digits-Entering :
    (ds buf : Bytes) (w0 w : Caller)
    → Plain ds
    → length buf + length ds ≤ max_ani_len
    → Entering buf w0 w
    → Entering (buf ++ ds) w0 (type_digits ds w)
unfolding type_digits
type_digits-Entering [] buf w0 w p l e = ground (arith, append-nil buf, e)
type_digits-Entering (d ∷ ds) buf w0 w p l e =
    let e' = digit-Entering d buf w0 w p.0 p.1 (omega arith) e in
    let r =
      type_digits-Entering ds (buf ++ (d ∷ [])) w0 (on_dtmf_digit d w) p.2
        (omega (arith, length-append buf (d ∷ []))) e' in
    record {
      entered = r.entered ∙ append_assoc buf (d ∷ []) ds;
      open_sequence = r.open_sequence;
      ani_shut = r.ani_shut;
      same_session = r.same_session;
      same_users = r.same_users;
      same_logout = r.same_logout;
    }

hash_digit :
    (w : Caller)
    → (w.ani_active && ltb (length w.ani_buf) max_ani_len) ≡ false
    → w.login_active ≡ true
    → on_dtmf_digit b'#' w ≡ end_login w
unfolding login_digit
hash_digit w h a = shut_digit b'#' w h ∙ rw a refl

abbrev pub user_id : Option User → ℕ
user_id none = 0
user_id (some u) = u.id

-- The session behind a code.
abbrev pub session_after : Bytes → Caller → ℕ
session_after code w =
    if ltb 0 w.session_user
    then (if not (is_empty w.logout_code) && same_text code w.logout_code
        then 0
        else w.session_user)
    else user_id (find_login code w.users)

end_login_lem :
    (w : Caller)
    → ((end_login w).session_user ≡ session_after w.login_buf w)
      × ((end_login w).login_active ≡ false)
unfolding end_login do_logout session_start fire_identified timer_runs
end_login_lem w = elim (Option-cases (find_login w.login_buf w.users)) [
  | inl e ↦ ground arith
  | inr (u, e) ↦ ground arith
]

-- A code of at most 8 digits, neither star nor hash among them, that is typed between a star and a hash
-- while no session is open opens that of the first user with this login code, if there is one; in a
-- session it closes the session exactly where it is the logout code, and changes it in no case else.
pub typed_code :
    (w : Caller) (code : Bytes)
    → Plain code
    → length code ≤ max_ani_len
    → let w' = on_dtmf_digit b'#' (type_digits code (on_dtmf_digit b'*' w)) in
      (w'.session_user ≡ session_after code w) × (w'.login_active ≡ false)
typed_code w code p l =
    let typed = type_digits code (on_dtmf_digit b'*' w) in
    let e =
      type_digits-Entering code [] w (on_dtmf_digit b'*' w) p (omega arith) (star-Entering w) in
    let h = hash_digit typed e.ani_shut e.open_sequence in
    let r = end_login_lem typed in
    ground (arith, h, r, e.entered, e.same_session, e.same_users, e.same_logout)

-- Whoever transmits, a session outlives the drop of COR, behind which nobody is the caller, and the next
-- key-up identifies its user by login.
pub session_survives :
    (w : Caller)
    → IsValid w
    → 0 < w.session_user
    → let down = on_cor_drop w in
      let up = on_cor_assert down in
      (down.current_user ≡ 0)
      × (down.session_user ≡ w.session_user)
      × (up.current_user ≡ w.session_user)
      × (up.method ≡ by_login)
      × (up.session_user ≡ w.session_user)
unfolding on_cor_drop on_cor_assert
session_survives w v s = ground arith

-- What was captured before a drop of COR is gone at the next key-up.
pub drop_wipes_digits : (w : Caller) → (on_cor_assert (on_cor_drop w)).ani_buf ≡ []
unfolding on_cor_drop on_cor_assert
drop_wipes_digits w = ground arith
