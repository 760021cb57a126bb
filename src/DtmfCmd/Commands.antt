-- ===== src/DtmfCmd/Commands.antt =====
-- What the digits typed into modules/mod_dtmfcmd.c fire.
use mathlib.Core.List.{append_assoc, append-nil}
use kerchunk.Prelude.{
  ℕ, ◌+◌, ◌≤◌, ◌<◌, ◌≡◌, ◌≢◌, ap, ◌∙◌, true, false, [], ◌∷◌, ◌++◌, length, length-append, arith,
}
use kerchunk.Text.{Bytes}
use kerchunk.Timer.{timer_runs}
use kerchunk.DtmfCmd.{max_cmd_len, DtmfCmd, find_cmd}
use kerchunk.DtmfCmd.Handlers.{
  timeout_cb, fired_for, on_cor_drop, on_dtmf_digit, timer_due, step, type_digits,
}

-- Digits between the star and the hash.
abbrev pub Plain : Bytes → Type 0
Plain [] = Unit {0}
Plain (d ∷ ds) = (d ≢ b'*') × (d ≢ b'#') × Plain ds

-- What typing leaves alone, with the buffer that it leaves.
pub record Typed (buf : Bytes) (w w' : DtmfCmd) : Type 0 where
  pub now_buf : w'.buf ≡ buf
  pub now_active : w'.active ≡ true
  pub same_pending : w'.pending ≡ w.pending
  pub same_cmds : w'.cmds ≡ w.cmds
  pub same_receiving : w'.receiving ≡ w.receiving
  pub same_fired : w'.fired ≡ w.fired

on_dtmf_digit-Typed :
    (d : ℕ) (w : DtmfCmd)
    → d ≢ b'*'
    → d ≢ b'#'
    → w.active ≡ true
    → length w.buf < max_cmd_len
    → Typed (w.buf ++ (d ∷ [])) w (on_dtmf_digit d w)
unfolding on_dtmf_digit
on_dtmf_digit-Typed d w s h a l = ground arith

type_digits-Typed :
    (ds : Bytes) (w : DtmfCmd)
    → Plain ds
    → w.active ≡ true
    → length w.buf + length ds ≤ max_cmd_len
    → Typed (w.buf ++ ds) w (type_digits ds w)
unfolding type_digits
type_digits-Typed [] w p a l = ground (arith, append-nil w.buf)
type_digits-Typed (d ∷ ds) w p a l =
    let w1 = on_dtmf_digit d w in
    let t1 = on_dtmf_digit-Typed d w p.0 p.1 a (omega arith) in
    let t2 =
      type_digits-Typed ds w1 p.2 t1.now_active
        (omega (arith, ap length t1.now_buf, length-append w.buf (d ∷ []))) in
    record {
      now_buf = t2.now_buf ∙ ap (λ b. b ++ ds) t1.now_buf ∙ append_assoc w.buf (d ∷ []) ds;
      now_active = t2.now_active;
      same_pending = t2.same_pending ∙ t1.same_pending;
      same_cmds = t2.same_cmds ∙ t1.same_cmds;
      same_receiving = t2.same_receiving ∙ t1.same_receiving;
      same_fired = t2.same_fired ∙ t1.same_fired;
    }

star-Typed : (w : DtmfCmd) → Typed [] w (on_dtmf_digit b'*' w)
unfolding on_dtmf_digit
star-Typed w = ground arith

-- The hash while COR is up: the command waits, and stays open.
hash-waits :
    (w : DtmfCmd)
    → w.active ≡ true
    → w.receiving ≡ true
    → let w' = on_dtmf_digit b'#' w in
      (w'.buf ≡ w.buf)
      × (w'.active ≡ true)
      × (w'.pending ≡ true)
      × (w'.cmds ≡ w.cmds)
      × (w'.fired ≡ w.fired)
unfolding on_dtmf_digit
hash-waits w a r = ground arith

hash-fires :
    (w : DtmfCmd)
    → w.active ≡ true
    → w.receiving ≡ false
    → (on_dtmf_digit b'#' w).fired ≡ w.fired ++ fired_for (find_cmd w.buf w.cmds)
unfolding on_dtmf_digit
hash-fires w a r = ground arith

-- At rest: no command is open, none waits, and no timer runs.
pub record AtRest (w : DtmfCmd) : Type 0 where
  pub closed : w.active ≡ false
  pub emptied : w.buf ≡ []
  pub none_pending : w.pending ≡ false
  pub no_timer : timer_runs w.timeout_timer ≡ false

on_cor_drop-pending :
    (w : DtmfCmd)
    → w.pending ≡ true
    → let w' = on_cor_drop w in
      (w'.fired ≡ w.fired ++ fired_for (find_cmd w.buf w.cmds)) × AtRest w'
unfolding on_cor_drop timer_runs
on_cor_drop-pending w p = ground arith

-- A command that is typed while COR is up fires when COR drops, once, and nothing of it is left.
-- What is typed between the hash and the drop is taken for its end: `*ds#es` fires what `*(ds
-- es)#` would, for digits that are neither star nor hash and no more than 16 together.
pub type_digits-on_cor_drop :
    (w : DtmfCmd) (ds es : Bytes)
    → Plain ds
    → Plain es
    → length ds + length es ≤ max_cmd_len
    → w.receiving ≡ true
    → let typed = type_digits es (on_dtmf_digit b'#' (type_digits ds (on_dtmf_digit b'*' w))) in
      let w' = on_cor_drop typed in
      (w'.fired ≡ w.fired ++ fired_for (find_cmd (ds ++ es) w.cmds)) × AtRest w'
type_digits-on_cor_drop w ds es p q l r =
    let w1 = on_dtmf_digit b'*' w in
    let w2 = type_digits ds w1 in
    let w3 = on_dtmf_digit b'#' w2 in
    let w4 = type_digits es w3 in
    let t1 = star-Typed w in
    let t2 = type_digits-Typed ds w1 p t1.now_active (omega (arith, ap length t1.now_buf)) in
    let b2 : w2.buf ≡ ds = t2.now_buf ∙ ap (λ b. b ++ ds) t1.now_buf in
    let h3 = hash-waits w2 t2.now_active (t2.same_receiving ∙ t1.same_receiving ∙ r) in
    let (b3, a3, p3, c3, f3) = h3 in
    let t4 = type_digits-Typed es w3 q a3 (omega (arith, ap length b3, ap length b2)) in
    let b4 : w4.buf ≡ ds ++ es = t4.now_buf ∙ ap (λ b. b ++ es) (b3 ∙ b2) in
    let c4 : w4.cmds ≡ w.cmds = t4.same_cmds ∙ c3 ∙ t2.same_cmds ∙ t1.same_cmds in
    let f4 : w4.fired ≡ w.fired = t4.same_fired ∙ f3 ∙ t2.same_fired ∙ t1.same_fired in
    let (fired, rest) = on_cor_drop-pending w4 (t4.same_pending ∙ p3) in
    (fired ∙ (λ i. f4 i ++ fired_for (find_cmd (b4 i) (c4 i))), rest)

-- A command that is typed with COR down fires at its hash.
pub type_digits_at_once :
    (w : DtmfCmd) (ds : Bytes)
    → Plain ds
    → length ds ≤ max_cmd_len
    → w.receiving ≡ false
    → (on_dtmf_digit b'#' (type_digits ds (on_dtmf_digit b'*' w))).fired
      ≡ w.fired ++ fired_for (find_cmd ds w.cmds)
type_digits_at_once w ds p l r =
    let w1 = on_dtmf_digit b'*' w in
    let w2 = type_digits ds w1 in
    let t1 = star-Typed w in
    let t2 = type_digits-Typed ds w1 p t1.now_active (omega (arith, ap length t1.now_buf)) in
    let b2 : w2.buf ≡ ds = t2.now_buf ∙ ap (λ b. b ++ ds) t1.now_buf in
    let c2 : w2.cmds ≡ w.cmds = t2.same_cmds ∙ t1.same_cmds in
    let f2 : w2.fired ≡ w.fired = t2.same_fired ∙ t1.same_fired in
    hash-fires w2 t2.now_active (t2.same_receiving ∙ t1.same_receiving ∙ r)
    ∙ (λ i. f2 i ++ fired_for (find_cmd (b2 i) (c2 i)))

-- A time-out behind a digit that was typed after the hash empties the command that waits.
pub timer_due_empties :
    (w : DtmfCmd)
    → w.pending ≡ true
    → timer_runs w.timeout_timer ≡ true
    → (on_cor_drop (step timer_due w)).fired ≡ w.fired ++ fired_for (find_cmd [] w.cmds)
unfolding step timeout_cb on_cor_drop
timer_due_empties w p t = ground arith
