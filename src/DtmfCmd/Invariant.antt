-- ===== src/DtmfCmd/Invariant.antt =====
-- What holds of modules/mod_dtmfcmd.c whatever is received.
use kerchunk.Prelude.{
  ℕ, ◌+◌, ◌≤◌, ◌≡◌, refl, inl, inr, Option-cases, true, false, List, [], ◌∷◌, length, length-append,
  arith,
}
use kerchunk.Text.{Bytes, fit}
use kerchunk.Events.{custom}
use kerchunk.Config.{CfgEntry}
use kerchunk.Timer.{timer_runs}
use kerchunk.DtmfCmd.{
  max_cmd_len, max_commands, CmdEntry, DtmfCmd, register_cmd, unregister_cmd, override_all,
}
use kerchunk.DtmfCmd.Handlers.{
  kept_cmds, on_dtmf_digit, on_cor_drop, timeout_cb, CmdInput, digit, cor_up, cor_down, timer_due,
  load, unload, configure, register, unregister, dtmfcmd_load, dtmfcmd_configure, dtmfcmd_unload,
  step, run,
}

-- The buffer and the table are within their arrays, and a timer runs for an open command only.
pub record IsValid (w : DtmfCmd) : Type 0 where
  pub fits : length w.buf ≤ max_cmd_len
  pub closed_empty : w.active ≡ false → w.buf ≡ []
  pub table_fits : length w.cmds ≤ max_commands
  pub timer_open : timer_runs w.timeout_timer ≡ true → w.active ≡ true

length-register_cmd :
    (pattern key : Bytes) (offset : ℕ) (cmds : List CmdEntry)
    → length cmds ≤ max_commands
    → length (register_cmd pattern offset key cmds).0 ≤ max_commands
unfolding register_cmd
length-register_cmd pattern key offset cmds h = ground (
  arith,
  length-append cmds (
      record { pattern = fit max_cmd_len pattern; event = custom + offset; config_key = fit 32 key }
      ∷ []),
)

length-override_all :
    (cfg : List CfgEntry) (cmds : List CmdEntry) → length (override_all cfg cmds) ≡ length cmds
unfolding override_all
length-override_all cfg [] = refl
length-override_all cfg (c ∷ cs) = ground (arith, length-override_all cfg cs)

length-unregister_cmd :
    (pattern : Bytes) (cmds : List CmdEntry)
    → length (kept_cmds (unregister_cmd pattern cmds) cmds) ≤ length cmds
unfolding unregister_cmd
length-unregister_cmd pattern [] = omega arith
length-unregister_cmd pattern (c ∷ cs) =
    let h = length-unregister_cmd pattern cs in
    elim (Option-cases (unregister_cmd pattern cs)) [
      | inl n ↦ ground (arith, h)
      | inr (l, e) ↦ ground (arith, h)
    ]

step-IsValid : (i : CmdInput) (w : DtmfCmd) → IsValid w → IsValid (step i w)
unfolding step on_dtmf_digit on_cor_drop timeout_cb timer_runs dtmfcmd_load dtmfcmd_configure
    dtmfcmd_unload
step-IsValid (digit d) w v = ground (arith, length-append w.buf (d ∷ []))
step-IsValid cor_up w v = ground arith
step-IsValid cor_down w v = ground arith
step-IsValid timer_due w v = ground arith
step-IsValid load w v = ground arith
step-IsValid unload w v = ground arith
step-IsValid (configure cfg) w v = ground (arith, length-override_all cfg w.cmds)
step-IsValid (register pattern offset key) w v =
    ground (arith, length-register_cmd pattern key offset w.cmds v.table_fits)
step-IsValid (unregister pattern) w v = ground (arith, length-unregister_cmd pattern w.cmds)

-- Over any digits, edges of COR, time-outs, registrations, configurations, loads and unloads, from
-- a valid state: the command stays within its buffer, the table within its array, a closed command
-- is empty, and the timer runs for an open one only.
pub run-IsValid : (is : List CmdInput) (w : DtmfCmd) → IsValid w → IsValid (run is w)
unfolding run
run-IsValid [] w v = v
run-IsValid (i ∷ is) w v = run-IsValid is (step i w) (step-IsValid i w v)
