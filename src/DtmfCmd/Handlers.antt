-- ===== src/DtmfCmd/Handlers.antt =====
-- The handlers of modules/mod_dtmfcmd.c.
use kerchunk.Prelude.{
  ℕ, true, false, not, pos, negsuc, ltb, ◌==◌, if◌then◌else◌, Option, none, some, List, [], ◌∷◌,
  ◌++◌, length,
}
use kerchunk.Text.{Bytes}
use kerchunk.Timer.{timer_runs, create, cancel}
use kerchunk.Config.{CfgEntry}
use kerchunk.Config.Duration.{get_duration_ms}
use kerchunk.DtmfCmd.{
  max_cmd_len, digits_expire, CmdEvent, CmdEntry, DtmfCmd, dtmf_section, find_cmd, override_all,
  register_cmd, unregister_cmd,
}

-- `cancel_timeout`
unfoldable pub cancel_timeout : DtmfCmd → DtmfCmd
cancel_timeout w =
    if timer_runs w.timeout_timer
    then record w { timers = cancel w.timeout_timer w.timers; timeout_timer = negsuc 0 }
    else w

-- `reset_cmd`
unfoldable pub reset_cmd : DtmfCmd → DtmfCmd
unfolding cancel_timeout
reset_cmd w = cancel_timeout (record w { active = false; buf = [] })

-- `timeout_cb`
unfoldable pub timeout_cb : DtmfCmd → DtmfCmd
unfolding reset_cmd
timeout_cb w = reset_cmd (record w { timeout_timer = negsuc 0 })

-- `restart_timeout`
unfoldable pub restart_timeout : DtmfCmd → DtmfCmd
unfolding cancel_timeout
restart_timeout w =
    let w1 = cancel_timeout w in
    let (t, id) = create w1.timeout_ms false (some digits_expire) w1.now w1.timers in
    record w1 { timers = t; timeout_timer = id }

-- What `dispatch_command` fires for a command.
abbrev pub fired_for : Option CmdEvent → List CmdEvent
fired_for none = []
fired_for (some e) = e ∷ []

-- `dispatch_command`
unfoldable pub dispatch_command : DtmfCmd → DtmfCmd
dispatch_command w = record w { fired = w.fired ++ fired_for (find_cmd w.buf w.cmds) }

-- `on_cor_drop`; COR is down then.
unfoldable pub on_cor_drop : DtmfCmd → DtmfCmd
unfolding dispatch_command reset_cmd
on_cor_drop w0 =
    let w : DtmfCmd = record w0 { receiving = false } in
    if w.pending then reset_cmd (dispatch_command (record w { pending = false })) else w

-- The part of `on_dtmf_digit` for a digit of a command.
unfoldable pub accumulate : ℕ → DtmfCmd → DtmfCmd
unfolding restart_timeout reset_cmd
accumulate d w =
    if ltb (length w.buf) max_cmd_len
    then restart_timeout (record w { buf = w.buf ++ (d ∷ []) })
    else reset_cmd w

-- The part for the hash.
unfoldable pub end_command : DtmfCmd → DtmfCmd
unfolding cancel_timeout dispatch_command reset_cmd
end_command w0 =
    let w = cancel_timeout w0 in
    if w.receiving then record w { pending = true } else reset_cmd (dispatch_command w)

-- `on_dtmf_digit`
unfoldable pub on_dtmf_digit : ℕ → DtmfCmd → DtmfCmd
unfolding restart_timeout end_command accumulate
on_dtmf_digit d w =
    if d == b'*'
    then restart_timeout (record w { active = true; buf = [] })
    else if not w.active
    then w
    else if d == b'#'
    then end_command w
    else accumulate d w

abbrev pub timeout_key : Bytes
timeout_key =
    b'i' ∷ b'n' ∷ b't' ∷ b'e' ∷ b'r' ∷ b'_' ∷ b'd' ∷ b'i' ∷ b'g' ∷ b'i' ∷ b't' ∷ b'_' ∷ b't' ∷ b'i'
    ∷ b'm' ∷ b'e' ∷ b'o' ∷ b'u' ∷ b't' ∷ []

-- `dtmfcmd_load`; the subscriptions are the bus's.
unfoldable pub dtmfcmd_load : DtmfCmd → DtmfCmd
unfolding reset_cmd
dtmfcmd_load w = reset_cmd (record w { cmds = [] })

-- `dtmfcmd_configure`
unfoldable pub dtmfcmd_configure : List CfgEntry → DtmfCmd → DtmfCmd
dtmfcmd_configure cfg w = record w {
  timeout_ms = get_duration_ms cfg dtmf_section timeout_key (pos 3000);
  cmds = override_all cfg w.cmds;
}

-- `dtmfcmd_unload`
unfoldable pub dtmfcmd_unload : DtmfCmd → DtmfCmd
unfolding cancel_timeout
dtmfcmd_unload w = cancel_timeout w

abbrev pub kept_cmds : Option (List CmdEntry) → List CmdEntry → List CmdEntry
kept_cmds none cmds = cmds
kept_cmds (some l) cmds = l

-- What reaches the module: digits, the edges of COR, its timer while it runs (the table puts it out
-- before the call), commands that other modules register or take back, and its own life.
pub data CmdInput : Type 0 where
  digit : ℕ → CmdInput
  cor_up cor_down timer_due load unload : CmdInput
  configure : List CfgEntry → CmdInput
  register : Bytes → ℕ → Bytes → CmdInput
  unregister : Bytes → CmdInput

unfoldable pub step : CmdInput → DtmfCmd → DtmfCmd
step (digit d) w = on_dtmf_digit d w
step cor_up w = record w { receiving = true }
step cor_down w = on_cor_drop w
step timer_due w =
    if timer_runs w.timeout_timer
    then timeout_cb (record w { timers = cancel w.timeout_timer w.timers })
    else w
step load w = dtmfcmd_load w
step unload w = dtmfcmd_unload w
step (configure cfg) w = dtmfcmd_configure cfg w
step (register pattern offset key) w = record w {
  cmds = (register_cmd pattern offset key w.cmds).0;
}
step (unregister pattern) w = record w { cmds = kept_cmds (unregister_cmd pattern w.cmds) w.cmds }

unfoldable pub run : List CmdInput → DtmfCmd → DtmfCmd
run [] w = w
run (i ∷ is) w = run is (step i w)

unfoldable pub type_digits : Bytes → DtmfCmd → DtmfCmd
type_digits [] w = w
type_digits (d ∷ ds) w = type_digits ds (on_dtmf_digit d w)
