-- ===== src/DtmfCmd.antt =====
-- modules/mod_dtmfcmd.c: commands of DTMF digits between a star and a hash. The state holds the
-- module's variables, and of the core what it calls: the timer table, the clock and whether COR is up.
-- Events are recorded in `fired`, oldest first; descriptions are for display and left out.
pub mod Handlers
pub mod Commands
pub mod Invariant
use kerchunk.Prelude.{
  ℕ, zero, suc, ◌+◌, ◌-◌, Bool, true, false, not, ◌&&◌, ◌||◌, ℤ, pos, negsuc, ltb, leb, ◌==◌,
  if◌then◌else◌, Option, none, some, List, [], ◌∷◌, ◌++◌, length,
}
use kerchunk.Text.{Bytes, same_text, fit, is_empty}
use kerchunk.Timer.{Timers, create, cancel}
use kerchunk.Events.{custom}
use kerchunk.Config.{CfgEntry}
use kerchunk.Config.Entries.{config_get}

-- `MAX_CMD_LEN` and `MAX_COMMANDS`
abbrev pub max_cmd_len : ℕ
max_cmd_len = 16

abbrev pub max_commands : ℕ
max_commands = 64

-- `dtmf_cmd_entry_t`; an empty key is none.
pub record CmdEntry : Type 0 where
  pub pattern : Bytes
  pub event : ℕ
  pub config_key : Bytes

-- The module's one timer callback.
pub data CmdExpiry : Type 0 where
  digits_expire : CmdExpiry

-- An event with its argument.
pub record CmdEvent : Type 0 where
  pub type : ℕ
  pub arg : Bytes

-- `g_buf` has `g_pos` bytes.
pub record DtmfCmd : Type 0 where
  pub active : Bool
  pub buf : Bytes
  pub timeout_timer : ℤ
  pub timeout_ms : ℤ
  pub pending : Bool
  pub cmds : List CmdEntry
  pub timers : Timers CmdExpiry
  pub now : ℕ
  pub receiving : Bool
  pub fired : List CmdEvent

-- `dtmf_register_cmd`; the flag is false for -1.
unfoldable pub register_cmd : Bytes → ℕ → Bytes → List CmdEntry → List CmdEntry × Bool
register_cmd pattern offset key cmds = if leb max_commands (length cmds) then (cmds, false) else (
  cmds
      ++ (record {
        pattern = fit max_cmd_len pattern;
        event = custom + offset;
        config_key = fit 32 key;
      }
          ∷ []),
  true,
)

-- `dtmf_unregister_cmd`: the first command of the pattern goes; `none` is -1.
unfoldable pub unregister_cmd : Bytes → List CmdEntry → Option (List CmdEntry)
unregister_cmd pattern [] = none
unregister_cmd pattern (c ∷ cs) =
    let rest = unregister_cmd pattern cs in
    if same_text c.pattern pattern
    then some cs
    else (elim rest [ none ↦ none | some l ↦ some (c ∷ l) ])

-- The loop of `dtmfcmd_configure`: a pattern of the configuration takes the place of the default.
abbrev pub override_pattern : Option Bytes → CmdEntry → CmdEntry
override_pattern none c = c
override_pattern (some p) c = if is_empty p then c else record c { pattern = fit max_cmd_len p }

abbrev pub dtmf_section : Bytes
dtmf_section = b'd' ∷ b't' ∷ b'm' ∷ b'f' ∷ []

unfoldable pub override_all : List CfgEntry → List CmdEntry → List CmdEntry
override_all cfg [] = []
override_all cfg (c ∷ cs) =
    (if is_empty c.config_key
      then c
      else override_pattern (config_get dtmf_section c.config_key cfg) c)
    ∷ override_all cfg cs

-- The text behind a prefix.
unfoldable pub strip_prefix : Bytes → Bytes → Option Bytes
strip_prefix [] s = some s
strip_prefix (p ∷ ps) [] = none
strip_prefix (p ∷ ps) (c ∷ s) = if p == c then strip_prefix ps s else none

-- The loop of `dispatch_command`: the event of the first pattern that the command starts with, and the
-- rest of the command as its argument.
unfoldable pub find_cmd : Bytes → List CmdEntry → Option CmdEvent
find_cmd buf [] = none
find_cmd buf (c ∷ cs) =
    let rest = find_cmd buf cs in
    elim (strip_prefix c.pattern buf) [
      | none ↦ rest
      | some arg ↦ some (record { type = c.event; arg = fit max_cmd_len arg })
    ]
