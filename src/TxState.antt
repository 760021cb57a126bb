-- ===== src/TxState.antt =====
-- src/kerchunk_tx_state.c: the label of what the transmitter is doing, a pure function of the
-- audio thread's counters, and its wire names (include/kerchunk_tx_state.h).
pub mod Laws
use kerchunk.Prelude.{ℕ, Bool, ◌&&◌, ℤ, is_pos, is_neg, if◌then◌else◌, not}
use Prim.Native.String.{String}

-- `kerchunk_tx_state_t`
pub data TxState : Type 0 where
  idle relay delay drain tail hold : TxState

-- `kerchunk_tx_state_inputs_t`; the flags are read as truth values only.
pub record TxInputs : Type 0 where
  pub cor_active : Bool
  pub software_relay : Bool
  pub queue_ptt : Bool
  pub tx_delay_rem : ℤ
  pub tx_tail_rem : ℤ
  pub relay_drain : ℤ
  pub ptt_held : Bool

-- `kerchunk_tx_state_compute`
unfoldable pub tx_state_compute : TxInputs → TxState
tx_state_compute i =
    if i.cor_active && i.software_relay
    then relay
    else if is_pos i.relay_drain
    then tail
    else if i.queue_ptt
    then (if is_pos i.tx_delay_rem
        then delay
        else if not (is_neg i.tx_tail_rem)
        then tail
        else drain)
    else if i.ptt_held
    then hold
    else idle

-- `g_names`
unfoldable pub tx_state_name : TxState → String
tx_state_name idle = "TX_IDLE"
tx_state_name relay = "TX_RELAY"
tx_state_name delay = "TX_DELAY"
tx_state_name drain = "TX_DRAIN"
tx_state_name tail = "TX_TAIL"
tx_state_name hold = "TX_HOLD"
