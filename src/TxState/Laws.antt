-- ===== src/TxState/Laws.antt =====
-- What the labels of src/kerchunk_tx_state.c say of the counters.
use kerchunk.Prelude.{◌≡◌, ◌↔◌, ◌⊎◌, false, pos, ◌≤ℤ◌, arith}
use kerchunk.TxState.{idle, TxInputs, tx_state_compute}

-- The label is IDLE exactly when nothing transmits: no relayed reception, no relay drain, and no
-- PTT reference of the queue or of anybody else.
pub tx_state_compute-idle_iff :
    (i : TxInputs)
    → (tx_state_compute i ≡ idle) ↔ (
        ((i.cor_active ≡ false) ⊎ (i.software_relay ≡ false))
        × (i.relay_drain ≤ℤ pos 0)
        × (i.queue_ptt ≡ false)
        × (i.ptt_held ≡ false))
unfolding tx_state_compute
tx_state_compute-idle_iff i = ground arith
