-- ===== src/AudioTick/Block.antt =====
-- How the two sub-ticks of src/kerchunk_audio_tick.c act together on the audio state.
use kerchunk.Prelude.{ℕ, ◌≡◌, inr, true, false, ℤ, is_pos, List, []}
use kerchunk.AudioTick.Rx.{RxIn, RxState, DtmfResult}
use kerchunk.AudioTick.Rx.Laws.{run_rx}
use kerchunk.AudioTick.Rx.Stall.{CorDown, PttDown, run_rx-PttDown}
use kerchunk.AudioTick.Tx.{TxIn, tick_tx}
use kerchunk.AudioTick.Tx.Release.{tick_tx-paused}

-- A drain window that is open when PTT is let go blocks the queue: however many frames are received
-- with COR down and PTT released, the transmission tick behind them neither takes PTT nor sends
-- anything, whatever is queued.
pub drain_window_blocks_queue :
    {D : Type 0} (reset : D → D) (process : D → List ℤ → D × DtmfResult)
    → (st : RxState D) (m : ℕ) (is : List RxIn) (i : TxIn) (rate frame : ℤ)
    → st.audio.relay_was_active ≡ false
    → st.audio.queue_ptt ≡ false
    → is_pos st.audio.relay_drain ≡ true
    → CorDown m is
    → PttDown is
    → tick_tx (run_rx reset process st is).0.audio i rate frame ≡ (st.audio, [], false)
drain_window_blocks_queue reset process st m is i rate frame was ptt open_window cor down =
    let same = run_rx-PttDown reset process st m is was cor down in
    rw same (tick_tx-paused st.audio i rate frame ptt (inr open_window))
