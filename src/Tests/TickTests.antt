-- ===== src/Tests/TickTests.antt =====
-- Runs of src/kerchunk_audio_tick.c.
use kerchunk.Prelude.{
  ℕ, ◌+◌, ◌≤◌, ◌≡◌, refl, true, false, ℤ, pos, negsuc, ms_to_samples, none, some, List, [], ◌∷◌,
  arith, length, ◌==◌, if◌then◌else◌,
}
use kerchunk.AudioTick.{AudioState}
use kerchunk.AudioTick.Rx.{RxIn, RxState, DtmfResult, tick_rx}
use kerchunk.AudioTick.Rx.Laws.{digits, ends, bit, run_rx, count_events, run_rx_balance}
use kerchunk.AudioTick.Tx.{
  TxIn, tick_tx, run_blocks, start_ptt, delay_silence, drain_frame, after_drain, finish_queue,
  write_tail, tail_silence, hold_or_release, cancel_tail, push_action, fire_drain, assert_ptt,
  drain, release_ptt,
}
use kerchunk.AudioTick.Tx.Actions.{tally, asserts, releases, drains, completes}
use kerchunk.AudioTick.Tx.Laws.{tick_tx_balance}
use kerchunk.AudioTick.Tx.Release.{tick_tx-release}
use kerchunk.AudioTick.Tx.Settle.{run_tx, run_tx-releases}
use kerchunk.AudioTick.Tx.Requeue.{until_release, until_release-uncompleted}
use kerchunk.AudioTick.Block.{drain_window_blocks_queue}

-- A state at rest: a delay of one frame and a tail of two, at one sample a millisecond.
abbrev rest : AudioState
rest = record {
  software_relay = true;
  tx_delay_ms = pos 20;
  tx_tail_ms = pos 4;
  relay_drain_ms = pos 100;
  relay_drain = pos 0;
  relay_was_active = false;
  queue_ptt = false;
  queue_fired_drain = false;
  queue_drain_start_us = 0;
  tx_delay_rem = pos 0;
  tx_tail_rem = negsuc 0;
  ptt_hold_ticks = 0;
}

abbrev work : TxIn
work = record {
  relay_active = false;
  ptt_held = true;
  queue_depth = 1;
  queue_is_draining = false;
  play_writable = 100;
  play_pending = 0;
  now_us = 5;
}

abbrev done : TxIn
done = record work { queue_depth = 0 }

-- PTT is held already, so the first frame goes out at once.
first_tick : (tick_tx rest work (pos 1000) (pos 2)).1 ≡ assert_ptt ∷ fire_drain ∷ drain 2 ∷ []
unfolding tick_tx run_blocks start_ptt delay_silence drain_frame after_drain finish_queue
    cancel_tail push_action
first_tick = refl

tick_tx_balance_example :
    let (s, actions, rerun) = tick_tx rest work (pos 1000) (pos 2) in
    (bit rest.queue_ptt + tally asserts actions ≡ bit s.queue_ptt + tally releases actions)
    × (tally drains actions ≤ 1)
    × (length actions ≤ 8)
tick_tx_balance_example = tick_tx_balance rest work (pos 1000) (pos 2)

-- The tail is written, and two ticks were waited.
abbrev waiting : AudioState
waiting = record rest { queue_ptt = true; tx_tail_rem = pos 0; ptt_hold_ticks = 2 }

release_tick : (tick_tx waiting done (pos 1000) (pos 2)).1 ≡ release_ptt ∷ []
unfolding tick_tx run_blocks start_ptt delay_silence drain_frame after_drain finish_queue write_tail
    tail_silence hold_or_release cancel_tail push_action
release_tick = refl

tick_tx-release_example :
    (waiting.queue_ptt ≡ true)
    × (done.queue_depth ≡ 0)
    × (done.queue_is_draining ≡ false)
    × (done.play_pending ≡ 0)
    × (2 ≤ waiting.ptt_hold_ticks)
    × ((tick_tx waiting done (pos 1000) (pos 2)).0.queue_ptt ≡ false)
    × ((tick_tx waiting done (pos 1000) (pos 2)).0.tx_tail_rem ≡ negsuc 0)
unfolding tally
tick_tx-release_example =
    tick_tx-release waiting done (pos 1000) (pos 2) (rw release_tick (omega arith))

-- Half a delay and the whole tail are left: eleven calls are enough.
abbrev sending : AudioState
sending = record rest { queue_ptt = true; queue_fired_drain = true; tx_delay_rem = pos 1 }

run_tx-releases_example :
    (run_tx
      (pos 1000)
      (pos 2)
      sending
      (done ∷ done ∷ done ∷ done ∷ done ∷ done ∷ done ∷ done ∷ done ∷ done ∷ done ∷ [])).queue_ptt
    ≡ false
unfolding ms_to_samples
run_tx-releases_example =
    run_tx-releases 1000 2 sending
      (done ∷ done ∷ done ∷ done ∷ done ∷ done ∷ done ∷ done ∷ done ∷ done ∷ done ∷ [])
      (omega arith) (omega arith) refl (ground arith) (omega arith)

until_release-uncompleted_example :
    tally completes (until_release (pos 1000) (pos 2) waiting (work ∷ done ∷ done ∷ done ∷ [])) ≡ 0
until_release-uncompleted_example =
    until_release-uncompleted (pos 1000) (pos 2) waiting (work ∷ done ∷ done ∷ done ∷ [])
      (ground arith)

-- A decoder that counts its frames since the last reset, and hears digit 5 on the first.
abbrev reset : ℕ → ℕ
reset d = 0

abbrev process : ℕ → List ℤ → ℕ × DtmfResult
process d frame = (d + 1, record { detected = if d == 0 then true else false; digit = 5 })

abbrev station : RxState ℕ
station = record { audio = rest; prev_dtmf = false; dec = some 7 }

-- A user is received, and the repeater holds PTT.
abbrev received : RxIn
received = record {
  frame = some (pos 1 ∷ negsuc 2 ∷ []);
  nread = pos 2;
  relay_active = true;
  ptt_held = true;
  play_writable = 10;
  sample_rate = 1000;
}

received_relays : (tick_rx reset process station received).1.relay_write ≡ true
unfolding tick_rx
received_relays = refl

run_rx_balance_example :
    let (st, outs) = run_rx reset process station (received ∷ received ∷ received ∷ []) in
    count_events digits outs + bit station.prev_dtmf ≡ count_events ends outs + bit st.prev_dtmf
run_rx_balance_example = run_rx_balance reset process station (received ∷ received ∷ received ∷ [])

-- COR is down, five samples of the window are open, and PTT is still held.
abbrev draining : RxState ℕ
draining = record { audio = record rest { relay_drain = pos 5 }; prev_dtmf = false; dec = none }

abbrev tail_frame : RxIn
tail_frame = record received { frame = some (pos 900 ∷ pos 900 ∷ []); relay_active = false }

abbrev released : RxIn
released = record tail_frame { ptt_held = false }

drain_window_blocks_queue_example :
    tick_tx
      (run_rx reset process draining (released ∷ released ∷ [])).0.audio
      work
      (pos 1000)
      (pos 2)
    ≡ (draining.audio, [], false)
drain_window_blocks_queue_example =
    drain_window_blocks_queue reset process draining 2 (released ∷ released ∷ []) work (pos 1000)
      (pos 2) refl refl refl (ground arith) (ground arith)
