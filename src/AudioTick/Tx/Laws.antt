-- ===== src/AudioTick/Tx/Laws.antt =====
-- What every transmission tick of src/kerchunk_audio_tick.c promises of its actions.
use kerchunk.Prelude.{
  ℕ, ◌+◌, ◌≤◌, ◌≡◌, ◌∙◌, ◌⊎◌, Bool, true, false, ℤ, pos_part, is_pos, length, arith,
}
use kerchunk.AudioTick.State.{AudioState}
use kerchunk.AudioTick.Tx.{
  fire_drain, release_ptt, fire_complete, drain, TxIn, Pass, push_action, queue_paused, start_ptt,
  delay_silence, fire_first, drain_frame, tail_silence, new_pass, hold_or_release, finish_queue,
  cancel_tail, after_drain, run_blocks, tick_tx, actions_max, begin_tail, elapsed_ms, write_tail,
  fire_complete_once,
}
use kerchunk.AudioTick.Tx.Actions.{
  tally, push_action-counts, asserts, releases, drains, completes, delay_silence-OnlySilence,
  tail_silence-OnlySilence,
}
use kerchunk.AudioTick.Rx.Laws.{bit}

-- What holds of a pass that began at state `s`, before PTT may be released.
record Counted (s : AudioState) (p : Pass) : Type 0 where
  balance : bit s.queue_ptt + tally asserts p.actions ≡ bit p.audio.queue_ptt
  unreleased : tally releases p.actions ≡ 0
  uncompleted : tally completes p.actions ≡ 0
  frames : tally drains p.actions ≤ 1
  capped : length p.actions ≤ actions_max

-- Before block 4, a pass that has asserted PTT has no tail to cancel.
record Opened (s : AudioState) (p : Pass) : Type 0 where
  counted : Counted s p
  fresh : (tally asserts p.actions ≡ 0) ⊎ (is_pos p.audio.tx_tail_rem ≡ false)

start_ptt-Opened :
    (rate : ℕ) (s : AudioState) (i : TxIn) (paused : Bool)
    → Opened s (start_ptt rate paused i (new_pass s i))
      × (tally drains (start_ptt rate paused i (new_pass s i)).actions ≡ 0)
unfolding start_ptt push_action tally
start_ptt-Opened rate s i paused = ground arith

delay_silence-Opened :
    (s : AudioState) (frame : ℕ) (paused : Bool) (p : Pass)
    → Opened s p
    → tally drains p.actions ≡ 0
    → let q = delay_silence actions_max frame paused p in Opened s q × (tally drains q.actions ≡ 0)
delay_silence-Opened s frame paused p o d =
    ground (arith, delay_silence-OnlySilence actions_max frame paused p)

fire_first-Opened :
    (s : AudioState) (i : TxIn) (p : Pass)
    → Opened s p
    → tally drains p.actions ≡ 0
    → Opened s (fire_first i p) × (tally drains (fire_first i p).actions ≡ 0)
unfolding fire_first
fire_first-Opened s i p o d = ground (arith, push_action-counts p.actions fire_drain)

drain_frame-Opened :
    (s : AudioState) (frame : ℕ) (paused : Bool) (i : TxIn) (p : Pass)
    → Opened s p
    → tally drains p.actions ≡ 0
    → Opened s (drain_frame frame paused i p).0
unfolding drain_frame
drain_frame-Opened s frame paused i p o d =
    let q = fire_first i p in
    ground (arith, fire_first-Opened s i p o d, push_action-counts q.actions (drain frame))

-- What holds of a pass at the end of the tick.
record Closed (s : AudioState) (p : Pass) : Type 0 where
  balance :
      bit s.queue_ptt + tally asserts p.actions ≡ bit p.audio.queue_ptt + tally releases p.actions
  frames : tally drains p.actions ≤ 1
  capped : length p.actions ≤ actions_max

hold_or_release-Closed :
    (s : AudioState) (i : TxIn) (p : Pass)
    → p.audio.queue_ptt ≡ true
    → Counted s p
    → Closed s (hold_or_release i p)
unfolding hold_or_release
hold_or_release-Closed s i p h o = ground (arith, push_action-counts p.actions release_ptt)

tail_silence-Counted :
    (s : AudioState) (frame : ℕ) (p : Pass)
    → Counted s p
    → let q = tail_silence actions_max frame p in
      Counted s q × (q.audio.queue_ptt ≡ p.audio.queue_ptt)
tail_silence-Counted s frame p o = ground (arith, tail_silence-OnlySilence actions_max frame p)

begin_tail-Counted :
    (s : AudioState) (rate : ℕ) (p : Pass) → Counted s p → Counted s (begin_tail rate p)
unfolding begin_tail
begin_tail-Counted s rate p o = ground arith

write_tail-Closed :
    (s : AudioState) (frame : ℕ) (i : TxIn) (p : Pass)
    → p.audio.queue_ptt ≡ true
    → Counted s p
    → Closed s (write_tail frame i p)
unfolding write_tail
write_tail-Closed s frame i p h o =
    let (c, same) = tail_silence-Counted s frame p o in
    hold_or_release-Closed s i (tail_silence actions_max frame p) (same ∙ h) c

fire_complete_once-Closed :
    (s : AudioState) (i : TxIn) (p : Pass) → Counted s p → Closed s (fire_complete_once i p)
unfolding fire_complete_once
fire_complete_once-Closed s i p o =
    let a = fire_complete (elapsed_ms i.now_us p.audio.queue_drain_start_us) in
    ground (arith, push_action-counts p.actions a)

finish_queue-Closed :
    (s : AudioState) (rate frame : ℕ) (i : TxIn) (p : Pass)
    → p.audio.queue_ptt ≡ true
    → Counted s p
    → Closed s (finish_queue rate frame i p).0
unfolding finish_queue begin_tail
finish_queue-Closed s rate frame i p h o =
    let q = begin_tail rate p in
    let c = begin_tail-Counted s rate p o in
    ground (
      arith,
      write_tail-Closed s frame i p h o,
      write_tail-Closed s frame i q h c,
      fire_complete_once-Closed s i q c,
    )

cancel_tail-Closed :
    (s : AudioState) (paused : Bool) (i : TxIn) (p : Pass)
    → Opened s p
    → Closed s (cancel_tail paused i p)
unfolding cancel_tail tally
cancel_tail-Closed s paused i p o = ground arith

cancel_tail-id :
    (paused : Bool) (i : TxIn) (p : Pass) → i.queue_depth ≡ 0 → cancel_tail paused i p ≡ p
unfolding cancel_tail
cancel_tail-id paused i p h = ground arith

after_drain-Closed :
    (s : AudioState) (rate frame : ℕ) (paused : Bool) (i : TxIn) (p : Pass) (drained : Bool)
    → Opened s p
    → Closed s (after_drain rate frame paused i (p, drained))
unfolding after_drain
after_drain-Closed s rate frame paused i p drained o =
    let q = (finish_queue rate frame i p).0 in
    ground (
      arith,
      finish_queue-Closed s rate frame i p,
      cancel_tail-Closed s paused i p o,
      cancel_tail-id paused i q,
    )

run_blocks-Closed :
    (rate frame : ℕ) (s : AudioState) (i : TxIn) → Closed s (run_blocks rate frame s i)
unfolding run_blocks
run_blocks-Closed rate frame s i =
    let paused = queue_paused s i in
    let p = start_ptt rate paused i (new_pass s i) in
    let (o, z) = start_ptt-Opened rate s i paused in
    let q = delay_silence actions_max frame paused p in
    let (o', z') = delay_silence-Opened s frame paused p o z in
    let r = drain_frame frame paused i q in
    after_drain-Closed s rate frame paused i r.0 r.1 (drain_frame-Opened s frame paused i q o' z')

-- What a tick does to the PTT reference of the queue is what its actions say: the reference after
-- it is the one before, with the ASSERT_PTT and RELEASE_PTT actions applied. A tick sends one frame
-- of the queue at most, and never overruns the eight slots. So it is also when the tick cancels the
-- tail and throws its actions away.
pub tick_tx_balance :
    (s : AudioState) (i : TxIn) (rate frame : ℤ)
    → let (s', actions, rerun) = tick_tx s i rate frame in
      (bit s.queue_ptt + tally asserts actions ≡ bit s'.queue_ptt + tally releases actions)
      × (tally drains actions ≤ 1)
      × (length actions ≤ actions_max)
unfolding tick_tx tally
tick_tx_balance s i rate frame =
    ground (arith, run_blocks-Closed (pos_part rate) (pos_part frame) s i)
