-- ===== src/AudioTick/Tx/Release.antt =====
-- When src/kerchunk_audio_tick.c lets PTT go, and when a paused queue does nothing.
use kerchunk.Prelude.{
  ℕ, zero, suc, ◌≤◌, ◌<◌, ◌≡◌, refl, ◌∙◌, ◌⊎◌, Bool, true, false, ℤ, negsuc, pos_part, is_pos, [],
  arith,
}
use kerchunk.AudioTick.State.{AudioState}
use kerchunk.AudioTick.Tx.{
  fire_drain, release_ptt, fire_complete, drain, TxIn, Pass, push_action, queue_paused, has_work,
  start_ptt, delay_silence, fire_first, drain_frame, tail_silence, new_pass, hold_or_release,
  finish_queue, cancel_tail, after_drain, run_blocks, tick_tx, actions_max, begin_tail, elapsed_ms,
  write_tail, fire_complete_once,
}
use kerchunk.AudioTick.Tx.Actions.{
  tally, push_action-counts, releases, delay_silence-OnlySilence, tail_silence-OnlySilence,
}

-- If the pass releases PTT, the conditions for it held.
abbrev Released : AudioState → TxIn → Pass → Type 0
Released s i p =
    0 < tally releases p.actions
    → (i.play_pending ≡ 0)
      × (2 ≤ s.ptt_hold_ticks)
      × (p.audio.queue_ptt ≡ false)
      × (p.audio.tx_tail_rem ≡ negsuc 0)

hold_or_release-Released :
    (s : AudioState) (i : TxIn) (p : Pass)
    → tally releases p.actions ≡ 0
    → p.audio.ptt_hold_ticks ≡ s.ptt_hold_ticks
    → Released s i (hold_or_release i p)
unfolding hold_or_release
hold_or_release-Released s i p r h = ground (arith, push_action-counts p.actions release_ptt)

write_tail-Released :
    (s : AudioState) (frame : ℕ) (i : TxIn) (p : Pass)
    → tally releases p.actions ≡ 0
    → p.audio.ptt_hold_ticks ≡ s.ptt_hold_ticks
    → Released s i (write_tail frame i p)
unfolding write_tail
write_tail-Released s frame i p r h =
    let q = tail_silence actions_max frame p in
    let o = (tail_silence-OnlySilence actions_max frame p).0 in
    hold_or_release-Released s i q (o.same_releases ∙ r) (o.same_hold ∙ h)

finish_queue-Released :
    (s : AudioState) (rate frame : ℕ) (i : TxIn) (p : Pass)
    → tally releases p.actions ≡ 0
    → p.audio.ptt_hold_ticks ≡ s.ptt_hold_ticks
    → Released s i (finish_queue rate frame i p).0
unfolding finish_queue begin_tail fire_complete_once
finish_queue-Released s rate frame i p r h =
    let q = begin_tail rate p in
    let a = fire_complete (elapsed_ms i.now_us p.audio.queue_drain_start_us) in
    ground (
      arith,
      write_tail-Released s frame i p r h,
      write_tail-Released s frame i q r h,
      push_action-counts p.actions a,
    )

cancel_tail-Released :
    (paused : Bool) (i : TxIn) (p : Pass)
    → tally releases p.actions ≡ 0
    → tally releases (cancel_tail paused i p).actions ≡ 0
unfolding cancel_tail tally
cancel_tail-Released paused i p r = ground arith

cancel_tail-id :
    (paused : Bool) (i : TxIn) (p : Pass) → i.queue_depth ≡ 0 → cancel_tail paused i p ≡ p
unfolding cancel_tail
cancel_tail-id paused i p h = ground arith

-- Before block 4.
before : ℕ → ℕ → AudioState → TxIn → Pass × Bool
before rate frame s i =
    let paused = queue_paused s i in
    drain_frame frame paused i
      (delay_silence actions_max frame paused (start_ptt rate paused i (new_pass s i)))

start_ptt-Held :
    (rate : ℕ) (s : AudioState) (i : TxIn) (paused : Bool)
    → let p = start_ptt rate paused i (new_pass s i) in
      (tally releases p.actions ≡ 0)
      × (p.audio.ptt_hold_ticks ≡ s.ptt_hold_ticks)
      × ((p.audio.queue_ptt ≡ s.queue_ptt) ⊎ (has_work i ≡ true))
unfolding start_ptt push_action tally
start_ptt-Held rate s i paused = ground arith

drain_frame-Held :
    (frame : ℕ) (paused : Bool) (i : TxIn) (p : Pass)
    → let q = (drain_frame frame paused i p).0 in
      (tally releases q.actions ≡ tally releases p.actions)
      × (q.audio.ptt_hold_ticks ≡ p.audio.ptt_hold_ticks)
      × (q.audio.queue_ptt ≡ p.audio.queue_ptt)
      × ((drain_frame frame paused i p).1 ≡ false → q ≡ p)
unfolding drain_frame fire_first
drain_frame-Held frame paused i p =
    let q = fire_first i p in
    ground
      (arith, push_action-counts p.actions fire_drain, push_action-counts q.actions (drain frame))

before-Held :
    (rate frame : ℕ) (s : AudioState) (i : TxIn)
    → let (p, drained) = before rate frame s i in
      (tally releases p.actions ≡ 0)
      × (p.audio.ptt_hold_ticks ≡ s.ptt_hold_ticks)
      × ((p.audio.queue_ptt ≡ s.queue_ptt) ⊎ (has_work i ≡ true))
unfolding before
before-Held rate frame s i =
    let paused = queue_paused s i in
    let p = start_ptt rate paused i (new_pass s i) in
    let q = delay_silence actions_max frame paused p in
    ground (
      arith,
      start_ptt-Held rate s i paused,
      delay_silence-OnlySilence actions_max frame paused p,
      drain_frame-Held frame paused i q,
    )

after_drain-Released :
    (s : AudioState) (rate frame : ℕ) (paused : Bool) (i : TxIn) (p : Pass) (drained : Bool)
    → tally releases p.actions ≡ 0
    → p.audio.ptt_hold_ticks ≡ s.ptt_hold_ticks
    → let q = after_drain rate frame paused i (p, drained) in
      Released s i q
      × (0 < tally releases q.actions
          → (p.audio.queue_ptt ≡ true) × (i.queue_depth ≡ 0) × (i.queue_is_draining ≡ false))
unfolding after_drain
after_drain-Released s rate frame paused i p drained r h =
    let q = (finish_queue rate frame i p).0 in
    ground (
      arith,
      finish_queue-Released s rate frame i p r h,
      cancel_tail-Released paused i p r,
      cancel_tail-id paused i q,
    )

-- PTT is let go only when it was held for the queue, the queue is empty and not in the middle of an
-- item, nothing is left in the playback ring, and the counter of such ticks stood at two or more.
-- Then the state holds neither PTT nor a tail.
pub tick_tx-release :
    (s : AudioState) (i : TxIn) (rate frame : ℤ)
    → 0 < tally releases (tick_tx s i rate frame).1
    → (s.queue_ptt ≡ true)
      × (i.queue_depth ≡ 0)
      × (i.queue_is_draining ≡ false)
      × (i.play_pending ≡ 0)
      × (2 ≤ s.ptt_hold_ticks)
      × ((tick_tx s i rate frame).0.queue_ptt ≡ false)
      × ((tick_tx s i rate frame).0.tx_tail_rem ≡ negsuc 0)
unfolding tick_tx run_blocks before tally
tick_tx-release s i rate frame h =
    let n = pos_part rate in
    let m = pos_part frame in
    let (p, drained) = before n m s i in
    let (r, same, ptt) = before-Held n m s i in
    ground (arith, after_drain-Released s n m (queue_paused s i) i p drained r same, ptt)

cancel_tail-paused : (i : TxIn) (p : Pass) → cancel_tail true i p ≡ p
unfolding cancel_tail
cancel_tail-paused i p = refl

delay_silence-paused : (slots frame : ℕ) (p : Pass) → delay_silence slots frame true p ≡ p
unfolding delay_silence
delay_silence-paused zero frame p = refl
delay_silence-paused (suc slots) frame p = refl

run_blocks-paused :
    (n m : ℕ) (s : AudioState) (i : TxIn)
    → queue_paused s i ≡ true
    → run_blocks n m s i ≡ new_pass s i
unfolding run_blocks start_ptt drain_frame after_drain
run_blocks-paused n m s i h =
    rw (h, delay_silence-paused actions_max m (new_pass s i), cancel_tail-paused i (new_pass s i))

-- While the queue does not hold PTT, a user being received or an open drain window stops it: the
-- tick changes nothing and does nothing, whatever is queued.
pub tick_tx-paused :
    (s : AudioState) (i : TxIn) (rate frame : ℤ)
    → s.queue_ptt ≡ false
    → (i.relay_active ≡ true) ⊎ (is_pos s.relay_drain ≡ true)
    → tick_tx s i rate frame ≡ (s, [], false)
unfolding tick_tx
tick_tx-paused s i rate frame q h =
    ground (arith, run_blocks-paused (pos_part rate) (pos_part frame) s i)
