-- ===== src/AudioTick/Tx/Settle.antt =====
-- How a transmission of src/kerchunk_audio_tick.c ends once the queue is empty: a measure of the
-- state that falls on every tick until PTT is let go.
use kerchunk.Prelude.{
  ℕ, zero, suc, ◌+◌, ◌-◌, ◌≤◌, ◌<◌, ◌≡◌, refl, ◌∙◌, ap, ◌⊎◌, Bool, true, false, ℤ, pos, pos_part,
  is_pos, is_neg, if◌then◌else◌, List, [], ◌∷◌, length, arith, Bool-cases, inl, inr, ms_to_samples,
}
use kerchunk.AudioTick.State.{AudioState}
use kerchunk.AudioTick.Tx.{
  TxIn, Pass, has_room, queue_paused, start_ptt, delay_silence, drain_frame, tail_silence, new_pass,
  hold_or_release, finish_queue, cancel_tail, after_drain, run_blocks, tick_tx, actions_max,
  begin_tail, write_tail, fire_complete_once, delay_step, delay_more, tail_step, tail_more,
}
use kerchunk.AudioTick.Tx.Actions.{
  sub_chunk-Lowers, delay_silence-OnlySilence, tail_silence-OnlySilence,
}

-- What is left of the tail and of the hold behind it.
abbrev tail_left : AudioState → ℕ
tail_left s = if is_pos s.tx_tail_rem then pos_part s.tx_tail_rem + 3 else 3 - s.ptt_hold_ticks

-- The tail's length, which pass A is going to set.
abbrev pub tail_samples : ℕ → AudioState → ℕ
tail_samples rate s = pos_part (ms_to_samples rate s.tx_tail_ms)

-- An upper bound of the ticks that an empty queue still takes.
abbrev pub ticks_left : ℕ → AudioState → ℕ
ticks_left rate s =
    pos_part s.tx_delay_rem
    + (if is_neg s.tx_tail_rem then tail_samples rate s + 4 else tail_left s)

delay_lowers :
    (slots frame : ℕ) (p : Pass)
    → let q = delay_silence slots frame false p in
      (pos_part q.audio.tx_delay_rem ≤ pos_part p.audio.tx_delay_rem)
      × (is_pos p.audio.tx_delay_rem ≡ false → q ≡ p)
unfolding delay_silence delay_step
delay_lowers zero frame p = ground arith
delay_lowers (suc slots) frame p =
    let d = p.audio.tx_delay_rem in
    ground (arith, delay_lowers slots frame (delay_step frame p), sub_chunk-Lowers frame d)

delay_lowers_strictly :
    (slots frame : ℕ) (p : Pass)
    → 0 < frame
    → delay_more frame false p ≡ true
    → pos_part (delay_silence (suc slots) frame false p).audio.tx_delay_rem
      < pos_part p.audio.tx_delay_rem
unfolding delay_silence delay_step
delay_lowers_strictly slots frame p f h =
    let d = p.audio.tx_delay_rem in
    ground (arith, delay_lowers slots frame (delay_step frame p), sub_chunk-Lowers frame d)

tail_lowers :
    (slots frame : ℕ) (p : Pass)
    → is_neg p.audio.tx_tail_rem ≡ false
    → let q = tail_silence slots frame p in
      (pos_part q.audio.tx_tail_rem ≤ pos_part p.audio.tx_tail_rem)
      × (is_neg q.audio.tx_tail_rem ≡ false)
      × (is_pos p.audio.tx_tail_rem ≡ false → q ≡ p)
unfolding tail_silence tail_step
tail_lowers zero frame p n = ground arith
tail_lowers (suc slots) frame p n =
    let d = p.audio.tx_tail_rem in
    ground (arith, tail_lowers slots frame (tail_step frame p), sub_chunk-Lowers frame d)

tail_lowers_strictly :
    (slots frame : ℕ) (p : Pass)
    → 0 < frame
    → is_neg p.audio.tx_tail_rem ≡ false
    → tail_more frame p ≡ true
    → pos_part (tail_silence (suc slots) frame p).audio.tx_tail_rem < pos_part p.audio.tx_tail_rem
unfolding tail_silence tail_step
tail_lowers_strictly slots frame p f n h =
    let d = p.audio.tx_tail_rem in
    ground (arith, tail_lowers slots frame (tail_step frame p), sub_chunk-Lowers frame d)

hold_or_release-left :
    (i : TxIn) (p : Pass)
    → i.play_pending ≡ 0
    → p.audio.queue_ptt ≡ true
    → is_neg p.audio.tx_tail_rem ≡ false
    → let q = hold_or_release i p in
      (q.audio.tx_delay_rem ≡ p.audio.tx_delay_rem)
      × (q.audio.tx_tail_ms ≡ p.audio.tx_tail_ms)
      × ((q.audio.queue_ptt ≡ false)
          ⊎ ((q.audio.queue_ptt ≡ true)
              × (q.audio.tx_tail_rem ≡ p.audio.tx_tail_rem)
              × (q.audio.ptt_hold_ticks
                  ≡ (if is_pos p.audio.tx_tail_rem then 0 else p.audio.ptt_hold_ticks + 1))
              × (has_room p.actions ≡ true
                  → (is_pos p.audio.tx_tail_rem ≡ true) ⊎ (p.audio.ptt_hold_ticks < 2))))
unfolding hold_or_release
hold_or_release-left i p z h n = ground arith

-- A pass that goes through block 4 lowers what is left of the tail, if it came with a slot and room
-- in the ring, and does not raise it in any case.
abbrev Falls : ℕ → Pass → Pass → Type 0
Falls frame p q =
    (q.audio.tx_delay_rem ≡ p.audio.tx_delay_rem)
    × (q.audio.tx_tail_ms ≡ p.audio.tx_tail_ms)
    × ((q.audio.queue_ptt ≡ false)
        ⊎ ((q.audio.queue_ptt ≡ true)
            × (is_neg q.audio.tx_tail_rem ≡ false)
            × (tail_left q.audio ≤ tail_left p.audio)
            × (has_room p.actions ≡ true
                → frame ≤ p.play_w
                → 0 < frame
                → tail_left q.audio < tail_left p.audio)))

write_tail-Falls :
    (frame : ℕ) (i : TxIn) (p : Pass)
    → i.play_pending ≡ 0
    → p.audio.queue_ptt ≡ true
    → is_neg p.audio.tx_tail_rem ≡ false
    → Falls frame p (write_tail frame i p)
unfolding write_tail
write_tail-Falls frame i p z h n =
    let q = tail_silence actions_max frame p in
    ground (
      arith,
      hold_or_release-left i q z,
      tail_lowers actions_max frame p n,
      tail_lowers_strictly 7 frame p,
      tail_silence-OnlySilence actions_max frame p,
    )

-- The tail part of the measure.
abbrev left_after : ℕ → AudioState → ℕ
left_after rate s = if is_neg s.tx_tail_rem then tail_samples rate s + 4 else tail_left s

begin_tail-nonneg :
    (rate : ℕ) (p : Pass)
    → is_neg p.audio.tx_tail_ms ≡ false
    → let q = begin_tail rate p in
      (is_neg q.audio.tx_tail_rem ≡ false)
      × (tail_left q.audio ≤ tail_samples rate p.audio + 3)
      × (q.audio.tx_delay_rem ≡ p.audio.tx_delay_rem)
      × (q.audio.tx_tail_ms ≡ p.audio.tx_tail_ms)
      × (q.audio.queue_ptt ≡ p.audio.queue_ptt)
      × (q.actions ≡ p.actions)
      × (q.play_w ≡ p.play_w)
unfolding begin_tail ms_to_samples
begin_tail-nonneg rate p h = ground arith

fire_complete_once-left :
    (rate : ℕ) (i : TxIn) (p : Pass)
    → (fire_complete_once i p).audio ≡ record (p.audio) { queue_fired_drain = false }
unfolding fire_complete_once
fire_complete_once-left rate i p = refl

finish_queue-left :
    (rate frame : ℕ) (i : TxIn) (p : Pass)
    → i.play_pending ≡ 0
    → p.audio.queue_ptt ≡ true
    → is_neg p.audio.tx_tail_ms ≡ false
    → let q = (finish_queue rate frame i p).0 in
      (q.audio.tx_delay_rem ≡ p.audio.tx_delay_rem)
      × (q.audio.tx_tail_ms ≡ p.audio.tx_tail_ms)
      × ((q.audio.queue_ptt ≡ false)
          ⊎ ((q.audio.queue_ptt ≡ true)
              × (left_after rate q.audio ≤ left_after rate p.audio)
              × (has_room p.actions ≡ true
                  → frame ≤ p.play_w
                  → 0 < frame
                  → left_after rate q.audio < left_after rate p.audio)))
unfolding finish_queue
finish_queue-left rate frame i p z h n =
    let b = begin_tail rate p in
    ground (
      arith,
      begin_tail-nonneg rate p n,
      fire_complete_once-left rate i b,
      write_tail-Falls frame i b z,
      write_tail-Falls frame i p z h,
    )

-- A tick on which nothing is queued, the playback ring is empty, and a frame fits it.
pub record IsQuiet (frame : ℕ) (i : TxIn) : Type 0 where
  pub empty : i.queue_depth ≡ 0
  pub between_items : i.queue_is_draining ≡ false
  pub drained : i.play_pending ≡ 0
  pub room : frame ≤ i.play_writable

cancel_tail-id :
    (paused : Bool) (i : TxIn) (p : Pass) → i.queue_depth ≡ 0 → cancel_tail paused i p ≡ p
unfolding cancel_tail
cancel_tail-id paused i p h = ground arith

after_drain-quiet :
    (rate frame : ℕ) (i : TxIn) (p : Pass)
    → IsQuiet frame i
    → p.audio.queue_ptt ≡ true
    → after_drain rate frame false i (p, false)
      ≡ (if is_pos p.audio.tx_delay_rem then p else (finish_queue rate frame i p).0)
unfolding after_drain
after_drain-quiet rate frame i p q h =
    let r = (finish_queue rate frame i p).0 in
    ground (arith, cancel_tail-id false i p, cancel_tail-id false i r)

run_blocks-quiet :
    (rate frame : ℕ) (s : AudioState) (i : TxIn)
    → IsQuiet frame i
    → s.queue_ptt ≡ true
    → let p = delay_silence actions_max frame false (new_pass s i) in
      run_blocks rate frame s i
      ≡ (if is_pos p.audio.tx_delay_rem then p else (finish_queue rate frame i p).0)
unfolding run_blocks start_ptt drain_frame
run_blocks-quiet rate frame s i q h =
    let p = delay_silence actions_max frame false (new_pass s i) in
    let o = (delay_silence-OnlySilence actions_max frame false (new_pass s i)).0 in
    ground (arith, after_drain-quiet rate frame i p q (o.same_ptt ∙ h))

run_blocks-left :
    (rate frame : ℕ) (s : AudioState) (i : TxIn)
    → 0 < frame
    → IsQuiet frame i
    → s.queue_ptt ≡ true
    → is_neg s.tx_tail_ms ≡ false
    → let q = run_blocks rate frame s i in
      (q.audio.tx_tail_ms ≡ s.tx_tail_ms)
      × ((q.audio.queue_ptt ≡ false)
          ⊎ ((q.audio.queue_ptt ≡ true) × (ticks_left rate q.audio < ticks_left rate s)))
run_blocks-left rate frame s i f q h n =
    let z = new_pass s i in
    let p = delay_silence actions_max frame false z in
    let o = delay_silence-OnlySilence actions_max frame false z in
    ground (
      arith,
      run_blocks-quiet rate frame s i q h,
      delay_lowers actions_max frame z,
      delay_lowers_strictly 7 frame z,
      o,
      finish_queue-left rate frame i p q.drained,
    )

-- One call after another, each with its input.
unfoldable pub run_tx : ℤ → ℤ → AudioState → List TxIn → AudioState
run_tx rate frame s [] = s
run_tx rate frame s (i ∷ is) = run_tx rate frame (tick_tx s i rate frame).0 is

abbrev pub AllQuiet : ℕ → List TxIn → Type 0
AllQuiet frame [] = Unit {0}
AllQuiet frame (i ∷ is) = IsQuiet frame i × AllQuiet frame is

delay_silence-off :
    (slots frame : ℕ) (paused : Bool) (p : Pass)
    → p.audio.queue_ptt ≡ false
    → delay_silence slots frame paused p ≡ p
unfolding delay_silence
delay_silence-off zero frame paused p h = refl
delay_silence-off (suc slots) frame paused p h = ground arith

run_blocks-off :
    (rate frame : ℕ) (s : AudioState) (i : TxIn)
    → IsQuiet frame i
    → s.queue_ptt ≡ false
    → run_blocks rate frame s i ≡ new_pass s i
unfolding run_blocks start_ptt drain_frame after_drain cancel_tail
run_blocks-off rate frame s i q h =
    ground (arith, delay_silence-off actions_max frame (queue_paused s i) (new_pass s i) h)

stays_off :
    (rate frame : ℕ) (s : AudioState) (is : List TxIn)
    → AllQuiet frame is
    → s.queue_ptt ≡ false
    → (run_tx (pos rate) (pos frame) s is).queue_ptt ≡ false
unfolding run_tx tick_tx
stays_off rate frame s [] q h = h
stays_off rate frame s (i ∷ is) q h =
    stays_off rate frame (tick_tx s i (pos rate) (pos frame)).0 is q.1
      (ground (arith, run_blocks-off rate frame s i q.0 h))

tick_tx-left :
    (rate frame : ℕ) (s : AudioState) (i : TxIn)
    → 0 < rate
    → 0 < frame
    → is_neg s.tx_tail_ms ≡ false
    → IsQuiet frame i
    → s.queue_ptt ≡ true
    → let s' = (tick_tx s i (pos rate) (pos frame)).0 in
      (s'.tx_tail_ms ≡ s.tx_tail_ms)
      × ((s'.queue_ptt ≡ false)
          ⊎ ((s'.queue_ptt ≡ true) × (ticks_left rate s' < ticks_left rate s)))
unfolding tick_tx
tick_tx-left rate frame s i r f n q h = ground (arith, run_blocks-left rate frame s i f q h n)

-- A transmission always ends: once the queue is empty, the playback ring drained and able to take a
-- frame, PTT is let go after as many calls as there are samples of key-up delay and tail left, and
-- four more at the most, and is not taken again.
pub run_tx-releases :
    (rate frame : ℕ) (s : AudioState) (is : List TxIn)
    → 0 < rate
    → 0 < frame
    → is_neg s.tx_tail_ms ≡ false
    → AllQuiet frame is
    → ticks_left rate s < length is
    → (run_tx (pos rate) (pos frame) s is).queue_ptt ≡ false
unfolding run_tx
run_tx-releases rate frame s [] r f n q l = absurd (omega arith)
run_tx-releases rate frame s (i ∷ is) r f n q l =
    let s' = (tick_tx s i (pos rate) (pos frame)).0 in
    elim (Bool-cases s.queue_ptt) [
      | inr off ↦ stays_off rate frame s (i ∷ is) q off
      | inl on ↦
          let (ms, cases) = tick_tx-left rate frame s i r f n q.0 on in
          elim cases [
            | inl off ↦ stays_off rate frame s' is q.1 off
            | inr more ↦ run_tx-releases rate frame s' is r f (ap is_neg ms ∙ n) q.1 (omega arith)
          ]
    ]
