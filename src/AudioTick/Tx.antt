-- ===== src/AudioTick/Tx.antt =====
-- `kerchunk_audio_tick_tx` of src/kerchunk_audio_tick.c: the actions that the audio thread performs
-- in a tick to send the queue, from keying up to the release of PTT. Each numbered block of the
-- function is a definition; a loop over the action slots recurs on the slots, of which an action
-- takes one, so eight rounds are enough. The pointers are valid.
pub mod Laws
pub mod Actions
pub mod Release
pub mod Settle
pub mod Requeue
use kerchunk.Prelude.{
  ℕ, zero, suc, ◌+◌, ◌-◌, ◌/◌, ◌%◌, ◌^◌, Bool, true, false, not, ◌&&◌, ◌||◌, ℤ, pos, negsuc,
  pos_part, is_pos, is_neg, ◌-ℤ◌, ltb_ℤ, ms_to_samples, ltb, leb, ◌==◌, if◌then◌else◌, List, [],
  ◌∷◌, ◌++◌, length,
}
use kerchunk.AudioTick.State.{AudioState}

-- `kerchunk_tx_action_t`: the kind with what it carries
pub data TxAction : Type 0 where
  assert_ptt fire_drain release_ptt : TxAction
  fire_complete : ℕ → TxAction
  silence : ℤ → TxAction
  drain : ℕ → TxAction

-- `kerchunk_audio_tick_tx_in_t`; a queue's depth is never negative.
pub record TxIn : Type 0 where
  pub relay_active : Bool
  pub ptt_held : Bool
  pub queue_depth : ℕ
  pub queue_is_draining : Bool
  pub play_writable : ℕ
  pub play_pending : ℕ
  pub now_us : ℕ

-- The state and the output while the function runs: the actions so far, the first in front, the
-- room left in the playback ring, and the request for another pass.
pub record Pass : Type 0 where
  pub audio : AudioState
  pub actions : List TxAction
  pub play_w : ℕ
  pub rerun : Bool

-- `KERCHUNK_TX_ACTIONS_MAX`
abbrev pub actions_max : ℕ
actions_max = 8

-- `push_action`
unfoldable pub push_action : List TxAction → TxAction → List TxAction
push_action l a = if leb actions_max (length l) then l else l ++ (a ∷ [])

abbrev pub has_room : List TxAction → Bool
has_room l = ltb (length l) actions_max

-- `queue_paused`
abbrev pub queue_paused : AudioState → TxIn → Bool
queue_paused s i = not s.queue_ptt && (i.relay_active || is_pos s.relay_drain)

abbrev pub has_work : TxIn → Bool
has_work i = ltb 0 i.queue_depth || i.queue_is_draining

-- Block 1: PTT is asserted, and the key-up delay set, when there is something to send.
unfoldable pub start_ptt : ℕ → Bool → TxIn → Pass → Pass
start_ptt rate paused i p =
    if not paused && not p.audio.queue_ptt && has_work i
    then record p {
      actions = push_action p.actions assert_ptt;
      audio = record (p.audio) {
        queue_ptt = true;
        queue_fired_drain = false;
        tx_delay_rem = if i.ptt_held then pos 0 else ms_to_samples rate p.audio.tx_delay_ms;
        tx_tail_rem = negsuc 0;
      };
    }
    else p

-- One round of a silence loop: the samples of the next chunk.
abbrev pub chunk : ℤ → ℕ → ℤ
chunk rem frame = if ltb_ℤ rem (pos frame) then rem else pos frame

-- A round of the loop of block 2.
unfoldable pub delay_step : ℕ → Pass → Pass
delay_step frame p =
    let sn = chunk p.audio.tx_delay_rem frame in
    record p {
      actions = push_action p.actions (silence sn);
      audio = record (p.audio) { tx_delay_rem = p.audio.tx_delay_rem -ℤ sn };
      play_w = p.play_w - pos_part sn;
    }

-- The loop's guard.
abbrev pub delay_more : ℕ → Bool → Pass → Bool
delay_more frame paused p =
    not paused
    && (p.audio.queue_ptt
        && (is_pos p.audio.tx_delay_rem && (leb frame p.play_w && has_room p.actions)))

-- Block 2: silence while the radio keys up.
unfoldable pub delay_silence : ℕ → ℕ → Bool → Pass → Pass
delay_silence zero frame paused p = p
delay_silence (suc slots) frame paused p =
    let next = delay_silence slots frame paused (delay_step frame p) in
    if delay_more frame paused p then next else p

-- The guard of block 3.
abbrev pub may_drain : Bool → TxIn → Pass → Bool
may_drain paused i p =
    not paused
    && (p.audio.queue_ptt
        && (not (is_pos p.audio.tx_delay_rem)
            && (not (i.relay_active && not (p.audio.queue_ptt || i.ptt_held))
                && (has_work i && has_room p.actions))))

-- QUEUE_DRAIN comes once, with the first frame.
unfoldable pub fire_first : TxIn → Pass → Pass
fire_first i p = if p.audio.queue_fired_drain then p else record p {
  actions = push_action p.actions fire_drain;
  audio = record (p.audio) { queue_fired_drain = true; queue_drain_start_us = i.now_us };
}

-- Block 3: one frame of the queue; the flag is `drained_this_tick`.
unfoldable pub drain_frame : ℕ → Bool → TxIn → Pass → Pass × Bool
unfolding fire_first
drain_frame frame paused i p =
    if may_drain paused i p
    then (
      let p' = fire_first i p in
          record p' {
            actions = push_action p'.actions (drain frame);
            play_w = if leb frame p'.play_w then p'.play_w - frame else p'.play_w;
          },
      true,
    )
    else (p, false)

-- `(uint32_t)((now_us - queue_drain_start_us) / 1000)` on `uint64_t`
unfoldable pub elapsed_ms : ℕ → ℕ → ℕ
elapsed_ms now start = (now + 2 ^ 64 - start) % 2 ^ 64 / 1000 % 2 ^ 32

-- A round of the loop of block 4, and the loop's guard.
unfoldable pub tail_step : ℕ → Pass → Pass
tail_step frame p =
    let sn = chunk p.audio.tx_tail_rem frame in
    record p {
      actions = push_action p.actions (silence sn);
      audio = record (p.audio) { tx_tail_rem = p.audio.tx_tail_rem -ℤ sn };
      play_w = p.play_w - pos_part sn;
    }

abbrev pub tail_more : ℕ → Pass → Bool
tail_more frame p = is_pos p.audio.tx_tail_rem && (leb frame p.play_w && has_room p.actions)

-- The loop of block 4: silence for the tail.
unfoldable pub tail_silence : ℕ → ℕ → Pass → Pass
tail_silence zero frame p = p
tail_silence (suc slots) frame p =
    let next = tail_silence slots frame (tail_step frame p) in if tail_more frame p then next else p

-- The end of block 4: PTT is released when the tail is written, the playback ring is empty, and
-- this was so for three ticks.
unfoldable pub hold_or_release : TxIn → Pass → Pass
hold_or_release i p =
    if not (is_pos p.audio.tx_tail_rem) && i.play_pending == 0
    then (if leb 3 (p.audio.ptt_hold_ticks + 1) && has_room p.actions
        then record p {
          audio = record (p.audio) {
            queue_ptt = false;
            tx_tail_rem = negsuc 0;
            ptt_hold_ticks = 0;
          };
          actions = push_action p.actions release_ptt;
        }
        else record p { audio = record (p.audio) { ptt_hold_ticks = p.audio.ptt_hold_ticks + 1 } })
    else record p { audio = record (p.audio) { ptt_hold_ticks = 0 } }

-- The guard of block 4.
abbrev pub queue_over : Bool → Bool → TxIn → AudioState → Bool
queue_over paused drained i s =
    not paused
    && (not drained
        && (s.queue_ptt
            && (not (is_pos s.tx_delay_rem) && (i.queue_depth == 0 && not i.queue_is_draining))))

-- Pass A of block 4 sets the tail.
unfoldable pub begin_tail : ℕ → Pass → Pass
begin_tail rate p = record p {
  audio = record (p.audio) { tx_tail_rem = ms_to_samples rate p.audio.tx_tail_ms };
}

-- Pass A goes on to report QUEUE_COMPLETE, and asks for another pass.
unfoldable pub fire_complete_once : TxIn → Pass → Pass
fire_complete_once i p = record p {
  audio = record (p.audio) { queue_fired_drain = false };
  actions =
      push_action p.actions (fire_complete (elapsed_ms i.now_us p.audio.queue_drain_start_us));
  rerun = true;
}

-- Block 4 behind pass A.
unfoldable pub write_tail : ℕ → TxIn → Pass → Pass
write_tail frame i p = hold_or_release i (tail_silence actions_max frame p)

-- Block 4; the flag is set when the function returns from inside it, after QUEUE_COMPLETE.
unfoldable pub finish_queue : ℕ → ℕ → TxIn → Pass → Pass × Bool
finish_queue rate frame i p =
    if is_neg p.audio.tx_tail_rem
    then (if p.audio.queue_fired_drain
        then (fire_complete_once i (begin_tail rate p), true)
        else (write_tail frame i (begin_tail rate p), false))
    else (write_tail frame i p, false)

-- The last block: new items during the tail cancel it, with what this pass has accumulated.
unfoldable pub cancel_tail : Bool → TxIn → Pass → Pass
cancel_tail paused i p =
    if not paused && (p.audio.queue_ptt && (is_pos p.audio.tx_tail_rem && ltb 0 i.queue_depth))
    then record p {
      audio = record (p.audio) {
        tx_tail_rem = negsuc 0;
        queue_fired_drain = true;
        ptt_hold_ticks = 0;
      };
      rerun = true;
      actions = [];
    }
    else p

-- From block 4 on.
unfoldable pub after_drain : ℕ → ℕ → Bool → TxIn → Pass × Bool → Pass
after_drain rate frame paused i (p, drained) =
    let (p', returned) = finish_queue rate frame i p in
    if queue_over paused drained i p.audio
    then (if returned then p' else cancel_tail paused i p')
    else cancel_tail paused i p

abbrev pub new_pass : AudioState → TxIn → Pass
new_pass s i = record { audio = s; actions = []; play_w = i.play_writable; rerun = false }

-- The blocks in order, at a positive sample rate and frame length.
unfoldable pub run_blocks : ℕ → ℕ → AudioState → TxIn → Pass
unfolding start_ptt delay_silence drain_frame after_drain
run_blocks rate frame s i =
    let paused = queue_paused s i in
    let begun = start_ptt rate paused i (new_pass s i) in
    let keyed = delay_silence actions_max frame paused begun in
    after_drain rate frame paused i (drain_frame frame paused i keyed)

-- `kerchunk_audio_tick_tx`: the state, the actions, and `rerun_this_tick`.
unfoldable pub tick_tx : AudioState → TxIn → ℤ → ℤ → AudioState × List TxAction × Bool
tick_tx s i sample_rate frame_samples =
    if is_pos sample_rate && is_pos frame_samples
    then (let p = run_blocks (pos_part sample_rate) (pos_part frame_samples) s i in
        (p.audio, p.actions, p.rerun))
    else (s, [], false)
