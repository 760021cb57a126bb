-- ===== src/AudioTick/Rx.antt =====
-- `kerchunk_audio_tick_rx` of src/kerchunk_audio_tick.c: the decoder edges, the drain window after
-- a drop of COR, and the decision to relay a frame. The DTMF decoder belongs to libplcode: its two
-- calls are the parameters `reset` and `process`. The pointers are valid; a missing decoder or
-- frame is `none`.
pub mod Laws
pub mod Stall
use kerchunk.Prelude.{
  ℕ, ◌+◌, ◌*◌, ◌/◌, ◌≤◌, Bool, true, false, not, ◌&&◌, ◌||◌, ℤ, pos, pos_part, neg_part, is_pos,
  ◌-ℤ◌, ms_to_samples, ltb, leb, if◌then◌else◌, Option, none, some, List, [], ◌∷◌, take,
}
use kerchunk.AudioTick.State.{AudioState}

-- `kerchunk_tick_rx_event_t`, with the digit of a DTMF_DIGIT event
pub data RxEvent : Type 0 where
  no_event : RxEvent
  dtmf_digit : ℕ → RxEvent
  dtmf_end : RxEvent

-- `kerchunk_audio_tick_rx_out_t`
pub record RxOut : Type 0 where
  pub dtmf_active : Bool
  pub event : RxEvent
  pub relay_write : Bool

-- `plcode_dtmf_result_t`
pub record DtmfResult : Type 0 where
  pub detected : Bool
  pub digit : ℕ

-- What a tick is given besides the state: the frame with its `nread` samples, and the snapshots.
pub record RxIn : Type 0 where
  pub frame : Option (List ℤ)
  pub nread : ℤ
  pub relay_active : Bool
  pub ptt_held : Bool
  pub play_writable : ℕ
  pub sample_rate : ℕ

-- The tick's state: the audio state, `prev_dtmf` of the rx sub-state, and the decoder.
pub record RxState (D : Type 0) : Type 0 where
  pub audio : AudioState
  pub prev_dtmf : Bool
  pub dec : Option D

abbrev sq : ℤ → ℕ
sq x = (pos_part x + neg_part x) * (pos_part x + neg_part x)

-- The sum of squares over a frame.
unfoldable pub power : List ℤ → ℕ
power [] = 0
power (x ∷ xs) = sq x + power xs

-- `pwr / nread < 200 * 200`
unfoldable pub below_noise_floor : List ℤ → ℕ → Bool
unfolding power
below_noise_floor frame n = ltb (power (take n frame) / n) (200 * 200)

abbrev pub frame_len : RxIn → ℕ
frame_len i = pos_part i.nread

-- Step 3: a drop of COR in software-relay mode starts the drain window. Step 4: the edge memory.
unfoldable pub start_drain : AudioState → RxIn → AudioState
start_drain s i = record s {
  relay_drain =
      if s.software_relay && s.relay_was_active && not i.relay_active
      then ms_to_samples i.sample_rate s.relay_drain_ms
      else s.relay_drain;
  relay_was_active = i.relay_active;
}

-- Step 5: `do_relay`
abbrev pub do_relay : AudioState → RxIn → Bool
do_relay s i =
    s.software_relay && i.ptt_held && not s.queue_ptt && (i.relay_active || is_pos s.relay_drain)

-- The drain window after a frame was relayed with COR down.
unfoldable pub count_down : AudioState → List ℤ → ℤ → AudioState
unfolding below_noise_floor
count_down s frame nread = record s {
  relay_drain = if below_noise_floor frame (pos_part nread) then pos 0 else s.relay_drain -ℤ nread;
}

-- Step 5: whether the frame goes out, and the drain window after it.
unfoldable pub relay : AudioState → Option (List ℤ) → RxIn → AudioState × Bool
unfolding count_down
relay s none i = (s, false)
relay s (some frame) i =
    if do_relay s i && is_pos i.nread && leb (frame_len i) i.play_writable
    then (
      if not i.relay_active && is_pos s.relay_drain then count_down s frame i.nread else s,
      true,
    )
    else (s, false)

-- The edge event of the decoder's result, against the flag of the tick before.
unfoldable pub dtmf_edge : Bool → DtmfResult → RxEvent
dtmf_edge prev res =
    if res.detected && not prev
    then dtmf_digit res.digit
    else if not res.detected && prev
    then dtmf_end
    else no_event

module _ {D : Type 0} (reset : D → D) (process : D → List ℤ → D × DtmfResult) where
  -- Step 1: the decoder is reset on the edge of COR, before it sees the frame.
  unfoldable pub reset_on_assert : RxState D → RxIn → Option D
  reset_on_assert st i = elim st.dec [
    | none ↦ none
    | some d ↦ if i.relay_active && not st.audio.relay_was_active then some (reset d) else some d
  ]

  -- Step 2 without the decoder: a tone that was held ends.
  abbrev pub decoder_idle : Bool → Option D → Option D × Bool × RxEvent
  decoder_idle prev dec = (dec, false, if prev then dtmf_end else no_event)

  -- Step 2: the decoder runs while COR is up or the drain window is open, on a frame that is there.
  unfoldable pub decode :
      Option D → Option (List ℤ) → Bool → RxIn → Bool → Option D × Bool × RxEvent
  unfolding dtmf_edge
  decode none frame prev i open_window = decoder_idle prev none
  decode (some d) none prev i open_window = decoder_idle prev (some d)
  decode (some d) (some frame) prev i open_window =
      if open_window && is_pos i.nread
      then (let (d', res) = process d (take (frame_len i) frame) in
          (some d', res.detected, dtmf_edge prev res))
      else decoder_idle prev (some d)

  -- `kerchunk_audio_tick_rx`; the flag that it publishes is also the `prev_dtmf` of the next tick.
  unfoldable pub tick_rx : RxState D → RxIn → RxState D × RxOut
  unfolding reset_on_assert decode start_drain relay
  tick_rx st i =
      let dec = reset_on_assert st i in
      let (dec', active, event) =
        decode dec i.frame st.prev_dtmf i (i.relay_active || is_pos st.audio.relay_drain) in
      let (s, write) = relay (start_drain st.audio i) i.frame i in
      (
        record { audio = s; prev_dtmf = active; dec = dec' },
        record { dtmf_active = active; event = event; relay_write = write },
      )
