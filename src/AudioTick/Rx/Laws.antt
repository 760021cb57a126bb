-- ===== src/AudioTick/Rx/Laws.antt =====
-- What a reception tick of src/kerchunk_audio_tick.c promises, and what a run of ticks does.
use kerchunk.Prelude.{
  ℕ, ◌+◌, ◌≤◌, ◌<◌, ◌≡◌, refl, ◌⊎◌, Bool, true, false, ◌||◌, ℤ, pos_part, is_pos, take, Option,
  none, some, List, [], ◌∷◌, arith,
}
use kerchunk.AudioTick.State.{AudioState}
use kerchunk.AudioTick.Rx.{
  RxEvent, no_event, dtmf_digit, dtmf_end, RxOut, DtmfResult, RxIn, RxState, frame_len, start_drain,
  relay, dtmf_edge, reset_on_assert, decode, tick_rx,
}

-- The events of each kind as numbers, and a flag as one.
abbrev pub digits : RxEvent → ℕ
digits no_event = 0
digits (dtmf_digit d) = 1
digits dtmf_end = 0

abbrev pub ends : RxEvent → ℕ
ends no_event = 0
ends (dtmf_digit d) = 0
ends dtmf_end = 1

abbrev pub bit : Bool → ℕ
bit true = 1
bit false = 0

relay_gate :
    (s : AudioState) (f : Option (List ℤ)) (i : RxIn)
    → (relay s f i).1 ≡ true
    → (s.software_relay ≡ true)
      × (i.ptt_held ≡ true)
      × (s.queue_ptt ≡ false)
      × ((i.relay_active ≡ true) ⊎ (0 < pos_part s.relay_drain))
      × (0 < frame_len i)
      × (frame_len i ≤ i.play_writable)
unfolding relay
relay_gate s none i h = cc
relay_gate s (some f) i h = ground arith

dtmf_edge_balance :
    (prev : Bool) (res : DtmfResult)
    → digits (dtmf_edge prev res) + bit prev ≡ ends (dtmf_edge prev res) + bit res.detected
unfolding dtmf_edge
dtmf_edge_balance prev res = ground arith

-- A count of events over the outputs of several ticks.
pub count_events : (RxEvent → ℕ) → List RxOut → ℕ
count_events k [] = 0
count_events k (o ∷ os) = k o.event + count_events k os

module _ {D : Type 0} (reset : D → D) (process : D → List ℤ → D × DtmfResult) where
  decode_balance :
      (dec : Option D) (f : Option (List ℤ)) (prev : Bool) (i : RxIn) (w : Bool)
      → let (_, active, e) = decode reset process dec f prev i w in
        digits e + bit prev ≡ ends e + bit active
  unfolding decode
  decode_balance none f prev i w = ground arith
  decode_balance (some d) none prev i w = ground arith
  decode_balance (some d) (some f) prev i w =
      ground (arith, dtmf_edge_balance prev (process d (take (frame_len i) f)).1)

  -- A frame is relayed only in software-relay mode, while PTT is held and not by the queue, while a
  -- user is received or the drain window is open, and only where the whole frame fits the ring.
  pub tick_rx-relay_write :
      (st : RxState D) (i : RxIn)
      → (tick_rx reset process st i).1.relay_write ≡ true
      → (st.audio.software_relay ≡ true)
        × (i.ptt_held ≡ true)
        × (st.audio.queue_ptt ≡ false)
        × ((i.relay_active ≡ true) ⊎ (0 < pos_part (start_drain st.audio i).relay_drain))
        × (0 < frame_len i)
        × (frame_len i ≤ i.play_writable)
  unfolding tick_rx start_drain
  tick_rx-relay_write st i h = relay_gate (start_drain st.audio i) i.frame i h

  tick_rx_balance :
      (st : RxState D) (i : RxIn)
      → let (st', out) = tick_rx reset process st i in
        digits out.event + bit st.prev_dtmf ≡ ends out.event + bit st'.prev_dtmf
  unfolding tick_rx
  tick_rx_balance st i =
      decode_balance (reset_on_assert reset process st i) i.frame st.prev_dtmf i
        (i.relay_active || is_pos st.audio.relay_drain)

  -- The ticks of a list of inputs, with the outputs of each.
  unfoldable pub run_rx : RxState D → List RxIn → RxState D × List RxOut
  run_rx st [] = (st, [])
  run_rx st (i ∷ is) =
      let (st', out) = tick_rx reset process st i in
      let (st'', outs) = run_rx st' is in (st'', out ∷ outs)

  -- Over any sequence of frames and any decoder, DTMF_DIGIT and DTMF_END events come in pairs: the
  -- digits are as many as the ends, and one more exactly if a tone is held when the sequence stops
  -- and none was when it began.
  pub run_rx_balance :
      (st : RxState D) (is : List RxIn)
      → let (st', outs) = run_rx st is in
        count_events digits outs + bit st.prev_dtmf ≡ count_events ends outs + bit st'.prev_dtmf
  unfolding run_rx count_events
  run_rx_balance st [] = refl
  run_rx_balance st (i ∷ is) =
      omega (arith, tick_rx_balance st i, run_rx_balance (tick_rx reset process st i).0 is)

  -- The first frame after COR rises is decoded with nothing left of the transmission before: if a
  -- reset forgets the decoder's past, the outputs do not depend on it.
  pub tick_rx-reset :
      (st : RxState D) (d d' : D) (i : RxIn)
      → reset d ≡ reset d'
      → st.audio.relay_was_active ≡ false
      → i.relay_active ≡ true
      → tick_rx reset process (record st { dec = some d }) i
        ≡ tick_rx reset process (record st { dec = some d' }) i
  unfolding tick_rx reset_on_assert
  tick_rx-reset st d d' i e was now = simp (was, now, e)
