-- ===== src/AudioTick/Rx/Stall.antt =====
-- The drain window of the reception tick: how much it lets through, and when it does not move.
use kerchunk.Prelude.{
  ℕ, ◌+◌, ◌≤◌, ◌<◌, ◌≡◌, refl, ◌⊎◌, ◌∙◌, ap, true, false, ℤ, pos_part, ◌-ℤ◌, Option, none, some,
  List, [], ◌∷◌, arith, if◌then◌else◌,
}
use kerchunk.AudioTick.State.{AudioState}
use kerchunk.AudioTick.Rx.{
  DtmfResult, RxIn, RxState, frame_len, start_drain, count_down, relay, tick_rx,
}
use kerchunk.AudioTick.Rx.Laws.{run_rx}

-- COR stays down over all the ticks, and no frame is longer than `m`.
abbrev pub CorDown : ℕ → List RxIn → Type 0
CorDown m [] = Unit {0}
CorDown m (i ∷ is) = (i.relay_active ≡ false) × (frame_len i ≤ m) × CorDown m is

-- PTT stays released over all the ticks.
abbrev pub PttDown : List RxIn → Type 0
PttDown [] = Unit {0}
PttDown (i ∷ is) = (i.ptt_held ≡ false) × PttDown is

relay_window :
    (s : AudioState) (f : Option (List ℤ)) (i : RxIn)
    → i.relay_active ≡ false
    → let (s', w) = relay s f i in
      (w ≡ true
        → (0 < pos_part s.relay_drain)
          × (0 < frame_len i)
          × ((pos_part s'.relay_drain + frame_len i ≤ pos_part s.relay_drain)
              ⊎ (pos_part s'.relay_drain ≡ 0)))
      × (w ≡ false → s' ≡ s)
      × (s'.relay_was_active ≡ s.relay_was_active)
unfolding relay count_down ◌-ℤ◌
relay_window s none i c = ground arith
relay_window s (some f) i c = ground arith

start_drain-down :
    (s : AudioState) (i : RxIn)
    → s.relay_was_active ≡ false
    → i.relay_active ≡ false
    → (start_drain s i).relay_drain ≡ s.relay_drain
unfolding start_drain
start_drain-down s i w c = ground arith

relay-ptt_down :
    (s : AudioState) (f : Option (List ℤ)) (i : RxIn)
    → i.ptt_held ≡ false
    → relay s f i ≡ (s, false)
unfolding relay
relay-ptt_down s none i h = refl
relay-ptt_down s (some f) i h = ground arith

start_drain-id :
    (s : AudioState) (i : RxIn)
    → s.relay_was_active ≡ false
    → i.relay_active ≡ false
    → start_drain s i ≡ s
unfolding start_drain
start_drain-id s i w c = ground arith

module _ {D : Type 0} (reset : D → D) (process : D → List ℤ → D × DtmfResult) where
  -- The samples that the ticks of a list of inputs relay.
  unfoldable pub relayed : RxState D → List RxIn → ℕ
  relayed st [] = 0
  relayed st (i ∷ is) =
      let (st', out) = tick_rx reset process st i in
      (if out.relay_write then frame_len i else 0) + relayed st' is

  tick_rx-audio :
      (st : RxState D) (i : RxIn)
      → let (st', out) = tick_rx reset process st i in
        (st'.audio ≡ (relay (start_drain st.audio i) i.frame i).0)
        × (out.relay_write ≡ (relay (start_drain st.audio i) i.frame i).1)
  unfolding tick_rx
  tick_rx-audio st i = (refl, refl)

  -- Without PTT nothing moves: once COR is down, no tick on which PTT is released changes the audio
  -- state, so a drain window that is open stays open, however many frames go by.
  pub run_rx-PttDown :
      (st : RxState D) (m : ℕ) (is : List RxIn)
      → st.audio.relay_was_active ≡ false
      → CorDown m is
      → PttDown is
      → (run_rx reset process st is).0.audio ≡ st.audio
  unfolding run_rx
  run_rx-PttDown st m [] w c p = refl
  run_rx-PttDown st m (i ∷ is) w c p =
      let st' = (tick_rx reset process st i).0 in
      let same : st'.audio ≡ st.audio =
        (tick_rx-audio st i).0
        ∙ ap (λ r. r.0) (relay-ptt_down (start_drain st.audio i) i.frame i p.0)
        ∙ start_drain-id st.audio i w c.0 in
      run_rx-PttDown st' m is (ap (λ s. s.relay_was_active) same ∙ w) c.2 p.1 ∙ same

  relayed_step :
      (st : RxState D) (i : RxIn)
      → st.audio.relay_was_active ≡ false
      → i.relay_active ≡ false
      → let (st', out) = tick_rx reset process st i in
        let n = if out.relay_write then frame_len i else 0 in
        (st'.audio.relay_was_active ≡ false)
        × ((pos_part st'.audio.relay_drain + n ≤ pos_part st.audio.relay_drain)
            ⊎ ((pos_part st'.audio.relay_drain ≡ 0) × (0 < pos_part st.audio.relay_drain)))
  relayed_step st i w c =
      let s = start_drain st.audio i in
      ground (arith, tick_rx-audio st i, relay_window s i.frame i c, start_drain-id st.audio i w c)

  -- After COR has dropped, the audio that still goes out fits the drain window, up to the rest of
  -- one frame: with frames of at most `m` samples, at most the window and `m` together, and
  -- nothing at all once the window is closed.
  pub relayed-le :
      (st : RxState D) (m : ℕ) (is : List RxIn)
      → st.audio.relay_was_active ≡ false
      → CorDown m is
      → (pos_part st.audio.relay_drain ≡ 0 → relayed st is ≡ 0)
        × (relayed st is ≤ pos_part st.audio.relay_drain + m)
  unfolding relayed
  relayed-le st m [] w c = ground arith
  relayed-le st m (i ∷ is) w c =
      let st' = (tick_rx reset process st i).0 in
      let step = relayed_step st i w c.0 in
      ground (arith, relayed-le st' m is step.0 c.2, step, c.1)
