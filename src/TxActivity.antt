-- ===== src/TxActivity.antt =====
-- src/kerchunk_txactivity.c: the fused detector of a keyed-up user, one call for each 20 ms tick.
-- It joins the raw COS bit with the DTMF decoder's state, and ends a session only after a window
-- of silence that is longer near DTMF tones and for a flapping COS bit.
pub mod Laws
pub mod Traces
use kerchunk.Prelude.{
  ℕ, zero, suc, ◌+◌, Bool, true, false, not, ◌&&◌, ◌||◌, ℤ, pos, negsuc, is_neg, ltb_ℤ, pos_part,
  ltb, leb, if◌then◌else◌, List, [], ◌∷◌,
}

-- `kerchunk_txact_event_t`
pub data TxEvent : Type 0 where
  quiet begin end : TxEvent

-- `kerchunk_txactivity_t`; `kerchunk_txactivity_init` leaves no tick count negative.
pub record TxActivity : Type 0 where
  pub end_silence_ticks : ℕ
  pub end_silence_dtmf_ticks : ℕ
  pub dtmf_grace_ticks : ℕ
  pub trust_cos_bit : Bool
  pub published : Bool
  pub silent_ticks : ℕ
  pub dtmf_seen_ago : ℕ
  pub cos_bit_sticky : Bool
  pub cos_flapped_session : Bool

-- `INT_MAX / 2`
abbrev pub long_ago : ℕ
long_ago = 1073741823

abbrev clamp_neg : ℤ → ℤ
clamp_neg n = if is_neg n then pos 0 else n

-- `kerchunk_txactivity_init`
unfoldable pub init : ℤ → ℤ → ℤ → Bool → TxActivity
init silence silence_dtmf grace trust =
    let silence' = clamp_neg silence in
    let silence_dtmf' = if ltb_ℤ silence_dtmf silence' then silence' else silence_dtmf in
    let grace' = clamp_neg grace in
    record {
      end_silence_ticks = pos_part silence';
      end_silence_dtmf_ticks = pos_part silence_dtmf';
      dtmf_grace_ticks = pos_part grace';
      trust_cos_bit = trust;
      published = false;
      silent_ticks = 0;
      dtmf_seen_ago = long_ago;
      cos_bit_sticky = false;
      cos_flapped_session = false;
    }

-- `kerchunk_txactivity_active_silence_ticks`
unfoldable pub active_silence_ticks : TxActivity → ℕ
active_silence_ticks s =
    if ltb s.dtmf_seen_ago s.dtmf_grace_ticks || s.cos_flapped_session
    then s.end_silence_dtmf_ticks
    else s.end_silence_ticks

-- The COS reading: 0, 1, or -1 for no data. Only 0 and 1 are taken.
unfoldable pub cos_bit : TxActivity → ℤ → Bool
cos_bit s (pos zero) = false
cos_bit s (pos (suc zero)) = s.trust_cos_bit
cos_bit s (pos (suc (suc n))) = s.trust_cos_bit && s.cos_bit_sticky
cos_bit s (negsuc n) = s.trust_cos_bit && s.cos_bit_sticky

-- What the first half of `kerchunk_txactivity_tick` writes: the sticky bit, the flap flag and the
-- age of the last tone.
unfoldable pub sample : TxActivity → ℤ → Bool → TxActivity
unfolding cos_bit
sample s cos_raw dtmf_active =
    let bit = cos_bit s cos_raw in
    record s {
      cos_bit_sticky = bit;
      cos_flapped_session =
          if s.published && not s.cos_bit_sticky && bit then true else s.cos_flapped_session;
      dtmf_seen_ago =
          if dtmf_active
          then 0
          else if ltb s.dtmf_seen_ago long_ago
          then s.dtmf_seen_ago + 1
          else s.dtmf_seen_ago;
    }

-- The second half: the edge, from what the first half left.
unfoldable pub edge : TxActivity → Bool → TxActivity × TxEvent
unfolding active_silence_ticks
edge s present_now =
    if present_now
    then (record s { silent_ticks = 0; published = true }, if s.published then quiet else begin)
    else if s.published
    then (if leb (active_silence_ticks s) (s.silent_ticks + 1)
        then (record s { published = false; silent_ticks = 0; cos_flapped_session = false }, end)
        else (record s { silent_ticks = s.silent_ticks + 1 }, quiet))
    else (s, quiet)

-- `kerchunk_txactivity_tick`
unfoldable pub tick : TxActivity → ℤ → Bool → TxActivity × TxEvent
unfolding sample edge
tick s cos_raw dtmf_active =
    let s' = sample s cos_raw dtmf_active in edge s' (s'.cos_bit_sticky || dtmf_active)

-- The readings of one tick.
abbrev pub Reading : Type 0
Reading = ℤ × Bool

-- One tick after another, the oldest first.
unfoldable pub run : TxActivity → List Reading → TxActivity
run s [] = s
run s ((cos_raw, dtmf) ∷ rest) = run (tick s cos_raw dtmf).0 rest

-- The reading brings silence: no tone, and a COS bit that reads, or stays, at 0.
abbrev pub is_silent : TxActivity → Reading → Bool
is_silent s (cos_raw, dtmf) = not (cos_bit s cos_raw) && not dtmf
